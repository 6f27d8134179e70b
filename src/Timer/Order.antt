-- ===== src/Timer/Order.antt =====
-- The order of timer.cpp's `Comparator`.
use fxk.Base.{ℕ, true, false, ◌≡◌, arith}
use fxk.Timer.{Timer, less}

pub less_irrefl : (s : ℕ → Timer) (a : ℕ) → less s a a ≡ false
unfolding less
less_irrefl s a = ground arith

pub less_trans :
    (s : ℕ → Timer) (a b c : ℕ) → less s a b ≡ true → less s b c ≡ true → less s a c ≡ true
unfolding less
less_trans s a b c h k = ground arith

pub less_asymm : (s : ℕ → Timer) (a b : ℕ) → less s a b ≡ true → less s b a ≡ false
unfolding less
less_asymm s a b h = ground arith

pub less_total : (s : ℕ → Timer) (a b : ℕ) → less s a b ≡ false → less s b a ≡ false → a ≡ b
unfolding less
less_total s a b h k = ground arith
