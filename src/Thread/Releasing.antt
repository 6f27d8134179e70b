-- ===== src/Thread/Releasing.antt =====
-- thread.cpp: what becomes of the thread behind a `Thread`, by `join` and the destructor.
use fxk.Base.{
  ℕ, Bool, true, false, none, some, List, [], ◌∷◌, if◌then◌else◌, Result, err, ok, logic_error,
  ==_refl, ◌≡◌, refl, ap, ◌⊎◌, inl, inr, arith,
}
use fxk.Thread.{Thread, World, put, join, destroy}

abbrev pub caught : World → Result World → World
caught w (err e) = w
caught w (ok w') = w'

-- Calls of `join`, with what `pthread_join` answers to each; an exception is caught.
abbrev pub join_or_catch : ℕ → Bool → World → World
join_or_catch a succeeds w = caught w (join a succeeds w)

unfoldable pub joins : ℕ → List Bool → World → World
joins a [] w = w
joins a (succeeds ∷ l) w = joins a l (join_or_catch a succeeds w)

abbrev pub any : List Bool → Bool
any [] = false
any (b ∷ l) = if b then true else any l

join-none : (a : ℕ) (b : Bool) (w : World) → (w.threads a).thread ≡ none → join a b w ≡ ok w
unfolding join
join-none a b w h = ground arith

join_fails :
    (a tid : ℕ) (w : World) → (w.threads a).thread ≡ some tid → join a false w ≡ err logic_error
unfolding join
join_fails a tid w h = ground arith

-- The world behind a `join` that succeeds.
abbrev joined_by : ℕ → ℕ → World → World
joined_by a tid w =
    put a (record (w.threads a) { thread = none }) (record w { joined = tid ∷ w.joined })

join_succeeds :
    (a tid : ℕ) (w : World)
    → (w.threads a).thread ≡ some tid
    → join a true w ≡ ok (joined_by a tid w)
unfolding join
join_succeeds a tid w h = ground arith

joins-none : (a : ℕ) (l : List Bool) (w : World) → (w.threads a).thread ≡ none → joins a l w ≡ w
unfolding joins
joins-none a [] w h = refl
joins-none a (b ∷ l) w h = rw (join-none a b w h) (joins-none a l w h)

-- Whatever `pthread_join` answers to the calls of `join` before the destructor, the thread behind a
-- `Thread` is released exactly once: it is joined by the first call that succeeds, and by no later
-- one, and then the destructor does not detach it; or, where no call succeeds, it is detached.
pub joins-destroy :
    (a tid : ℕ) (l : List Bool) (w : World)
    → (w.threads a).thread ≡ some tid
    → ((any l ≡ true)
        × ((destroy a (joins a l w)).joined ≡ tid ∷ w.joined)
        × ((destroy a (joins a l w)).detached ≡ w.detached))
      ⊎ ((any l ≡ false)
          × ((destroy a (joins a l w)).joined ≡ w.joined)
          × ((destroy a (joins a l w)).detached ≡ tid ∷ w.detached))
unfolding joins destroy
joins-destroy a tid [] w h = rw (h, destroy) (inr (refl, refl, refl))
joins-destroy a tid (false ∷ l) w h = rw (join_fails a tid w h) (joins-destroy a tid l w h)
joins-destroy a tid (true ∷ l) w h =
    let e : (joined_by a tid w).threads a ≡ record (w.threads a) { thread = none } =
      rw (==_refl a) refl in
    rw (join_succeeds a tid w h) (
      rw (joins-none a l (joined_by a tid w) (ap (λ (t : Thread). t.thread) e))
        (rw (==_refl a, destroy) (inl (refl, refl, refl))))
