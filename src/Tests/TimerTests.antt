-- ===== src/Tests/TimerTests.antt =====
-- The timers on concrete inputs.
use fxk.Base.{
  ℕ, true, false, not, ◌&&◌, ◌||◌, none, some, [], ◌∷◌, ◌≡◌, ◌⊎◌, refl, arith, ◌==◌, if◌then◌else◌,
  ok,
}
use fxk.Timer.{Timer, TimerManager, less, find, erase_at, erase_found, cancel, refresh}
use fxk.Timer.TimerSet.{member}
use fxk.Timer.Cancel.{IsWellFormed, disarm, cancel_once, refresh_lem}

abbrev early : Timer
early = record { recurring = true; ms = 10; next = 110; cb = some 7 }

abbrev late : Timer
late = record { recurring = false; ms = 100; next = 200; cb = some 8 }

abbrev blank : Timer
blank = record { recurring = false; ms = 0; next = 0; cb = none }

-- The timer 2 is due before the timer 1.
abbrev two_timers : TimerManager
two_timers = record {
  store = λ a. if a == 1 then late else if a == 2 then early else blank;
  timers = 2 ∷ 1 ∷ [];
}

two_timers-armed :
    (a : ℕ) → member a two_timers.timers ≡ true → ((a == 2 || (a == 1 || false)) ≡ true)
unfolding member
two_timers-armed a h = h

two_timers-IsWellFormed : IsWellFormed two_timers
unfolding less
two_timers-IsWellFormed = record {
  sorted = ((refl, tt), (tt, tt));
  armed = λ a h. (let k = two_timers-armed a h in ground arith);
}

two_timers-member : (member 1 two_timers.timers ≡ true) × (member 3 two_timers.timers ≡ false)
unfolding member
two_timers-member = (refl, refl)

-- The timer 1, cancelled, leaves the timer 2.
cancel-run :
    cancel 1 two_timers ≡ ok (true, record { store = disarm 1 two_timers; timers = 2 ∷ [] })
unfolding cancel find erase_at erase_found less
cancel-run = refl

cancel_once_example :
    (m' : TimerManager) × (cancel 1 two_timers ≡ ok (true, m'))
    × IsWellFormed m'
    × ((b : ℕ) → member b m'.timers ≡ (not (1 == b) && member b two_timers.timers))
    × (cancel 1 m' ≡ ok (false, m'))
cancel_once_example = cancel_once 1 two_timers two_timers-IsWellFormed two_timers-member.0

refresh_lem_example :
    ((member 1 two_timers.timers ≡ false) × (refresh 500 1 two_timers ≡ (false, two_timers)))
    ⊎ ((member 1 two_timers.timers ≡ true)
        × (((refresh 500 1 two_timers).0 ≡ true)
            × (((refresh 500 1 two_timers).1.store 1).next ≡ 600)
            × ((b : ℕ)
                → (refresh 500 1 two_timers).1.store b
                  ≡ (if 1 == b then (refresh 500 1 two_timers).1.store 1 else two_timers.store b))
            × ((b : ℕ) → member b (refresh 500 1 two_timers).1.timers ≡ member b two_timers.timers)
            × IsWellFormed (refresh 500 1 two_timers).1))
refresh_lem_example = refresh_lem 500 1 two_timers two_timers-IsWellFormed
