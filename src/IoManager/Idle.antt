-- ===== src/IoManager/Idle.antt =====
-- iomanager.cpp: a turn of `IOManager::idle`, its `stopping`, and `tickle`. The next timer, the
-- callbacks of timers that are due, the events of `epoll_wait` and `Scheduler::stopping` are
-- arguments.
use mathlib.Core.Option.{some-injective}
use mathlib.Core.Path.{subst}
use fxk.Base.{
  zero, suc, length, ◌*◌, ◌≤◌, ◌<◌, ℕ, ◌^◌, Bool, true, false, not, Option, none, some, List, [],
  ◌∷◌, ◌++◌, map, ◌==◌, if◌then◌else◌, Result, ok, assertion, require, ◌>>=◌, ◌>>◌, ◌≡◌, refl, inl,
  inr, arith, Bool-cases, get_elem?, Result-cases,
}
use fxk.IoManager.Events.{read, write, has}
use fxk.IoManager.Contexts.{FdContext, run_cb, for_scheduler}
use fxk.IoManager.Table.{count_events, bit}
use fxk.IoManager.Invariant.{IsConsistent}
use fxk.IoManager.Timeout.{Wait, idle_wait, no_timeout, stops}
use fxk.IoManager.{Epoll, IoManager, handle_events}

-- `tickle`, where the call of `write` returns `rt`: is a byte written?
unfoldable pub tickle : Bool → Option ℕ → Result Bool
tickle has_idle_threads rt =
    if not has_idle_threads
    then ok false
    else (require (elim rt [ none ↦ false | some n ↦ n == 1 ]) assertion >> ok true)

module _ (epoll : Epoll) (tickle_fd : ℕ) where
  open epoll use {Kernel}

  -- `none` where the loop ends; else how long it waits, and the manager when it switches back.
  unfoldable pub idle_turn :
      ℕ
      → ℕ
      → Bool
      → List ℕ
      → List (ℕ × ℕ)
      → IoManager Kernel
      → Result (Option (Wait × IoManager Kernel))
  idle_turn this next_timeout scheduler_stopping cbs events m =
      if stops next_timeout m.pending scheduler_stopping then ok none else (do
        m' ←
            handle_events epoll tickle_fd events
              (record m { scheduled = m.scheduled ++ for_scheduler this (map run_cb cbs) })
        ok (some (idle_wait next_timeout, m')))

count_events-bound : (l : List FdContext) → count_events l ≤ 2 * length l
count_events-bound [] = omega arith
count_events-bound (c ∷ l) = elim (Bool-cases (has read c.events)) [
  | inl r ↦ elim (Bool-cases (has write c.events)) [
    | inl w ↦ rw r (rw w (omega (arith, count_events-bound l)))
    | inr w ↦ rw r (rw w (omega (arith, count_events-bound l)))
  ]
  | inr r ↦ elim (Bool-cases (has write c.events)) [
    | inl w ↦ rw r (rw w (omega (arith, count_events-bound l)))
    | inr w ↦ rw r (rw w (omega (arith, count_events-bound l)))
  ]
]

bit_zero : (b : Bool) → bit b ≡ 0 → b ≡ false
bit_zero true h = ground (arith, h)
bit_zero false h = refl

none_counted :
    (l : List FdContext) (fd : ℕ) (c : FdContext)
    → count_events l ≡ 0
    → get_elem? l fd ≡ some c
    → (has read c.events ≡ false) × (has write c.events ≡ false)
none_counted [] fd c h e = ground (arith, e)
none_counted (x ∷ l) zero c h e =
    subst (λ (y : FdContext). (has read y.events ≡ false) × (has write y.events ≡ false))
      (some-injective x c e)
      (
        bit_zero (has read x.events) (omega (arith, h)),
        bit_zero (has write x.events) (omega (arith, h)),
      )
none_counted (x ∷ l) (suc fd) c h e = none_counted l fd c (omega (arith, h)) e

stops_all :
    (timeout pending : ℕ) (scheduler_stopping : Bool)
    → stops timeout pending scheduler_stopping ≡ true
    → (scheduler_stopping ≡ true) × (timeout ≡ no_timeout) × (pending ≡ 0)
stops_all timeout pending stopping h = (ground (arith, h), ground (arith, h), ground (arith, h))

module _ (epoll : Epoll) (tickle_fd : ℕ) where
  open epoll use {Kernel}

  -- A turn of `idle` on a consistent manager whose table is not longer than the memory: it ends the
  -- loop only if the scheduler stops, no timer is left, and no event is registered.
  pub idle_turn_ends :
      (this next_timeout : ℕ) (scheduler_stopping : Bool) (cbs : List ℕ) (events : List (ℕ × ℕ))
      (m : IoManager Kernel)
      → IsConsistent epoll tickle_fd m
      → length m.contexts < 2 ^ 63
      → idle_turn epoll tickle_fd this next_timeout scheduler_stopping cbs events m ≡ ok none
      → (scheduler_stopping ≡ true)
        × (next_timeout ≡ no_timeout)
        × ((fd : ℕ) (c : FdContext)
            → get_elem? m.contexts fd ≡ some c
            → (has read c.events ≡ false) × (has write c.events ≡ false))
  unfolding idle_turn
  idle_turn_ends this timeout stopping cbs events m v small e =
      elim (Bool-cases (stops timeout m.pending stopping)) [
        | inl s ↦
            (let (t, n, p) = stops_all timeout m.pending stopping s in
              let none_left : count_events m.contexts ≡ 0 =
                omega (arith, v.counted, p, small, count_events-bound m.contexts) in
              (t, n, λ fd c. none_counted m.contexts fd c none_left))
        | inr s ↦
            elim (Result-cases (
              handle_events epoll tickle_fd events
                (record m { scheduled = m.scheduled ++ for_scheduler this (map run_cb cbs) }))) [
                  | inl (f, h) ↦ ground (arith, rw (s, h) at e)
                  | inr (m', h) ↦ ground (arith, rw (s, h) at e)
                ]
      ]
