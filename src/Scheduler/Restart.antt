-- ===== src/Scheduler/Restart.antt =====
-- scheduler.cpp: `stop` and `start`, one after the other.
use fxk.Base.{
  ℕ, zero, suc, Bool, true, false, ◌&&◌, Option, none, some, List, [], ◌∷◌, ◌++◌, length, err, ok,
  logic_error, ◌≡◌, refl, inl, inr, ◌⊎◌, arith, Bool-cases,
}
use fxk.Fiber.State.{State}
use fxk.Scheduler.{Scheduler, start, start_threads}
use fxk.Scheduler.Lifecycle.{Rooted, Locals, is_this, tickles, join_all, stop_all, stop}

abbrev pub all_join : (ℕ → Bool) → List ℕ → Bool
all_join joins [] = true
all_join joins (t ∷ l) = joins t && all_join joins l

join_all_ok : (joins : ℕ → Bool) (l : List ℕ) → all_join joins l ≡ true → join_all joins l ≡ ok l
unfolding join_all
join_all_ok joins [] h = refl
join_all_ok joins (t ∷ l) h = ground (arith, join_all_ok joins l)

join_all_fails :
    (joins : ℕ → Bool) (l : List ℕ) → all_join joins l ≡ false → join_all joins l ≡ err logic_error
unfolding join_all
join_all_fails joins [] h = ground arith
join_all_fails joins (t ∷ l) h = ground (arith, join_all_fails joins l)

start_threads_ok :
    (made : ℕ → Option ℕ) (ids : ℕ → ℕ) (i n : ℕ)
    → ((j : ℕ) → made j ≡ some (ids j))
    → (l : List ℕ) × (start_threads made i n ≡ ok l) × (length l ≡ n)
unfolding start_threads
start_threads_ok made ids i zero h = ([], refl, refl)
start_threads_ok made ids i (suc n) h =
    let (l, does, len) = start_threads_ok made ids (suc i) n h in
    (ids i ∷ l, rw (h i) (rw does refl), omega (arith, len))

-- A scheduler that is started: with as many threads as it is made for, and not to be started again.
abbrev pub IsStarted : (ℕ → Option ℕ) → Scheduler → Scheduler → Type 0
IsStarted made s s' =
    (start made s ≡ ok s')
    × (length s'.threads ≡ s.thread_count)
    × (s'.fibers ≡ s.fibers)
    × (start made s' ≡ ok s')

start-IsStarted :
    (made : ℕ → Option ℕ) (ids : ℕ → ℕ) (s : Scheduler)
    → ((j : ℕ) → made j ≡ some (ids j))
    → s.stopping ≡ true
    → s.threads ≡ []
    → (s' : Scheduler) × IsStarted made s s'
unfolding start
start-IsStarted made ids s h stops none_left =
    let (l, does, len) = start_threads_ok made ids 0 s.thread_count h in
    (
      record s { stopping = false; threads = l; thread_ids = s.thread_ids ++ l },
      (rw stops (rw none_left (rw does refl)), len, refl, refl),
    )

-- A scheduler that was made without `use_caller`: it has no root fiber.
abbrev pub without_root : Scheduler → Rooted
without_root s = record { scheduler = s; root_fiber = none; root_thread = none }

-- What `stop` leaves.
abbrev pub IsStopped : Scheduler → Scheduler → Type 0
IsStopped s s' =
    (s'.threads ≡ [])
    × (s'.stopping ≡ true)
    × (s'.auto_stop ≡ true)
    × (s'.fibers ≡ s.fibers)
    × (s'.thread_count ≡ s.thread_count)

stopped : Scheduler → Scheduler
stopped s = record (tickles s.thread_count (record s { auto_stop = true; stopping = true })) {
  threads = [];
}

module _ (call_root : Rooted → Rooted) (joins : ℕ → Bool) where
  -- Of a scheduler that was made without `use_caller`, on a thread that is none of its own: `stop`
  -- joins all its threads in their order, if they can be joined, and raises `logic_error` if not.
  -- Then it has no threads and is stopping, the queue is as it was, and, if all threads can be made,
  -- a new `start` makes as many threads as the scheduler is made for; a second `start` behind it
  -- does nothing.
  pub stop-IsStopped :
      (a : ℕ) (states : ℕ → State) (l : Locals) (s : Scheduler) (made : ℕ → Option ℕ) (ids : ℕ → ℕ)
      → is_this a l ≡ false
      → ((j : ℕ) → made j ≡ some (ids j))
      → ((all_join joins s.threads ≡ true)
          × ((s' : Scheduler) × (stop call_root joins a states l (without_root s)
                ≡ ok (s.threads, without_root s'))
              × IsStopped s s'
              × ((s'' : Scheduler) × IsStarted made s' s'')))
        ⊎ ((all_join joins s.threads ≡ false)
            × (stop call_root joins a states l (without_root s) ≡ err logic_error))
  unfolding stop stop_all stopped
  stop-IsStopped a states l s made ids away h = elim (Bool-cases (all_join joins s.threads)) [
    | inl all ↦ inl (
      all,
      (
        stopped s,
        rw away (rw (join_all_ok joins s.threads all) refl),
        (refl, refl, refl, refl, refl),
        start-IsStarted made ids (stopped s) h refl refl,
      ),
    )
    | inr some_not ↦ inr (some_not, rw away (rw (join_all_fails joins s.threads some_not) refl))
  ]
