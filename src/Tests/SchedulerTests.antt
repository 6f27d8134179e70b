-- ===== src/Tests/SchedulerTests.antt =====
-- The scheduler's queue and a turn of its loop on concrete inputs.
use fxk.Base.{
  ◌⊎◌, suc, ◌+◌, ◌≤◌, All, Option-cases, ==_refl, ==_iff, err, logic_error, ℕ, Bool, true, false,
  Option, none, some, List, [], ◌∷◌, ◌≡◌, refl, inl, inr, arith, ◌==◌, if◌then◌else◌, ok,
}
use fxk.Fiber.State.{State, init, ready, hold, exec, term}
use fxk.Scheduler.Serving.{IsOpen, IsServed, IsFinite, IsFresh, HasEnded, holds, idle_resume, run}
use fxk.Scheduler.Termination.{run-HasEnded}
use fxk.Scheduler.Lifecycle.{Locals, stop}
use fxk.Scheduler.Restart.{all_join, without_root, IsStopped, IsStarted, stop-IsStopped}
use fxk.Scheduler.{Contexts, FiberAndThread, Scheduler, World, scan, set_state, turn}
use fxk.Scheduler.Queue.{AreTasks, IsScan, scan-IsScan}
use fxk.Scheduler.Counting.{AllWork, IsReady, IsResume}
use fxk.Scheduler.Turn.{Outcome, turn_lem}

abbrev of_cb : ℕ → FiberAndThread
of_cb c = record { fiber = none; cb = some c; thread = none }

-- Meant for the thread 8, running already, and free.
abbrev elsewhere : FiberAndThread
elsewhere = record { fiber = none; cb = some 1; thread = some 8 }

abbrev running : FiberAndThread
running = record { fiber = some 2; cb = none; thread = none }

abbrev free : FiberAndThread
free = record { fiber = some 3; cb = none; thread = some 7 }

abbrev states : ℕ → State
states f = if f == 2 then exec else if f == 3 then hold else init

abbrev queue : List FiberAndThread
queue = elsewhere ∷ running ∷ free ∷ []

queue-AreTasks : AreTasks queue
queue-AreTasks = (refl, (refl, (refl, tt)))

scan-run : scan 7 states queue ≡ ok (some free, elsewhere ∷ running ∷ [], true)
unfolding scan
scan-run = refl

scan-IsScan_example :
    (r : Option FiberAndThread × List FiberAndThread × Bool) × (scan 7 states queue ≡ ok r)
    × IsScan 7 states queue r
scan-IsScan_example = scan-IsScan 7 states queue queue-AreTasks

abbrev scheduler : Scheduler
scheduler = record {
  fibers = queue;
  active_thread_count = 0;
  idle_thread_count = 0;
  stopping = false;
  auto_stop = false;
  thread_count = 1;
  threads = 7 ∷ [];
  thread_ids = 7 ∷ [];
  tickled = 0;
}

-- A fiber that yields to be run again.
abbrev resume : ℕ → World → World
resume f w = record w { states = set_state f ready w.states }

resume-IsResume : IsResume resume
resume-IsResume = record { active = λ f w. refl; tasks = λ f w h. h }

-- All calls on contexts succeed.
abbrev contexts : Contexts
contexts = record { has_stack = λ f. true; getcontext = λ f w. true; swapcontext = λ f w. true }

contexts-AllWork : AllWork contexts
contexts-AllWork = record { stacks = λ f. refl; gets = λ f w. refl; swaps = λ f w. refl }

abbrev world : World
world = record { scheduler = scheduler; states = states; cb_fiber = none }

world-IsReady : IsReady world
world-IsReady = record { tasks = queue-AreTasks; waits = λ f e. ground arith }

turn_lem_example :
    (r : Option World) × (turn contexts resume 7 20 10 world ≡ ok r)
    × Outcome contexts contexts-AllWork resume resume-IsResume 7 10 world r
turn_lem_example =
    turn_lem contexts contexts-AllWork resume resume-IsResume 7 20 10 world world-IsReady
      (omega arith) refl

-- A scheduler that is not stopping, with a fiber and a function in its queue.
abbrev last_tasks : Scheduler
last_tasks = record scheduler { fibers = free ∷ of_cb 4 ∷ [] }

abbrev last_world : World
last_world = record { scheduler = last_tasks; states = λ f. hold; cb_fiber = none }

-- Each fiber runs to its end at once, and 10 is the idle fiber.
abbrev run_out : ℕ → ℕ → World → World
run_out i f w =
    if f == 10 then idle_resume 10 w else record w { states = set_state f term w.states }

-- A place above all fibers of the queue.
abbrev above : List FiberAndThread → ℕ
above [] = 11
above (ft ∷ l) = elim ft.fiber [ none ↦ above l | some f ↦ suc (f + above l) ]

abbrev above_all : World → ℕ
above_all w = above w.scheduler.fibers

run_out-IsServed :
    (f n : ℕ) (w : World)
    → IsServed 7 10 n (some f) w
    → IsServed 7 10 n (some f) (record w { states = set_state f term w.states })
run_out-IsServed f n w v = record {
  open_tasks = v.open_tasks;
  quiet = λ g away. rw away (v.quiet g away);
  active = v.active;
  waits = λ g e away. rw away (v.waits g e away);
  own = v.own;
}

run_out-IsFinite : IsFinite run_out 7 10 (λ i. 0)
unfolding idle_resume
run_out-IsFinite = record {
  idles = λ i w. refl;
  keeps = λ i f n w apart v. rw apart (run_out-IsServed f n w v);
  same_cb = λ i f w. ground arith;
  puts = λ i f w apart. rw apart (rw (==_refl f) (omega arith));
  falls = λ i. omega arith;
}

above-IsOpen :
    (l : List FiberAndThread) (n : ℕ)
    → above l ≤ n
    → All (IsOpen 7 10 none) l
    → All (IsOpen 7 10 (some n)) l
above-IsOpen [] n b h = tt
above-IsOpen (ft ∷ l) n b h = elim (Option-cases ft.fiber) [
  | inl e ↦ (
    record {
      task = h.0.task;
      unpinned = h.0.unpinned;
      not_idle = h.0.not_idle;
      not_cb = rw (e, holds) refl;
    },
    above-IsOpen l n (rw (e, above) at b) h.1,
  )
  | inr (f, e) ↦
      let b' : suc (f + above l) ≤ n = rw (e, above) at b in
      (
        record {
          task = h.0.task;
          unpinned = h.0.unpinned;
          not_idle = h.0.not_idle;
          not_cb = rw (e, holds) (ground (arith, b', ==_iff f n));
        },
        above-IsOpen l n (omega (arith, b')) h.1,
      )
]

above-le : (l : List FiberAndThread) → 11 ≤ above l
above-le [] = omega arith
above-le (ft ∷ l) = elim (Option-cases ft.fiber) [
  | inl e ↦ rw (e, above) (above-le l)
  | inr (f, e) ↦ rw (e, above) (omega (arith, above-le l))
]

above-apart : (l : List FiberAndThread) → (above l == 10) ≡ false
above-apart l = ground (arith, above-le l, ==_iff (above l) 10)

above_all-IsFresh : IsFresh 7 10 above_all
above_all-IsFresh = record {
  apart = λ w. above-apart w.scheduler.fibers;
  unused = λ w e h. above-IsOpen w.scheduler.fibers (above_all w) (omega arith) h;
}

last_world-IsServed : IsServed 7 10 0 none last_world
last_world-IsServed = record {
  open_tasks = (
    record { task = refl; unpinned = refl; not_idle = refl; not_cb = refl },
    (record { task = refl; unpinned = refl; not_idle = refl; not_cb = refl }, tt),
  );
  quiet = λ g away. refl;
  active = refl;
  waits = λ f e away. ground arith;
  own = λ f e. ground arith;
}

run-HasEnded_example :
    (w' : World) × (run contexts run_out above_all 7 10 4 0 last_world ≡ ok (some w'))
    × HasEnded 10 w'
run-HasEnded_example =
    run-HasEnded 7 10 contexts contexts-AllWork run_out (λ i. 0) run_out-IsFinite above_all
      above_all-IsFresh 4 0 last_world last_world-IsServed (omega arith)

abbrev outside : Locals
outside = record { this = none; scheduler_fiber = none }

abbrev running_two : Scheduler
running_two = record scheduler { thread_count = 2; threads = 7 ∷ 8 ∷ [] }

stop-IsStopped_example :
    ((all_join (λ t. true) (7 ∷ 8 ∷ []) ≡ true)
      × ((s' : Scheduler) × (stop (λ r. r) (λ t. true) 100 states outside (without_root running_two)
            ≡ ok (7 ∷ 8 ∷ [], without_root s'))
          × IsStopped running_two s'
          × ((s'' : Scheduler) × IsStarted (λ i. some (i + 9)) s' s'')))
    ⊎ ((all_join (λ t. true) (7 ∷ 8 ∷ []) ≡ false)
        × (stop (λ r. r) (λ t. true) 100 states outside (without_root running_two)
            ≡ err logic_error))
stop-IsStopped_example =
    stop-IsStopped (λ r. r) (λ t. true) 100 states outside running_two (λ i. some (i + 9))
      (λ i. i + 9) refl (λ j. refl)

-- Two schedulers, 1 and 2, and a fiber of the first that goes to the second.
abbrev schedulers : ℕ → Scheduler
schedulers a = if a == 1 then scheduler else last_tasks
