-- ===== src/Scheduler/Turn.antt =====
-- scheduler.cpp: a whole turn of the loop in `run`, whatever the search finds.
use fxk.Base.{
  ℕ, ◌^◌, ◌<◌, Bool, true, false, Option, none, some, List, ◌≡◌, refl, inl, inr, ok, All,
  Bool-cases,
}
use fxk.Fiber.State.{init, is_exec, is_term}
use fxk.Scheduler.{
  Contexts, FiberAndThread, World, tickle_if, is_running, scan, increment, taken, serve_idle, turn,
}
use fxk.Scheduler.Queue.{AreTasks, IsPassed, IsScan, scan-IsScan, AreTasks-remove}
use fxk.Scheduler.Counting.{
  AllWork, IsReady, IsResume, Counts, tickle_if-tasks, tickle_if-active, serve-Counts,
  serve_idle-Counts,
}

module _ (contexts : Contexts) (works : AllWork contexts) (resume : ℕ → World → World)
    (laws : IsResume resume) where
  serve_idle_ends :
      (idle_fiber : ℕ) (w : World)
      → is_term (w.states idle_fiber) ≡ true
      → serve_idle contexts resume idle_fiber w ≡ ok none
  unfolding serve_idle
  serve_idle_ends f w t = rw t refl

  -- What a turn may come to: the loop ends, where no task is left for the thread and the idle
  -- fiber has terminated; or it goes on, and as many threads are active as before.
  abbrev pub Outcome : ℕ → ℕ → World → Option World → Type 0
  Outcome me idle_fiber w none =
      All (IsPassed me w.states) w.scheduler.fibers × (is_term (w.states idle_fiber) ≡ true)
  Outcome me idle_fiber w (some w') = Counts w.scheduler.active_thread_count w'

  idle_turn :
      (me fresh idle_fiber : ℕ) (w : World) (rest : List FiberAndThread) (b : Bool)
      → AreTasks rest
      → scan me w.states w.scheduler.fibers ≡ ok (none, rest, b)
      → All (IsPassed me w.states) w.scheduler.fibers
      → is_exec (w.states idle_fiber) ≡ false
      → (r : Option World) × (turn contexts resume me fresh idle_fiber w ≡ ok r)
        × Outcome me idle_fiber w r
  unfolding turn taken
  idle_turn me fresh f w rest b h found passed e =
      let w' = record w { scheduler = tickle_if b (record w.scheduler { fibers = rest }) } in
      elim (Bool-cases (is_term (w.states f))) [
        | inl t ↦ (none, rw found (serve_idle_ends f w' t), (passed, t))
        | inr t ↦
            (let (w1, does, c) =
                serve_idle-Counts contexts works resume laws w.scheduler.active_thread_count f w'
                  (tickle_if-tasks b _ h, tickle_if-active b _) e t in
              (some w1, rw found does, c))
      ]

  task_turn :
      (me fresh idle_fiber : ℕ) (w : World) (ft : FiberAndThread) (rest : List FiberAndThread)
      (b : Bool)
      → w.scheduler.active_thread_count < 2 ^ 64
      → AreTasks rest
      → scan me w.states w.scheduler.fibers ≡ ok (some ft, rest, b)
      → is_running w.states ft ≡ false
      → ((f : ℕ) → w.cb_fiber ≡ some f → w.states f ≡ init)
      → (r : Option World) × (turn contexts resume me fresh idle_fiber w ≡ ok r)
        × Outcome me idle_fiber w r
  unfolding turn taken
  task_turn me fresh f w ft rest b less h found quiet waits =
      let n = w.scheduler.active_thread_count in
      let s = record w.scheduler { fibers = rest; active_thread_count = increment n } in
      let (w1, does, c) =
        serve-Counts contexts works resume laws n fresh ft (record w { scheduler = tickle_if b s })
          less (tickle_if-tasks b s h, tickle_if-active b s) waits quiet in
      (some w1, rw found (rw does refl), c)

  served :
      (me fresh idle_fiber : ℕ) (w : World) (found : Option FiberAndThread)
      (rest : List FiberAndThread) (b : Bool)
      → IsReady w
      → w.scheduler.active_thread_count < 2 ^ 64
      → is_exec (w.states idle_fiber) ≡ false
      → scan me w.states w.scheduler.fibers ≡ ok (found, rest, b)
      → IsScan me w.states w.scheduler.fibers (found, rest, b)
      → (r : Option World) × (turn contexts resume me fresh idle_fiber w ≡ ok r)
        × Outcome me idle_fiber w r
  served me fresh f w none rest b ready less e does (same, passed, t) =
      idle_turn me fresh f w rest b (rw same ready.tasks) does passed e
  served me fresh f w (some ft) rest b ready less e does
        (before, after, split, left, p, q, quiet, t) =
      task_turn me fresh f w ft rest b less
        (rw left (AreTasks-remove before after ft (rw split at ready.tasks))) does quiet ready.waits

  -- A turn of a thread that is ready, whose fibers leave the count of active threads alone and
  -- schedule tasks only, and whose idle fiber does not run, where fibers have their stacks and the
  -- calls of `getcontext` and `swapcontext` succeed: it raises no assertion. It ends the
  -- loop only where no task is left that the thread may take and the idle fiber has terminated.
  -- Otherwise the queue still holds tasks only, and as many threads are active as before.
  pub turn_lem :
      (me fresh idle_fiber : ℕ) (w : World)
      → IsReady w
      → w.scheduler.active_thread_count < 2 ^ 64
      → is_exec (w.states idle_fiber) ≡ false
      → (r : Option World) × (turn contexts resume me fresh idle_fiber w ≡ ok r)
        × Outcome me idle_fiber w r
  turn_lem me fresh f w ready less e =
      let ((found, rest, b), does, s) = scan-IsScan me w.states w.scheduler.fibers ready.tasks in
      served me fresh f w found rest b ready less e does s
