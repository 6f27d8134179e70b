-- ===== src/Scheduler/Turns.antt =====
-- scheduler.cpp: a turn of the loop in a scheduler that one thread serves, with a task and without.
use mathlib.Core.Path.{subst}
use fxk.Base.{
  ℕ, suc, ◌+◌, ◌≤◌, Bool, true, false, Option, none, some, List, [], ◌∷◌, ◌++◌, length, ◌==◌,
  ==_refl, All, ok, ◌≡◌, refl, ap, ◌∙◌, inl, inr, arith, Bool-cases, Option-cases,
}
use fxk.Fiber.State.{exec, term, is_term}
use fxk.Scheduler.Counting.{AllWork}
use fxk.Scheduler.{
  Contexts, FiberAndThread, Scheduler, World, tickle_if, set_state, increment, decrement,
  idle_count, taken, serve_idle, swap_in, turn, scan, is_running,
}
use fxk.Scheduler.Queue.{tickle_if-fibers, AreTasks, IsPassed}
use fxk.Scheduler.Serving.{IsOpen, IsServed, IsFinite, IsFresh, idle_resume}
use fxk.Scheduler.Draining.{serve-Served}

module _ (me idle_fiber : ℕ) where
  pub All-AreTasks :
      (cb : Option ℕ) (l : List FiberAndThread) → All (IsOpen me idle_fiber cb) l → AreTasks l
  All-AreTasks cb [] h = tt
  All-AreTasks cb (x ∷ l) h = (h.0.task, All-AreTasks cb l h.1)

  All-remove :
      (cb : Option ℕ) (before after : List FiberAndThread) (ft : FiberAndThread)
      → All (IsOpen me idle_fiber cb) (before ++ ft ∷ after)
      → IsOpen me idle_fiber cb ft × All (IsOpen me idle_fiber cb) (before ++ after)
  All-remove cb [] after ft h = h
  All-remove cb (x ∷ l) after ft h = let (o, r) = All-remove cb l after ft h.1 in (o, (h.0, r))

  pub length-remove :
      (before after : List FiberAndThread) (ft : FiberAndThread)
      → length (before ++ ft ∷ after) ≡ length (before ++ after) + 1
  length-remove [] after ft = omega arith
  length-remove (x ∷ l) after ft = omega (arith, length-remove l after ft)

  tickle_if-IsServed :
      (n : ℕ) (b : Bool) (w : World)
      → IsServed me idle_fiber n none w
      → IsServed me idle_fiber n none (record w { scheduler = tickle_if b w.scheduler })
  tickle_if-IsServed n false w v = v
  tickle_if-IsServed n true w v = record {
    open_tasks = v.open_tasks;
    quiet = v.quiet;
    active = v.active;
    waits = v.waits;
    own = v.own;
  }

  length-tickle_if : (b : Bool) (s : Scheduler) → length (tickle_if b s).fibers ≡ length s.fibers
  length-tickle_if true s = refl
  length-tickle_if false s = refl

  running_not :
      (w : World) (ft : FiberAndThread)
      → IsServed me idle_fiber 0 none w
      → is_running w.states ft ≡ false
  running_not w ft v = elim (Option-cases ft.fiber) [
    | inl e ↦ rw (e, is_running) refl
    | inr (f, e) ↦ rw (e, is_running) (v.quiet f refl)
  ]

  -- None of the tasks is passed over: where nothing is taken, the queue is empty.
  pub passed-empty :
      (w : World) (l : List FiberAndThread)
      → IsServed me idle_fiber 0 none w
      → All (IsOpen me idle_fiber w.cb_fiber) l
      → All (IsPassed me w.states) l
      → l ≡ []
  passed-empty w [] v h p = refl
  passed-empty w (ft ∷ l) v h p = ground (arith, p.0, h.0.unpinned, running_not w ft v)

  module _ (contexts : Contexts) (works : AllWork contexts) (resume : ℕ → ℕ → World → World)
      (budget : ℕ → ℕ) (laws : IsFinite resume me idle_fiber budget) (fresh : World → ℕ)
      (places : IsFresh me idle_fiber fresh) where
    unused_after :
        (w : World) (ft : FiberAndThread) (before after : List FiberAndThread) (b : Bool)
        → IsServed me idle_fiber 0 none w
        → w.scheduler.fibers ≡ before ++ ft ∷ after
        → (n : ℕ) → w.cb_fiber ≡ none
        → All
            (IsOpen me idle_fiber (some (fresh w)))
            (tickle_if b
              (record w.scheduler { fibers = before ++ after; active_thread_count = n })).fibers
    unused_after w ft before after b v split n e =
        rw (tickle_if-fibers b _)
          (All-remove (some (fresh w)) before after ft (
            subst (λ (l : List FiberAndThread). All (IsOpen me idle_fiber (some (fresh w))) l) split
              (places.unused w e (rw e at v.open_tasks)))).1

    -- A turn that takes a task.
    pub task_turn :
        (i : ℕ) (w : World) (ft : FiberAndThread) (before after : List FiberAndThread) (b : Bool)
        → IsServed me idle_fiber 0 none w
        → w.scheduler.fibers ≡ before ++ ft ∷ after
        → scan me w.states w.scheduler.fibers ≡ ok (some ft, before ++ after, b)
        → (w' : World) × (turn contexts (resume i) me (fresh w) idle_fiber w ≡ ok (some w'))
          × IsServed me idle_fiber 0 none w'
          × (length w'.scheduler.fibers + budget (suc i) + 1 ≤ length w.scheduler.fibers + budget i)
    unfolding turn taken
    task_turn i w ft before after b v split found =
        let s = record w.scheduler {
          fibers = before ++ after;
          active_thread_count = increment w.scheduler.active_thread_count;
        } in
        let w0 = record w { scheduler = s } in
        let (o, rest) = All-remove w.cb_fiber before after ft (rw split at v.open_tasks) in
        let v0 : IsServed me idle_fiber 1 none w0 = record {
          open_tasks = rest;
          quiet = v.quiet;
          active = rw v.active refl;
          waits = v.waits;
          own = v.own;
        } in
        let w1 = record w { scheduler = tickle_if b s } in
        let (w2, does, (v2, less)) =
          serve-Served me idle_fiber contexts works resume budget laws (fresh w) (places.apart w) i
            ft w1 (tickle_if-IsServed 1 b w0 v0) (unused_after w ft before after b v split _) o in
        (
          w2,
          rw found (rw does refl),
          v2,
          omega (arith, less, length-tickle_if b s, length-remove before after ft, ap length split),
        )

    resumed :
        (i : ℕ) (w : World)
        → resume i idle_fiber w ≡ record w { states = set_state idle_fiber term w.states }
    unfolding idle_resume
    resumed i w = laws.idles i w

    serve_idle-ends :
        (i : ℕ) (w : World)
        → is_term (w.states idle_fiber) ≡ true
        → serve_idle contexts (resume i) idle_fiber w ≡ ok none
    unfolding serve_idle
    serve_idle-ends i w t = rw t refl

    -- The world behind `idle`, which has returned.
    abbrev idle_done : World → World
    idle_done w = record (idle_count decrement (idle_count increment w)) {
      states = set_state idle_fiber term (set_state idle_fiber exec w.states);
    }

    serve_idle-done :
        (i : ℕ) (w : World)
        → IsServed me idle_fiber 0 none w
        → w.scheduler.fibers ≡ []
        → is_term (w.states idle_fiber) ≡ false
        → serve_idle contexts (resume i) idle_fiber w ≡ ok (some (idle_done w))
    unfolding serve_idle swap_in
    serve_idle-done i w v empty t =
        let w1 = record (idle_count increment w) { states = set_state idle_fiber exec w.states } in
        rw t (
          rw (v.quiet idle_fiber refl)
            (rw (works.swaps idle_fiber w1) (rw (resumed i w1) (rw (==_refl idle_fiber) refl))))

    idle_done-IsServed :
        (w : World)
        → IsServed me idle_fiber 0 none w
        → w.scheduler.fibers ≡ []
        → IsServed me idle_fiber 0 none (idle_done w)
    idle_done-IsServed w v empty = record {
      open_tasks = v.open_tasks;
      quiet = λ g away. elim (Bool-cases (g == idle_fiber)) [
        | inl h ↦ rw h refl
        | inr h ↦ rw h (v.quiet g refl)
      ];
      active = v.active;
      waits = λ g e away. rw (v.own g e) (v.waits g e refl);
      own = v.own;
    }

    -- A turn that finds the queue empty: the loop ends, or the idle fiber learns that it may.
    pub end_turn :
        (i : ℕ) (w : World) (b : Bool)
        → scan me w.states w.scheduler.fibers ≡ ok (none, w.scheduler.fibers, b)
        → is_term (w.states idle_fiber) ≡ true
        → turn contexts (resume i) me (fresh w) idle_fiber w ≡ ok none
    unfolding turn taken
    end_turn i w b found t =
        rw found (serve_idle-ends i (record w { scheduler = tickle_if b w.scheduler }) t)

    pub idle_turn :
        (i : ℕ) (w : World) (b : Bool)
        → IsServed me idle_fiber 0 none w
        → w.scheduler.fibers ≡ []
        → scan me w.states w.scheduler.fibers ≡ ok (none, w.scheduler.fibers, b)
        → is_term (w.states idle_fiber) ≡ false
        → (w' : World) × (turn contexts (resume i) me (fresh w) idle_fiber w ≡ ok (some w'))
          × IsServed me idle_fiber 0 none w'
          × (w'.scheduler.fibers ≡ [])
          × (is_term (w'.states idle_fiber) ≡ true)
    unfolding turn taken
    idle_turn i w b v empty found t =
        let w0 = record w { scheduler = tickle_if b w.scheduler } in
        let v0 = tickle_if-IsServed 0 b w v in
        let empty0 = tickle_if-fibers b w.scheduler ∙ empty in
        (
          idle_done w0,
          rw found (rw (serve_idle-done i w0 v0 empty0 t) refl),
          idle_done-IsServed w0 v0 empty0,
          empty0,
          rw (==_refl idle_fiber) refl,
        )
