-- ===== src/Scheduler/Termination.antt =====
-- scheduler.cpp: the loop of `run` in a scheduler that one thread serves comes to its end.
use fxk.Base.{
  ℕ, zero, suc, ◌+◌, ◌≤◌, Bool, true, Option, none, some, List, [], ◌∷◌, ◌++◌, length, ok, ◌≡◌,
  refl, ap, ◌∙◌, ◌⊎◌, inl, inr, arith, Bool-cases,
}
use fxk.Fiber.State.{is_term}
use fxk.Scheduler.Counting.{AllWork}
use fxk.Scheduler.{Contexts, FiberAndThread, World, scan}
use fxk.Scheduler.Queue.{IsScan, scan-IsScan}
use fxk.Scheduler.Serving.{IsServed, IsFinite, IsFresh, HasEnded, run}
use fxk.Scheduler.Turns.{All-AreTasks, length-remove, passed-empty, task_turn, end_turn, idle_turn}

module _ (me idle_fiber : ℕ) (contexts : Contexts) (works : AllWork contexts)
    (resume : ℕ → ℕ → World → World) (budget : ℕ → ℕ) (laws : IsFinite resume me idle_fiber budget)
    (fresh : World → ℕ) (places : IsFresh me idle_fiber fresh) where
  -- What the search of a served queue finds: it takes a task, or the queue is empty.
  search :
      (w : World)
      → IsServed me idle_fiber 0 none w
      → ((w.scheduler.fibers ≡ [])
          × ((b : Bool) × (scan me w.states w.scheduler.fibers ≡ ok (none, w.scheduler.fibers, b))))
        ⊎ ((ft : FiberAndThread) × (before : List FiberAndThread) × (after : List FiberAndThread)
            × (b : Bool) × (w.scheduler.fibers ≡ before ++ ft ∷ after)
            × (scan me w.states w.scheduler.fibers ≡ ok (some ft, before ++ after, b)))
  search w v =
      let (r, does, is_scan) =
        scan-IsScan me w.states w.scheduler.fibers
          (All-AreTasks me idle_fiber w.cb_fiber w.scheduler.fibers v.open_tasks) in
      sorted r does is_scan
    where
      sorted :
          (r : Option FiberAndThread × List FiberAndThread × Bool)
          → scan me w.states w.scheduler.fibers ≡ ok r
          → IsScan me w.states w.scheduler.fibers r
          → ((w.scheduler.fibers ≡ [])
              × ((b : Bool) × (scan me w.states w.scheduler.fibers
                    ≡ ok (none, w.scheduler.fibers, b))))
            ⊎ ((ft : FiberAndThread) × (before : List FiberAndThread) × (after : List
                  FiberAndThread)
                × (b : Bool) × (w.scheduler.fibers ≡ before ++ ft ∷ after)
                × (scan me w.states w.scheduler.fibers ≡ ok (some ft, before ++ after, b)))
      sorted (none, rest, b) does (same, passed, _) = inl (
        passed-empty me idle_fiber w w.scheduler.fibers v v.open_tasks passed,
        (b, does ∙ ap (λ (l : List FiberAndThread). ok (none, l, b)) same),
      )
      sorted (some ft, rest, b) does (before, after, split, same, _, _, _, _) = inr (
        ft,
        before,
        after,
        b,
        split,
        does ∙ ap (λ (l : List FiberAndThread). ok (some ft, l, b)) same,
      )

  ends_now :
      (fuel i : ℕ) (w : World)
      → IsServed me idle_fiber 0 none w
      → w.scheduler.fibers ≡ []
      → is_term (w.states idle_fiber) ≡ true
      → run contexts resume fresh me idle_fiber (suc fuel) i w ≡ ok (some w)
  unfolding run
  ends_now fuel i w v empty t = elim (search w v) [
    | inl (_, (b, found)) ↦
        rw (end_turn me idle_fiber contexts works resume budget laws fresh places i w b found t)
          refl
    | inr (ft, before, after, b, split, found) ↦ absurd (
        omega
          (arith, ap length split, ap length empty, length-remove me idle_fiber before after ft))
  ]

  -- In a scheduler that one thread serves, whether it is stopping or not, whose fibers have stacks
  -- and put no more tasks into the queue than the budget allows, where the calls on contexts
  -- succeed, and whose idle fiber terminates without running `idle`, as `MainFunc` has it: the loop
  -- of `run` raises no assertion and ends, after at most as many turns as there are tasks in the
  -- queue and in the budget, and two. Then the queue is empty, no thread is active, and the idle
  -- fiber has terminated.
  pub run-HasEnded :
      (fuel i : ℕ) (w : World)
      → IsServed me idle_fiber 0 none w
      → length w.scheduler.fibers + budget i + 2 ≤ fuel
      → (w' : World) × (run contexts resume fresh me idle_fiber fuel i w ≡ ok (some w'))
        × HasEnded idle_fiber w'
  unfolding run
  run-HasEnded zero i w v enough = absurd (omega (arith, enough))
  run-HasEnded (suc zero) i w v enough = absurd (omega (arith, enough))
  run-HasEnded (suc (suc fuel)) i w v enough = elim (search w v) [
    | inr (ft, before, after, b, split, found) ↦
        let (w1, does, v1, less) =
          task_turn me idle_fiber contexts works resume budget laws fresh places i w ft before after
            b v split found in
        rw does (run-HasEnded (suc fuel) (suc i) w1 v1 (omega (arith, less, enough)))
    | inl (empty, (b, found)) ↦ elim (Bool-cases (is_term (w.states idle_fiber))) [
      | inl t ↦ (
        w,
        rw (end_turn me idle_fiber contexts works resume budget laws fresh places i w b found t)
            refl,
        (empty, v.active, t),
      )
      | inr t ↦
          let (w1, does, v1, empty1, t1) =
            idle_turn me idle_fiber contexts works resume budget laws fresh places i w b v empty
              found t in
          rw does (w1, ends_now fuel (suc i) w1 v1 empty1 t1, (empty1, v1.active, t1))
    ]
  ]
