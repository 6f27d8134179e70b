-- ===== src/Scheduler/Draining.antt =====
-- scheduler.cpp: a turn of the loop in a scheduler that one thread serves takes a task off the queue.
use mathlib.Core.Path.{subst}
use fxk.Base.{
  ℕ, suc, ◌+◌, ◌≤◌, true, false, Option, none, some, length, ◌==◌, ==_refl, All, ok, ◌≡◌, refl, inl,
  inr, arith, Bool-cases, Option-cases, is_set,
}
use fxk.Fiber.State.{init, hold, exec, is_ready, is_over}
use fxk.Scheduler.Counting.{AllWork}
use fxk.Scheduler.{
  Contexts, FiberAndThread, Scheduler, World, set_state, leave, of_fiber, after_fiber, fiber_for,
  after_cb, swap_in, serve_fiber, serve_cb, serve, schedule,
}
use fxk.Scheduler.Settling.{
  IsServed-exec, IsServed-leave, IsServed-schedule, length-schedule, not_ready, over_rests,
  init-quiet, init-stays,
}
use fxk.Scheduler.Serving.{holds_any, IsOpen, IsServed, ready_bit, IsFinite}

not_cb-of_fiber :
    (cb : Option ℕ) (ft : FiberAndThread) (f : ℕ)
    → ft.fiber ≡ some f
    → holds_any cb ft ≡ false
    → holds_any cb (of_fiber f) ≡ false
not_cb-of_fiber none ft f e h = refl
not_cb-of_fiber (some g) ft f e h = rw e at h

module _ (me idle_fiber : ℕ) (contexts : Contexts) (works : AllWork contexts)
    (resume : ℕ → ℕ → World → World) (budget : ℕ → ℕ)
    (laws : IsFinite resume me idle_fiber budget) where
  -- The thread is served again, and the queue and the budget have not grown together.
  abbrev pub Served : ℕ → World → World → Type 0
  Served i w w' =
      IsServed me idle_fiber 0 none w'
      × (length w'.scheduler.fibers + budget (suc i) ≤ length w.scheduler.fibers + budget i)

  after_fiber-Served :
      (i f : ℕ) (w w1 : World)
      → IsServed me idle_fiber 1 (some f) w1
      → (f == idle_fiber) ≡ false
      → holds_any w1.cb_fiber (of_fiber f) ≡ false
      → length w1.scheduler.fibers + ready_bit (w1.states f) + budget (suc i)
        ≤ length w.scheduler.fibers + budget i
      → Served i w (after_fiber f (leave w1))
  after_fiber-Served i f w w1 v apart no_cb b = elim (Bool-cases (is_ready (w1.states f))) [
    | inl r ↦ rw r (
      IsServed-schedule me idle_fiber f (leave w1) apart no_cb (
          IsServed-leave me idle_fiber f w1 w1.states w1.cb_fiber v
            (not_ready me idle_fiber (w1.states f) r) (λ g h. refl) (inr (refl, inl no_cb))),
      omega (arith, length-schedule me idle_fiber f (leave w1).scheduler, rw r at b),
    )
    | inr r ↦ elim (Bool-cases (is_over (w1.states f))) [
      | inl o ↦ rw r (
          rw o (
            IsServed-leave me idle_fiber f w1 w1.states w1.cb_fiber v
                (over_rests me idle_fiber (w1.states f) o) (λ g h. refl) (inr (refl, inl no_cb)),
            omega (arith, b),
          ))
      | inr o ↦ rw r (
          rw o (
            IsServed-leave me idle_fiber f w1 (set_state f hold w1.states) w1.cb_fiber v
                (rw (==_refl f) refl) (λ g h. rw h refl) (inr (refl, inl no_cb)),
            omega (arith, b),
          ))
    ]
  ]

  serve_fiber-Served :
      (i f : ℕ) (w : World)
      → IsServed me idle_fiber 1 none w
      → (f == idle_fiber) ≡ false
      → holds_any w.cb_fiber (of_fiber f) ≡ false
      → (w' : World) × (serve_fiber contexts (resume i) f w ≡ ok w') × Served i w w'
  unfolding serve_fiber swap_in
  serve_fiber-Served i f w v apart no_cb =
      let w1 = record w { states = set_state f exec w.states } in
      let w2 = resume i f w1 in
      (
        after_fiber f (leave w2),
        rw (v.quiet f refl) (rw (works.swaps f w1) refl),
        after_fiber-Served i f w w2 (laws.keeps i f 1 w1 apart (IsServed-exec me idle_fiber f w v))
            apart (rw (laws.same_cb i f w1) no_cb) (laws.puts i f w1 apart),
      )

  after_cb-Served :
      (i f : ℕ) (w w1 : World)
      → IsServed me idle_fiber 1 (some f) w1
      → (f == idle_fiber) ≡ false
      → length w1.scheduler.fibers + ready_bit (w1.states f) + budget (suc i)
        ≤ length w.scheduler.fibers + budget i
      → (w' : World) × (after_cb contexts f (leave w1) ≡ ok w') × Served i w w'
  after_cb-Served i f w w1 v apart b = elim (Bool-cases (is_ready (w1.states f))) [
    | inl r ↦ (
      record w1 { scheduler = schedule (of_fiber f) (leave w1).scheduler; cb_fiber = none },
      rw r refl,
      (
        IsServed-schedule me idle_fiber f (record (leave w1) { cb_fiber = none }) apart refl
            (IsServed-leave me idle_fiber f w1 w1.states none v
              (not_ready me idle_fiber (w1.states f) r) (λ g h. refl) (inl refl)),
        omega (arith, length-schedule me idle_fiber f (leave w1).scheduler, rw r at b),
      ),
    )
    | inr r ↦ elim (Bool-cases (is_over (w1.states f))) [
      | inl o ↦ (
        record (leave w1) { states = set_state f init w1.states },
        rw r (rw o (rw (works.stacks f) (rw (works.gets f (leave w1)) refl))),
        (
          IsServed-leave me idle_fiber f w1 (set_state f init w1.states) w1.cb_fiber v
              (rw (==_refl f) refl) (λ g h. rw h refl) (inr (refl, inr (rw (==_refl f) refl))),
          omega (arith, b),
        ),
      )
      | inr o ↦ (
        record (leave w1) { states = set_state f hold w1.states; cb_fiber = none },
        rw r (rw o refl),
        (
          IsServed-leave me idle_fiber f w1 (set_state f hold w1.states) none v
              (rw (==_refl f) refl) (λ g h. rw h refl) (inl refl),
          omega (arith, b),
        ),
      )
    ]
  ]

  module _ (fresh : ℕ) (p_apart : (fresh == idle_fiber) ≡ false) where
    -- The place for a new fiber is used by no task.
    abbrev pub IsUnused : World → Type 0
    IsUnused w = w.cb_fiber ≡ none → All (IsOpen me idle_fiber (some fresh)) w.scheduler.fibers

    -- The fiber for functions is at hand, and is none of the others.
    fiber_for-Served :
        (w : World)
        → IsServed me idle_fiber 1 none w
        → IsUnused w
        → (f : ℕ) × (w' : World) × (fiber_for contexts fresh w ≡ ok (f, w'))
          × IsServed me idle_fiber 1 none w'
          × ((f == idle_fiber) ≡ false)
          × (w'.scheduler ≡ w.scheduler)
    fiber_for-Served w v unused = elim (Option-cases w.cb_fiber) [
      | inl e ↦
          let f = fresh in
          (
            f,
            record w { states = set_state f init w.states; cb_fiber = some f },
            rw e (rw (works.gets f (record w { cb_fiber = none })) refl),
            record {
              open_tasks = unused e;
              quiet = λ g away. init-quiet me idle_fiber f g w.states (v.quiet g refl);
              active = v.active;
              waits = λ g h away. ground (arith, h, ==_refl f);
              own = λ g h. ground (arith, h, p_apart);
            },
            p_apart,
            refl,
          )
      | inr (f, e) ↦ (
        f,
        record w { states = set_state f init w.states },
        rw e (
            rw (works.stacks f)
              (rw (v.waits f e refl) (rw (works.gets f (record w { cb_fiber = some f })) refl))),
        record {
          open_tasks = v.open_tasks;
          quiet = λ g away. init-quiet me idle_fiber f g w.states (v.quiet g refl);
          active = v.active;
          waits = λ g h away. init-stays me idle_fiber f g w.states (v.waits g h refl);
          own = v.own;
        },
        v.own f e,
        refl,
      )
    ]

    serve_cb-Served :
        (i : ℕ) (w : World)
        → IsServed me idle_fiber 1 none w
        → IsUnused w
        → (w' : World) × (serve_cb contexts (resume i) fresh w ≡ ok w') × Served i w w'
    unfolding serve_cb swap_in
    serve_cb-Served i w v unused =
        let (f, w1, gives, v1, apart, same) = fiber_for-Served w v unused in
        let w2 = record w1 { states = set_state f exec w1.states } in
        let w3 = resume i f w2 in
        let (w4, ends, served) =
          after_cb-Served i f w w3 (laws.keeps i f 1 w2 apart (IsServed-exec me idle_fiber f w1 v1))
            apart
            (subst
              (λ (s : Scheduler).
                length w3.scheduler.fibers + ready_bit (w3.states f) + budget (suc i)
                ≤ length s.fibers + budget i)
              same (laws.puts i f w2 apart)) in
        (w4, rw gives (rw (v1.quiet f refl) (rw (works.swaps f w2) ends)), served)

    -- A task that is dropped, as its fiber is over.
    drop-Served : (i : ℕ) (w : World) → IsServed me idle_fiber 1 none w → Served i w (leave w)
    drop-Served i w v = (
      record {
        open_tasks = v.open_tasks;
        quiet = v.quiet;
        active = rw v.active refl;
        waits = v.waits;
        own = v.own;
      },
      omega (arith, laws.falls i),
    )

    pub serve-Served :
        (i : ℕ) (ft : FiberAndThread) (w : World)
        → IsServed me idle_fiber 1 none w
        → IsUnused w
        → IsOpen me idle_fiber w.cb_fiber ft
        → (w' : World) × (serve contexts (resume i) fresh ft w ≡ ok w') × Served i w w'
    unfolding serve
    serve-Served i ft w v unused o = elim (Option-cases ft.fiber) [
      | inl n ↦
          let has_cb : is_set ft.cb ≡ true = rw n at o.task in
          rw (n, serve) (rw has_cb (serve_cb-Served i w v unused))
      | inr (f, e) ↦
          let apart : (f == idle_fiber) ≡ false = rw e at o.not_idle in
          elim (Bool-cases (is_over (w.states f))) [
            | inr q ↦
                rw (e, serve)
                  (rw q
                    (serve_fiber-Served i f w v apart (not_cb-of_fiber w.cb_fiber ft f e o.not_cb)))
            | inl q ↦ elim (Bool-cases (is_set ft.cb)) [
              | inl has_cb ↦ rw (e, serve) (rw q (rw has_cb (serve_cb-Served i w v unused)))
              | inr no_cb ↦ rw (e, serve) (rw q (rw no_cb (leave w, refl, drop-Served i w v)))
            ]
          ]
    ]
