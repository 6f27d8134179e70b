-- ===== src/Scheduler/Settling.antt =====
-- scheduler.cpp: what the served thread's switches to fibers leave behind.
use fxk.Base.{
  ℕ, ◌+◌, true, false, Option, none, some, List, [], ◌∷◌, ◌++◌, length, length-append, ◌==◌, ==_iff,
  ==_refl, All, ◌≡◌, refl, sym, ◌∙◌, ◌⊎◌, inl, inr, arith, Bool-cases,
}
use fxk.Fiber.State.{State, init, exec, term, ready, except, is_exec, is_ready, is_over}
use fxk.Scheduler.{
  FiberAndThread, Scheduler, World, is_empty, set_state, leave, of_fiber, schedule,
  schedule_no_lock,
}
use fxk.Scheduler.Queue.{tickle_if-fibers}
use fxk.Scheduler.Serving.{holds_any, IsOpen, IsServed}

module _ (me idle_fiber : ℕ) where
  All-append :
      (cb : Option ℕ) (l m : List FiberAndThread)
      → All (IsOpen me idle_fiber cb) l
      → All (IsOpen me idle_fiber cb) m
      → All (IsOpen me idle_fiber cb) (l ++ m)
  All-append cb [] m h k = k
  All-append cb (x ∷ l) m h k = (h.0, All-append cb l m h.1 k)

  -- Without a fiber for functions the tasks stay open.
  All-no_cb :
      (cb : Option ℕ) (l : List FiberAndThread)
      → All (IsOpen me idle_fiber cb) l
      → All (IsOpen me idle_fiber none) l
  All-no_cb cb [] h = tt
  All-no_cb cb (x ∷ l) h = (
    record { task = h.0.task; unpinned = h.0.unpinned; not_idle = h.0.not_idle; not_cb = refl },
    All-no_cb cb l h.1,
  )

  schedule-fibers :
      (f : ℕ) (s : Scheduler) → (schedule (of_fiber f) s).fibers ≡ s.fibers ++ of_fiber f ∷ []
  unfolding schedule schedule_no_lock
  schedule-fibers f s = tickle_if-fibers (is_empty s.fibers) _

  schedule-flags :
      (f : ℕ) (s : Scheduler)
      → ((schedule (of_fiber f) s).active_thread_count ≡ s.active_thread_count)
        × ((schedule (of_fiber f) s).auto_stop ≡ s.auto_stop)
        × ((schedule (of_fiber f) s).stopping ≡ s.stopping)
  unfolding schedule schedule_no_lock
  schedule-flags f s = ground arith

  -- Switching to a fiber.
  pub IsServed-exec :
      (f : ℕ) (w : World)
      → IsServed me idle_fiber 1 none w
      → IsServed me idle_fiber 1 (some f) (record w { states = set_state f exec w.states })
  IsServed-exec f w v = record {
    open_tasks = v.open_tasks;
    quiet = λ g away. rw away (v.quiet g refl);
    active = v.active;
    waits = λ g e away. rw away (v.waits g e refl);
    own = v.own;
  }

  -- What a fiber that was switched to may leave of the fiber for functions.
  abbrev pub Leaves : ℕ → World → (ℕ → State) → Option ℕ → Type 0
  Leaves f w states cb =
      (cb ≡ none) ⊎ ((cb ≡ w.cb_fiber) × ((holds_any cb (of_fiber f) ≡ false) ⊎ (states f ≡ init)))

  -- Back from the fiber, whose state does not run any more.
  pub IsServed-leave :
      (f : ℕ) (w : World) (states : ℕ → State) (cb : Option ℕ)
      → IsServed me idle_fiber 1 (some f) w
      → is_exec (states f) ≡ false
      → ((g : ℕ) → (g == f) ≡ false → states g ≡ w.states g)
      → Leaves f w states cb
      → IsServed me idle_fiber 0 none (record (leave w) { states = states; cb_fiber = cb })
  IsServed-leave f w states cb v e same (inl no_cb) = record {
    open_tasks = rw no_cb (All-no_cb w.cb_fiber w.scheduler.fibers v.open_tasks);
    quiet = λ g away. quiet_at g;
    active = rw v.active refl;
    waits = λ g h away. ground (arith, h, no_cb);
    own = λ g h. ground (arith, h, no_cb);
  }
    where
      quiet_at : (g : ℕ) → is_exec (states g) ≡ false
      quiet_at g = elim (Bool-cases (g == f)) [
        | inl h ↦ rw ((==_iff g f).0 h) e
        | inr h ↦ rw (same g h) (v.quiet g h)
      ]
  IsServed-leave f w states cb v e same (inr (same_cb, at_f)) = record {
    open_tasks = rw same_cb v.open_tasks;
    quiet = λ g away. quiet_at g;
    active = rw v.active refl;
    waits = λ g h away. waits_at g h;
    own = λ g h. v.own g (sym same_cb ∙ h);
  }
    where
      quiet_at : (g : ℕ) → is_exec (states g) ≡ false
      quiet_at g = elim (Bool-cases (g == f)) [
        | inl h ↦ rw ((==_iff g f).0 h) e
        | inr h ↦ rw (same g h) (v.quiet g h)
      ]

      waits_at : (g : ℕ) → cb ≡ some g → states g ≡ init
      waits_at g h = elim (Bool-cases (g == f)) [
        | inl k ↦ elim at_f [
          | inl apart ↦ ground (arith, h, apart, ==_iff g f, ==_refl f)
          | inr i ↦ rw ((==_iff g f).0 k) i
        ]
        | inr k ↦ rw (same g k) (v.waits g (sym same_cb ∙ h) k)
      ]

  pub IsServed-schedule :
      (f : ℕ) (w : World)
      → (f == idle_fiber) ≡ false
      → holds_any w.cb_fiber (of_fiber f) ≡ false
      → IsServed me idle_fiber 0 none w
      → IsServed me idle_fiber 0 none (record w { scheduler = schedule (of_fiber f) w.scheduler })
  IsServed-schedule f w apart no_cb v = record {
    open_tasks = rw (schedule-fibers f w.scheduler) (
        All-append w.cb_fiber w.scheduler.fibers (of_fiber f ∷ []) v.open_tasks
          (record { task = refl; unpinned = refl; not_idle = apart; not_cb = no_cb }, tt));
    quiet = v.quiet;
    active = (schedule-flags f w.scheduler).0 ∙ v.active;
    waits = v.waits;
    own = v.own;
  }

  pub length-schedule :
      (f : ℕ) (s : Scheduler) → length (schedule (of_fiber f) s).fibers ≡ length s.fibers + 1
  length-schedule f s = rw (schedule-fibers f s) (length-append s.fibers (of_fiber f ∷ []))

  pub not_ready : (s : State) → is_ready s ≡ true → is_exec s ≡ false
  not_ready ready h = refl
  not_ready _ h = ground arith

  pub over_rests : (s : State) → is_over s ≡ true → is_exec s ≡ false
  over_rests term h = refl
  over_rests except h = refl
  over_rests _ h = ground arith

  pub init-quiet :
      (f g : ℕ) (states : ℕ → State)
      → is_exec (states g) ≡ false
      → is_exec (set_state f init states g) ≡ false
  init-quiet f g states h = elim (Bool-cases (g == f)) [ inl e ↦ rw e refl | inr e ↦ rw e h ]

  pub init-stays :
      (f g : ℕ) (states : ℕ → State) → states g ≡ init → set_state f init states g ≡ init
  init-stays f g states h = elim (Bool-cases (g == f)) [ inl e ↦ rw e refl | inr e ↦ rw e h ]
