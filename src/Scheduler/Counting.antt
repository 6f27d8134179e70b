-- ===== src/Scheduler/Counting.antt =====
-- scheduler.cpp: what a task or the idle fiber does to the count of active threads, in `run`.
use fxk.Base.{
  ℕ, ◌^◌, ◌<◌, Bool, true, false, none, some, ◌≡◌, refl, ap, ◌∙◌, inl, inr, arith, ==_refl, is_set,
  ok, Bool-cases, Option-cases,
}
use fxk.Fiber.State.{init, hold, exec, is_exec, is_ready, is_over, is_term}
use fxk.Scheduler.{
  Contexts, FiberAndThread, Scheduler, World, is_task, is_empty, tickle_if, schedule_no_lock,
  schedule, is_running, increment, decrement, set_state, leave, of_fiber, after_fiber, fiber_for,
  after_cb, idle_count, swap_in, serve_fiber, serve_cb, serve, serve_idle,
}
use fxk.Scheduler.Queue.{AreTasks, schedule-AreTasks}

-- Between two turns: the queue holds tasks, and the thread's fiber for functions waits for one.
pub record IsReady (w : World) : Type 0 where
  pub tasks : AreTasks w.scheduler.fibers
  pub waits : (f : ℕ) → w.cb_fiber ≡ some f → w.states f ≡ init

-- Fibers have their stacks, and the calls on contexts succeed.
pub record AllWork (contexts : Contexts) : Type 0 where
  pub stacks : (f : ℕ) → contexts.has_stack f ≡ true
  pub gets : (f : ℕ) (w : World) → contexts.getcontext f w ≡ true
  pub swaps : (f : ℕ) (w : World) → contexts.swapcontext f w ≡ true

-- A fiber may schedule tasks and change what it likes, but not the count of active threads.
pub record IsResume (resume : ℕ → World → World) : Type 0 where
  pub active :
      (f : ℕ) (w : World)
      → (resume f w).scheduler.active_thread_count ≡ w.scheduler.active_thread_count
  pub tasks :
      (f : ℕ) (w : World) → AreTasks w.scheduler.fibers → AreTasks (resume f w).scheduler.fibers

-- The queue holds tasks and `n` threads are active.
abbrev pub Counts : ℕ → World → Type 0
Counts n w = AreTasks w.scheduler.fibers × (w.scheduler.active_thread_count ≡ n)

pub tickle_if-active :
    (b : Bool) (s : Scheduler) → (tickle_if b s).active_thread_count ≡ s.active_thread_count
tickle_if-active true s = refl
tickle_if-active false s = refl

pub tickle_if-tasks :
    (b : Bool) (s : Scheduler) → AreTasks s.fibers → AreTasks (tickle_if b s).fibers
tickle_if-tasks true s h = h
tickle_if-tasks false s h = h

schedule-active :
    (ft : FiberAndThread) (s : Scheduler)
    → (schedule ft s).active_thread_count ≡ s.active_thread_count
unfolding schedule schedule_no_lock
schedule-active ft s = elim (Bool-cases (is_task ft)) [
  | inl h ↦ tickle_if-active (is_empty s.fibers) _ ∙ rw h refl
  | inr h ↦ tickle_if-active (is_empty s.fibers) _ ∙ rw h refl
]

balance : (n : ℕ) → n < 2 ^ 64 → decrement (increment n) ≡ n
balance n h = omega (arith, h)

after_fiber-Counts : (n f : ℕ) (w : World) → Counts n w → Counts n (after_fiber f w)
after_fiber-Counts n f w h = elim (Bool-cases (is_ready (w.states f))) [
  | inl r ↦ rw r (
    schedule-AreTasks (of_fiber f) w.scheduler h.0,
    schedule-active (of_fiber f) w.scheduler ∙ h.1,
  )
  | inr r ↦ elim (Bool-cases (is_over (w.states f))) [
    | inl o ↦ rw r (rw o h)
    | inr o ↦ rw r (rw o h)
  ]
]

after_cb-Counts :
    (contexts : Contexts) (works : AllWork contexts) (n f : ℕ) (w : World)
    → Counts n w
    → (w' : World) × (after_cb contexts f w ≡ ok w') × Counts n w'
after_cb-Counts contexts works n f w h = elim (Bool-cases (is_ready (w.states f))) [
  | inl r ↦ (
    record w { scheduler = schedule (of_fiber f) w.scheduler; cb_fiber = none },
    rw r refl,
    (
      schedule-AreTasks (of_fiber f) w.scheduler h.0,
      schedule-active (of_fiber f) w.scheduler ∙ h.1,
    ),
  )
  | inr r ↦ elim (Bool-cases (is_over (w.states f))) [
    | inl o ↦ (
      record w { states = set_state f init w.states },
      rw r (rw o (rw (works.stacks f) (rw (works.gets f w) refl))),
      h,
    )
    | inr o ↦
        (record w { states = set_state f hold w.states; cb_fiber = none }, rw r (rw o refl), h)
  ]
]

-- A thread's fiber for functions is in its initial state where a function is given to it.
fiber_for-waits :
    (contexts : Contexts) (works : AllWork contexts) (fresh : ℕ) (w : World)
    → ((f : ℕ) → w.cb_fiber ≡ some f → w.states f ≡ init)
    → (f : ℕ) × (w' : World) × (fiber_for contexts fresh w ≡ ok (f, w'))
      × (is_exec (w'.states f) ≡ false)
      × (w'.scheduler ≡ w.scheduler)
fiber_for-waits contexts works fresh w h = elim (Option-cases w.cb_fiber) [
  | inl e ↦ (
    fresh,
    record w { states = set_state fresh init w.states; cb_fiber = some fresh },
    rw e (rw (works.gets fresh (record w { cb_fiber = none })) refl),
    rw (==_refl fresh) refl,
    refl,
  )
  | inr (f, e) ↦ (
    f,
    record w { states = set_state f init w.states },
    rw e (
        rw (works.stacks f) (rw (h f e) (rw (works.gets f (record w { cb_fiber = some f })) refl))),
    rw (==_refl f) refl,
    refl,
  )
]

module _ (contexts : Contexts) (works : AllWork contexts) (resume : ℕ → World → World)
    (laws : IsResume resume) where
  swap_in-Counts :
      (n f : ℕ) (w : World)
      → Counts n w
      → is_exec (w.states f) ≡ false
      → (w' : World) × (swap_in contexts resume f w ≡ ok w') × Counts n w'
  unfolding swap_in
  swap_in-Counts n f w h e =
      let w1 = record w { states = set_state f exec w.states } in
      (
        resume f w1,
        rw e (rw (works.swaps f w1) refl),
        (laws.tasks f w1 h.0, laws.active f w1 ∙ h.1),
      )

  serve_fiber-Counts :
      (n f : ℕ) (w : World)
      → n < 2 ^ 64
      → Counts (increment n) w
      → is_exec (w.states f) ≡ false
      → (w' : World) × (serve_fiber contexts resume f w ≡ ok w') × Counts n w'
  unfolding serve_fiber
  serve_fiber-Counts n f w b h e =
      let (w1, does, c) = swap_in-Counts (increment n) f w h e in
      (
        after_fiber f (leave w1),
        rw does refl,
        after_fiber-Counts n f (leave w1) (c.0, ap decrement c.1 ∙ balance n b),
      )

  serve_cb-Counts :
      (n fresh : ℕ) (w : World)
      → n < 2 ^ 64
      → Counts (increment n) w
      → ((f : ℕ) → w.cb_fiber ≡ some f → w.states f ≡ init)
      → (w' : World) × (serve_cb contexts resume fresh w ≡ ok w') × Counts n w'
  unfolding serve_cb
  serve_cb-Counts n fresh w b h waits =
      let (f, w1, gives, e, same) = fiber_for-waits contexts works fresh w waits in
      let (w2, does, c) =
        swap_in-Counts (increment n) f w1
          (rw same h.0, ap (λ (s : Scheduler). s.active_thread_count) same ∙ h.1) e in
      let (w3, ends, d) =
        after_cb-Counts contexts works n f (leave w2) (c.0, ap decrement c.1 ∙ balance n b) in
      (w3, rw gives (rw does ends), d)

  pub serve-Counts :
      (n fresh : ℕ) (ft : FiberAndThread) (w : World)
      → n < 2 ^ 64
      → Counts (increment n) w
      → ((f : ℕ) → w.cb_fiber ≡ some f → w.states f ≡ init)
      → is_running w.states ft ≡ false
      → (w' : World) × (serve contexts resume fresh ft w ≡ ok w') × Counts n w'
  unfolding serve
  serve-Counts n fresh ft w b h waits quiet =
      let left : Counts n (leave w) = (h.0, ap decrement h.1 ∙ balance n b) in
      elim (Option-cases ft.fiber) [
        | inl e ↦ elim (Bool-cases (is_set ft.cb)) [
          | inl c ↦
              (let (w', does, k) = serve_cb-Counts n fresh w b h waits in (w', rw e (rw c does), k))
          | inr c ↦ (leave w, rw e (rw c refl), left)
        ]
        | inr (f, e) ↦ elim (Bool-cases (is_over (w.states f))) [
          | inl o ↦ elim (Bool-cases (is_set ft.cb)) [
            | inl c ↦
                (let (w', does, k) = serve_cb-Counts n fresh w b h waits in
                  (w', rw e (rw o (rw c does)), k))
            | inr c ↦ (leave w, rw e (rw o (rw c refl)), left)
          ]
          | inr o ↦
              (let (w', does, k) = serve_fiber-Counts n f w b h (rw e at quiet) in
                (w', rw e (rw o does), k))
        ]
      ]

  pub serve_idle-Counts :
      (n idle_fiber : ℕ) (w : World)
      → Counts n w
      → is_exec (w.states idle_fiber) ≡ false
      → is_term (w.states idle_fiber) ≡ false
      → (w' : World) × (serve_idle contexts resume idle_fiber w ≡ ok (some w')) × Counts n w'
  unfolding serve_idle
  serve_idle-Counts n f w h e t =
      let (w1, does, c) = swap_in-Counts n f (idle_count increment w) h e in
      let w2 = idle_count decrement w1 in
      elim (Bool-cases (is_over (w2.states f))) [
        | inl o ↦ (w2, rw t (rw does (rw o refl)), c)
        | inr o ↦ (record w2 { states = set_state f hold w2.states }, rw t (rw does (rw o refl)), c)
      ]
