-- ===== src/Scheduler/Queue.antt =====
-- scheduler.h and scheduler.cpp: what is put into the queue, and which task a thread takes.
use mathlib.Core.List.{append-nil, append_assoc}
use mathlib.Core.Path.{subst}
use fxk.Base.{
  ℕ, Bool, true, false, not, ◌&&◌, ◌||◌, Option, none, some, List, [], ◌∷◌, ◌++◌, ◌≡◌, refl, ap,
  ◌∙◌, inl, inr, arith, if◌then◌else◌, ok, All, Bool-cases,
}
use fxk.Fiber.State.{State}
use fxk.Scheduler.{
  FiberAndThread, Scheduler, is_task, is_empty, tickle_if, schedule_no_lock, schedule,
  schedule_each, schedule_range, is_pinned, is_running, keep, scan,
}

-- The tasks among them.
abbrev pub tasks : List FiberAndThread → List FiberAndThread
tasks [] = []
tasks (ft ∷ l) = if is_task ft then ft ∷ tasks l else tasks l

-- Every entry of the queue is a task.
abbrev pub AreTasks : List FiberAndThread → Type 0
AreTasks l = All (λ ft. is_task ft ≡ true) l

abbrev pub any_pinned : ℕ → List FiberAndThread → Bool
any_pinned me [] = false
any_pinned me (ft ∷ l) = is_pinned me ft || any_pinned me l

-- A thread passes over what is meant for another one, or runs already.
abbrev pub IsPassed : ℕ → (ℕ → State) → FiberAndThread → Type 0
IsPassed me states ft = (is_pinned me ft || is_running states ft) ≡ true

-- What a search of the queue promises.
abbrev pub IsScan :
    ℕ
    → (ℕ → State)
    → List FiberAndThread
    → Option FiberAndThread × List FiberAndThread × Bool
    → Type 0
IsScan me states l (none, rest, tickle_me) =
    (rest ≡ l) × All (IsPassed me states) l × (tickle_me ≡ any_pinned me l)
IsScan me states l (some ft, rest, tickle_me) =
    (before : List FiberAndThread) × (after : List FiberAndThread) × (l ≡ before ++ ft ∷ after)
    × (rest ≡ before ++ after)
    × All (IsPassed me states) before
    × (is_pinned me ft ≡ false)
    × (is_running states ft ≡ false)
    × (tickle_me ≡ (any_pinned me before || not (is_empty after)))

keep-IsScan :
    (me : ℕ) (states : ℕ → State) (ft : FiberAndThread) (l : List FiberAndThread)
    (r : Option FiberAndThread × List FiberAndThread × Bool)
    → IsPassed me states ft
    → IsScan me states l r
    → IsScan me states (ft ∷ l) (keep ft (is_pinned me ft) r)
keep-IsScan me states ft l (none, rest, b) p (e, a, t) =
    (ap (◌∷◌ ft) e, (p, a), ap (◌||◌ (is_pinned me ft)) t)
keep-IsScan me states ft l (some x, rest, b) p (before, after, e, r, a, u, v, t) =
    (ft ∷ before, after, ap (◌∷◌ ft) e, ap (◌∷◌ ft) r, (p, a), u, v, ground (arith, t))

-- The search of a queue of tasks raises no assertion. It takes the first task that is not meant for
-- another thread and whose fiber does not run already, and leaves all others in their order; if
-- there is none, the queue stays. It asks for a tickle exactly if it passed a task meant for
-- another thread, or a task is left behind the one it takes.
pub scan-IsScan :
    (me : ℕ) (states : ℕ → State) (l : List FiberAndThread)
    → AreTasks l
    → (r : Option FiberAndThread × List FiberAndThread × Bool) × (scan me states l ≡ ok r)
      × IsScan me states l r
unfolding scan
scan-IsScan me states [] h = ((none, [], false), refl, (refl, tt, refl))
scan-IsScan me states (ft ∷ l) h =
    let (r, e, s) = scan-IsScan me states l h.1 in
    elim (Bool-cases (is_pinned me ft)) [
      | inl p ↦ (
        keep ft true r,
        rw e (rw p refl),
        subst (λ b. IsScan me states (ft ∷ l) (keep ft b r)) p
            (keep-IsScan me states ft l r (rw p refl) s),
      )
      | inr p ↦ elim (Bool-cases (is_running states ft)) [
        | inl q ↦ (
          keep ft false r,
          rw e (rw p (rw h.0 (rw q refl))),
          subst (λ b. IsScan me states (ft ∷ l) (keep ft b r)) p
              (keep-IsScan me states ft l r (rw p q) s),
        )
        | inr q ↦ (
          (some ft, l, not (is_empty l)),
          rw p (rw h.0 (rw q refl)),
          ([], l, refl, refl, tt, p, q, refl),
        )
      ]
    ]

pub tickle_if-fibers : (b : Bool) (s : Scheduler) → (tickle_if b s).fibers ≡ s.fibers
tickle_if-fibers true s = refl
tickle_if-fibers false s = refl

is_empty-append : (l : List FiberAndThread) (ft : FiberAndThread) → is_empty (l ++ ft ∷ []) ≡ false
is_empty-append [] ft = refl
is_empty-append (x ∷ l) ft = refl

schedule_each_lem :
    (l : List FiberAndThread) (b : Bool) (s : Scheduler)
    → schedule_each l b s
      ≡ ((is_empty s.fibers && not (is_empty l)) || b, record s { fibers = s.fibers ++ tasks l })
unfolding schedule_each schedule_no_lock
schedule_each_lem [] b s = rw append-nil (ap (λ c. (c, s)) (ground arith))
schedule_each_lem (ft ∷ l) b s = elim (Bool-cases (is_task ft)) [
  | inl h ↦ rw h (
      schedule_each_lem l (is_empty s.fibers || b) (record s { fibers = s.fibers ++ ft ∷ [] })
      ∙ rw (is_empty-append s.fibers ft) (
          rw append_assoc
            (ap (λ c. (c, record s { fibers = s.fibers ++ ft ∷ tasks l })) (ground arith))))
  | inr h ↦ rw h (
      schedule_each_lem l (is_empty s.fibers || b) s
      ∙ ap (λ c. (c, record s { fibers = s.fibers ++ tasks l })) (ground arith))
]

-- `schedule` of a range puts its tasks behind the queue in their order, leaves out what has no
-- fiber and no function, and tickles once if the queue was empty and the range is not, else never.
-- `schedule` of one task does what it does for the range of that task.
pub schedule_range_lem :
    (l : List FiberAndThread) (s : Scheduler)
    → (schedule_range l s
        ≡ tickle_if
            (is_empty s.fibers && not (is_empty l))
            (record s { fibers = s.fibers ++ tasks l }))
      × ((ft : FiberAndThread) → schedule ft s ≡ schedule_range (ft ∷ []) s)
unfolding schedule_range schedule schedule_each schedule_no_lock
schedule_range_lem l s = (
  ap (λ ((b, t) : Bool × Scheduler). tickle_if b t) (schedule_each_lem l false s)
      ∙ ap (λ b. tickle_if b (record s { fibers = s.fibers ++ tasks l })) (ground arith),
  λ ft.
      ap (λ b. tickle_if b (if is_task ft then record s { fibers = s.fibers ++ ft ∷ [] } else s))
        (ground arith),
)

AreTasks-append : (l m : List FiberAndThread) → AreTasks l → AreTasks m → AreTasks (l ++ m)
AreTasks-append [] m h k = k
AreTasks-append (x ∷ l) m h k = (h.0, AreTasks-append l m h.1 k)

pub AreTasks-remove :
    (before after : List FiberAndThread) (ft : FiberAndThread)
    → AreTasks (before ++ ft ∷ after)
    → AreTasks (before ++ after)
AreTasks-remove [] after ft h = h.1
AreTasks-remove (x ∷ l) after ft h = (h.0, AreTasks-remove l after ft h.1)

pub schedule-AreTasks :
    (ft : FiberAndThread) (s : Scheduler) → AreTasks s.fibers → AreTasks (schedule ft s).fibers
unfolding schedule schedule_no_lock
schedule-AreTasks ft s h = elim (Bool-cases (is_task ft)) [
  | inl t ↦
      rw (tickle_if-fibers (is_empty s.fibers) _)
        (rw t (AreTasks-append s.fibers (ft ∷ []) h (t, tt)))
  | inr t ↦ rw (tickle_if-fibers (is_empty s.fibers) _) (rw t h)
]
