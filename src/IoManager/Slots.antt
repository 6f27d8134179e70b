-- ===== src/IoManager/Slots.antt =====
-- When a context is in order, and what waking, clearing and registering make of it.
use fxk.Base.{
  ℕ, Bool, true, false, not, none, some, [], ◌∷◌, ◌++◌, ◌≡◌, refl, ap, inl, inr, arith, is_set,
  Option-cases, ok, err, null_pointer,
}
use fxk.IoManager.Events.{Event, no_event, read, write, has, clear, add_flag}
use fxk.IoManager.Flags.{IsFlags, IsIo, is_read, is_write, clear_lem, add_flag_lem}
use fxk.IoManager.Contexts.{
  Task, run_cb, resume_fiber, EventContext, empty_context, FdContext, new_context, get_context,
  put_context, wake, Scheduled, trigger_event,
}

-- Of a registered event the context knows the scheduler, and either a callback or a fiber; of any
-- other it knows nothing.
abbrev pub IsSlot : Bool → EventContext → Type 0
IsSlot true x = (is_set x.scheduler ≡ true) × (is_set x.cb ≡ not (is_set x.fiber))
IsSlot false x = x ≡ empty_context

pub record IsContext (c : FdContext) : Type 0 where
  pub flags : IsFlags c.events
  pub read_slot : IsSlot (has read c.events) c.read_context
  pub write_slot : IsSlot (has write c.events) c.write_context

abbrev pub slot : Event → FdContext → EventContext
slot no_event c = empty_context
slot read c = c.read_context
slot write c = c.write_context

-- The scheduler and the task that a registered event wakes.
abbrev pub Wakes : EventContext → ℕ → Task → Type 0
Wakes x s (run_cb c) = (x.scheduler ≡ some s) × (x.cb ≡ some c)
Wakes x s (resume_fiber f) = (x.scheduler ≡ some s) × (x.fiber ≡ some f)

-- The context without the event.
abbrev pub cleared : Event → FdContext → FdContext
cleared e c = put_context e empty_context (record c { events = clear e c.events })

pub new_context-IsContext : (i : ℕ) → IsContext (new_context i)
unfolding has
new_context-IsContext i = record { flags = inl refl; read_slot = refl; write_slot = refl }

wake_lem :
    (x : EventContext)
    → IsSlot true x
    → (s : ℕ) × (t : Task) × (x.scheduler ≡ some s)
      × (wake x ≡ (empty_context, t ∷ []))
      × Wakes x s t
unfolding wake
wake_lem x (h, k) = elim (Option-cases x.scheduler) [
  | inl e ↦ absurd (ground arith)
  | inr (s, e) ↦ elim (Option-cases x.cb) [
    | inl f ↦ elim (Option-cases x.fiber) [
      | inl g ↦ absurd (ground arith)
      | inr (a, g) ↦ (s, resume_fiber a, e, ground arith, (e, g))
    ]
    | inr (c, f) ↦ (s, run_cb c, e, ground arith, (e, f))
  ]
]

pub cleared-IsContext : (e : Event) (c : FdContext) → IsIo e → IsContext c → IsContext (cleared e c)
unfolding put_context
cleared-IsContext e c is_read v =
    let (f, off, rest) = clear_lem c.events read is_read v.flags in
    record { flags = f; read_slot = rw off refl; write_slot = rw rest v.write_slot }
cleared-IsContext e c is_write v =
    let (f, off, rest) = clear_lem c.events write is_write v.flags in
    record { flags = f; read_slot = rw rest v.read_slot; write_slot = rw off refl }

pub trigger_event_lem :
    (e : Event) (c : FdContext) (log : Scheduled)
    → IsIo e
    → IsContext c
    → has e c.events ≡ true
    → (s : ℕ) × (t : Task) × (trigger_event e c log ≡ ok (cleared e c, log ++ (s, t) ∷ []))
      × Wakes (slot e c) s t
unfolding trigger_event
trigger_event_lem e c log is_read v h =
    let (s, t, p, q, w) = wake_lem c.read_context (rw h at v.read_slot) in
    (s, t, rw p (rw q refl), w)
trigger_event_lem e c log is_write v h =
    let (s, t, p, q, w) = wake_lem c.write_context (rw h at v.write_slot) in
    (s, t, rw p (rw q refl), w)

no_scheduler : (x : EventContext) → x ≡ empty_context → x.scheduler ≡ none
no_scheduler x e = ap (λ (y : EventContext). y.scheduler) e

-- A triggered event whose bit is not set has no scheduler to follow.
pub trigger_event_idle :
    (e : Event) (c : FdContext) (log : Scheduled)
    → IsIo e
    → IsContext c
    → has e c.events ≡ false
    → trigger_event e c log ≡ err null_pointer
unfolding trigger_event
trigger_event_idle e c log is_read v h = rw (no_scheduler c.read_context (rw h at v.read_slot))
trigger_event_idle e c log is_write v h = rw (no_scheduler c.write_context (rw h at v.write_slot))

pub slot-empty :
    (e : Event) (c : FdContext)
    → IsIo e
    → IsContext c
    → has e c.events ≡ false
    → get_context e c ≡ ok empty_context
unfolding get_context
slot-empty e c is_read v h = ap ok (rw h at v.read_slot)
slot-empty e c is_write v h = ap ok (rw h at v.write_slot)

-- The context with the event registered.
abbrev pub armed : Event → EventContext → FdContext → FdContext
armed e x c = put_context e x (record c { events = add_flag e c.events })

pub armed-IsContext :
    (e : Event) (x : EventContext) (c : FdContext)
    → IsIo e
    → IsSlot true x
    → IsContext c
    → IsContext (armed e x c)
unfolding put_context
armed-IsContext e x c is_read h v =
    let (f, on, rest, _) = add_flag_lem c.events read is_read v.flags in
    record { flags = f; read_slot = rw on h; write_slot = rw rest v.write_slot }
armed-IsContext e x c is_write h v =
    let (f, on, rest, _) = add_flag_lem c.events write is_write v.flags in
    record { flags = f; read_slot = rw rest v.read_slot; write_slot = rw on h }
