-- ===== src/IoManager/Both.antt =====
-- Waking several events of one descriptor, one behind the other.
use mathlib.Core.List.{append-nil, append_assoc}
use mathlib.Core.Option.{some-injective}
use fxk.Base.{
  ℕ, zero, suc, ◌+◌, ◌%◌, ◌^◌, Bool, true, false, some, List, [], ◌∷◌, ◌++◌, ◌≡◌, refl, sym, ap,
  ◌∙◌, arith, ==_refl, if◌then◌else◌, get_elem?, set, ok,
}
use fxk.IoManager.Events.{Event, read, write, has}
use fxk.IoManager.Contexts.{FdContext, EventContext, Task, Scheduled, put_context}
use fxk.IoManager.Flags.{IsIo, is_read, is_write, clear_lem, clear_if}
use fxk.IoManager.Slots.{IsContext, slot, Wakes, cleared, cleared-IsContext}
use fxk.IoManager.Table.{
  AreContexts-get, get_elem?-set, count_events, events_in, bit, count_events-set,
}
use fxk.IoManager.Invariant.{IsConsistent, wanted, change-IsConsistent, bits, bits-clear}
use fxk.IoManager.Removing.{trigger_in_lem, cleared_facts}
use fxk.IoManager.{CtlOp, Epoll, IoManager, interest_after, decrement, trigger_if}

abbrev pub cleared_if : Bool → Event → FdContext → FdContext
cleared_if b e c = if b then cleared e c else c

abbrev pub decrement_if : Bool → ℕ → ℕ
decrement_if b n = if b then decrement n else n

pub cleared_if-IsContext :
    (b : Bool) (event : Event) (c : FdContext)
    → IsIo event
    → IsContext c
    → IsContext (cleared_if b event c)
cleared_if-IsContext true event c i v = cleared-IsContext event c i v
cleared_if-IsContext false event c i v = v

cleared_if_facts :
    (b : Bool) (event : Event) (c : FdContext)
    → IsIo event
    → ((cleared_if b event c).fd ≡ c.fd)
      × ((cleared_if b event c).events ≡ clear_if b event c.events)
cleared_if_facts true event c i = cleared_facts event c i
cleared_if_facts false event c i = (refl, refl)

bits-cleared_if :
    (b : Bool) (event : Event) (c : FdContext)
    → IsIo event
    → IsContext c
    → (b ≡ true → has event c.events ≡ true)
    → events_in c ≡ events_in (cleared_if b event c) + bit b
bits-cleared_if true event c i v h =
    let (_, new) = cleared_facts event c i in
    bits-clear event c.events i v.flags (h refl) ∙ ap (λ n. bits n + 1) (sym new)
bits-cleared_if false event c i v h = omega arith

-- Waking the reader leaves the writer alone.
pub read_leaves_write :
    (b : Bool) (c : FdContext)
    → IsContext c
    → (has write (cleared_if b read c).events ≡ has write c.events)
      × (slot write (cleared_if b read c) ≡ slot write c)
unfolding put_context
read_leaves_write true c v = ((clear_lem c.events read is_read v.flags).2, refl)
read_leaves_write false c v = (refl, refl)

-- The context without the events that are woken.
abbrev pub both : Bool → Bool → FdContext → FdContext
both r w c = cleared_if w write (cleared_if r read c)

both-IsContext : (r w : Bool) (c : FdContext) → IsContext c → IsContext (both r w c)
both-IsContext r w c v =
    cleared_if-IsContext w write (cleared_if r read c) is_write
      (cleared_if-IsContext r read c is_read v)

pub both_facts :
    (r w : Bool) (c : FdContext)
    → ((both r w c).fd ≡ c.fd) × ((both r w c).events ≡ clear_if w write (clear_if r read c.events))
both_facts r w c =
    let (f1, e1) = cleared_if_facts r read c is_read in
    let (f2, e2) = cleared_if_facts w write (cleared_if r read c) is_write in
    (f2 ∙ f1, e2 ∙ ap (clear_if w write) e1)

bits-both :
    (r w : Bool) (c : FdContext)
    → IsContext c
    → (r ≡ true → has read c.events ≡ true)
    → (w ≡ true → has write c.events ≡ true)
    → events_in c ≡ events_in (both r w c) + (bit r + bit w)
bits-both r w c v h k =
    let v1 = cleared_if-IsContext r read c is_read v in
    let first = bits-cleared_if r read c is_read v h in
    let second =
      bits-cleared_if w write (cleared_if r read c) is_write v1
        (λ e. (read_leaves_write r c v).0 ∙ k e) in
    omega arith

decrement_if-count :
    (r w : Bool) (n : ℕ) (fd : ℕ) (l : List FdContext) (c c' : FdContext)
    → n ≡ count_events l % 2 ^ 64
    → get_elem? l fd ≡ some c
    → events_in c ≡ events_in c' + (bit r + bit w)
    → decrement_if w (decrement_if r n) ≡ count_events (set l fd c') % 2 ^ 64
decrement_if-count true true n fd l c c' v e h = omega (arith, count_events-set fd l c c' e)
decrement_if-count true false n fd l c c' v e h = omega (arith, count_events-set fd l c c' e)
decrement_if-count false true n fd l c c' v e h = omega (arith, count_events-set fd l c c' e)
decrement_if-count false false n fd l c c' v e h = omega (arith, count_events-set fd l c c' e)

set_same : (l : List FdContext) (fd : ℕ) (c : FdContext) → get_elem? l fd ≡ some c → set l fd c ≡ l
set_same [] fd c e = refl
set_same (x ∷ xs) zero c e = ap (λ y. y ∷ xs) (sym (some-injective _ _ e))
set_same (x ∷ xs) (suc fd) c e = ap (◌∷◌ x) (set_same xs fd c e)

set-set : (l : List FdContext) (fd : ℕ) (c d : FdContext) → set (set l fd c) fd d ≡ set l fd d
set-set [] fd c d = refl
set-set (x ∷ xs) zero c d = refl
set-set (x ∷ xs) (suc fd) c d = ap (◌∷◌ x) (set-set xs fd c d)

module _ (epoll : Epoll) (tickle_fd : ℕ) where
  open epoll use {Kernel, ctl, interest}

  -- The task of an event that is woken, and nothing for one that is not.
  abbrev pub IsWokenIf : Bool → EventContext → Scheduled → Type 0
  IsWokenIf true x log = (s : ℕ) × (t : Task) × (log ≡ (s, t) ∷ []) × Wakes x s t
  IsWokenIf false x log = log ≡ []

  abbrev after_wake : ℕ → FdContext → ℕ → Scheduled → IoManager Kernel → IoManager Kernel
  after_wake fd c p log m = record m {
    contexts = set m.contexts fd c;
    pending = p;
    scheduled = m.scheduled ++ log;
  }

  trigger_if_lem :
      (b : Bool) (fd : ℕ) (event : Event) (c : FdContext) (m : IoManager Kernel)
      → IsIo event
      → IsContext c
      → get_elem? m.contexts fd ≡ some c
      → (b ≡ true → has event c.events ≡ true)
      → (log : Scheduled) × (trigger_if epoll b fd event c m
          ≡ ok (
            cleared_if b event c,
            after_wake fd (cleared_if b event c) (decrement_if b m.pending) log m,
          ))
        × IsWokenIf b (slot event c) log
  unfolding trigger_if
  trigger_if_lem true fd event c m i good e h =
      trigger_in_lem epoll tickle_fd fd event c m i good (h refl)
  trigger_if_lem false fd event c m i good e h =
      ([], rw (set_same m.contexts fd c e) (rw append-nil refl), refl)

  after_wake_twice :
      (fd : ℕ) (c d : FdContext) (p q : ℕ) (lr lw : Scheduled) (m : IoManager Kernel)
      → after_wake fd d q lw (after_wake fd c p lr m) ≡ after_wake fd d q (lr ++ lw) m
  after_wake_twice fd c d p q lr lw m = rw (set-set m.contexts fd c d) (rw append_assoc)

  -- The manager after the events are woken.
  abbrev pub after_both :
      ℕ → Bool → Bool → FdContext → Scheduled → IoManager Kernel → IoManager Kernel
  after_both fd r w c log m = record m {
    contexts = set m.contexts fd (both r w c);
    pending = decrement_if w (decrement_if r m.pending);
    scheduled = m.scheduled ++ log;
  }

  -- Both steps, one behind the other.
  abbrev pub Woken : Bool → Bool → FdContext → Scheduled → Type 0
  Woken r w c log =
      (lr : Scheduled) × (lw : Scheduled) × (log ≡ lr ++ lw)
      × IsWokenIf r (slot read c) lr
      × IsWokenIf w (slot write c) lw

  pub trigger_both :
      (r w : Bool) (fd : ℕ) (c : FdContext) (m : IoManager Kernel)
      → IsContext c
      → get_elem? m.contexts fd ≡ some c
      → (r ≡ true → has read c.events ≡ true)
      → (w ≡ true → has write c.events ≡ true)
      → (log : Scheduled) × (m1 : IoManager Kernel) × (trigger_if epoll r fd read c m
          ≡ ok (cleared_if r read c, m1))
        × (trigger_if epoll w fd write (cleared_if r read c) m1
            ≡ ok (both r w c, after_both fd r w c log m))
        × Woken r w c log
  trigger_both r w fd c m v e h k =
      let (lr, t1, w1) = trigger_if_lem r fd read c m is_read v e h in
      let m1 = after_wake fd (cleared_if r read c) (decrement_if r m.pending) lr m in
      let (lw, t2, w2) =
        trigger_if_lem w fd write (cleared_if r read c) m1 is_write
          (cleared_if-IsContext r read c is_read v)
          (get_elem?-set fd fd m.contexts c (cleared_if r read c) e ∙ rw (==_refl fd))
          (λ q. (read_leaves_write r c v).0 ∙ k q) in
      (
        lr ++ lw,
        m1,
        t1,
        t2
            ∙ ap (λ n. ok (both r w c, n))
                (after_wake_twice fd (cleared_if r read c) (both r w c) (decrement_if r m.pending) _
                  lr lw m),
        (lr, lw, refl, w1, rw (read_leaves_write r c v).1 at w2),
      )

  pub after_both-IsConsistent :
      (r w : Bool) (fd flags : ℕ) (c : FdContext) (op : CtlOp) (k : Kernel) (log : Scheduled)
      (m : IoManager Kernel)
      → IsConsistent epoll tickle_fd m
      → get_elem? m.contexts fd ≡ some c
      → (r ≡ true → has read c.events ≡ true)
      → (w ≡ true → has write c.events ≡ true)
      → ctl op fd flags m.kernel ≡ some k
      → interest_after op flags ≡ wanted (clear_if w write (clear_if r read c.events))
      → IsConsistent epoll tickle_fd (after_both fd r w c log (record m { kernel = k }))
  after_both-IsConsistent r w fd flags c op k log m v e h1 h2 told after =
      let good = (AreContexts-get 0 fd m.contexts c v.table e).1 in
      let (same, new) = both_facts r w c in
      change-IsConsistent epoll tickle_fd m fd flags _ c (both r w c) op k _ v e same
        (both-IsContext r w c good) told (after ∙ ap wanted (sym new))
        (decrement_if-count r w m.pending fd m.contexts c (both r w c) v.counted e
          (bits-both r w c good h1 h2))
