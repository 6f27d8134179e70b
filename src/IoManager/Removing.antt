-- ===== src/IoManager/Removing.antt =====
-- `IOManager::delEvent` and `cancelEvent` on a consistent manager.
use mathlib.Core.List.{append-nil}
use fxk.Base.{
  ℕ, ◌+◌, Bool, true, false, Option, none, some, [], ◌∷◌, ◌++◌, ◌≡◌, refl, sym, ap, ◌∙◌, ◌⊎◌, inl,
  inr, Bool-cases, Option-cases, ◌==◌, ==_refl, if◌then◌else◌, get_elem?, set, Result, ok, ◌>>=◌,
}
use fxk.IoManager.Events.{Event, has, clear, edge_triggered}
use fxk.IoManager.Contexts.{FdContext, EventContext, Task, Scheduled, get_context, put_context}
use fxk.IoManager.Flags.{IsIo, is_read, is_write}
use fxk.IoManager.Slots.{IsContext, slot, Wakes, cleared, cleared-IsContext, trigger_event_lem}
use fxk.IoManager.Table.{AreContexts-get, get_elem?-set}
use fxk.IoManager.Invariant.{
  IsConsistent, wanted, change-IsConsistent, decrement-count, bits, bits-clear,
}
use fxk.IoManager.{
  CtlOp, ctl_mod, ctl_del, Epoll, IoManager, interest_after, decrement, with_fd, del_in, cancel_in,
  trigger_in, del_event, cancel_event,
}

pub del_op_wanted :
    (new : ℕ)
    → interest_after (if new == 0 then ctl_del else ctl_mod) (edge_triggered new) ≡ wanted new
del_op_wanted new = elim (Bool-cases (new == 0)) [ inl e ↦ rw e | inr e ↦ rw e ]

pub cleared_facts :
    (event : Event) (c : FdContext)
    → IsIo event
    → ((cleared event c).fd ≡ c.fd) × ((cleared event c).events ≡ clear event c.events)
unfolding put_context
cleared_facts event c is_read = (refl, refl)
cleared_facts event c is_write = (refl, refl)

module _ (epoll : Epoll) (tickle_fd : ℕ) where
  open epoll use {Kernel, ctl, interest}

  abbrev pub remove_op : Event → FdContext → CtlOp
  remove_op event c = if clear event c.events == 0 then ctl_del else ctl_mod

  abbrev pub after_remove :
      ℕ → Event → FdContext → IoManager Kernel → Kernel → Scheduled → IoManager Kernel
  after_remove fd event c m k log = record {
    contexts = set m.contexts fd (cleared event c);
    pending = decrement m.pending;
    kernel = k;
    scheduled = log;
  }

  pub after_remove-IsConsistent :
      (fd : ℕ) (event : Event) (m : IoManager Kernel) (c : FdContext) (k : Kernel) (log : Scheduled)
      → IsConsistent epoll tickle_fd m
      → IsIo event
      → get_elem? m.contexts fd ≡ some c
      → has event c.events ≡ true
      → ctl (remove_op event c) fd (edge_triggered (clear event c.events)) m.kernel ≡ some k
      → IsConsistent epoll tickle_fd (after_remove fd event c m k log)
  after_remove-IsConsistent fd event m c k log v i e h told =
      let good = (AreContexts-get 0 fd m.contexts c v.table e).1 in
      let (same, new) = cleared_facts event c i in
      change-IsConsistent epoll tickle_fd m fd _ _ c (cleared event c) _ k log v e same
        (cleared-IsContext event c i good) told
        (del_op_wanted (clear event c.events) ∙ ap wanted (sym new))
        (decrement-count epoll tickle_fd m.pending fd m.contexts c (cleared event c) v.counted e
          (bits-clear event c.events i good.flags h ∙ ap (λ n. bits n + 1) (sym new)))

  -- Why `delEvent` and `cancelEvent` have nothing to do: the descriptor is outside the table, the
  -- event is not registered, or epoll refuses.
  abbrev pub Refuses : ℕ → Event → IoManager Kernel → Type 0
  Refuses fd event m =
      (get_elem? m.contexts fd ≡ none)
      ⊎ ((c : FdContext) × (get_elem? m.contexts fd ≡ some c)
          × ((has event c.events ≡ false)
              ⊎ (ctl (remove_op event c) fd (edge_triggered (clear event c.events)) m.kernel
                  ≡ none)))

  -- What `delEvent` and `cancelEvent` leave: `woken` is what is scheduled.
  pub record Removes (fd : ℕ) (event : Event) (woken : EventContext → Scheduled → Type 0)
      (m : IoManager Kernel) (r : Bool × IoManager Kernel) : Type 0 where
    pub consistent : IsConsistent epoll tickle_fd r.1
    pub outcome :
        ((r.0 ≡ false) × (r.1 ≡ m) × Refuses fd event m)
        ⊎ ((r.0 ≡ true)
            × ((c : FdContext) × (log : Scheduled) × (get_elem? m.contexts fd ≡ some c)
                × (has event c.events ≡ true)
                × (get_elem? r.1.contexts fd ≡ some (cleared event c))
                × (r.1.pending ≡ decrement m.pending)
                × (r.1.scheduled ≡ m.scheduled ++ log)
                × woken (slot event c) log))

  abbrev pub IsQuiet : EventContext → Scheduled → Type 0
  IsQuiet x log = log ≡ []

  abbrev pub IsWoken : EventContext → Scheduled → Type 0
  IsWoken x log = (s : ℕ) × (t : Task) × (log ≡ (s, t) ∷ []) × Wakes x s t

  unchanged-Removes :
      (fd : ℕ) (event : Event) (woken : EventContext → Scheduled → Type 0) (m : IoManager Kernel)
      → IsConsistent epoll tickle_fd m
      → Refuses fd event m
      → Removes fd event woken m (false, m)
  unchanged-Removes fd event woken m v why = record {
    consistent = v;
    outcome = inl (refl, refl, why);
  }

  del_in_lem :
      (fd : ℕ) (event : Event) (m : IoManager Kernel) (c : FdContext) (k : Kernel)
      → IsIo event
      → has event c.events ≡ true
      → ctl (remove_op event c) fd (edge_triggered (clear event c.events)) m.kernel ≡ some k
      → del_in epoll fd event m c ≡ ok (true, after_remove fd event c m k m.scheduled)
  unfolding del_in get_context
  del_in_lem fd event m c k is_read h told = rw h (rw told)
  del_in_lem fd event m c k is_write h told = rw h (rw told)

  del_in_refused :
      (fd : ℕ) (event : Event) (m : IoManager Kernel) (c : FdContext)
      → (has event c.events ≡ false)
        ⊎ (ctl (remove_op event c) fd (edge_triggered (clear event c.events)) m.kernel ≡ none)
      → del_in epoll fd event m c ≡ ok (false, m)
  unfolding del_in
  del_in_refused fd event m c (inl h) = rw h
  del_in_refused fd event m c (inr told) = elim (Bool-cases (has event c.events)) [
    | inl h ↦ rw h (rw told)
    | inr h ↦ rw h
  ]

  abbrev told_of : ℕ → Event → IoManager Kernel → FdContext → Option Kernel
  told_of fd event m c = ctl (remove_op event c) fd (edge_triggered (clear event c.events)) m.kernel

  with_fd-some :
      (fd : ℕ) (m : IoManager Kernel) (f : FdContext → Result (Bool × IoManager Kernel))
      (c : FdContext)
      → get_elem? m.contexts fd ≡ some c
      → with_fd epoll fd m f ≡ f c
  unfolding with_fd
  with_fd-some fd m f c e = rw (e, with_fd)

  with_fd-none :
      (fd : ℕ) (m : IoManager Kernel) (f : FdContext → Result (Bool × IoManager Kernel))
      → get_elem? m.contexts fd ≡ none
      → with_fd epoll fd m f ≡ ok (false, m)
  unfolding with_fd
  with_fd-none fd m f e = rw (e, with_fd)

  -- What the two operations share.
  with_fd-Removes :
      (fd : ℕ) (event : Event) (woken : EventContext → Scheduled → Type 0) (m : IoManager Kernel)
      (f : FdContext → Result (Bool × IoManager Kernel))
      → IsConsistent epoll tickle_fd m
      → IsIo event
      → ((c : FdContext)
          → (has event c.events ≡ false) ⊎ (told_of fd event m c ≡ none)
          → f c ≡ ok (false, m))
      → ((c : FdContext) (k : Kernel)
          → IsContext c
          → has event c.events ≡ true
          → told_of fd event m c ≡ some k
          → (log : Scheduled) × (f c ≡ ok (true, after_remove fd event c m k (m.scheduled ++ log)))
            × woken (slot event c) log)
      → (r : Bool × IoManager Kernel) × (with_fd epoll fd m f ≡ ok r) × Removes fd event woken m r
  with_fd-Removes fd event woken m f v i refuses works =
      elim (Option-cases (get_elem? m.contexts fd)) [
        | inl e ↦ ((false, m), with_fd-none fd m f e, unchanged-Removes fd event woken m v (inl e))
        | inr (c, e) ↦ elim (Bool-cases (has event c.events)) [
          | inr h ↦ (
            (false, m),
            with_fd-some fd m f c e ∙ refuses c (inl h),
            unchanged-Removes fd event woken m v (inr (c, e, inl h)),
          )
          | inl h ↦ elim (Option-cases (told_of fd event m c)) [
            | inl told ↦ (
              (false, m),
              with_fd-some fd m f c e ∙ refuses c (inr told),
              unchanged-Removes fd event woken m v (inr (c, e, inr told)),
            )
            | inr (k, told) ↦
                let good = (AreContexts-get 0 fd m.contexts c v.table e).1 in
                let (log, does, wakes) = works c k good h told in
                (
                  (true, after_remove fd event c m k (m.scheduled ++ log)),
                  with_fd-some fd m f c e ∙ does,
                  record {
                    consistent =
                        after_remove-IsConsistent fd event m c k (m.scheduled ++ log) v i e h told;
                    outcome = inr (
                      refl,
                      (
                        c,
                        log,
                        e,
                        h,
                        get_elem?-set fd fd m.contexts c (cleared event c) e ∙ rw (==_refl fd),
                        refl,
                        refl,
                        wakes,
                      ),
                    );
                  },
                )
          ]
        ]
      ]

  -- On a consistent manager `delEvent` of a read or write event raises no fault, and the manager
  -- stays consistent. It answers false, and changes nothing, only where the
  -- event is not registered or epoll refuses; if it answers true, the event was
  -- registered and is no longer, the counter is one lower, and nothing is scheduled.
  pub del_event-Removes :
      (fd : ℕ) (event : Event) (m : IoManager Kernel)
      → IsConsistent epoll tickle_fd m
      → IsIo event
      → (r : Bool × IoManager Kernel) × (del_event epoll fd event m ≡ ok r)
        × Removes fd event IsQuiet m r
  unfolding del_event
  del_event-Removes fd event m v i =
      with_fd-Removes fd event IsQuiet m (del_in epoll fd event m) v i (del_in_refused fd event m)
        λ c k good h told. (
          [],
          del_in_lem fd event m c k i h told
              ∙ ap (λ l. ok (true, after_remove fd event c m k l)) (sym (append-nil m.scheduled)),
          refl,
        )

  pub trigger_in_lem :
      (fd : ℕ) (event : Event) (c : FdContext) (m : IoManager Kernel)
      → IsIo event
      → IsContext c
      → has event c.events ≡ true
      → (log : Scheduled) × (trigger_in epoll fd event c m
          ≡ ok (cleared event c, after_remove fd event c m m.kernel (m.scheduled ++ log)))
        × IsWoken (slot event c) log
  unfolding trigger_in
  trigger_in_lem fd event c m i good h =
      let (s, t, e, w) = trigger_event_lem event c m.scheduled i good h in
      ((s, t) ∷ [], rw e refl, (s, t, refl, w))

  cancel_in_refused :
      (fd : ℕ) (event : Event) (m : IoManager Kernel) (c : FdContext)
      → (has event c.events ≡ false) ⊎ (told_of fd event m c ≡ none)
      → cancel_in epoll fd event m c ≡ ok (false, m)
  unfolding cancel_in
  cancel_in_refused fd event m c (inl h) = rw h
  cancel_in_refused fd event m c (inr told) = elim (Bool-cases (has event c.events)) [
    | inl h ↦ rw h (rw told)
    | inr h ↦ rw h
  ]

  cancel_in_lem :
      (fd : ℕ) (event : Event) (m : IoManager Kernel) (c : FdContext) (k : Kernel)
      → IsIo event
      → IsContext c
      → has event c.events ≡ true
      → told_of fd event m c ≡ some k
      → (log : Scheduled) × (cancel_in epoll fd event m c
          ≡ ok (true, after_remove fd event c m k (m.scheduled ++ log)))
        × IsWoken (slot event c) log
  unfolding cancel_in
  cancel_in_lem fd event m c k i good h told =
      let (log, e, w) = trigger_in_lem fd event c (record m { kernel = k }) i good h in
      (log, rw h (rw told (ap (λ r. r >>= λ (_, m'). ok (true, m')) e)), w)

  -- On a consistent manager `cancelEvent` of a read or write event raises no fault, and the
  -- manager stays consistent. It answers false, and changes nothing, only where the
  -- event is not registered or epoll refuses; if it answers true, the
  -- event was registered and is no longer, the counter is one lower, and exactly the callback or
  -- fiber that waited for the event is scheduled, once, with the scheduler that registered it.
  pub cancel_event-Removes :
      (fd : ℕ) (event : Event) (m : IoManager Kernel)
      → IsConsistent epoll tickle_fd m
      → IsIo event
      → (r : Bool × IoManager Kernel) × (cancel_event epoll fd event m ≡ ok r)
        × Removes fd event IsWoken m r
  unfolding cancel_event
  cancel_event-Removes fd event m v i =
      with_fd-Removes fd event IsWoken m (cancel_in epoll fd event m) v i
        (cancel_in_refused fd event m) λ c k good h told. cancel_in_lem fd event m c k i good h told
