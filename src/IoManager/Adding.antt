-- ===== src/IoManager/Adding.antt =====
-- `IOManager::addEvent` on a consistent manager.
use fxk.Base.{
  ℕ, Bool, true, false, Option, none, some, List, ◌≡◌, refl, sym, ap, ◌∙◌, ◌⊎◌, inl, inr, arith,
  Option-cases, ◌==◌, ==_refl, if◌then◌else◌, is_set, get_elem?, set, ok,
}
use fxk.Fiber.State.{is_exec}
use fxk.IoManager.Events.{Event, has, add_flag, edge_triggered}
use fxk.IoManager.Contexts.{FdContext, EventContext, put_context}
use fxk.IoManager.Flags.{IsFlags, IsIo, is_read, is_write, add_flag_lem, add_flag-edge_triggered}
use fxk.IoManager.Slots.{IsContext, IsSlot, slot, slot-empty, armed, armed-IsContext}
use fxk.IoManager.Table.{
  AreContexts-get, table_for-AreContexts, count_events-table_for, table_for-length,
  get_elem?-table_for, get_elem?-table_for_inv, get_elem?-lt, get_elem?-set,
}
use fxk.IoManager.Invariant.{
  IsConsistent, wanted, change-IsConsistent, increment-count, bits, bits-add_flag,
}
use fxk.IoManager.{
  ctl_add, ctl_mod, Epoll, IoManager, Caller, table_for, add_registered, add_event, increment,
  interest_after,
}

has_zero : (event : Event) → IsIo event → has event 0 ≡ false
unfolding has
has_zero event is_read = refl
has_zero event is_write = refl

module _ (epoll : Epoll) (tickle_fd : ℕ) where
  open epoll use {Kernel, ctl, interest}

  grown-IsConsistent :
      (fd : ℕ) (m : IoManager Kernel)
      → IsConsistent epoll tickle_fd m
      → IsConsistent epoll tickle_fd (record m { contexts = table_for fd m.contexts })
  grown-IsConsistent fd m v = record {
    table = table_for-AreContexts fd m.contexts v.table;
    room = omega (arith, (table_for-length fd m.contexts v.room).1, v.room);
    counted = rw count_events-table_for v.counted;
    watched = λ g c away e. elim (get_elem?-table_for_inv fd g m.contexts c e) [
      | inl old ↦ v.watched g c away old
      | inr (gone, z) ↦ v.unwatched g away gone ∙ rw z refl
    ];
    unwatched = λ g away e. elim (Option-cases (get_elem? m.contexts g)) [
      | inl gone ↦ v.unwatched g away gone
      | inr (c, old) ↦ absurd (ground (arith, get_elem?-table_for fd g m.contexts c old))
    ];
  }

  -- What the context remembers of the caller.
  abbrev pub remembered : Option ℕ → Caller → EventContext
  remembered (some c) caller = record { scheduler = caller.scheduler; fiber = none; cb = some c }
  remembered none caller = record {
    scheduler = caller.scheduler;
    fiber = some caller.fiber;
    cb = none;
  }

  remembered-IsSlot :
      (cb : Option ℕ) (caller : Caller)
      → is_set caller.scheduler ≡ true
      → IsSlot true (remembered cb caller)
  remembered-IsSlot (some c) caller h = (h, refl)
  remembered-IsSlot none caller h = (h, refl)

  abbrev pub after_add :
      ℕ → Event → Option ℕ → Caller → FdContext → IoManager Kernel → Kernel → IoManager Kernel
  after_add fd event cb caller c m k = record m {
    contexts = set m.contexts fd (armed event (remembered cb caller) c);
    pending = increment m.pending;
    kernel = k;
  }

  add_registered_lem :
      (fd : ℕ) (event : Event) (cb : Option ℕ) (caller : Caller) (c : FdContext)
      (m : IoManager Kernel) (l : List FdContext) (k : Kernel)
      → IsIo event
      → IsContext c
      → has event c.events ≡ false
      → (cb ≡ none → is_exec caller.fiber_state ≡ true)
      → add_registered epoll fd event cb caller c l m k
        ≡ ok (true, after_add fd event cb caller c (record m { contexts = l }) k)
  unfolding add_registered
  add_registered_lem fd event (some a) caller c m l k i v h runs = rw (slot-empty event c i v h)
  add_registered_lem fd event none caller c m l k i v h runs =
      rw (slot-empty event c i v h, runs refl)

  -- Either way, a successful call leaves the flags with epoll.
  add_op_wanted :
      (fresh : Bool) (event : Event) (events : ℕ)
      → IsIo event
      → IsFlags events
      → interest_after (if fresh then ctl_add else ctl_mod) (add_flag event (edge_triggered events))
        ≡ wanted (add_flag event events)
  add_op_wanted true event events i f =
      let (_, _, _, ne) = add_flag_lem events event i f in
      rw (ne, add_flag-edge_triggered events event i f)
  add_op_wanted false event events i f =
      let (_, _, _, ne) = add_flag_lem events event i f in
      rw (ne, add_flag-edge_triggered events event i f)

  armed_facts :
      (event : Event) (x : EventContext) (c : FdContext)
      → IsIo event
      → (slot event (armed event x c) ≡ x)
        × ((armed event x c).fd ≡ c.fd)
        × ((armed event x c).events ≡ add_flag event c.events)
  unfolding put_context
  armed_facts event x c is_read = (refl, refl, refl)
  armed_facts event x c is_write = (refl, refl, refl)

  unregistered :
      (fd : ℕ) (event : Event) (m : IoManager Kernel) (c : FdContext)
      → IsIo event
      → ((c : FdContext) → get_elem? m.contexts fd ≡ some c → has event c.events ≡ false)
      → get_elem? (table_for fd m.contexts) fd ≡ some c
      → has event c.events ≡ false
  unregistered fd event m c i fresh e = elim (get_elem?-table_for_inv fd fd m.contexts c e) [
    | inl old ↦ fresh c old
    | inr (_, z) ↦ rw z (has_zero event i)
  ]

  -- What `addEvent` leaves of its manager.
  pub record Adds (fd : ℕ) (event : Event) (cb : Option ℕ) (caller : Caller) (m : IoManager Kernel)
      (r : Bool × IoManager Kernel) : Type 0 where
    pub consistent : IsConsistent epoll tickle_fd r.1
    pub quiet : r.1.scheduled ≡ m.scheduled
    pub outcome :
        ((r.0 ≡ true)
          × (r.1.pending ≡ increment m.pending)
          × ((c : FdContext) × (get_elem? r.1.contexts fd ≡ some c)
              × (has event c.events ≡ true)
              × (slot event c ≡ remembered cb caller)))
        ⊎ ((r.0 ≡ false)
            × (r.1.pending ≡ m.pending)
            × (r.1.kernel ≡ m.kernel)
            × ((c : FdContext) × (get_elem? r.1.contexts fd ≡ some c)
                × (ctl
                      (if c.events == 0 then ctl_add else ctl_mod)
                      fd
                      (add_flag event (edge_triggered c.events))
                      m.kernel
                    ≡ none)))

  after_add-Adds :
      (fd : ℕ) (event : Event) (cb : Option ℕ) (caller : Caller) (m : IoManager Kernel)
      (c : FdContext) (k : Kernel)
      → IsConsistent epoll tickle_fd m
      → IsIo event
      → is_set caller.scheduler ≡ true
      → get_elem? m.contexts fd ≡ some c
      → has event c.events ≡ false
      → ctl
          (if c.events == 0 then ctl_add else ctl_mod)
          fd
          (add_flag event (edge_triggered c.events))
          m.kernel
        ≡ some k
      → Adds fd event cb caller m (true, after_add fd event cb caller c m k)
  after_add-Adds fd event cb caller m c k v i s e h told =
      let x = remembered cb caller in
      let good = (AreContexts-get 0 fd m.contexts c v.table e).1 in
      let (facts_slot, facts_fd, facts_events) = armed_facts event x c i in
      record {
        consistent =
            change-IsConsistent epoll tickle_fd m fd _ _ c (armed event x c) _ k m.scheduled v e
              facts_fd (armed-IsContext event x c i (remembered-IsSlot cb caller s) good) told
              (add_op_wanted (c.events == 0) event c.events i good.flags
                ∙ ap wanted (sym facts_events))
              (increment-count epoll tickle_fd m fd c (armed event x c) v e
                (ap bits facts_events ∙ bits-add_flag event c.events i good.flags h));
        quiet = refl;
        outcome = inl (
          refl,
          refl,
          (
            armed event x c,
            get_elem?-set fd fd m.contexts c (armed event x c) e ∙ rw (==_refl fd),
            rw facts_events (add_flag_lem c.events event i good.flags).1,
            facts_slot,
          ),
        );
      }

  -- On a consistent manager, called under a scheduler (and
  -- from a running fiber, if there is no callback), for an event that is not yet registered:
  -- `addEvent` raises no fault; the manager stays consistent, so that the counter counts the
  -- registered events and epoll watches exactly those; nothing is scheduled; on success the counter
  -- is one higher and the event is registered for the callback, or for the calling fiber; it fails only
  -- where epoll refuses, and then the counter and epoll are as before.
  pub add_event-Adds :
      (fd : ℕ) (event : Event) (cb : Option ℕ) (caller : Caller) (m : IoManager Kernel)
      → IsConsistent epoll tickle_fd m
      → IsIo event
      → is_set caller.scheduler ≡ true
      → (cb ≡ none → is_exec caller.fiber_state ≡ true)
      → ((c : FdContext) → get_elem? m.contexts fd ≡ some c → has event c.events ≡ false)
      → (r : Bool × IoManager Kernel) × (add_event epoll fd event cb caller m ≡ ok r)
        × Adds fd event cb caller m r
  unfolding add_event
  add_event-Adds fd event cb caller m v i s runs fresh =
      let m' : IoManager Kernel = record m { contexts = table_for fd m.contexts } in
      let v' = grown-IsConsistent fd m v in
      let (c, e) =
        get_elem?-lt (table_for fd m.contexts) fd (table_for-length fd m.contexts v.room).0 in
      let h : has event c.events ≡ false = unregistered fd event m c i fresh e in
      elim (Option-cases (
        ctl (if c.events == 0 then ctl_add else ctl_mod) fd
          (add_flag event (edge_triggered c.events)) m.kernel)) [
            | inl refused ↦ (
              (false, m'),
              rw e (rw h (rw refused)),
              record {
                consistent = v';
                quiet = refl;
                outcome = inr (refl, refl, refl, (c, e, refused));
              },
            )
            | inr (k, told) ↦ (
              (true, after_add fd event cb caller c m' k),
              rw e (
                  rw h (
                    rw told (
                      add_registered_lem fd event cb caller c m (table_for fd m.contexts) k i
                        (AreContexts-get 0 fd (table_for fd m.contexts) c v'.table e).1 h runs))),
              (let a = after_add-Adds fd event cb caller m' c k v' i s e h told in
                  record { consistent = a.consistent; quiet = a.quiet; outcome = a.outcome }),
            )
          ]
