-- ===== src/IoManager/Waking.antt =====
-- What `idle` does with an event of `epoll_wait` whose events are registered.
use fxk.Base.{
  none, false, ℕ, ◌+◌, Bool, true, some, ◌++◌, ◌≡◌, refl, ap, ◌∙◌, ◌⊎◌, inl, inr, arith, Bool-cases,
  Option-cases, ◌==◌, ==_refl, if◌then◌else◌, get_elem?, ok,
}
use fxk.IoManager.Events.{
  read, write, has, edge_triggered, epoll_in, epoll_out, real_events, hits, left_events,
  seen_events, sees,
}
use fxk.IoManager.Contexts.{FdContext, Scheduled}
use fxk.IoManager.Flags.{IsFlags, clear_if, left_events_lem, real_events_lem}
use fxk.IoManager.Slots.{IsContext}
use fxk.IoManager.Table.{AreContexts-get, get_elem?-set}
use fxk.IoManager.Invariant.{IsConsistent, wanted}
use fxk.IoManager.Removing.{del_op_wanted}
use fxk.IoManager.Both.{
  both, decrement_if, after_both, Woken, trigger_both, after_both-IsConsistent,
}
use fxk.IoManager.{
  ctl_mod, ctl_del, Epoll, IoManager, interest_after, wake_real, ready_in, handle_ready,
}

pub same_place : (c : FdContext) (fd : ℕ) → c.fd ≡ 0 + fd → c.fd ≡ fd
same_place c fd e = omega arith

module _ (epoll : Epoll) (tickle_fd : ℕ) where
  open epoll use {Kernel, ctl, interest}

  -- What an operation on several events leaves: nothing changes, or the events `r` and `w` are
  -- woken and gone.
  pub record WakesBoth (fd : ℕ) (r w : Bool) (c : FdContext) (m m' : IoManager Kernel)
      : Type 0 where
    pub log : Scheduled
    pub woken : Woken epoll tickle_fd r w c log
    pub context_is : get_elem? m'.contexts fd ≡ some (both r w c)
    pub pending_is : m'.pending ≡ decrement_if w (decrement_if r m.pending)
    pub scheduled_is : m'.scheduled ≡ m.scheduled ++ log

  wake_real_lem :
      (r w : Bool) (fd : ℕ) (c : FdContext) (m : IoManager Kernel)
      → IsContext c
      → get_elem? m.contexts fd ≡ some c
      → (r ≡ true → has read c.events ≡ true)
      → (w ≡ true → has write c.events ≡ true)
      → (log : Scheduled) × (wake_real epoll fd r w c m
          ≡ ok (after_both epoll tickle_fd fd r w c log m))
        × Woken epoll tickle_fd r w c log
  unfolding wake_real
  wake_real_lem r w fd c m good e h k =
      let (log, m1, t1, t2, wk) = trigger_both epoll tickle_fd r w fd c m good e h k in
      (log, rw t1 (rw t2), wk)

  -- What is left of the flags decides the call of epoll.
  ready_op_wanted :
      (r w : Bool) (events : ℕ)
      → IsFlags events
      → interest_after
          (if left_events events (real_events r w) == 0 then ctl_del else ctl_mod)
          (edge_triggered (left_events events (real_events r w)))
        ≡ wanted (clear_if w write (clear_if r read events))
  ready_op_wanted r w events f =
      del_op_wanted (left_events events (real_events r w))
      ∙ ap wanted (left_events_lem events r w f)

  -- The handler has nothing to do for a descriptor none of whose events is reported, or that epoll
  -- refuses to change.
  abbrev pub PassesOver : Bool → Bool → FdContext → IoManager Kernel → Type 0
  PassesOver r w c m =
      let left = left_events c.events (real_events r w) in
      (hits c.events (real_events r w) ≡ false)
      ⊎ (ctl (if left == 0 then ctl_del else ctl_mod) c.fd (edge_triggered left) m.kernel ≡ none)

  ready_in_lem :
      (r w : Bool) (fd : ℕ) (c : FdContext) (m : IoManager Kernel)
      → IsConsistent epoll tickle_fd m
      → get_elem? m.contexts fd ≡ some c
      → (r ≡ true → has read c.events ≡ true)
      → (w ≡ true → has write c.events ≡ true)
      → (m' : IoManager Kernel) × (ready_in epoll fd (real_events r w) m c ≡ ok m')
        × IsConsistent epoll tickle_fd m'
        × (((m' ≡ m) × PassesOver r w c m) ⊎ WakesBoth fd r w c m m')
  unfolding ready_in
  ready_in_lem r w fd c m v e h k =
      let (place, good) = AreContexts-get 0 fd m.contexts c v.table e in
      let real = real_events r w in
      let left = left_events c.events real in
      elim (Bool-cases (hits c.events real)) [
        | inr miss ↦ (m, rw miss refl, v, inl (refl, inl miss))
        | inl hit ↦
            elim (Option-cases
              (ctl (if left == 0 then ctl_del else ctl_mod) c.fd (edge_triggered left) m.kernel)) [
                | inl refused ↦ (m, rw hit (rw refused refl), v, inl (refl, inr refused))
                | inr (k', told) ↦
                    let (log, does, wk) =
                      wake_real_lem r w fd c (record m { kernel = k' }) good e h k in
                    (
                      after_both epoll tickle_fd fd r w c log (record m { kernel = k' }),
                      rw hit (rw told (rw ((real_events_lem r w).0, (real_events_lem r w).1) does)),
                      after_both-IsConsistent epoll tickle_fd r w fd _ c _ k' log m v e h k
                          (rw (same_place c fd place) at told)
                          (ready_op_wanted r w c.events good.flags),
                      inr (record {
                        log = log;
                        woken = wk;
                        context_is =
                            get_elem?-set fd fd m.contexts c (both r w c) e ∙ rw (==_refl fd);
                        pending_is = refl;
                        scheduled_is = refl;
                      }),
                    )
              ]
      ]

  -- An event of `epoll_wait` for a descriptor of a consistent manager, where the kernel reports
  -- only events that are registered: the handler of `idle` ends without an error and leaves a
  -- consistent manager. It is the old one, where no registered event is reported or epoll refuses,
  -- or exactly the reported events are woken in it.
  pub handle_ready-Wakes :
      (fd kernel_events : ℕ) (c : FdContext) (m : IoManager Kernel)
      → IsConsistent epoll tickle_fd m
      → get_elem? m.contexts fd ≡ some c
      → (sees epoll_in (seen_events kernel_events c.events) ≡ true → has read c.events ≡ true)
      → (sees epoll_out (seen_events kernel_events c.events) ≡ true → has write c.events ≡ true)
      → (m' : IoManager Kernel) × (handle_ready epoll fd kernel_events m ≡ ok m')
        × IsConsistent epoll tickle_fd m'
        × (((m' ≡ m)
              × PassesOver
                  (sees epoll_in (seen_events kernel_events c.events))
                  (sees epoll_out (seen_events kernel_events c.events))
                  c
                  m)
            ⊎ WakesBoth fd
                (sees epoll_in (seen_events kernel_events c.events))
                (sees epoll_out (seen_events kernel_events c.events))
                c
                m
                m')
  unfolding handle_ready
  handle_ready-Wakes fd kernel_events c m v e h k =
      let seen = seen_events kernel_events c.events in
      let (m', does, v', out) =
        ready_in_lem (sees epoll_in seen) (sees epoll_out seen) fd c m v e h k in
      (m', rw e does, v', out)
