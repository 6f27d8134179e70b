-- ===== src/IoManager/CancelAll.antt =====
-- `cancelAll`: what it wakes.
use fxk.Base.{
  ==_iff, none, ℕ, Bool, true, false, some, ◌≡◌, refl, ◌∙◌, ◌⊎◌, inl, inr, Bool-cases, Option-cases,
  ◌==◌, ==_refl, get_elem?, ok,
}
use fxk.IoManager.Events.{read, write, has, clear}
use fxk.IoManager.Contexts.{FdContext, Scheduled}
use fxk.IoManager.Flags.{IsFlags, clear_if}
use fxk.IoManager.Slots.{IsContext}
use fxk.IoManager.Table.{AreContexts-get, get_elem?-set}
use fxk.IoManager.Invariant.{IsConsistent}
use fxk.IoManager.Both.{
  both, both_facts, read_leaves_write, after_both, Woken, trigger_both, after_both-IsConsistent,
}
use fxk.IoManager.{ctl_del, Epoll, IoManager, with_fd, cancel_all_in, cancel_all}
use fxk.IoManager.Waking.{WakesBoth}

-- Nothing is left of flags from which both events are cleared.
clear_all_lem :
    (events : ℕ)
    → IsFlags events
    → clear_if (has write events) write (clear_if (has read events) read events) ≡ 0
unfolding has clear
clear_all_lem events (inl p) = rw p refl
clear_all_lem events (inr (inl p)) = rw p refl
clear_all_lem events (inr (inr (inl p))) = rw p refl
clear_all_lem events (inr (inr (inr p))) = rw p refl

module _ (epoll : Epoll) (tickle_fd : ℕ) where
  open epoll use {Kernel, ctl, interest}

  -- `cancelAll` on the descriptor's context, once epoll has let go of it.
  cancel_all_in_lem :
      (fd : ℕ) (c : FdContext) (m : IoManager Kernel) (k : Kernel)
      → IsContext c
      → get_elem? m.contexts fd ≡ some c
      → (c.events == 0) ≡ false
      → ctl ctl_del fd 0 m.kernel ≡ some k
      → (log : Scheduled) × (cancel_all_in epoll fd m c
          ≡ ok (
            true,
            after_both epoll tickle_fd fd
                (has read c.events)
                (has write c.events)
                c
                log
                (record m { kernel = k }),
          ))
        × Woken epoll tickle_fd (has read c.events) (has write c.events) c log
  unfolding cancel_all_in
  cancel_all_in_lem fd c m k good e some_events told =
      let r = has read c.events in
      let w = has write c.events in
      let (log, m1, t1, t2, wk) =
        trigger_both epoll tickle_fd r w fd c (record m { kernel = k }) good e (λ q. q) (λ q. q) in
      let done = (both_facts r w c).1 ∙ clear_all_lem c.events good.flags in
      (
        log,
        rw some_events (rw told (rw t1 (rw (read_leaves_write r c good).0 (rw t2 (rw done refl))))),
        wk,
      )

  cancel_all_in_outcome :
      (fd : ℕ) (c : FdContext) (m : IoManager Kernel)
      → IsConsistent epoll tickle_fd m
      → get_elem? m.contexts fd ≡ some c
      → (b : Bool) × (m' : IoManager Kernel) × (cancel_all_in epoll fd m c ≡ ok (b, m'))
        × IsConsistent epoll tickle_fd m'
        × (((b ≡ false) × (m' ≡ m) × ((c.events ≡ 0) ⊎ (ctl ctl_del fd 0 m.kernel ≡ none)))
            ⊎ (b ≡ true
                × WakesBoth epoll tickle_fd fd (has read c.events) (has write c.events) c m m'))
  unfolding cancel_all_in
  cancel_all_in_outcome fd c m v e =
      let (place, good) = AreContexts-get 0 fd m.contexts c v.table e in
      let r = has read c.events in
      let w = has write c.events in
      elim (Bool-cases (c.events == 0)) [
        | inl idle ↦ (false, m, rw idle refl, v, inl (refl, refl, inl ((==_iff c.events 0).0 idle)))
        | inr busy ↦ elim (Option-cases (ctl ctl_del fd 0 m.kernel)) [
          | inl refused ↦ (false, m, rw busy (rw refused refl), v, inl (refl, refl, inr refused))
          | inr (k, told) ↦
              let (log, does, wk) = cancel_all_in_lem fd c m k good e busy told in
              (
                true,
                after_both epoll tickle_fd fd r w c log (record m { kernel = k }),
                does,
                after_both-IsConsistent epoll tickle_fd r w fd 0 c ctl_del k log m v e (λ q. q)
                    (λ q. q) told (rw (clear_all_lem c.events good.flags) refl),
                inr (
                  refl,
                  record {
                    log = log;
                    woken = wk;
                    context_is = get_elem?-set fd fd m.contexts c (both r w c) e ∙ rw (==_refl fd);
                    pending_is = refl;
                    scheduled_is = refl;
                  },
                ),
              )
        ]
      ]

  -- `cancelAll` on a descriptor of the table of a consistent manager succeeds or fails without an
  -- error: it answers false and changes nothing, where no event is registered or epoll refuses, or
  -- it answers true, and each event that was registered is gone and its task is scheduled, reader
  -- first. The manager is consistent in both cases.
  pub cancel_all-Wakes :
      (fd : ℕ) (c : FdContext) (m : IoManager Kernel)
      → IsConsistent epoll tickle_fd m
      → get_elem? m.contexts fd ≡ some c
      → (b : Bool) × (m' : IoManager Kernel) × (cancel_all epoll fd m ≡ ok (b, m'))
        × IsConsistent epoll tickle_fd m'
        × (((b ≡ false) × (m' ≡ m) × ((c.events ≡ 0) ⊎ (ctl ctl_del fd 0 m.kernel ≡ none)))
            ⊎ (b ≡ true
                × WakesBoth epoll tickle_fd fd (has read c.events) (has write c.events) c m m'))
  unfolding cancel_all with_fd
  cancel_all-Wakes fd c m v e =
      let (b, m', does, v', out) = cancel_all_in_outcome fd c m v e in
      (b, m', rw (e, cancel_all, with_fd) does, v', out)
