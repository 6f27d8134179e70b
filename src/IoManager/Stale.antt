-- ===== src/IoManager/Stale.antt =====
-- What `idle` does with an event of `epoll_wait` that is not registered.
use fxk.Base.{
  ℕ, true, false, some, ◌≡◌, refl, sym, ap, ◌∙◌, inl, inr, arith, get_elem?, err, null_pointer,
}
use fxk.IoManager.Events.{
  read, write, has, clear, edge_triggered, epoll_in, epoll_out, real_events, hits, left_events,
  seen_events, sees,
}
use fxk.IoManager.Contexts.{FdContext}
use fxk.IoManager.Flags.{IsFlags, is_read, hits_lem, left_events_lem}
use fxk.IoManager.Slots.{IsContext, trigger_event_idle}
use fxk.IoManager.Table.{AreContexts-get}
use fxk.IoManager.Invariant.{IsConsistent}
use fxk.IoManager.{
  ctl_del, Epoll, IoManager, trigger_if, trigger_in, wake_real, ready_in, handle_ready,
}
use fxk.IoManager.Waking.{same_place}

no_bit : true ≡ false → ⊥
no_bit e = ground arith

left_without_reader :
    (events : ℕ)
    → IsFlags events
    → has read events ≡ false
    → has write events ≡ true
    → (hits events (real_events true true) ≡ true)
      × (left_events events (real_events true true) ≡ 0)
unfolding has clear
left_without_reader events (inl p) h k = absurd (no_bit (sym k ∙ rw p refl))
left_without_reader events (inr (inl p)) h k = absurd (no_bit (sym k ∙ rw p refl))
left_without_reader events (inr (inr (inl p))) h k = (
  hits_lem events true true (inr (inr (inl p))) ∙ rw p refl,
  left_events_lem events true true (inr (inr (inl p))) ∙ rw p refl,
)
left_without_reader events (inr (inr (inr p))) h k = absurd (no_bit (sym (sym h ∙ rw p refl)))

module _ (epoll : Epoll) (tickle_fd : ℕ) where
  open epoll use {Kernel, ctl, interest}

  wake_stale :
      (fd : ℕ) (c : FdContext) (m : IoManager Kernel)
      → IsContext c
      → has read c.events ≡ false
      → wake_real epoll fd
          (has read (real_events true true))
          (has write (real_events true true))
          c
          m
        ≡ err null_pointer
  unfolding wake_real trigger_if trigger_in has real_events
  wake_stale fd c m good h = rw (trigger_event_idle read c m.scheduled is_read good h) refl

  ready_in_stale :
      (fd : ℕ) (c : FdContext) (m : IoManager Kernel) (k : Kernel)
      → IsConsistent epoll tickle_fd m
      → get_elem? m.contexts fd ≡ some c
      → has read c.events ≡ false
      → has write c.events ≡ true
      → ctl ctl_del fd (edge_triggered 0) m.kernel ≡ some k
      → ready_in epoll fd (real_events true true) m c ≡ err null_pointer
  unfolding ready_in
  ready_in_stale fd c m k v e h w told =
      let (place, good) = AreContexts-get 0 fd m.contexts c v.table e in
      let (hit, left) = left_without_reader c.events good.flags h w in
      rw hit (
        rw left
          (rw (same_place c fd place) (rw told (wake_stale fd c (record m { kernel = k }) good h))))

  -- Where the kernel reports both directions, and only the writer is registered, and epoll lets go
  -- of the descriptor: the handler of `idle` wakes the reader too, who has no scheduler, and the
  -- pointer it follows is null.
  pub handle_ready-stale :
      (fd kernel_events : ℕ) (c : FdContext) (m : IoManager Kernel) (k : Kernel)
      → IsConsistent epoll tickle_fd m
      → get_elem? m.contexts fd ≡ some c
      → sees epoll_in (seen_events kernel_events c.events) ≡ true
      → sees epoll_out (seen_events kernel_events c.events) ≡ true
      → has read c.events ≡ false
      → has write c.events ≡ true
      → ctl ctl_del fd (edge_triggered 0) m.kernel ≡ some k
      → handle_ready epoll fd kernel_events m ≡ err null_pointer
  unfolding handle_ready
  handle_ready-stale fd kernel_events c m k v e i o h w told =
      let seen = seen_events kernel_events c.events in
      let both_seen : real_events (sees epoll_in seen) (sees epoll_out seen)
          ≡ real_events true true =
        ap (λ r. real_events r (sees epoll_out seen)) i ∙ ap (real_events true) o in
      rw e (ap (λ n. ready_in epoll fd n m c) both_seen ∙ ready_in_stale fd c m k v e h w told)
