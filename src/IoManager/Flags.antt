-- ===== src/IoManager/Flags.antt =====
-- The laws of the flags that a context can hold.
use fxk.Base.{ℕ, Bool, true, false, not, ◌&&◌, ◌||◌, if◌then◌else◌, ◌≡◌, refl, ◌⊎◌, inl, inr, ◌==◌}
use fxk.IoManager.Events.{
  Event, no_event, read, write, has, clear, add_flag, edge_triggered, hits, left_events,
  real_events,
}

-- The values of `events` that addEvent, delEvent and the like make of `NONE`.
abbrev pub IsFlags : ℕ → Type 0
IsFlags events = (events ≡ 0) ⊎ (events ≡ 1) ⊎ (events ≡ 4) ⊎ (events ≡ 5)

-- The event that is not this one.
abbrev pub other : Event → Event
other no_event = no_event
other read = write
other write = read

pub data IsIo : Event → Type 0 where
  is_read : IsIo read
  is_write : IsIo write

abbrev pub clear_if : Bool → Event → ℕ → ℕ
clear_if b e events = if b then clear e events else events

module _ (ev : ℕ) where
  pub clear_lem :
      (e : Event)
      → IsIo e
      → IsFlags ev
      → IsFlags (clear e ev)
        × (has e (clear e ev) ≡ false)
        × (has (other e) (clear e ev) ≡ has (other e) ev)
  unfolding has clear
  clear_lem e is_read (inl p) = rw p (inl refl, refl, refl)
  clear_lem e is_read (inr (inl p)) = rw p (inl refl, refl, refl)
  clear_lem e is_read (inr (inr (inl p))) = rw p (inr (inr (inl refl)), refl, refl)
  clear_lem e is_read (inr (inr (inr p))) = rw p (inr (inr (inl refl)), refl, refl)
  clear_lem e is_write (inl p) = rw p (inl refl, refl, refl)
  clear_lem e is_write (inr (inl p)) = rw p (inr (inl refl), refl, refl)
  clear_lem e is_write (inr (inr (inl p))) = rw p (inl refl, refl, refl)
  clear_lem e is_write (inr (inr (inr p))) = rw p (inr (inl refl), refl, refl)

  pub add_flag_lem :
      (e : Event)
      → IsIo e
      → IsFlags ev
      → IsFlags (add_flag e ev)
        × (has e (add_flag e ev) ≡ true)
        × (has (other e) (add_flag e ev) ≡ has (other e) ev)
        × ((add_flag e ev == 0) ≡ false)
  unfolding has add_flag
  add_flag_lem e is_read (inl p) = rw p (inr (inl refl), refl, refl, refl)
  add_flag_lem e is_read (inr (inl p)) = rw p (inr (inl refl), refl, refl, refl)
  add_flag_lem e is_read (inr (inr (inl p))) = rw p (inr (inr (inr refl)), refl, refl, refl)
  add_flag_lem e is_read (inr (inr (inr p))) = rw p (inr (inr (inr refl)), refl, refl, refl)
  add_flag_lem e is_write (inl p) = rw p (inr (inr (inl refl)), refl, refl, refl)
  add_flag_lem e is_write (inr (inl p)) = rw p (inr (inr (inr refl)), refl, refl, refl)
  add_flag_lem e is_write (inr (inr (inl p))) = rw p (inr (inr (inl refl)), refl, refl, refl)
  add_flag_lem e is_write (inr (inr (inr p))) = rw p (inr (inr (inr refl)), refl, refl, refl)

  -- The flags are empty if neither event is set.
  pub no_flags : IsFlags ev → (ev == 0) ≡ not (has read ev || has write ev)
  unfolding has
  no_flags (inl p) = rw p refl
  no_flags (inr (inl p)) = rw p refl
  no_flags (inr (inr (inl p))) = rw p refl
  no_flags (inr (inr (inr p))) = rw p refl

  -- `EPOLLET | events | event`, either way it is grouped.
  pub add_flag-edge_triggered :
      (e : Event)
      → IsIo e
      → IsFlags ev
      → add_flag e (edge_triggered ev) ≡ edge_triggered (add_flag e ev)
  unfolding add_flag
  add_flag-edge_triggered e is_read (inl p) = rw p refl
  add_flag-edge_triggered e is_read (inr (inl p)) = rw p refl
  add_flag-edge_triggered e is_read (inr (inr (inl p))) = rw p refl
  add_flag-edge_triggered e is_read (inr (inr (inr p))) = rw p refl
  add_flag-edge_triggered e is_write (inl p) = rw p refl
  add_flag-edge_triggered e is_write (inr (inl p)) = rw p refl
  add_flag-edge_triggered e is_write (inr (inr (inl p))) = rw p refl
  add_flag-edge_triggered e is_write (inr (inr (inr p))) = rw p refl

  -- Both events of an `int real_events`, and what is left of the flags without them.
  pub hits_lem :
      (r w : Bool)
      → IsFlags ev
      → hits ev (real_events r w) ≡ ((r && has read ev) || (w && has write ev))
  unfolding has hits real_events
  hits_lem true true (inl p) = rw p refl
  hits_lem true true (inr (inl p)) = rw p refl
  hits_lem true true (inr (inr (inl p))) = rw p refl
  hits_lem true true (inr (inr (inr p))) = rw p refl
  hits_lem true false (inl p) = rw p refl
  hits_lem true false (inr (inl p)) = rw p refl
  hits_lem true false (inr (inr (inl p))) = rw p refl
  hits_lem true false (inr (inr (inr p))) = rw p refl
  hits_lem false true (inl p) = rw p refl
  hits_lem false true (inr (inl p)) = rw p refl
  hits_lem false true (inr (inr (inl p))) = rw p refl
  hits_lem false true (inr (inr (inr p))) = rw p refl
  hits_lem false false (inl p) = rw p refl
  hits_lem false false (inr (inl p)) = rw p refl
  hits_lem false false (inr (inr (inl p))) = rw p refl
  hits_lem false false (inr (inr (inr p))) = rw p refl

  pub left_events_lem :
      (r w : Bool)
      → IsFlags ev
      → left_events ev (real_events r w) ≡ clear_if w write (clear_if r read ev)
  unfolding clear left_events real_events
  left_events_lem true true (inl p) = rw p refl
  left_events_lem true true (inr (inl p)) = rw p refl
  left_events_lem true true (inr (inr (inl p))) = rw p refl
  left_events_lem true true (inr (inr (inr p))) = rw p refl
  left_events_lem true false (inl p) = rw p refl
  left_events_lem true false (inr (inl p)) = rw p refl
  left_events_lem true false (inr (inr (inl p))) = rw p refl
  left_events_lem true false (inr (inr (inr p))) = rw p refl
  left_events_lem false true (inl p) = rw p refl
  left_events_lem false true (inr (inl p)) = rw p refl
  left_events_lem false true (inr (inr (inl p))) = rw p refl
  left_events_lem false true (inr (inr (inr p))) = rw p refl
  left_events_lem false false (inl p) = rw p refl
  left_events_lem false false (inr (inl p)) = rw p refl
  left_events_lem false false (inr (inr (inl p))) = rw p refl
  left_events_lem false false (inr (inr (inr p))) = rw p refl

pub real_events_lem :
    (r w : Bool) → (has read (real_events r w) ≡ r) × (has write (real_events r w) ≡ w)
unfolding has real_events
real_events_lem true true = (refl, refl)
real_events_lem true false = (refl, refl)
real_events_lem false true = (refl, refl)
real_events_lem false false = (refl, refl)
