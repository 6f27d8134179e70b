-- ===== src/Tests/IoTests.antt =====
-- The epoll manager on concrete inputs, over a table that stands for the kernel.
use mathlib.Core.Option.{some-injective}
use fxk.IoManager.Idle.{idle_turn, idle_turn_ends}
use fxk.IoManager.{del_event}
use fxk.IoManager.Removing.{IsQuiet, del_event-Removes}
use fxk.Base.{
  ◌<◌, ◌%◌, ◌^◌, ◌≤◌, set, length, ℕ, zero, suc, Bool, true, false, Option, none, some, [], ◌∷◌,
  ◌≡◌, ◌∙◌, ◌≢◌, refl, sym, ap, ◌⊎◌, inl, inr, arith, ◌==◌, if◌then◌else◌, get_elem?, ok, err,
  null_pointer,
}
use fxk.Fiber.State.{exec}
use fxk.IoManager.Events.{
  add_flag, edge_triggered, clear, read, write, has, epoll_in, epoll_out, seen_events, sees,
}
use fxk.IoManager.Contexts.{
  get_context, put_context, trigger_event, EventContext, FdContext, empty_context, new_context,
  run_cb,
}
use fxk.IoManager.Flags.{is_read, is_write}
use fxk.IoManager.Slots.{IsContext}
use fxk.IoManager.Invariant.{IsConsistent, wanted}
use fxk.IoManager.Adding.{Adds, add_event-Adds}
use fxk.IoManager.Removing.{Removes, IsWoken, cancel_event-Removes}
use fxk.IoManager.Reachable.{adds, done, next, reachable-IsConsistent}
use fxk.IoManager.Timeout.{forever, at_most, no_timeout, idle_wait, idle_wait_lem}
use fxk.IoManager.Waking.{WakesBoth, PassesOver, handle_ready-Wakes}
use fxk.IoManager.CancelAll.{cancel_all-Wakes}
use fxk.IoManager.Stale.{handle_ready-stale}
use fxk.IoManager.{
  context_resize, table_for, new_manager, Epoll, CtlOp, ctl_del, IoManager, Caller, interest_after,
  add_event, cancel_event, cancel_all, handle_ready,
}

-- A kernel that accepts every call.
abbrev accept : CtlOp → ℕ → ℕ → (ℕ → Option ℕ) → Option (ℕ → Option ℕ)
accept op fd flags k = some (λ g. if fd == g then interest_after op flags else k g)

abbrev kernel : Epoll
kernel = record {
  Kernel = ℕ → Option ℕ;
  ctl = accept;
  interest = λ k g. k g;
  interest-ctl =
      λ op fd flags k k' e g. ap (λ (h : ℕ → Option ℕ). h g) (sym (some-injective _ _ e));
}

abbrev by_callback : EventContext
by_callback = record { scheduler = some 1; fiber = none; cb = some 7 }

abbrev by_fiber : EventContext
by_fiber = record { scheduler = some 1; fiber = some 4; cb = none }

-- The descriptor 1 waits for a write and the descriptor 2 for both; the pipe is the descriptor 0.
abbrev writer : FdContext
writer = record { read_context = empty_context; write_context = by_callback; fd = 1; events = 4 }

abbrev duplex : FdContext
duplex = record { read_context = by_fiber; write_context = by_callback; fd = 2; events = 5 }

abbrev manager : IoManager (ℕ → Option ℕ)
manager = record {
  contexts = new_context 0 ∷ writer ∷ duplex ∷ [];
  pending = 3;
  kernel = λ g. if g == 1 then wanted 4 else if g == 2 then wanted 5 else none;
  scheduled = [];
}

writer-IsContext : IsContext writer
unfolding has
writer-IsContext = record {
  flags = inr (inr (inl refl));
  read_slot = refl;
  write_slot = (refl, refl);
}

duplex-IsContext : IsContext duplex
unfolding has
duplex-IsContext = record {
  flags = inr (inr (inr refl));
  read_slot = (refl, refl);
  write_slot = (refl, refl);
}

blank-IsContext : IsContext (new_context 0)
unfolding has
blank-IsContext = record { flags = inl refl; read_slot = refl; write_slot = refl }

watched :
    (fd : ℕ) (c : FdContext)
    → fd ≢ 0
    → get_elem? manager.contexts fd ≡ some c
    → manager.kernel fd ≡ wanted c.events
watched zero c ne e = absurd (ne refl)
watched (suc zero) c ne e = ap (λ (x : FdContext). wanted x.events) (some-injective _ _ e)
watched (suc (suc zero)) c ne e = ap (λ (x : FdContext). wanted x.events) (some-injective _ _ e)
watched (suc (suc (suc n))) c ne e = absurd (ground arith)

unwatched : (fd : ℕ) → fd ≢ 0 → get_elem? manager.contexts fd ≡ none → manager.kernel fd ≡ none
unwatched zero ne e = absurd (ne refl)
unwatched (suc zero) ne e = absurd (ground arith)
unwatched (suc (suc zero)) ne e = absurd (ground arith)
unwatched (suc (suc (suc n))) ne e = ground arith

manager-IsConsistent : IsConsistent kernel 0 manager
unfolding has
manager-IsConsistent = record {
  table = (refl, blank-IsContext, (refl, writer-IsContext, (refl, duplex-IsContext, tt)));
  room = omega arith;
  counted = refl;
  watched = watched;
  unwatched = unwatched;
}

abbrev caller : Caller
caller = record { scheduler = some 1; fiber = 9; fiber_state = exec }

unregistered : has read writer.events ≡ false
unfolding has
unregistered = refl

sees_both :
    (sees epoll_in (seen_events 5 5) ≡ true)
    × (sees epoll_out (seen_events 5 5) ≡ true)
    × (sees epoll_in (seen_events 5 4) ≡ true)
    × (sees epoll_out (seen_events 5 4) ≡ true)
unfolding sees seen_events
sees_both = (refl, refl, refl, refl)

has_both :
    (has read duplex.events ≡ true)
    × (has write duplex.events ≡ true)
    × (has write writer.events ≡ true)
unfolding has
has_both = (refl, refl, refl)

-- The event of a writer that is cancelled wakes its callback.
cancel_event-run :
    cancel_event kernel 1 write manager
    ≡ ok (
      true,
      record manager {
        contexts = new_context 0 ∷ new_context 1 ∷ duplex ∷ [];
        pending = 2;
        kernel = λ g. if 1 == g then none else manager.kernel g;
        scheduled = (1, run_cb 7) ∷ [];
      },
    )
unfolding cancel_event has trigger_event clear
cancel_event-run = refl

add_event-Adds_example :
    (r : Bool × IoManager (ℕ → Option ℕ)) × (add_event kernel 1 read none caller manager ≡ ok r)
    × Adds kernel 0 1 read none caller manager r
add_event-Adds_example =
    add_event-Adds kernel 0 1 read none caller manager manager-IsConsistent is_read refl (λ e. refl)
      (λ c e. ap (λ (x : FdContext). has read x.events) (sym (some-injective _ _ e)) ∙ unregistered)

del_event-Removes_example :
    (r : Bool × IoManager (ℕ → Option ℕ)) × (del_event kernel 1 write manager ≡ ok r)
    × Removes kernel 0 1 write (IsQuiet kernel 0) manager r
del_event-Removes_example = del_event-Removes kernel 0 1 write manager manager-IsConsistent is_write

cancel_event-Removes_example :
    (r : Bool × IoManager (ℕ → Option ℕ)) × (cancel_event kernel 2 read manager ≡ ok r)
    × Removes kernel 0 2 read (IsWoken kernel 0) manager r
cancel_event-Removes_example =
    cancel_event-Removes kernel 0 2 read manager manager-IsConsistent is_read

cancel_all-Wakes_example :
    (b : Bool) × (m' : IoManager (ℕ → Option ℕ)) × (cancel_all kernel 2 manager ≡ ok (b, m'))
    × IsConsistent kernel 0 m'
    × (((b ≡ false)
          × (m' ≡ manager)
          × ((◌≡◌ {A = ℕ} 5 0) ⊎ (kernel.ctl ctl_del 2 0 manager.kernel ≡ none)))
        ⊎ (b ≡ true × WakesBoth kernel 0 2 (has read 5) (has write 5) duplex manager m'))
cancel_all-Wakes_example = cancel_all-Wakes kernel 0 2 duplex manager manager-IsConsistent refl

handle_ready-Wakes_example :
    (m' : IoManager (ℕ → Option ℕ)) × (handle_ready kernel 2 5 manager ≡ ok m')
    × IsConsistent kernel 0 m'
    × (((m' ≡ manager)
          × PassesOver kernel 0
              (sees epoll_in (seen_events 5 5))
              (sees epoll_out (seen_events 5 5))
              duplex
              manager)
        ⊎ WakesBoth kernel 0 2
            (sees epoll_in (seen_events 5 5))
            (sees epoll_out (seen_events 5 5))
            duplex
            manager
            m')
handle_ready-Wakes_example =
    handle_ready-Wakes kernel 0 2 5 duplex manager manager-IsConsistent refl (λ e. has_both.0)
      (λ e. has_both.1)

handle_ready-stale_example : handle_ready kernel 1 5 manager ≡ err null_pointer
handle_ready-stale_example =
    handle_ready-stale kernel 0 1 5 writer manager _ manager-IsConsistent refl sees_both.2
      sees_both.3 unregistered has_both.2 refl

-- A manager as it is made, and after one event was added.
abbrev fresh_manager : IoManager (ℕ → Option ℕ)
fresh_manager = record {
  contexts = context_resize 32 [];
  pending = 0;
  kernel = λ g. if 0 == g then some (edge_triggered epoll_in) else none;
  scheduled = [];
}

abbrev one_event : IoManager (ℕ → Option ℕ)
one_event = record {
  contexts =
      set (context_resize 32 []) 5
        (record { read_context = empty_context; write_context = by_callback; fd = 5; events = 4 });
  pending = 1;
  kernel = λ g. if 5 == g then some (edge_triggered 4) else fresh_manager.kernel g;
  scheduled = [];
}

fresh_manager-made : new_manager kernel true 0 (λ g. none) ≡ ok fresh_manager
unfolding new_manager
fresh_manager-made = refl

fresh_manager-blank :
    (c : FdContext) → get_elem? fresh_manager.contexts 5 ≡ some c → has write c.events ≡ false
unfolding context_resize has
fresh_manager-blank c e = ap (λ (x : FdContext). has write x.events) (sym (some-injective _ _ e))

one_event-added : add_event kernel 5 write (some 7) caller fresh_manager ≡ ok (true, one_event)
unfolding add_event table_for context_resize has add_flag get_context put_context
one_event-added = refl

reachable-IsConsistent_example : IsConsistent kernel 0 one_event
reachable-IsConsistent_example =
    reachable-IsConsistent kernel 0 true (λ g. none) fresh_manager one_event (λ g. refl)
      fresh_manager-made
      (next fresh_manager one_event one_event
        (adds 5 write (some 7) caller true fresh_manager one_event is_write refl (λ e. refl)
          fresh_manager-blank one_event-added)
        (done one_event))

fresh_manager-IsConsistent : IsConsistent kernel 0 fresh_manager
fresh_manager-IsConsistent =
    reachable-IsConsistent kernel 0 true (λ g. none) fresh_manager fresh_manager (λ g. refl)
      fresh_manager-made (done fresh_manager)

fresh_manager-fits : length fresh_manager.contexts < 2 ^ 63
unfolding context_resize
fresh_manager-fits = omega arith

fresh_manager-ends : idle_turn kernel 0 7 no_timeout true [] [] fresh_manager ≡ ok none
unfolding idle_turn
fresh_manager-ends = refl

idle_turn_ends_example :
    (◌≡◌ {A = Bool} true true)
    × (no_timeout ≡ no_timeout)
    × ((fd : ℕ) (c : FdContext)
        → get_elem? fresh_manager.contexts fd ≡ some c
        → (has read c.events ≡ false) × (has write c.events ≡ false))
idle_turn_ends_example =
    idle_turn_ends kernel 0 7 no_timeout true [] [] fresh_manager fresh_manager-IsConsistent
      fresh_manager-fits fresh_manager-ends

-- A timer that is due in a month.
idle_wait_lem_example :
    ((◌≡◌ {A = ℕ} 2592000000 no_timeout) × (idle_wait 2592000000 ≡ at_most 3000))
    ⊎ ((◌≢◌ {A = ℕ} 2592000000 no_timeout)
        × (2 ^ 31 ≤ 2592000000 % 2 ^ 32)
        × (idle_wait 2592000000 ≡ forever))
    ⊎ ((◌≢◌ {A = ℕ} 2592000000 no_timeout)
        × (2592000000 % 2 ^ 32 < 2 ^ 31)
        × ((t : ℕ) × (idle_wait 2592000000 ≡ at_most t)
            × (t ≤ 2592000000)
            × (((t ≡ 3000) × (3000 < 2592000000 % 2 ^ 32))
                ⊎ ((t ≡ 2592000000 % 2 ^ 32) × (t ≤ 3000)))))
idle_wait_lem_example = idle_wait_lem 2592000000 (omega arith)
