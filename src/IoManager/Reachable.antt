-- ===== src/IoManager/Reachable.antt =====
-- The states that a manager comes to: made by its constructor and changed by any sequence of its
-- operations.
use mathlib.Core.Path.{subst}
use mathlib.Core.Option.{some-injective}
use fxk.Base.{
  ok-injective, ℕ, zero, suc, Bool, true, false, Option, none, some, [], ◌≡◌, ◌≢◌, refl, sym, ap,
  ◌∙◌, inl, inr, arith, ◌==◌, is_set, get_elem?, ok, err, Fault, assertion, Option-cases,
}
use fxk.Fiber.State.{is_exec}
use fxk.IoManager.Events.{
  Event, read, write, has, epoll_in, epoll_out, edge_triggered, seen_events, sees,
}
use fxk.IoManager.Contexts.{FdContext}
use fxk.IoManager.Flags.{IsIo}
use fxk.IoManager.Table.{AreContexts-new, new_contexts_events, length-new_contexts}
use fxk.IoManager.Invariant.{IsConsistent}
use fxk.IoManager.Adding.{add_event-Adds}
use fxk.IoManager.Removing.{del_event-Removes, cancel_event-Removes}
use fxk.IoManager.Waking.{handle_ready-Wakes}
use fxk.IoManager.CancelAll.{cancel_all-Wakes}
use fxk.IoManager.{
  Epoll, IoManager, Caller, ctl_add, new_contexts, context_resize, new_manager, add_event,
  del_event, cancel_event, cancel_all, handle_ready,
}

-- One operation, called as its assertions want it: `addEvent` for an event that is not registered,
-- under a scheduler and from a running fiber if there is no callback; `idle` with events that are
-- registered.
pub data Step (epoll : Epoll) : IoManager epoll.Kernel → IoManager epoll.Kernel → Type 0 where
  adds :
      (fd : ℕ) (event : Event) (cb : Option ℕ) (caller : Caller) (b : Bool)
      (m m' : IoManager epoll.Kernel)
      → IsIo event
      → is_set caller.scheduler ≡ true
      → (cb ≡ none → is_exec caller.fiber_state ≡ true)
      → ((c : FdContext) → get_elem? m.contexts fd ≡ some c → has event c.events ≡ false)
      → add_event epoll fd event cb caller m ≡ ok (b, m')
      → Step epoll m m'
  deletes :
      (fd : ℕ) (event : Event) (b : Bool) (m m' : IoManager epoll.Kernel)
      → IsIo event
      → del_event epoll fd event m ≡ ok (b, m')
      → Step epoll m m'
  cancels :
      (fd : ℕ) (event : Event) (b : Bool) (m m' : IoManager epoll.Kernel)
      → IsIo event
      → cancel_event epoll fd event m ≡ ok (b, m')
      → Step epoll m m'
  cancels_all :
      (fd : ℕ) (c : FdContext) (b : Bool) (m m' : IoManager epoll.Kernel)
      → get_elem? m.contexts fd ≡ some c
      → cancel_all epoll fd m ≡ ok (b, m')
      → Step epoll m m'
  wakes :
      (fd kernel_events : ℕ) (c : FdContext) (m m' : IoManager epoll.Kernel)
      → get_elem? m.contexts fd ≡ some c
      → (sees epoll_in (seen_events kernel_events c.events) ≡ true → has read c.events ≡ true)
      → (sees epoll_out (seen_events kernel_events c.events) ≡ true → has write c.events ≡ true)
      → handle_ready epoll fd kernel_events m ≡ ok m'
      → Step epoll m m'

-- Any number of operations.
pub data Steps (epoll : Epoll) : IoManager epoll.Kernel → IoManager epoll.Kernel → Type 0 where
  done : (m : IoManager epoll.Kernel) → Steps epoll m m
  next :
      (m m' m'' : IoManager epoll.Kernel) → Step epoll m m' → Steps epoll m' m'' → Steps epoll m m''

err_is_not_ok : {A : Type 0} (f : Fault) (a : A) → err f ≡ ok a → ⊥
err_is_not_ok f a e = cc

new_contexts-events :
    (i n g : ℕ) (c : FdContext) → get_elem? (new_contexts i n) g ≡ some c → c.events ≡ 0
unfolding new_contexts
new_contexts-events i zero g c e = absurd (ground arith)
new_contexts-events i (suc n) zero c e =
    ap (λ (x : FdContext). x.events) (sym (some-injective _ _ e))
new_contexts-events i (suc n) (suc g) c e = new_contexts-events (suc i) n g c e

module _ (epoll : Epoll) (tickle_fd : ℕ) where
  open epoll use {Kernel, ctl, interest, interest-ctl}

  new_manager_unopened : (k : Kernel) → new_manager epoll false tickle_fd k ≡ err assertion
  unfolding new_manager
  new_manager_unopened k = refl

  new_manager_refused :
      (k : Kernel)
      → ctl ctl_add tickle_fd (edge_triggered epoll_in) k ≡ none
      → new_manager epoll true tickle_fd k ≡ err assertion
  unfolding new_manager
  new_manager_refused k refused = rw (refused, new_manager) refl

  new_manager_made :
      (k k' : Kernel)
      → ctl ctl_add tickle_fd (edge_triggered epoll_in) k ≡ some k'
      → new_manager epoll true tickle_fd k
        ≡ ok (record { contexts = new_contexts 0 32; pending = 0; kernel = k'; scheduled = [] })
  unfolding new_manager context_resize
  new_manager_made k k' told = rw (told, new_manager) refl

  away_from_pipe :
      (k k' : Kernel) (g : ℕ)
      → g ≢ tickle_fd
      → ((h : ℕ) → interest k h ≡ none)
      → ctl ctl_add tickle_fd (edge_triggered epoll_in) k ≡ some k'
      → interest k' g ≡ none
  away_from_pipe k k' g away blank told =
      interest-ctl ctl_add tickle_fd (edge_triggered epoll_in) k k' told g
      ∙ (let differs : (tickle_fd == g) ≡ false = ground arith in rw differs (blank g))

  new_manager-IsConsistent :
      (opened : Bool) (k : Kernel) (m : IoManager Kernel)
      → ((g : ℕ) → interest k g ≡ none)
      → new_manager epoll opened tickle_fd k ≡ ok m
      → IsConsistent epoll tickle_fd m
  new_manager-IsConsistent false k m blank made =
      absurd (err_is_not_ok assertion m (sym (new_manager_unopened k) ∙ made))
  new_manager-IsConsistent true k m blank made =
      elim (Option-cases (ctl ctl_add tickle_fd (edge_triggered epoll_in) k)) [
        | inl refused ↦
            absurd (err_is_not_ok assertion m (sym (new_manager_refused k refused) ∙ made))
        | inr (k', told) ↦
            let first : IoManager Kernel = record {
              contexts = new_contexts 0 32;
              pending = 0;
              kernel = k';
              scheduled = [];
            } in
            subst (IsConsistent epoll tickle_fd)
              (ok-injective first m (sym (new_manager_made k k' told) ∙ made))
              (record {
                table = AreContexts-new 0 32;
                room = rw length-new_contexts (omega arith);
                counted = rw new_contexts_events refl;
                watched = λ g c away e.
                    away_from_pipe k k' g away blank told
                    ∙ rw (new_contexts-events 0 32 g c e) refl;
                unwatched = λ g away e. away_from_pipe k k' g away blank told;
              })
      ]

  Step-IsConsistent :
      (m m' : IoManager Kernel)
      → Step epoll m m'
      → IsConsistent epoll tickle_fd m
      → IsConsistent epoll tickle_fd m'
  Step-IsConsistent m m' (adds fd event cb caller b _ _ i s runs fresh e) v =
      let (r, does, after) = add_event-Adds epoll tickle_fd fd event cb caller m v i s runs fresh in
      subst (λ (q : Bool × IoManager Kernel). IsConsistent epoll tickle_fd q.1)
        (ok-injective r (b, m') (sym does ∙ e)) after.consistent
  Step-IsConsistent m m' (deletes fd event b _ _ i e) v =
      let (r, does, after) = del_event-Removes epoll tickle_fd fd event m v i in
      subst (λ (q : Bool × IoManager Kernel). IsConsistent epoll tickle_fd q.1)
        (ok-injective r (b, m') (sym does ∙ e)) after.consistent
  Step-IsConsistent m m' (cancels fd event b _ _ i e) v =
      let (r, does, after) = cancel_event-Removes epoll tickle_fd fd event m v i in
      subst (λ (q : Bool × IoManager Kernel). IsConsistent epoll tickle_fd q.1)
        (ok-injective r (b, m') (sym does ∙ e)) after.consistent
  Step-IsConsistent m m' (cancels_all fd c b _ _ at_fd e) v =
      let (b1, m1, does, after, _) = cancel_all-Wakes epoll tickle_fd fd c m v at_fd in
      subst (λ (q : Bool × IoManager Kernel). IsConsistent epoll tickle_fd q.1)
        (ok-injective (b1, m1) (b, m') (sym does ∙ e)) after
  Step-IsConsistent m m' (wakes fd kernel_events c _ _ at_fd h k e) v =
      let (m1, does, after, _) =
        handle_ready-Wakes epoll tickle_fd fd kernel_events c m v at_fd h k in
      subst (IsConsistent epoll tickle_fd) (ok-injective m1 m' (sym does ∙ e)) after

  Steps-IsConsistent :
      (m m' : IoManager Kernel)
      → Steps epoll m m'
      → IsConsistent epoll tickle_fd m
      → IsConsistent epoll tickle_fd m'
  Steps-IsConsistent m m' (done _) v = v
  Steps-IsConsistent m m' (next _ m1 _ s rest) v =
      Steps-IsConsistent m1 m' rest (Step-IsConsistent m m1 s v)

  -- Whatever operations follow on a manager's construction over an epoll instance that watches
  -- nothing, in any order and with any outcome, each called as its assertions want it, `addEvent`
  -- under a scheduler, and `idle` with events that are registered: the manager is consistent. So the counter of pending events
  -- is the number of those that are registered (as a size_t), each registered event has someone to
  -- wake, and epoll watches exactly the registered events of every descriptor but the pipe's.
  pub reachable-IsConsistent :
      (opened : Bool) (k : Kernel) (m m' : IoManager Kernel)
      → ((g : ℕ) → interest k g ≡ none)
      → new_manager epoll opened tickle_fd k ≡ ok m
      → Steps epoll m m'
      → IsConsistent epoll tickle_fd m'
  reachable-IsConsistent opened k m m' blank made steps =
      Steps-IsConsistent m m' steps (new_manager-IsConsistent opened k m blank made)
