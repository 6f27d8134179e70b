-- ===== src/IoManager.antt =====
-- iomanager.h and iomanager.cpp: the table of file descriptors, their events, and the epoll
-- instance. The kernel is an argument, an `Epoll`. Descriptors are not negative.
pub mod Events
pub mod Flags
pub mod Contexts
pub mod Slots
pub mod Table
pub mod Invariant
pub mod Adding
pub mod Removing
pub mod Both
pub mod Waking
pub mod CancelAll
pub mod Stale
pub mod Reachable
pub mod Timeout
pub mod Idle
use fxk.Base.{
  ℕ, zero, suc, ◌+◌, ◌-◌, ◌*◌, ◌/◌, ◌%◌, ◌^◌, Bool, true, false, not, ◌&&◌, Option, none, some,
  List, [], ◌∷◌, ◌++◌, ◌≡◌, ltb, leb, ◌==◌, if◌then◌else◌, is_set, length, get_elem?, set, take,
  Result, ok, err, assertion, out_of_bounds, ◌>>=◌, ◌>>◌, require, from_option,
}
use fxk.Fiber.State.{State, is_exec}
use Events.{
  Event, read, write, epoll_in, epoll_out, has, clear, add_flag, edge_triggered, real_events, hits,
  left_events, seen_events, sees,
}
use Contexts.{
  FdContext, EventContext, Scheduled, Task, run_cb, new_context, get_context, put_context,
  reset_context, trigger_event,
}

pub data CtlOp : Type 0 where
  ctl_add ctl_mod ctl_del : CtlOp

-- What a successful call leaves registered for its descriptor.
abbrev pub interest_after : CtlOp → ℕ → Option ℕ
interest_after ctl_del flags = none
interest_after _ flags = some flags

-- epoll: `none` is a call that fails. A call that succeeds sets the flags of its descriptor.
pub record Epoll : Type 1 where
  pub Kernel : Type 0
  pub ctl : CtlOp → ℕ → ℕ → Kernel → Option Kernel
  pub interest : Kernel → ℕ → Option ℕ
  pub interest-ctl :
      (op : CtlOp) (fd flags : ℕ) (k k' : Kernel)
      → ctl op fd flags k ≡ some k'
      → (g : ℕ) → interest k' g ≡ (if fd == g then interest_after op flags else interest k g)

pub record IoManager (K : Type 0) : Type 0 where
  pub contexts : List FdContext
  pub pending : ℕ
  pub kernel : K
  pub scheduled : Scheduled

-- `++` and `--` on `std::atomic<size_t>`.
abbrev pub increment : ℕ → ℕ
increment n = (n + 1) % 2 ^ 64

abbrev pub decrement : ℕ → ℕ
decrement n = (n + 2 ^ 64 - 1) % 2 ^ 64

-- `contextResize`: every slot that is null after `resize` gets a context with its number.
pub new_contexts : ℕ → ℕ → List FdContext
new_contexts i zero = []
new_contexts i (suc n) = new_context i ∷ new_contexts (suc i) n

unfoldable pub context_resize : ℕ → List FdContext → List FdContext
unfolding new_contexts
context_resize size l = take size l ++ new_contexts (length l) (size - length l)

-- The table in which `addEvent` looks for its descriptor.
unfoldable pub table_for : ℕ → List FdContext → List FdContext
table_for fd l = if ltb fd (length l) then l else context_resize (fd * 3 / 2) l

-- `Scheduler::GetThis()`, `Fiber::GetThis()` and that fiber's state, where an operation is called.
pub record Caller : Type 0 where
  pub scheduler : Option ℕ
  pub fiber : ℕ
  pub fiber_state : State

-- Whom `addEvent` has woken by the event.
register : Option ℕ → Caller → Result EventContext
register (some c) caller = ok (record { scheduler = caller.scheduler; fiber = none; cb = some c })
register none caller = do
  require (is_exec caller.fiber_state) assertion
  ok (record { scheduler = caller.scheduler; fiber = some caller.fiber; cb = none })

is_empty_context : EventContext → Bool
is_empty_context x = not (is_set x.scheduler) && not (is_set x.fiber) && not (is_set x.cb)

module _ (epoll : Epoll) where
  open epoll use {Kernel, ctl, interest}

  -- The constructor: do `epoll_create`, `pipe` and `fcntl` succeed? `tickle_fd` is the end of the pipe
  -- that epoll watches. The call of `start` is the scheduler's.
  unfoldable pub new_manager : Bool → ℕ → Kernel → Result (IoManager Kernel)
  unfolding context_resize
  new_manager false tickle_fd kernel = err assertion
  new_manager true tickle_fd kernel =
      elim (ctl ctl_add tickle_fd (edge_triggered epoll_in) kernel) [
        | none ↦ err assertion
        | some k ↦
            ok (record { contexts = context_resize 32 []; pending = 0; kernel = k; scheduled = [] })
      ]

  -- Behind a successful `epoll_ctl` of `addEvent`.
  pub add_registered :
      ℕ
      → Event
      → Option ℕ
      → Caller
      → FdContext
      → List FdContext
      → IoManager Kernel
      → Kernel
      → Result (Bool × IoManager Kernel)
  unfolding is_empty_context register
  add_registered fd event cb caller c contexts m k = do
    x ← get_context event c
    require (is_empty_context x) assertion
    x' ← register cb caller
    ok (
      true,
      record m {
        contexts =
            set contexts fd (put_context event x' (record c { events = add_flag event c.events }));
        pending = increment m.pending;
        kernel = k;
      },
    )

  -- The result is true for 0 and false for -1.
  unfoldable pub add_event :
      ℕ → Event → Option ℕ → Caller → IoManager Kernel → Result (Bool × IoManager Kernel)
  unfolding add_registered
  add_event fd event cb caller m = do
    let contexts = table_for fd m.contexts
    c ← from_option (get_elem? contexts fd) out_of_bounds
    require (not (has event c.events)) assertion
    let op = if c.events == 0 then ctl_add else ctl_mod
    elim (ctl op fd (add_flag event (edge_triggered c.events)) m.kernel) [
      | none ↦ ok (false, record m { contexts = contexts })
      | some k ↦ add_registered fd event cb caller c contexts m k
    ]

  abbrev put_fd : ℕ → FdContext → IoManager Kernel → IoManager Kernel
  put_fd fd c m = record m { contexts = set m.contexts fd c }

  -- `delEvent`, `cancelEvent` and `cancelAll` on the descriptor's context.
  pub del_in : ℕ → Event → IoManager Kernel → FdContext → Result (Bool × IoManager Kernel)
  del_in fd event m c =
      if not (has event c.events)
      then ok (false, m)
      else (let new_events = clear event c.events in
          let op = if new_events == 0 then ctl_del else ctl_mod in
          elim (ctl op fd (edge_triggered new_events) m.kernel) [
            | none ↦ ok (false, m)
            | some k ↦ do
              let c' = record c { events = new_events }
              x ← get_context event c'
              ok (
                true,
                record (put_fd fd (put_context event (reset_context x) c') m) {
                  pending = decrement m.pending;
                  kernel = k;
                },
              )
          ])

  -- `triggerEvent` and `--m_pendingEventCount`.
  pub trigger_in : ℕ → Event → FdContext → IoManager Kernel → Result (FdContext × IoManager Kernel)
  trigger_in fd event c m = do
    (c', log) ← trigger_event event c m.scheduled
    ok (c', record (put_fd fd c' m) { pending = decrement m.pending; scheduled = log })

  pub cancel_in : ℕ → Event → IoManager Kernel → FdContext → Result (Bool × IoManager Kernel)
  unfolding trigger_in
  cancel_in fd event m c =
      if not (has event c.events)
      then ok (false, m)
      else (let new_events = clear event c.events in
          let op = if new_events == 0 then ctl_del else ctl_mod in
          elim (ctl op fd (edge_triggered new_events) m.kernel) [
            | none ↦ ok (false, m)
            | some k ↦ do (c', m') ← trigger_in fd event c (record m { kernel = k }); ok (true, m')
          ])

  -- `if (flags & event) { fd_ctx->triggerEvent(event); --m_pendingEventCount; }`
  pub trigger_if :
      Bool → ℕ → Event → FdContext → IoManager Kernel → Result (FdContext × IoManager Kernel)
  trigger_if false fd event c m = ok (c, m)
  trigger_if true fd event c m = trigger_in fd event c m

  pub cancel_all_in : ℕ → IoManager Kernel → FdContext → Result (Bool × IoManager Kernel)
  unfolding trigger_if
  cancel_all_in fd m c = if c.events == 0 then ok (false, m) else elim (ctl ctl_del fd 0 m.kernel) [
    | none ↦ ok (false, m)
    | some k ↦ do
      (c1, m1) ← trigger_if (has read c.events) fd read c (record m { kernel = k })
      (c2, m2) ← trigger_if (has write c1.events) fd write c1 m1
      require (c2.events == 0) assertion
      ok (true, m2)
  ]

  -- A descriptor outside the table has no events.
  unfoldable pub with_fd :
      ℕ
      → IoManager Kernel
      → (FdContext → Result (Bool × IoManager Kernel))
      → Result (Bool × IoManager Kernel)
  with_fd fd m f = elim (get_elem? m.contexts fd) [ none ↦ ok (false, m) | some c ↦ f c ]

  unfoldable pub del_event : ℕ → Event → IoManager Kernel → Result (Bool × IoManager Kernel)
  unfolding with_fd del_in
  del_event fd event m = with_fd fd m (del_in fd event m)

  unfoldable pub cancel_event : ℕ → Event → IoManager Kernel → Result (Bool × IoManager Kernel)
  unfolding with_fd cancel_in
  cancel_event fd event m = with_fd fd m (cancel_in fd event m)

  unfoldable pub cancel_all : ℕ → IoManager Kernel → Result (Bool × IoManager Kernel)
  unfolding with_fd cancel_all_in
  cancel_all fd m = with_fd fd m (cancel_all_in fd m)

  -- One event of `epoll_wait` in `idle`, for a descriptor of the table: its flags, and the epoll
  -- call and wake-ups that they lead to.
  pub wake_real : ℕ → Bool → Bool → FdContext → IoManager Kernel → Result (IoManager Kernel)
  unfolding trigger_if
  wake_real fd r w c m = do
    (c1, m1) ← trigger_if r fd read c m
    (c2, m2) ← trigger_if w fd write c1 m1
    ok m2

  pub ready_in : ℕ → ℕ → IoManager Kernel → FdContext → Result (IoManager Kernel)
  unfolding wake_real
  ready_in fd real m c =
      if not (hits c.events real)
      then ok m
      else (let left = left_events c.events real in
          let op = if left == 0 then ctl_del else ctl_mod in
          elim (ctl op c.fd (edge_triggered left) m.kernel) [
            | none ↦ ok m
            | some k ↦ wake_real fd (has read real) (has write real) c (record m { kernel = k })
          ])

  unfoldable pub handle_ready : ℕ → ℕ → IoManager Kernel → Result (IoManager Kernel)
  unfolding ready_in
  handle_ready fd kernel_events m = do
    c ← from_option (get_elem? m.contexts fd) out_of_bounds
    let seen = seen_events kernel_events c.events
    ready_in fd (real_events (sees epoll_in seen) (sees epoll_out seen)) m c

  -- The events of one `epoll_wait`: of the pipe the code reads all bytes and goes on.
  pub handle_events : ℕ → List (ℕ × ℕ) → IoManager Kernel → Result (IoManager Kernel)
  handle_events tickle_fd [] m = ok m
  handle_events tickle_fd ((fd, kernel_events) ∷ rest) m =
      if fd == tickle_fd
      then handle_events tickle_fd rest m
      else (do m' ← handle_ready fd kernel_events m; handle_events tickle_fd rest m')
