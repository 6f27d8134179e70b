-- ===== src/Scheduler.antt =====
-- scheduler.h and scheduler.cpp: the queue of tasks and one turn of the loop in which a thread
-- serves it. What a fiber does between two switches is an argument, `resume`. The lock around the
-- queue makes each of these steps whole; the log messages are left out.
pub mod Queue
pub mod Counting
pub mod Turn
pub mod Serving
pub mod Settling
pub mod Draining
pub mod Lifecycle
pub mod Restart
pub mod Switching
pub mod Turns
pub mod Termination
use fxk.Base.{
  ℕ, zero, suc, ◌+◌, ◌-◌, ◌%◌, ◌^◌, Bool, true, false, not, ◌&&◌, ◌||◌, Option, none, some, List,
  [], ◌∷◌, ◌++◌, ◌==◌, if◌then◌else◌, is_set, Result, ok, err, assertion, logic_error, from_option,
  ◌>>=◌, ◌>>◌, require,
}
use fxk.Fiber.State.{State, init, hold, exec, is_exec, is_ready, is_over, is_init, is_term}

-- A fiber or a function; `none` is the thread -1.
pub record FiberAndThread : Type 0 where
  pub fiber : Option ℕ
  pub cb : Option ℕ
  pub thread : Option ℕ

pub record Scheduler : Type 0 where
  pub fibers : List FiberAndThread
  pub active_thread_count : ℕ
  pub idle_thread_count : ℕ
  pub stopping : Bool
  pub auto_stop : Bool
  pub thread_count : ℕ
  pub threads : List ℕ
  pub thread_ids : List ℕ
  pub tickled : ℕ

abbrev pub is_task : FiberAndThread → Bool
is_task ft = is_set ft.fiber || is_set ft.cb

abbrev pub is_empty : List FiberAndThread → Bool
is_empty [] = true
is_empty (ft ∷ l) = false

-- `Scheduler::tickle` only logs: how often it is called.
abbrev pub tickle_if : Bool → Scheduler → Scheduler
tickle_if b s = if b then record s { tickled = s.tickled + 1 } else s

unfoldable pub schedule_no_lock : FiberAndThread → Scheduler → Bool × Scheduler
schedule_no_lock ft s =
    (is_empty s.fibers, if is_task ft then record s { fibers = s.fibers ++ ft ∷ [] } else s)

unfoldable pub schedule : FiberAndThread → Scheduler → Scheduler
unfolding schedule_no_lock
schedule ft s = let (need_tickle, s') = schedule_no_lock ft s in tickle_if need_tickle s'

pub schedule_each : List FiberAndThread → Bool → Scheduler → Bool × Scheduler
unfolding schedule_no_lock
schedule_each [] need_tickle s = (need_tickle, s)
schedule_each (ft ∷ l) need_tickle s =
    let (need, s') = schedule_no_lock ft s in schedule_each l (need || need_tickle) s'

-- `schedule(begin, end)`, whose tasks have no thread.
unfoldable pub schedule_range : List FiberAndThread → Scheduler → Scheduler
unfolding schedule_each
schedule_range l s = let (need_tickle, s') = schedule_each l false s in tickle_if need_tickle s'

-- Is the task meant for another thread?
abbrev pub is_pinned : ℕ → FiberAndThread → Bool
is_pinned me ft = elim ft.thread [ none ↦ false | some t ↦ not (t == me) ]

abbrev pub is_running : (ℕ → State) → FiberAndThread → Bool
is_running states ft = elim ft.fiber [ none ↦ false | some f ↦ is_exec (states f) ]

abbrev pub keep :
    FiberAndThread
    → Bool
    → Option FiberAndThread × List FiberAndThread × Bool
    → Option FiberAndThread × List FiberAndThread × Bool
keep ft pinned (found, rest, tickle_me) = (found, ft ∷ rest, pinned || tickle_me)

-- The search in `run`: the task that is taken, the queue without it, and whether to tickle.
unfoldable pub scan :
    ℕ
    → (ℕ → State)
    → List FiberAndThread
    → Result (Option FiberAndThread × List FiberAndThread × Bool)
scan me states [] = ok (none, [], false)
scan me states (ft ∷ l) =
    let rest = scan me states l in
    if is_pinned me ft
    then (rest >>= λ r. ok (keep ft true r))
    else (require (is_task ft) assertion
        >> (if is_running states ft
            then (rest >>= λ r. ok (keep ft false r))
            else ok (some ft, l, not (is_empty l))))

-- The scheduler, the fibers' states, and the fiber for functions that this thread keeps.
pub record World : Type 0 where
  pub scheduler : Scheduler
  pub states : ℕ → State
  pub cb_fiber : Option ℕ

abbrev pub increment : ℕ → ℕ
increment n = (n + 1) % 2 ^ 64

abbrev pub decrement : ℕ → ℕ
decrement n = (n + 2 ^ 64 - 1) % 2 ^ 64

abbrev pub set_state : ℕ → State → (ℕ → State) → ℕ → State
set_state f x states g = if g == f then x else states g

abbrev pub leave : World → World
leave w = record w {
  scheduler = record w.scheduler {
    active_thread_count = decrement w.scheduler.active_thread_count;
  };
}

abbrev pub of_fiber : ℕ → FiberAndThread
of_fiber f = record { fiber = some f; cb = none; thread = none }

-- The queue behind the search, before the task is served.
pub taken : ℕ → World → Result (Option FiberAndThread × World)
unfolding scan
taken me w = do
  (found, rest, tickle_me) ← scan me w.states w.scheduler.fibers
  let s = record w.scheduler { fibers = rest }
  let s' =
      if is_set found then record s { active_thread_count = increment s.active_thread_count } else s
  ok (found, record w { scheduler = tickle_if tickle_me s' })

-- What follows the switch to a fiber of a task.
abbrev pub after_fiber : ℕ → World → World
after_fiber f w =
    if is_ready (w.states f)
    then record w { scheduler = schedule (of_fiber f) w.scheduler }
    else (if is_over (w.states f) then w else record w { states = set_state f hold w.states })

-- What the fibers stand on: does a fiber have a stack, and do the calls of `getcontext` and
-- `swapcontext` for it succeed?
pub record Contexts : Type 0 where
  pub has_stack : ℕ → Bool
  pub getcontext : ℕ → World → Bool
  pub swapcontext : ℕ → World → Bool

-- `Fiber::reset`, to a callback.
abbrev pub reset_fiber : Contexts → ℕ → World → Result World
reset_fiber contexts f w = do
  require (contexts.has_stack f) assertion
  require (is_over (w.states f) || is_init (w.states f)) assertion
  require (contexts.getcontext f w) assertion
  ok (record w { states = set_state f init w.states })

-- The thread's fiber for functions; `fresh` is the place of a new one.
abbrev pub fiber_for : Contexts → ℕ → World → Result (ℕ × World)
fiber_for contexts fresh w = elim w.cb_fiber [
  | none ↦
      require (contexts.getcontext fresh w) assertion
      >> ok (fresh, record w { states = set_state fresh init w.states; cb_fiber = some fresh })
  | some f ↦ reset_fiber contexts f w >>= λ w'. ok (f, w')
]

abbrev pub after_cb : Contexts → ℕ → World → Result World
after_cb contexts f w =
    if is_ready (w.states f)
    then ok (record w { scheduler = schedule (of_fiber f) w.scheduler; cb_fiber = none })
    else (if is_over (w.states f)
        then reset_fiber contexts f w
        else ok (record w { states = set_state f hold w.states; cb_fiber = none }))

abbrev pub idle_count : (ℕ → ℕ) → World → World
idle_count f w = record w {
  scheduler = record w.scheduler { idle_thread_count = f w.scheduler.idle_thread_count };
}

module _ (contexts : Contexts) (resume : ℕ → World → World) where
  -- `Fiber::swapIn`.
  pub swap_in : ℕ → World → Result World
  swap_in f w = do
    require (not (is_exec (w.states f))) assertion
    let w' = record w { states = set_state f exec w.states }
    require (contexts.swapcontext f w') assertion
    ok (resume f w')

  unfoldable pub serve_fiber : ℕ → World → Result World
  unfolding swap_in
  serve_fiber f w = swap_in f w >>= λ w'. ok (after_fiber f (leave w'))

  unfoldable pub serve_cb : ℕ → World → Result World
  unfolding swap_in
  serve_cb fresh w = do
    (f, w1) ← fiber_for contexts fresh w
    w2 ← swap_in f w1
    after_cb contexts f (leave w2)

  -- A task that was taken.
  unfoldable pub serve : ℕ → FiberAndThread → World → Result World
  unfolding serve_fiber serve_cb
  serve fresh ft w =
      let of_cb = if is_set ft.cb then serve_cb fresh w else ok (leave w) in
      elim ft.fiber [
        | none ↦ of_cb
        | some f ↦ if is_over (w.states f) then of_cb else serve_fiber f w
      ]

  -- No task: the fiber that runs `idle`. `none` ends the loop.
  unfoldable pub serve_idle : ℕ → World → Result (Option World)
  unfolding swap_in
  serve_idle idle_fiber w = if is_term (w.states idle_fiber) then ok none else (do
    w1 ← swap_in idle_fiber (idle_count increment w)
    let w2 = idle_count decrement w1
    ok (
        some (
          if is_over (w2.states idle_fiber)
          then w2
          else record w2 { states = set_state idle_fiber hold w2.states })))

  -- One turn of the loop in `run`.
  unfoldable pub turn : ℕ → ℕ → ℕ → World → Result (Option World)
  unfolding taken serve serve_idle
  turn me fresh idle_fiber w = do
    (found, w') ← taken me w
    elim found [
      | none ↦ serve_idle idle_fiber w'
      | some ft ↦ serve fresh ft w' >>= λ w''. ok (some w'')
    ]

-- `Scheduler::stopping`.
unfoldable pub is_stopping : Scheduler → Bool
is_stopping s = s.auto_stop && s.stopping && is_empty s.fibers && s.active_thread_count == 0

-- `start`: `made` gives the id of the thread that is made as the i-th, `none` where the constructor
-- of `Thread` throws.
pub start_threads : (ℕ → Option ℕ) → ℕ → ℕ → Result (List ℕ)
start_threads made i zero = ok []
start_threads made i (suc n) = do
  t ← from_option (made i) logic_error
  l ← start_threads made (suc i) n
  ok (t ∷ l)

abbrev pub no_threads : List ℕ → Bool
no_threads [] = true
no_threads (t ∷ l) = false

unfoldable pub start : (ℕ → Option ℕ) → Scheduler → Result Scheduler
unfolding start_threads
start made s = if not s.stopping then ok s else (do
  require (no_threads s.threads) assertion
  made_threads ← start_threads made 0 s.thread_count
  ok (record s {
    stopping = false;
    threads = made_threads;
    thread_ids = s.thread_ids ++ made_threads;
  }))
