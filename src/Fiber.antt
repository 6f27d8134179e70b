-- ===== src/Fiber.antt =====
-- fiber.h and fiber.cpp: fibers, by their addresses in a store, with the counters of the process
-- and the two thread-locals of the thread that runs. `malloc` is taken to succeed; whether `getcontext` does, what
-- a callback does, and what happens until a switch comes back, are arguments; a switch whose
-- `swapcontext` fails is an assertion. The log messages are left out.
pub mod State
pub mod Lives
pub mod Reachable
pub mod Entry
use fxk.Base.{
  ℕ, ◌+◌, ◌-◌, ◌%◌, ◌^◌, Bool, true, false, not, ◌&&◌, ◌||◌, Option, none, some, List, [], ◌∷◌,
  ◌==◌, if◌then◌else◌, is_set, update, Result, ok, err, assertion, null_pointer, ◌>>=◌, ◌>>◌,
  require, from_option,
}
use fxk.Fiber.State.{
  State as FiberState, init, hold, exec, term, ready, except, is_exec, is_over, is_init,
}

-- What a fiber's context begins with. `thread`: it is what the thread was doing.
pub data EntryPoint : Type 0 where
  thread main_func caller_main_func : EntryPoint

pub record Fiber : Type 0 where
  pub id : ℕ  -- uint64_t
  pub stack_size : ℕ  -- uint32_t
  pub state : FiberState
  pub entry : EntryPoint
  pub has_stack : Bool
  pub cb : Option ℕ

pub record World : Type 0 where
  pub fibers : ℕ → Fiber
  pub last_id : ℕ  -- `s_fiber_id`
  pub count : ℕ  -- `s_fiber_count`
  pub this : Option ℕ  -- `t_fiber`
  pub thread_fiber : Option ℕ  -- `t_threadFiber`
  pub default_stack_size : ℕ  -- `fiber.stack_size`
  pub live : List ℕ  -- the fibers that are constructed and not destroyed

abbrev pub increment : ℕ → ℕ
increment n = (n + 1) % 2 ^ 64

abbrev pub decrement : ℕ → ℕ
decrement n = (n + 2 ^ 64 - 1) % 2 ^ 64

unfoldable pub get_fiber_id : World → ℕ
get_fiber_id w = elim w.this [ none ↦ 0 | some f ↦ (w.fibers f).id ]

unfoldable pub total_fibers : World → ℕ
total_fibers w = w.count

-- `SetThis`.
abbrev pub set_this : Option ℕ → World → World
set_this f w = record w { this = f }

abbrev pub put : ℕ → Fiber → World → World
put a f w = record w { fibers = update w.fibers a f }

abbrev pub set_state : ℕ → FiberState → World → World
set_state a s w = put a (record (w.fibers a) { state = s }) w

abbrev pub main_fiber : Fiber
main_fiber = record {
  id = 0;
  stack_size = 0;
  state = exec;
  entry = thread;
  has_stack = false;
  cb = none;
}

-- `Fiber()`, which makes the fiber of the thread; `saved`: `getcontext` succeeds.
unfoldable pub new_main : ℕ → Bool → World → Result World
new_main a saved w = do
  require saved assertion
  ok (record w {
    fibers = update w.fibers a main_fiber;
    this = some a;
    count = increment w.count;
    live = a ∷ w.live;
  })

-- `Fiber(cb, stacksize, use_caller)`, with `saved` as above.
unfoldable pub new_fiber : ℕ → Option ℕ → ℕ → Bool → Bool → World → Result World
new_fiber a cb stack_size use_caller saved w = do
  require saved assertion
  ok (record w {
    fibers = update w.fibers a (record {
      id = increment w.last_id;
      stack_size = (if stack_size == 0 then w.default_stack_size else stack_size) % 2 ^ 32;
      state = init;
      entry = if use_caller then caller_main_func else main_func;
      has_stack = true;
      cb = cb;
    });
    last_id = increment w.last_id;
    count = increment w.count;
    live = a ∷ w.live;
  })

abbrev pub remove : ℕ → List ℕ → List ℕ
remove a [] = []
remove a (b ∷ l) = if b == a then l else b ∷ remove a l

abbrev pub is_this : ℕ → World → Bool
is_this a w = elim w.this [ none ↦ false | some f ↦ f == a ]

-- `state == TERM || state == EXCEPT || state == INIT`.
abbrev pub is_at_rest : FiberState → Bool
is_at_rest s = is_over s || is_init s

-- `~Fiber`.
unfoldable pub destroy : ℕ → World → Result World
destroy a w =
    let w' = record w { count = decrement w.count; live = remove a w.live } in
    if (w.fibers a).has_stack
    then (require (is_at_rest (w.fibers a).state) assertion >> ok w')
    else (require (not (is_set (w.fibers a).cb)) assertion
        >> (require (is_exec (w.fibers a).state) assertion
            >> ok (if is_this a w then set_this none w' else w')))

unfoldable pub reset : ℕ → Option ℕ → Bool → World → Result World
reset a cb saved w = do
  require (w.fibers a).has_stack assertion
  require (is_at_rest (w.fibers a).state) assertion
  require saved assertion
  ok (put a (record (w.fibers a) { cb = cb; entry = main_func; state = init }) w)

-- `GetThis`: the fiber that runs; `fresh` is the place of a new one.
unfoldable pub get_this : ℕ → Bool → World → Result (ℕ × World)
unfolding new_main
get_this fresh saved w = elim w.this [
  | some f ↦ ok (f, w)
  | none ↦ (do
    w' ← new_main fresh saved w
    require (is_this fresh w') assertion
    ok (fresh, record w' { thread_fiber = some fresh }))
]

module _ (resume : ℕ → World → World) (switched : Bool) where
  -- `call`: from the thread's fiber to `a`, until that switches back.
  unfoldable pub call : ℕ → World → Result World
  call a w = do
    require (is_set w.thread_fiber) null_pointer
    require switched assertion
    ok (resume a (set_state a exec (set_this (some a) w)))

  -- `back`: from `a` to the thread's fiber, until `a` is switched to again.
  unfoldable pub back : ℕ → World → Result World
  back a w = do
    thread_fiber ← from_option w.thread_fiber null_pointer
    require switched assertion
    ok (resume thread_fiber (set_this (some thread_fiber) w))

  -- `swapIn`, from the scheduler's fiber of the thread.
  unfoldable pub swap_in : Option ℕ → ℕ → World → Result World
  swap_in scheduler_fiber a w = do
    require (not (is_exec (w.fibers a).state)) assertion
    require (is_set scheduler_fiber) null_pointer
    require switched assertion
    ok (resume a (set_state a exec (set_this (some a) w)))

module _ (swap_out : ℕ → World → World) where
  unfoldable pub yield_to_ready : ℕ → Bool → World → Result World
  unfolding get_this
  yield_to_ready fresh saved w = do
    (cur, w') ← get_this fresh saved w
    require (is_exec (w'.fibers cur).state) assertion
    ok (swap_out cur (set_state cur ready w'))

  unfoldable pub yield_to_hold : ℕ → Bool → World → Result World
  unfolding get_this
  yield_to_hold fresh saved w = do
    (cur, w') ← get_this fresh saved w
    require (is_exec (w'.fibers cur).state) assertion
    ok (swap_out cur w')
