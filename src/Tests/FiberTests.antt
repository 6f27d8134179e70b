-- ===== src/Tests/FiberTests.antt =====
-- Threads and fibers on concrete inputs.
use fxk.Base.{
  ℕ, ◌%◌, ◌^◌, ◌<◌, Bool, true, false, none, some, [], ◌∷◌, length, update, ok, ◌≡◌, refl, ◌⊎◌,
  arith, codes, Bytes,
}
use fxk.Thread
use fxk.Thread.{
  Thread, new_locals, create, RunPc, calls, set_name, get_name, join, destroy, wait_step, run_step,
}
use fxk.Thread.Creating.{Creation, Moves, done, runs, CanMove}
use fxk.Thread.Handshake.{IsCreated, begin, given, create-IsCreated}
use fxk.Thread.Releasing.{any, joins, joins-destroy}
use fxk.Fiber
use fxk.Fiber.{Fiber, new_fiber, main_fiber, main_func, total_fibers, get_this, set_state}
use fxk.Fiber.State.{init}
use fxk.Fiber.Lives.{IsConsistent}
use fxk.Fiber.Reachable.{Steps, makes, enters, destroys, total_fibers-counts}
use fxk.Fiber.Entry.{
  caller_main_entry, called, Tells, CanBeReused, KeepsStack, caller_main_entry-Tells,
}

abbrev blank_thread : Thread
blank_thread = record { id = 1; thread = none; cb = none; name = []; semaphore = 0 }

abbrev blank : Thread.World
blank = record {
  threads = λ a. blank_thread;
  locals = λ t. new_locals;
  kernel_names = λ t. [];
  joined = [];
  detached = [];
}

abbrev worker : Bytes
worker = codes "worker"

abbrev begun : Thread.World
begun = record blank {
  threads =
      update blank.threads 4
        (record { id = 1; thread = some 30; cb = some 8; name = worker; semaphore = 0 });
}

create-run : create 4 8 worker (some 30) blank ≡ ok begun
unfolding create
create-run = refl

-- The new thread's first statement.
abbrev has_this : Creation
has_this = record {
  pc = RunPc.sets_name;
  returned = false;
  world = record begun {
    locals = update begun.locals 30 (record { this = some 4; name = codes "UNKNOW" });
  };
}

one_move : Moves 4 30 1 (begin begun) has_this
unfolding run_step
one_move = runs _ _ refl (done _)

create-IsCreated_example :
    (◌≡◌ {A = ℕ} 1 7 × IsCreated 4 30 8 (given worker) has_this)
    ⊎ ((1 < 7) × (has_this.returned ≡ false) × CanMove 4 30 has_this)
create-IsCreated_example = create-IsCreated 4 30 8 1 worker blank begun has_this create-run one_move

joins-destroy_example :
    ((any (false ∷ true ∷ true ∷ []) ≡ true)
      × ((destroy 4 (joins 4 (false ∷ true ∷ true ∷ []) begun)).joined ≡ 30 ∷ [])
      × ((destroy 4 (joins 4 (false ∷ true ∷ true ∷ []) begun)).detached ≡ []))
    ⊎ ((any (false ∷ true ∷ true ∷ []) ≡ false)
        × ((destroy 4 (joins 4 (false ∷ true ∷ true ∷ []) begun)).joined ≡ [])
        × ((destroy 4 (joins 4 (false ∷ true ∷ true ∷ []) begun)).detached ≡ 30 ∷ []))
joins-destroy_example = joins-destroy 4 30 (false ∷ true ∷ true ∷ []) begun refl

-- A thread that names itself, and one that gives the empty name.
naming : get_name 0 (set_name 0 worker blank) ≡ worker
unfolding get_name set_name
naming = refl

no_naming : set_name 0 [] blank ≡ blank
unfolding set_name
no_naming = refl

abbrev no_fibers : Fiber.World
no_fibers = record {
  fibers = λ a. main_fiber;
  last_id = 0;
  count = 0;
  this = none;
  thread_fiber = none;
  default_stack_size = 131072;
  live = [];
}

-- The thread's own fiber, at 0.
abbrev entered : Fiber.World
entered = record no_fibers {
  fibers = update no_fibers.fibers 0 main_fiber;
  count = 1;
  this = some 0;
  thread_fiber = some 0;
  live = 0 ∷ [];
}

abbrev first : Fiber
first = record {
  id = 1;
  stack_size = 131072;
  state = init;
  entry = main_func;
  has_stack = true;
  cb = some 7;
}

abbrev made : Fiber.World
made = record entered {
  fibers = update entered.fibers 5 first;
  last_id = 1;
  count = 2;
  live = 5 ∷ 0 ∷ [];
}

abbrev destroyed : Fiber.World
destroyed = record made { count = 1; live = 0 ∷ [] }

three-Steps : Steps no_fibers destroyed
unfolding get_this new_fiber Fiber.destroy
three-Steps = Steps.next {w1 = entered} (enters 0 0 true refl) (
    Steps.next {w1 = made} (makes 5 (some 7) 0 false true (omega arith) refl)
      (Steps.next {w1 = destroyed} (destroys 5 refl refl) (Steps.done _)))

total_fibers-counts_example :
    (total_fibers destroyed ≡ length destroyed.live % 2 ^ 64) × IsConsistent destroyed
total_fibers-counts_example = total_fibers-counts no_fibers destroyed (refl, refl, refl) three-Steps

-- The fiber at 5 runs.
abbrev running : Fiber.World
running = record made { this = some 5 }

-- A callback that throws.
abbrev throws : ℕ → Fiber.World → Bool × Fiber.World
throws cb w = (false, w)

throws-KeepsStack : KeepsStack throws 5
throws-KeepsStack cb w h = h

caller_main_entry-Tells_example :
    (w' : Fiber.World) × (caller_main_entry throws 9 true running ≡ ok w')
    × Tells 5 (called throws (some 7) running).0 w'
    × CanBeReused 5 w'
caller_main_entry-Tells_example =
    caller_main_entry-Tells throws 5 9 true running refl refl throws-KeepsStack
