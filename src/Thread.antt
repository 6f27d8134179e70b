-- ===== src/Thread.antt =====
-- thread.h and thread.cpp: `Thread`, with the two thread-locals. A `Thread` is its address in a
-- store, and a thread of the system its id, which also stands for its `pthread_t`. What
-- `pthread_create` and `pthread_join` answer is an argument. The creation of a thread is the
-- constructor and the new thread's `run` side by side, up to the callback.
pub mod Creating
pub mod Handshake
pub mod Releasing
use fxk.Base.{
  ℕ, zero, suc, Bool, true, false, Option, none, some, List, [], ◌∷◌, Bytes, codes, take, update,
  if◌then◌else◌, is_set, Result, ok, err, logic_error, ◌>>=◌,
}

pub record Thread : Type 0 where
  pub id : ℕ
  pub thread : Option ℕ  -- `m_thread`, `none` for 0
  pub cb : Option ℕ
  pub name : Bytes
  pub semaphore : ℕ

-- `t_thread` and `t_thread_name`.
pub record Locals : Type 0 where
  pub this : Option ℕ
  pub name : Bytes

pub record World : Type 0 where
  pub threads : ℕ → Thread
  pub locals : ℕ → Locals
  pub kernel_names : ℕ → Bytes
  pub joined : List ℕ
  pub detached : List ℕ

abbrev pub is_empty : Bytes → Bool
is_empty [] = true
is_empty (c ∷ l) = false

abbrev pub unknown : Bytes
unknown = codes "UNKNOW"

-- The thread-locals of a thread of the system that has just begun.
abbrev pub new_locals : Locals
new_locals = record { this = none; name = unknown }

unfoldable pub get_this : ℕ → World → Option ℕ
get_this me w = (w.locals me).this

unfoldable pub get_name : ℕ → World → Bytes
get_name me w = (w.locals me).name

abbrev pub put : ℕ → Thread → World → World
put a t w = record w { threads = update w.threads a t }

abbrev pub put_locals : ℕ → Locals → World → World
put_locals me l w = record w { locals = update w.locals me l }

abbrev pub name_this : Bytes → Option ℕ → World → World
name_this name none w = w
name_this name (some a) w = put a (record (w.threads a) { name = name }) w

unfoldable pub set_name : ℕ → Bytes → World → World
set_name me name w =
    if is_empty name
    then w
    else put_locals me (record (w.locals me) { name = name }) (name_this name (w.locals me).this w)

abbrev pub new_thread : ℕ → Bytes → Thread
new_thread cb name = record {
  id = 1;
  thread = none;
  cb = some cb;
  name = if is_empty name then unknown else name;
  semaphore = 0;
}

-- The constructor, up to the wait for the new thread: `created` is the thread that
-- `pthread_create` has made, `none` if it fails.
unfoldable pub create : ℕ → ℕ → Bytes → Option ℕ → World → Result World
create a cb name created w = elim created [
  | none ↦ err logic_error
  | some tid ↦ ok (put a (record (new_thread cb name) { thread = some tid }) w)
]

-- Where the new thread stands in `run`: what it does next. `cb` is the local variable of `run`.
pub data RunPc : Type 0 where
  sets_this sets_name sets_id sets_kernel_name swaps : RunPc
  notifies : (cb : Option ℕ) → RunPc
  calls : (cb : Option ℕ) → RunPc

-- One statement of `run`.
unfoldable pub run_step : ℕ → ℕ → RunPc → World → Option (RunPc × World)
run_step a tid sets_this w =
    some (sets_name, put_locals tid (record (w.locals tid) { this = some a }) w)
run_step a tid sets_name w =
    some (sets_id, put_locals tid (record (w.locals tid) { name = (w.threads a).name }) w)
run_step a tid sets_id w = some (sets_kernel_name, put a (record (w.threads a) { id = tid }) w)
run_step a tid sets_kernel_name w =
    some (swaps, record w { kernel_names = update w.kernel_names tid (take 15 (w.threads a).name) })
run_step a tid swaps w =
    some (notifies (w.threads a).cb, put a (record (w.threads a) { cb = none }) w)
run_step a tid (notifies cb) w =
    some (calls cb, put a (record (w.threads a) { semaphore = suc (w.threads a).semaphore }) w)
run_step a tid (calls cb) w = none

abbrev pub lower : ℕ → Option ℕ
lower zero = none
lower (suc n) = some n

-- `m_semphore.wait()`, after which the constructor returns.
unfoldable pub wait_step : ℕ → World → Option World
wait_step a w = elim (lower (w.threads a).semaphore) [
  | none ↦ none
  | some n ↦ some (put a (record (w.threads a) { semaphore = n }) w)
]

-- `join`: does `pthread_join` succeed?
unfoldable pub join : ℕ → Bool → World → Result World
join a succeeds w = elim (w.threads a).thread [
  | none ↦ ok w
  | some tid ↦
      if succeeds
      then ok
          (put a (record (w.threads a) { thread = none }) (record w { joined = tid ∷ w.joined }))
      else err logic_error
]

-- The destructor.
unfoldable pub destroy : ℕ → World → World
destroy a w = elim (w.threads a).thread [
  | none ↦ w
  | some tid ↦ record w { detached = tid ∷ w.detached }
]
