-- ===== src/IoManager/Contexts.antt =====
-- `FdContext`: one descriptor's events, and whom to wake for each.
use fxk.Base.{
  ℕ, Option, none, some, List, [], ◌∷◌, ◌++◌, Result, ok, err, assertion, null_pointer, ◌>>=◌,
  from_option,
}
use fxk.IoManager.Events.{Event, no_event, read, write, clear}

pub data Task : Type 0 where
  run_cb : ℕ → Task
  resume_fiber : ℕ → Task

pub record EventContext : Type 0 where
  pub scheduler : Option ℕ
  pub fiber : Option ℕ
  pub cb : Option ℕ

abbrev pub empty_context : EventContext
empty_context = record { scheduler = none; fiber = none; cb = none }

pub record FdContext : Type 0 where
  pub read_context : EventContext
  pub write_context : EventContext
  pub fd : ℕ
  pub events : ℕ

abbrev pub new_context : ℕ → FdContext
new_context fd = record {
  read_context = empty_context;
  write_context = empty_context;
  fd = fd;
  events = 0;
}

-- `getContext`: its result as a value, and the write through the reference that it returns.
unfoldable pub get_context : Event → FdContext → Result EventContext
get_context no_event c = err assertion
get_context read c = ok c.read_context
get_context write c = ok c.write_context

unfoldable pub put_context : Event → EventContext → FdContext → FdContext
put_context no_event x c = c
put_context read x c = record c { read_context = x }
put_context write x c = record c { write_context = x }

abbrev pub reset_context : EventContext → EventContext
reset_context x = empty_context

-- What `schedule` pushes of a pointer to a callback or a fiber: nothing if that is null.
abbrev pub tasks_of : (ℕ → Task) → Option ℕ → List Task
tasks_of f none = []
tasks_of f (some a) = f a ∷ []

-- `schedule(&ctx.cb)` or `schedule(&ctx.fiber)` swaps what it is given out of the context.
unfoldable pub wake : EventContext → EventContext × List Task
wake x = elim x.cb [
  | some c ↦ (record x { scheduler = none; cb = none }, tasks_of run_cb (some c))
  | none ↦ (record x { scheduler = none; fiber = none }, tasks_of resume_fiber x.fiber)
]

-- A scheduled task, with the scheduler that it was given to.
abbrev pub Scheduled : Type 0
Scheduled = List (ℕ × Task)

abbrev pub for_scheduler : ℕ → List Task → Scheduled
for_scheduler s [] = []
for_scheduler s (t ∷ ts) = (s, t) ∷ for_scheduler s ts

unfoldable pub trigger_event : Event → FdContext → Scheduled → Result (FdContext × Scheduled)
unfolding wake get_context put_context
trigger_event event c log = do
  x ← get_context event c
  s ← from_option x.scheduler null_pointer
  let (x', tasks) = wake x
  ok (
    put_context event x' (record c { events = clear event c.events }),
    log ++ for_scheduler s tasks,
  )
