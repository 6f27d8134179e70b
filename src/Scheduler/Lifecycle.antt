-- ===== src/Scheduler/Lifecycle.antt =====
-- scheduler.cpp: the constructor, the destructor and `stop`. What the root
-- fiber does until it switches back is an argument, and so is whether a thread can be joined.
use fxk.Base.{
  ℕ, ◌+◌, ◌-◌, Bool, true, false, not, ◌||◌, ◌&&◌, Option, none, some, List, [], ◌∷◌, ◌==◌, ltb,
  if◌then◌else◌, is_set, Result, ok, assertion, logic_error, require, ◌>>=◌, ◌>>◌,
}
use fxk.Fiber.State.{State, is_term, is_init}
use fxk.Scheduler.{Scheduler, tickle_if, is_stopping}

-- A scheduler with its root fiber and its root thread, `none` for -1.
pub record Rooted : Type 0 where
  pub scheduler : Scheduler
  pub root_fiber : Option ℕ
  pub root_thread : Option ℕ

-- `t_scheduler` and `t_scheduler_fiber` of the calling thread.
pub record Locals : Type 0 where
  pub this : Option ℕ
  pub scheduler_fiber : Option ℕ

abbrev pub is_this : ℕ → Locals → Bool
is_this a l = elim l.this [ none ↦ false | some b ↦ b == a ]

abbrev pub new_scheduler : ℕ → List ℕ → Scheduler
new_scheduler thread_count thread_ids = record {
  fibers = [];
  active_thread_count = 0;
  idle_thread_count = 0;
  stopping = true;
  auto_stop = false;
  thread_count = thread_count;
  threads = [];
  thread_ids = thread_ids;
  tickled = 0;
}

-- The constructor, on thread `me`; `root` is the place of the root fiber.
unfoldable pub construct : ℕ → ℕ → Bool → ℕ → ℕ → Locals → Result (Rooted × Locals)
construct a threads use_caller me root l = do
  require (ltb 0 threads) assertion
  if use_caller
      then (do
        require (not (is_set l.this)) assertion
        ok (
          record {
            scheduler = new_scheduler (threads - 1) (me ∷ []);
            root_fiber = some root;
            root_thread = some me;
          },
          record { this = some a; scheduler_fiber = some root },
        ))
      else ok (
        record { scheduler = new_scheduler threads []; root_fiber = none; root_thread = none },
        l,
      )

-- The destructor.
unfoldable pub destruct : ℕ → Rooted → Locals → Result Locals
destruct a r l = do
  require r.scheduler.stopping assertion
  ok (if is_this a l then record l { this = none } else l)

abbrev pub tickles : ℕ → Scheduler → Scheduler
tickles n s = record s { tickled = s.tickled + n }

-- `join` of one thread after the other: those that are joined, up to the first that cannot be.
unfoldable pub join_all : (ℕ → Bool) → List ℕ → Result (List ℕ)
join_all joins [] = ok []
join_all joins (t ∷ l) = do require (joins t) logic_error; rest ← join_all joins l; ok (t ∷ rest)

-- Is the root fiber all that there is, and does it not run?
abbrev pub root_rests : (ℕ → State) → Rooted → Bool
root_rests states r = elim r.root_fiber [
  | none ↦ false
  | some f ↦ r.scheduler.thread_count == 0 && (is_term (states f) || is_init (states f))
]

module _ (call_root : Rooted → Rooted) (joins : ℕ → Bool) where
  -- The threads that are there when the loops have been told to stop, joined.
  abbrev pub join_threads : Rooted → Result (List ℕ × Rooted)
  join_threads r = do
    joined ← join_all joins r.scheduler.threads
    ok (joined, record r { scheduler = record r.scheduler { threads = [] } })

  abbrev pub called_root : Rooted → Rooted
  called_root r = if is_set r.root_fiber && not (is_stopping r.scheduler) then call_root r else r

  -- Behind the first test.
  unfoldable pub stop_all : ℕ → Locals → Rooted → Result (List ℕ × Rooted)
  unfolding join_all
  stop_all a l r = do
    require (if is_set r.root_thread then is_this a l else not (is_this a l)) assertion
    let s = tickles r.scheduler.thread_count (record r.scheduler { stopping = true })
    let s' = tickle_if (is_set r.root_fiber) s
    join_threads (called_root (record r { scheduler = s' }))

  -- `stop`: the threads that it has joined.
  unfoldable pub stop : ℕ → (ℕ → State) → Locals → Rooted → Result (List ℕ × Rooted)
  unfolding stop_all
  stop a states l r =
      let s = record r.scheduler { auto_stop = true } in
      let stopped = record r { scheduler = record s { stopping = true } } in
      if root_rests states r
      then (if is_stopping stopped.scheduler then ok ([], stopped) else stop_all a l stopped)
      else stop_all a l (record r { scheduler = s })
