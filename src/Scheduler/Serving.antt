-- ===== src/Scheduler/Serving.antt =====
-- scheduler.cpp: the loop of `run` in a scheduler that one thread serves, and
-- what holds between two of its turns.
use fxk.Base.{
  ℕ, zero, suc, ◌+◌, ◌≤◌, Bool, true, false, Option, none, some, [], length, ◌==◌, if◌then◌else◌,
  All, Result, ok, ◌>>=◌, ◌≡◌,
}
use fxk.Fiber.State.{State, init, term, is_exec, is_ready, is_term}
use fxk.Scheduler.{Contexts, FiberAndThread, World, is_task, is_pinned, set_state, turn}

-- The loop of `run`, with the number of the turn: what a fiber does, and where a new one is placed,
-- may differ from turn to turn. `ok none`: the fuel has run out. The loop ends in the world before
-- its last turn, which changes nothing of it but the count of tickles.
unfoldable pub run :
    Contexts → (ℕ → ℕ → World → World) → (World → ℕ) → ℕ → ℕ → ℕ → ℕ → World → Result (Option World)
run contexts resume fresh me idle_fiber zero i w = ok none
run contexts resume fresh me idle_fiber (suc fuel) i w = do
  next ← turn contexts (resume i) me (fresh w) idle_fiber w
  elim next [
    | none ↦ ok (some w)
    | some w' ↦ run contexts resume fresh me idle_fiber fuel (suc i) w'
  ]

-- The idle fiber's context begins with `MainFunc`, which does not call the fiber's callback: it
-- terminates as soon as it is switched to, and `idle` never runs.
unfoldable pub idle_resume : ℕ → World → World
idle_resume idle_fiber w = record w { states = set_state idle_fiber term w.states }

abbrev pub holds : ℕ → FiberAndThread → Bool
holds f ft = elim ft.fiber [ none ↦ false | some g ↦ g == f ]

abbrev pub holds_any : Option ℕ → FiberAndThread → Bool
holds_any none ft = false
holds_any (some f) ft = holds f ft

-- A task that the thread may take, and which is neither its idle fiber nor its fiber for functions.
pub record IsOpen (me idle_fiber : ℕ) (cb_fiber : Option ℕ) (ft : FiberAndThread) : Type 0 where
  pub task : is_task ft ≡ true
  pub unpinned : is_pinned me ft ≡ false
  pub not_idle : holds idle_fiber ft ≡ false
  pub not_cb : holds_any cb_fiber ft ≡ false

abbrev pub is_some_of : Option ℕ → ℕ → Bool
is_some_of none g = false
is_some_of (some f) g = g == f

-- `n` threads are active, and no fiber runs but `running`.
pub record IsServed (me idle_fiber n : ℕ) (running : Option ℕ) (w : World) : Type 0 where
  pub open_tasks : All (IsOpen me idle_fiber w.cb_fiber) w.scheduler.fibers
  pub quiet : (g : ℕ) → is_some_of running g ≡ false → is_exec (w.states g) ≡ false
  pub active : w.scheduler.active_thread_count ≡ n
  pub waits : (f : ℕ) → w.cb_fiber ≡ some f → is_some_of running f ≡ false → w.states f ≡ init
  pub own : (f : ℕ) → w.cb_fiber ≡ some f → (f == idle_fiber) ≡ false

abbrev pub ready_bit : State → ℕ
ready_bit s = if is_ready s then 1 else 0

-- What the fibers do: the idle fiber terminates; another one keeps the thread as it is served, and
-- no more tasks are put into the queue, by fibers or because fibers yield to be run again, than a
-- budget allows that the turns use up.
pub record IsFinite (resume : ℕ → ℕ → World → World) (me idle_fiber : ℕ) (budget : ℕ → ℕ)
    : Type 0 where
  pub idles : (i : ℕ) (w : World) → resume i idle_fiber w ≡ idle_resume idle_fiber w
  pub keeps :
      (i f n : ℕ) (w : World)
      → (f == idle_fiber) ≡ false
      → IsServed me idle_fiber n (some f) w
      → IsServed me idle_fiber n (some f) (resume i f w)
  pub same_cb : (i f : ℕ) (w : World) → (resume i f w).cb_fiber ≡ w.cb_fiber
  pub puts :
      (i f : ℕ) (w : World)
      → (f == idle_fiber) ≡ false
      → length (resume i f w).scheduler.fibers
          + ready_bit ((resume i f w).states f)
          + budget (suc i)
        ≤ length w.scheduler.fibers + budget i
  pub falls : (i : ℕ) → budget (suc i) ≤ budget i

-- A new fiber is placed where no other stands.
pub record IsFresh (me idle_fiber : ℕ) (fresh : World → ℕ) : Type 0 where
  pub apart : (w : World) → (fresh w == idle_fiber) ≡ false
  pub unused :
      (w : World)
      → w.cb_fiber ≡ none
      → All (IsOpen me idle_fiber none) w.scheduler.fibers
      → All (IsOpen me idle_fiber (some (fresh w))) w.scheduler.fibers

-- The end of the loop: no task is left, no thread is active, the idle fiber has terminated.
abbrev pub HasEnded : ℕ → World → Type 0
HasEnded idle_fiber w =
    (w.scheduler.fibers ≡ [])
    × (w.scheduler.active_thread_count ≡ 0)
    × (is_term (w.states idle_fiber) ≡ true)
