-- ===== src/Scheduler/Switching.antt =====
-- scheduler.cpp: `Scheduler::switchTo` and `SchedulerSwitcher`, with the schedulers in a store by
-- their addresses. The result tells if the calling fiber yields, to go on in another thread.
use fxk.Base.{
  ℕ, Bool, true, false, ◌&&◌, Option, none, some, is_set, ◌==◌, if◌then◌else◌, Result, ok,
  assertion, require, ◌>>◌, ◌>>=◌, update,
}
use fxk.Scheduler.{FiberAndThread, Scheduler, schedule}
use fxk.Scheduler.Lifecycle.{Locals, is_this}

-- `thread == -1 || thread == sylar::GetThreadId()`.
abbrev pub may_stay : Option ℕ → ℕ → Bool
may_stay none me = true
may_stay (some t) me = t == me

abbrev pub of_fiber : ℕ → Option ℕ → FiberAndThread
of_fiber fiber thread = record { fiber = some fiber; cb = none; thread = thread }

-- Called by `fiber` on thread `me`.
unfoldable pub switch_to :
    ℕ → Option ℕ → ℕ → ℕ → Locals → (ℕ → Scheduler) → Result (Bool × (ℕ → Scheduler))
switch_to a thread me fiber l s =
    require (is_set l.this) assertion
    >> (if is_this a l && may_stay thread me
        then ok (false, s)
        else ok (true, update s a (schedule (of_fiber fiber thread) (s a))))

abbrev pub switch_if : Option ℕ → ℕ → ℕ → Locals → (ℕ → Scheduler) → Result (Bool × (ℕ → Scheduler))
switch_if none me fiber l s = ok (false, s)
switch_if (some a) me fiber l s = switch_to a none me fiber l s

pub record SchedulerSwitcher : Type 0 where
  pub caller : Option ℕ

unfoldable pub new_switcher :
    Option ℕ
    → ℕ
    → ℕ
    → Locals
    → (ℕ → Scheduler)
    → Result (SchedulerSwitcher × Bool × (ℕ → Scheduler))
new_switcher target me fiber l s = do
  (yields, s') ← switch_if target me fiber l s
  ok (record { caller = l.this }, yields, s')

unfoldable pub delete_switcher :
    SchedulerSwitcher → ℕ → ℕ → Locals → (ℕ → Scheduler) → Result (Bool × (ℕ → Scheduler))
delete_switcher switcher me fiber l s = switch_if switcher.caller me fiber l s
