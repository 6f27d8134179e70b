-- ===== src/Mutex/Guard.antt =====
-- mutex.h: `ScopedLockImpl`, `ReadScopedLockImpl` and `WriteScopedLockImpl`.
use fxk.Base.{Bool, true, false, Option, none, some, if◌then◌else◌}
use fxk.Mutex.Locks.{Lockable}

-- A guard, with the lock that it refers to.
pub record Guard (Lock : Type 0) : Type 0 where
  pub mutex : Lock
  pub locked : Bool

module _ {Lock : Type 0} (ops : Lockable Lock) where
  abbrev lock_mutex : Option Lock → Option (Guard Lock)
  lock_mutex none = none
  lock_mutex (some m) = some (record { mutex = m; locked = true })

  -- `m_mutex.lock(); m_locked = true;`
  unfoldable pub construct : Lock → Option (Guard Lock)
  construct m = lock_mutex (ops.lock m)

  unfoldable pub guard_lock : Guard Lock → Option (Guard Lock)
  guard_lock g = if g.locked then some g else lock_mutex (ops.lock g.mutex)

  unfoldable pub guard_unlock : Guard Lock → Guard Lock
  guard_unlock g = if g.locked then record { mutex = ops.unlock g.mutex; locked = false } else g

  unfoldable pub destroy : Guard Lock → Lock
  unfolding guard_unlock
  destroy g = (guard_unlock g).mutex
