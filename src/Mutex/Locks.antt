-- ===== src/Mutex/Locks.antt =====
-- mutex.h: the locks themselves. Each kind of lock gives the two calls that a guard makes.
use fxk.Base.{Bool, true, false, Option, none, some, ◌≡◌, refl, arith, if◌then◌else◌}

-- What a guard of type `ScopedLockImpl<T>` calls on its `T`. `none`: the lock cannot be had now.
pub record Lockable (Lock : Type 0) : Type 0 where
  pub lock : Lock → Option Lock
  pub unlock : Lock → Lock

-- What makes it a lock: it is had exactly where it is free, and `unlock` frees it. `view` tells a
-- lock that is free (`some false`) and one that a single thread holds (`some true`) from others,
-- such as a lock that readers share.
pub record IsLock {Lock : Type 0} (ops : Lockable Lock) (view : Lock → Option Bool) : Type 0 where
  pub acquires :
      (m : Lock)
      → view m ≡ some false
      → (m' : Lock) × (ops.lock m ≡ some m') × (view m' ≡ some true)
  pub waits : (m : Lock) → view m ≡ some true → ops.lock m ≡ none
  pub frees : (m : Lock) → view m ≡ some true → view (ops.unlock m) ≡ some false

-- `std::atomic_flag_test_and_set_explicit`: the flag that was, and the flag that is now.
abbrev pub test_and_set : Bool → Bool × Bool
test_and_set flag = (flag, true)

-- `CALock::lock`, one round of its loop.
unfoldable pub cas_lock : Bool → Option Bool
cas_lock flag = let (was, now) = test_and_set flag in if was then none else some now

unfoldable pub cas_unlock : Bool → Bool
cas_unlock flag = false

-- `CALock`, which is made with its flag cleared.
abbrev pub new_cas_lock : Bool
new_cas_lock = false

abbrev pub cas_ops : Lockable Bool
cas_ops = record { lock = cas_lock; unlock = cas_unlock }

-- `NullMutex`, whose calls do nothing.
abbrev pub null_ops : Lockable (Unit {0})
null_ops = record { lock = λ m. some m; unlock = λ m. m }

-- The calls of a `pthread_mutex_t` or a `pthread_spinlock_t`.
pub record PthreadCalls (Lock : Type 0) : Type 0 where
  pub lock : Lock → Option Lock
  pub unlock : Lock → Lock

-- `Mutex` and `Spinlock`.
abbrev pub mutex_ops : {Lock : Type 0} → PthreadCalls Lock → Lockable Lock
mutex_ops calls = record { lock = calls.lock; unlock = calls.unlock }

abbrev pub spin_ops : {Lock : Type 0} → PthreadCalls Lock → Lockable Lock
spin_ops calls = record { lock = calls.lock; unlock = calls.unlock }

-- The calls of a `pthread_rwlock_t`, to which those of `RWMutex` go on.
pub record RwCalls (Lock : Type 0) : Type 0 where
  pub rdlock : Lock → Option Lock
  pub wrlock : Lock → Option Lock
  pub unlock : Lock → Lock

-- `RWMutex`, as `ReadScopedLockImpl` calls it, and as `WriteScopedLockImpl` does.
abbrev pub read_ops : {Lock : Type 0} → RwCalls Lock → Lockable Lock
read_ops calls = record { lock = calls.wrlock; unlock = calls.unlock }

abbrev pub write_ops : {Lock : Type 0} → RwCalls Lock → Lockable Lock
write_ops calls = record { lock = calls.wrlock; unlock = calls.unlock }

pub cas_ops-IsLock : IsLock cas_ops (λ flag. some flag)
unfolding cas_lock cas_unlock
cas_ops-IsLock = record {
  acquires = λ m h. (true, ground (arith, h), refl);
  waits = λ m h. ground (arith, h);
  frees = λ m h. refl;
}
