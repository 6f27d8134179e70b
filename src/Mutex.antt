-- ===== src/Mutex.antt =====
-- mutex.h: the locks, the guards that hold them for a scope, and threads that share one lock, each
-- through a guard. The pthread calls are arguments. A call that waits for the lock is `none`; to
-- wait in a loop or in the kernel comes to the same, to try again later.
pub mod Locks
pub mod Guard
pub mod Threads
pub mod Refinement
pub mod Exclusion
pub mod Progress
