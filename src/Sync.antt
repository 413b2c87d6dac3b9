-- ===== src/Sync.antt =====
-- The atomic operations (pfunc/asm/generic.h), the mutex, the condition variables and the barriers
-- (pfunc/mutex.hpp, cond.hpp, group.hpp and barrier.hpp): what synchronises threads and tasks.
pub mod Atomics
pub mod Mutex
pub mod Posix
pub mod Windows
pub mod WindowsMutex
pub mod Barrier
pub mod Startup
pub mod CondBarrier
