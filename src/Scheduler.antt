-- ===== src/Scheduler.antt =====
-- The task queue sets, pfunc/task_queue_set.hpp and its four policies.
pub mod Scan
pub mod Store
pub mod Policy
pub mod Fifo
pub mod Lifo
pub mod Cilk
pub mod Runs
pub mod Prio
