-- ===== src/Manager.antt =====
-- The task manager, pfunc/taskmgr.hpp: its threads, spawning, polling for tasks, waiting, and the flow of
-- tasks through the queues.
pub mod Poll
pub mod Flow
pub mod Startup
pub mod Current
pub mod Lifecycle
pub mod State
pub mod Wait
