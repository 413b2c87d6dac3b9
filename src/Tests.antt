-- ===== src/Tests.antt =====
-- Runs of the models on concrete inputs, and the theorems at work on them.
mod Queues
mod Loops
mod Tasks
mod Threads
mod Heap
mod Barriers
mod Startup
mod CondBarrier
mod Events
mod Lifecycle
mod Running
mod Matmult
mod Atomics
mod Exceptions
mod Packing
mod Waits
mod Examples
mod Sets
mod Handles
