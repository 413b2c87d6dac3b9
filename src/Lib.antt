-- ===== src/Lib.antt =====
-- PFunc, a C++ library for task parallelism (headers in pfunc/): the core of its runtime.
--
-- A client spawns tasks. `taskmgr::spawn_task` prepares the task object (its attributes, its
-- group, its functor, its completion event) and puts a pointer to it on one of the queues of a
-- task queue set. The threads of the task manager poll that set with `get_task`, first their own
-- queue and then the others, run what they find and notify its waiters. A task that waits for
-- another, or for the other tasks of its group in a barrier, runs more tasks in the meantime; a
-- pair of predicates says which. How a queue is ordered is the scheduling policy, a template
-- parameter with four instances. The parallel loops are clients that split a space and spawn a
-- task for one half.
--
-- The files:
--   Base: shared names; Boolean tests on the native numbers; lists by index.
--   Scheduler: task_queue_set.hpp and the policies fifo.hpp, lifo.hpp, cilk.hpp and prio.hpp. Scan
--     is the loop of `get`, Store the array of queues; Policy states what a policy owes its client
--     (`Contract`), and its Search and Section reduce that to the laws of one critical section;
--     Fifo, Lifo, Cilk and Prio are the policies, each with `put`, `get` and the look
--     `test_and_get`; the Order below each is about sequences of calls, which Runs has for all.
--   Task: attribute.hpp, event.hpp, group.hpp, exception.hpp, and the task object of task.hpp,
--     whose methods are functions from the object to the object after the call. Event has an event
--     as one thread sees it; its Waiters and CondWaiters are step relations of all waiters of a
--     waitable event and its notifier, over a futex and over a condition variable. Exception has
--     exceptions as values, and its Objects has them on the heap, with the pointer `except`.
--   Predicate: predicate.hpp, the pairs by policy.
--   Thread: thread.hpp, with Calls, which has what all wrappers of system calls do with error
--     codes.
--   Manager: taskmgr.hpp. Poll is `get_task`, against any behaviour of the other threads; Flow is
--     a step relation on the queues and the tasks under way, for any contract; State has
--     `spawn_task`, the work loop and `progress_barrier` on the state of the manager; Wait is
--     `progress_wait`, with `get_task` as it changes that state, and its Join is the wait of a
--     task; Startup is the constructor, with the numbers of the threads and what a thread is told
--     of itself; Current is what a running task asks of its group; Lifecycle is a step relation of
--     the constructor and the destructor together with the threads.
--   Loops: space_1D.hpp, parallel_for.hpp and parallel_reduce.hpp; While is parallel_while.hpp.
--   Sync: the atomic operations of asm/generic.h, which are made of mutexes (Atomics), and the futex
--     mutex of mutex.hpp, each as a step relation of any number of threads; the stealing
--     barrier of group.hpp, as one of the tasks of a group, and the start-up barrier of barrier.hpp, as one of
--     the threads (Startup over a futex, CondBarrier over a condition variable); Posix has the mutex
--     and the condition variable (cond.hpp) over pthreads, WindowsMutex the mutex of Windows, and
--     Windows the condition variable that the code makes there of a semaphore and an event.
--   Interface: `wait_all` and `test_all` of pfunc.hpp and of the C interface lib/pfunc_c.cpp
--     (Sets); of the latter the numbers that it returns (Codes), its handles (Handles), spawning,
--     with the work objects of pfunc.h, and what a running task asks (Running), and the functions
--     on the global task manager (Global); and the functions of pfunc.hpp (Cxx), whose Global is
--     the namespace `global`.
--   Pack: lib/pfunc_pack.cpp. Token has the types, Format reads a format string, Buffer packs and
--     unpacks arguments, each the list of its bytes.
--   Utility: `get_closest_power_of_2` of utility.h.
--   Examples: parts of examples/cxx/. Matmult is matmult.cpp, a recursive product of matrices; Scale
--     is the functor of for.cpp, composed with the model of `parallel_for`; Dag is the graph of
--     dot_reader/dag.h; Doubles has the arithmetic that they use.
--   Tests: runs at concrete inputs, one priority queue and one reduction.
--
-- How the code is read. A pointer to a task is its address; NULL is `not_found` or `none`. An
-- access outside an array is `fault`, or `none` in `put`. A critical section under a queue's mutex
-- is one step on the whole set. A method that may throw returns a `Result` beside the state that
-- it leaves. Numbers have their width where an operation of the code can wrap: 64 bits for
-- `size_t`, 32 for the words that are changed atomically. Memory is sequentially consistent.
--
-- Fuel: `get_task` has fuel for its rounds, `progress_wait` for its turns and for each poll, and
-- the loops for the depth of their recursion; the theorems on their end say how much is enough.
-- The search of `get` recurs on the attempts left, and `extract_tokens` takes as fuel the length
-- of its string and one.
--
-- Parameters: `std::priority_queue` (the record `PriorityQueue`, with the laws of the standard),
-- the client's functors (`Body`, `Reducer`), the load of a task from its address, the
-- `compare_type`, what the other threads answer to a poll, or do to the state during a wait, the
-- error codes that the system returns, the addresses that `new` returns, and the arithmetic of
-- `double`. `std::queue`, `std::stack` and `std::deque` are lists.
--
-- Not modelled: the spinning barrier (group.hpp), whose lock does not keep others out where it is
-- a futex; processor affinities, yielding, and the threads of Windows (thread.hpp), which are calls
-- of the system; the atomic instructions themselves (asm/x86.h, ppc.h and win.h); the release of
-- memory, but for exceptions and handles; performance counters (perf.hpp); generated types
-- (generator.hpp); the `main` of for.cpp and the whole of while.cpp, which use references to
-- temporaries that are gone; the other examples, and the parser of graphs
-- (examples/cxx/dot_reader); and `wait_any` of pfunc.hpp, which does not compile.
pub mod Base
pub mod Scheduler
pub mod Loops
pub mod Task
pub mod Thread
pub mod Predicate
pub mod Manager
pub mod Sync
mod Tests
pub mod Interface
pub mod Examples
pub mod Utility
pub mod Pack
