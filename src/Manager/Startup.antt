-- ===== src/Manager/Startup.antt =====
-- How a task manager starts and stops its threads (pfunc/taskmgr.hpp): the constructor, what a thread
-- does before its work loop, what a thread is told of itself, and the destructor's cancellation.
pub mod Numbers
pub mod Identity
use pfunc.Base.{
  ℕ, zero, suc, ◌+◌, ◌%◌, ◌^◌, List, [], ◌∷◌, ◌++◌, Option, none, some, Bool, true, false, ltb,
  if◌then◌else◌, replicate, map,
}
use pfunc.Task.Exception.{caught, library, Result, returns, throws}
use pfunc.Thread.{
  ThreadAttr, ThreadCall, stack_max, no_affinity, create_thread, initialize, tls_set, tls_get,
}
use pfunc.Scheduler.Store.{QueueSet, create}
use pfunc.Sync.Startup.{Barrier}
use pfunc.Sync.Startup

pub record Setup (Q : Type 0) : Type 0 where
  pub num_queues : ℕ
  pub num_threads : ℕ
  pub threads_per_queue : List ℕ
  pub task_queue : QueueSet Q
  pub thread_data : List ThreadAttr
  pub cache_size : ℕ  -- the elements of `task_cache`
  pub is_cancelled : List Bool  -- `thread_state`
  pub main_thread_attr : ThreadAttr
  pub tls_attr_map : Option (List (Option ThreadAttr))  -- `none` after an access out of bounds
  pub start_up_barrier : Barrier
  pub task_max_attempts : ℕ

-- The loop that copies `thds_per_queue` from `i` on, and adds to `num_threads`.
unfoldable pub copy_in : (ℕ → ℕ) → ℕ → ℕ → ℕ → List ℕ × ℕ
copy_in thds_per_queue zero i num_threads = ([], num_threads)
copy_in thds_per_queue (suc left) i num_threads =
    let (rest, total) =
      copy_in thds_per_queue left (i + 1) ((num_threads + thds_per_queue i) % 2 ^ 32) in
    (thds_per_queue i ∷ rest, total)

-- The attribute of the thread `index`, the `j`-th of queue `i`; `none` is a NULL `affinity`.
abbrev pub attr_of : Option (ℕ → ℕ → ℕ) → ℕ → ℕ → ℕ → ThreadAttr
attr_of none i j index = record {
  stack_size = stack_max;
  thread_id = index;
  thread_affinity = no_affinity;
  task_queue_number = i;
}
attr_of (some affinity) i j index = record {
  stack_size = stack_max;
  thread_id = index;
  thread_affinity = affinity i j;
  task_queue_number = i;
}

-- The inner loop, from `j` on; `index` is the number of the next thread.
unfoldable pub threads_of_queue : Option (ℕ → ℕ → ℕ) → ℕ → ℕ → ℕ → ℕ → List ThreadAttr × ℕ
threads_of_queue affinity i zero j index = ([], index)
threads_of_queue affinity i (suc left) j index =
    let (rest, next) = threads_of_queue affinity i left (j + 1) (index + 1) in
    (attr_of affinity i j index ∷ rest, next)

-- The outer loop, from queue `i` on.
unfoldable pub all_threads : Option (ℕ → ℕ → ℕ) → List ℕ → ℕ → ℕ → List ThreadAttr × ℕ
all_threads affinity [] i index = ([], index)
all_threads affinity (left ∷ threads_per_queue) i index =
    let (here, next) = threads_of_queue affinity i left 0 index in
    let (rest, last) = all_threads affinity threads_per_queue (i + 1) next in (here ++ rest, last)

-- The threads that are created when one was asked for, and what the later ones came to.
abbrev pub after_start :
    ThreadAttr
    → List ThreadAttr × Result (Unit {0})
    → Result (Unit {0})
    → List ThreadAttr × Result (Unit {0})
after_start attr (started, r) (returns u) = (attr ∷ started, r)
after_start attr (started, r) (throws e) =
    (attr ∷ [], throws (caught ": from taskmgr::taskmgr" (library e)))

-- The threads are created in this order, until one cannot be. `os` says which code each call of the
-- system returns, for each thread; `reroute` and `args` are the start function and its arguments.
unfoldable pub start_threads :
    (ℕ → ThreadCall → ℕ) → ℕ → (ℕ → ℕ) → List ThreadAttr → List ThreadAttr × Result (Unit {0})
start_threads os reroute args [] = ([], returns tt)
start_threads os reroute args (attr ∷ rest) =
    after_start attr (start_threads os reroute args rest)
      (create_thread (os attr.thread_id) (some attr) (some reroute) (some (args attr.thread_id))).1

-- The constructor. (It then waits until all threads have passed the start-up barrier.)
unfoldable pub taskmgr :
    {Q : Type 0}
    → (ℕ → ThreadCall → ℕ)
    → ℕ
    → (ℕ → ℕ)
    → Q
    → ℕ
    → (ℕ → ℕ)
    → Option (ℕ → ℕ → ℕ)
    → Setup Q × Result (Unit {0})
taskmgr os reroute args empty num_queues thds_per_queue affinity =
    let (threads_per_queue, num_threads) = copy_in thds_per_queue num_queues 0 0 in
    let main_thread_attr : ThreadAttr = record {
      stack_size = stack_max;
      thread_id = num_threads;
      thread_affinity = 0;
      task_queue_number = 0;
    } in
    let (thread_data, r) =
      start_threads os reroute args (all_threads affinity threads_per_queue 0 0).0 in
    (
      record {
        num_queues = num_queues;
        num_threads = num_threads;
        threads_per_queue = threads_per_queue;
        task_queue = create empty num_queues;
        thread_data = thread_data;
        cache_size = num_threads;
        is_cancelled = replicate num_threads false;
        main_thread_attr = main_thread_attr;
        tls_attr_map =
            tls_set (initialize ((num_threads + 1) % 2 ^ 32)) num_threads main_thread_attr;
        start_up_barrier = Startup.initialize num_threads Startup.barrier;
        task_max_attempts = 2000000;
      },
      r,
    )

-- A thread saves its attribute, at the start of `operator()`.
abbrev pub save : Option (List (Option ThreadAttr)) → ThreadAttr → Option (List (Option ThreadAttr))
save none attr = none
save (some tls) attr = tls_set tls attr.thread_id attr

unfoldable pub save_all :
    Option (List (Option ThreadAttr)) → List ThreadAttr → Option (List (Option ThreadAttr))
save_all tls [] = tls
save_all tls (attr ∷ rest) = save_all (save tls attr) rest

-- The attribute that `tls_get` finds for the thread `self`; `none` is a NULL pointer, or an access out
-- of bounds.
abbrev pub found_attr : Option (List (Option ThreadAttr)) → ℕ → Option ThreadAttr
found_attr none self = none
found_attr (some tls) self = elim (tls_get tls self) [ none ↦ none | some attr ↦ attr ]

abbrev pub as_id : Option ThreadAttr → Option ℕ
as_id none = none
as_id (some attr) = some attr.thread_id

-- `&(task_cache[tid])`.
abbrev pub information : ℕ → Option ℕ → Option ℕ
information cache_size none = none
information cache_size (some tid) = if ltb tid cache_size then some tid else none

module _ {Q : Type 0} where
  -- `current_thread_id`.
  unfoldable pub current_thread_id : Setup Q → ℕ → Option ℕ
  current_thread_id m self = as_id (found_attr m.tls_attr_map self)

  -- `current_task_information`, as the index in `task_cache`; `none` is an access out of bounds.
  unfoldable pub current_task_information : Setup Q → ℕ → Option ℕ
  current_task_information m self = information m.cache_size (current_thread_id m self)

  -- `set_max_attempts` and `get_max_attempts`.
  abbrev pub set_max_attempts : Setup Q → ℕ → Setup Q
  set_max_attempts m max_attempts = record m { task_max_attempts = max_attempts }

  abbrev pub get_max_attempts : Setup Q → ℕ
  get_max_attempts m = m.task_max_attempts

  -- The destructor's first loop: all threads are cancelled.
  abbrev pub cancel : Setup Q → Setup Q
  cancel m = record m { is_cancelled = map (λ _. true) m.is_cancelled }
