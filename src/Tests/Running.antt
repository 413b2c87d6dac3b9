-- ===== src/Tests/Running.antt =====
-- A task that is spawned into a group, and a spawn from C.
use pfunc.Base.{ℕ, ◌≡◌, refl, List, [], ◌∷◌, true, false, none, some, update, ◌==◌, if◌then◌else◌}
use pfunc.Task.Attribute.{Attribute, attribute}
use pfunc.Task.Group.{Group, group, barrier_spin}
use pfunc.Task.Object.{task}
use pfunc.Scheduler.Cilk
use pfunc.Sync.Startup
use pfunc.Thread.{ThreadAttr, stack_max, no_affinity}
use pfunc.Manager.State.{Manager, spawn_task, prepare, cached}
use pfunc.Manager.Startup.{Setup, current_task_information, current_thread_id}
use pfunc.Manager.Current.{current_task_group_rank, current_task_group_size}
use pfunc.Manager.Current.Ranks.{spawn_task-rank}
use pfunc.Interface.Running.{World}

abbrev thread : ℕ → ThreadAttr
thread id = record {
  stack_size = stack_max;
  thread_id = id;
  thread_affinity = no_affinity;
  task_queue_number = id;
}

-- Two threads, and the main thread.
abbrev setup : Setup (List ℕ)
setup = record {
  num_queues = 2;
  num_threads = 2;
  threads_per_queue = 1 ∷ 1 ∷ [];
  task_queue = record { queues = [] ∷ [] ∷ []; num_queues = 2 };
  thread_data = thread 0 ∷ thread 1 ∷ [];
  cache_size = 2;
  is_cancelled = false ∷ false ∷ [];
  main_thread_attr = thread 2;
  tls_attr_map = some (some (thread 0) ∷ some (thread 1) ∷ some (thread 2) ∷ []);
  start_up_barrier = Startup.initialize 2 Startup.barrier;
  task_max_attempts = 2000000;
}

abbrev grouped : Attribute ℕ
grouped = attribute 0 true true

-- Three tasks have joined the group 5, which is for four.
abbrev group_of_four : Group
group_of_four = record (group 5 4 barrier_spin) { rank_token = 3 }

abbrev manager : Manager ℕ (List ℕ)
manager = record {
  heap = λ a. task (attribute 0 true false);
  groups = λ a. group_of_four;
  task_queue = record { queues = [] ∷ [] ∷ []; num_queues = 2 };
  task_cache = λ _. task (attribute 0 true false);
  thread_queue = λ i. i;
  num_threads = 2;
  default_attribute = attribute 0 true false;
  default_group = 0;
}

-- Thread 0 spawns the task 30.
abbrev spawned : Manager ℕ (List ℕ)
spawned = record manager {
  heap = update manager.heap 30 (prepare Cilk.contract manager 30 grouped 5 9).0;
  groups = update manager.groups 5 (prepare Cilk.contract manager 30 grouped 5 9).1;
  task_queue = record { queues = (30 ∷ []) ∷ [] ∷ []; num_queues = 2 };
}

spawns : spawn_task Cilk.contract manager 0 30 grouped 5 9 ≡ some spawned
unfolding spawn_task Cilk.put
spawns = refl

knows_itself : current_task_information setup 1 ≡ some 1
unfolding current_task_information current_thread_id
knows_itself = refl

-- The task manager is at the address 1, the attribute at 2; `new` returns 70.
abbrev world : World ℕ (List ℕ)
world = record {
  taskmgrs = λ a. if a == 1 then some (setup, manager) else none;
  attrs = λ a. if a == 2 then some grouped else none;
  works = λ _. none;
}

spawn_task-rank_example :
    (current_task_group_rank setup (cached Cilk.contract spawned 1 30) 1 ≡ some 3)
    × (current_task_group_size setup (cached Cilk.contract spawned 1 30) 1 ≡ some 4)
    × ((spawned.groups 5).rank_token ≡ 4)
spawn_task-rank_example =
    spawn_task-rank Cilk.contract setup manager spawned 0 1 30 grouped 5 9 refl spawns knows_itself
