-- ===== src/Task/Attribute.antt =====
-- pfunc/attribute.hpp: the attributes of a task.
use pfunc.Base.{ℕ, Bool}

-- `QUEUE_CURRENT_THREAD`: the task goes on the queue of the thread that spawns it.
abbrev pub queue_current_thread : ℕ
queue_current_thread = 0xFFFF

-- `PFUNC_DEFAULT_TASK_LEVEL`.
abbrev pub default_task_level : ℕ
default_task_level = 0

pub record Attribute (Priority : Type 0) : Type 0 where
  pub queue_number : ℕ
  pub priority : Priority
  pub num_waiters : ℕ
  pub is_nested : Bool
  pub join_group : Bool
  pub level : ℕ

-- The constructor; `lowest` is `std::numeric_limits<Priority>::min()`.
abbrev pub attribute : {Priority : Type 0} → Priority → Bool → Bool → Attribute Priority
attribute lowest is_nested join_group = record {
  queue_number = queue_current_thread;
  priority = lowest;
  num_waiters = 1;
  is_nested = is_nested;
  join_group = join_group;
  level = default_task_level;
}
