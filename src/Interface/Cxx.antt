-- ===== src/Interface/Cxx.antt =====
-- The functions of pfunc/pfunc.hpp on one attribute, group, task or task manager, and those of its namespace
-- `global`. Those on ranges of tasks are in Sets.
pub mod Global
use pfunc.Base.{ℕ, Option, none, some, Bool}
use pfunc.Task.Attribute.{Attribute}
use pfunc.Task.Group.{Group, BarrierType}
use pfunc.Task.Object.{Task}
use pfunc.Task.Object
use pfunc.Task.Exception.{Result, returns, throws}
use pfunc.Scheduler.Policy.{Contract}
use pfunc.Predicate.{PolicyName}
use pfunc.Sync.Barrier.{Place}
use pfunc.Manager.State.{Manager, Body, spawn_task, spawn_default, spawn_attr}
use pfunc.Manager.Startup.{Setup, current_thread_id, set_max_attempts, get_max_attempts}
use pfunc.Manager.Current.{
  current_task_group_rank, current_task_group_size, current_task_group_barrier,
}
use pfunc.Manager.Wait.Join.{task_wait}

-- `PFUNC_CXX_CATCH_AND_RETHROW`: an exception passes as it is.
abbrev pub passed_on : {A : Type 0} → Result A → Result A
passed_on (returns a) = returns a
passed_on (throws e) = throws e

module _ {P : Type 0} where
  abbrev pub attr_priority_set : Attribute P → P → Attribute P
  attr_priority_set attr pri = record attr { priority = pri }

  abbrev pub attr_priority_get : Attribute P → P
  attr_priority_get attr = attr.priority

  abbrev pub attr_qnum_set : Attribute P → ℕ → Attribute P
  attr_qnum_set attr qnum = record attr { queue_number = qnum }

  abbrev pub attr_qnum_get : Attribute P → ℕ
  attr_qnum_get attr = attr.queue_number

  abbrev pub attr_num_waiters_set : Attribute P → ℕ → Attribute P
  attr_num_waiters_set attr nwait = record attr { num_waiters = nwait }

  abbrev pub attr_num_waiters_get : Attribute P → ℕ
  attr_num_waiters_get attr = attr.num_waiters

  abbrev pub attr_nested_set : Attribute P → Bool → Attribute P
  attr_nested_set attr nested = record attr { is_nested = nested }

  abbrev pub attr_nested_get : Attribute P → Bool
  attr_nested_get attr = attr.is_nested

  abbrev pub attr_level_set : Attribute P → ℕ → Attribute P
  attr_level_set attr level = record attr { level = level }

  abbrev pub attr_level_get : Attribute P → ℕ
  attr_level_get attr = attr.level

  abbrev pub attr_grouped_set : Attribute P → Bool → Attribute P
  attr_grouped_set attr grouped = record attr { join_group = grouped }

  abbrev pub attr_grouped_get : Attribute P → Bool
  attr_grouped_get attr = attr.join_group

abbrev pub group_id_set : Group → ℕ → Group
group_id_set grp id = record grp { group_id = id }

abbrev pub group_id_get : Group → ℕ
group_id_get grp = grp.group_id

abbrev pub group_size_set : Group → ℕ → Group
group_size_set grp size = record grp { group_size = size }

abbrev pub group_size_get : Group → ℕ
group_size_get grp = grp.group_size

abbrev pub group_barrier_set : Group → BarrierType → Group
group_barrier_set grp barr = record grp { type_of_barrier = barr }

abbrev pub group_barrier_get : Group → BarrierType
group_barrier_get grp = grp.type_of_barrier

-- With a task manager; `none` is a NULL pointer, an access out of bounds, or a wait that does not return.
module _ {Q : Type 0} where
  unfoldable pub thread_id : Setup Q → ℕ → Option ℕ
  thread_id setup self = current_thread_id setup self

  abbrev pub taskmgr_max_attempts_set : Setup Q → ℕ → Setup Q
  taskmgr_max_attempts_set setup attempts = set_max_attempts setup attempts

  abbrev pub taskmgr_max_attempts_get : Setup Q → ℕ
  taskmgr_max_attempts_get setup = get_max_attempts setup

  abbrev pub get_num_queues : Setup Q → ℕ
  get_num_queues setup = setup.num_queues

  abbrev pub get_num_threads : Setup Q → ℕ
  get_num_threads setup = setup.num_threads

module _ {P Q : Type 0} where
  unfoldable pub group_rank : Setup Q → Manager P Q → ℕ → Option ℕ
  group_rank setup m self = current_task_group_rank setup m self

  unfoldable pub group_size : Setup Q → Manager P Q → ℕ → Option ℕ
  group_size setup m self = current_task_group_size setup m self

  unfoldable pub barrier : Setup Q → Manager P Q → ℕ → Option (Manager P Q × Place)
  barrier setup m self = current_task_group_barrier setup m self

module _ {P : Type 0} (c : Contract ℕ) where
  -- `test`, with the group of the task.
  abbrev pub test : Task P → Group → (Task P × Group) × Result Bool
  test t g = let (after, r) = Object.test t g in (after, passed_on r)

  -- The three `spawn`s.
  abbrev pub spawn : Manager P c.Queue → ℕ → ℕ → Attribute P → ℕ → ℕ → Option (Manager P c.Queue)
  spawn m self task attr grp func = spawn_task c m self task attr grp func

  abbrev pub spawn_plain : Manager P c.Queue → ℕ → ℕ → ℕ → Option (Manager P c.Queue)
  spawn_plain m self task func = spawn_default c m self task func

  abbrev pub spawn_with_attr :
      Manager P c.Queue → ℕ → ℕ → Attribute P → ℕ → Option (Manager P c.Queue)
  spawn_with_attr m self task attr func = spawn_attr c m self task attr func

  abbrev pub passed_out :
      Option (Manager P c.Queue × Result (Unit {0}))
      → Option (Manager P c.Queue × Result (Unit {0}))
  passed_out none = none
  passed_out (some (m, r)) = some (m, passed_on r)

  -- The two `wait`s, for a task and for a pointer to one.
  abbrev pub wait :
      PolicyName
      → (P → P → Bool)
      → (ℕ → Body P c.Queue)
      → (ℕ → Manager P c.Queue → Manager P c.Queue)
      → ℕ
      → ℕ
      → ℕ
      → ℕ
      → Manager P c.Queue
      → Option (Manager P c.Queue × Result (Unit {0}))
  wait policy comp bodies others self fuel max task m =
      passed_out (task_wait c policy comp bodies others self fuel max task m)
