-- ===== src/Manager/Current.antt =====
-- What a task manager (pfunc/taskmgr.hpp) tells a running task of itself: its rank, the size of its group,
-- and the barrier of its group. The parts of the manager that its constructor sets up and those that tasks
-- change are two records.
pub mod Ranks
use pfunc.Base.{ℕ, Option, none, some, update}
use pfunc.Task.Object.{Task}
use pfunc.Sync.Barrier.{Place}
use pfunc.Sync.Barrier
use pfunc.Manager.State.{Manager}
use pfunc.Manager.Startup.{Setup, current_task_information}

module _ {A B : Type 0} where
  abbrev pub read : (A → B) → Option A → Option B
  read f none = none
  read f (some a) = some (f a)

module _ {P Q : Type 0} where
  -- `task_cache[current_thread_id ()]`; `none` is a NULL pointer, or an access out of bounds.
  abbrev pub current_task : Setup Q → Manager P Q → ℕ → Option (Task P)
  current_task setup m self = read (λ i. m.task_cache i) (current_task_information setup self)

  -- `current_task_group_rank` and `current_task_group_size`.
  unfoldable pub current_task_group_rank : Setup Q → Manager P Q → ℕ → Option ℕ
  current_task_group_rank setup m self = read (λ t. t.grank) (current_task setup m self)

  unfoldable pub current_task_group_size : Setup Q → Manager P Q → ℕ → Option ℕ
  current_task_group_size setup m self = read (λ t. t.gsize) (current_task setup m self)

  -- `barrier` of a task, up to where it waits: the group at its address goes through the critical section.
  unfoldable pub task_barrier : Task P → Manager P Q → Manager P Q × Place
  task_barrier t m =
      let (g, place) = Barrier.barrier (m.groups t.grp) in
      (record m { groups = update m.groups t.grp g }, place)

  -- `current_task_group_barrier`, up to the same point.
  unfoldable pub current_task_group_barrier :
      Setup Q → Manager P Q → ℕ → Option (Manager P Q × Place)
  current_task_group_barrier setup m self = read (λ t. task_barrier t m) (current_task setup m self)
