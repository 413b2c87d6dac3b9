-- ===== src/Loops/While.antt =====
-- pfunc/parallel_while.hpp: one task for each element of a range, and a wait for all of them. The
-- tasks and the functors that `operator()` allocates are at the addresses `new_task i` and `new_functor i`.
-- A functor keeps a reference to what `*first` gave, which is an address. That is the element's where `*` of
-- the iterator returns a reference; where it returns a value, it is that of a temporary, and the reference
-- dangles when the task is run.
pub mod Laws
pub mod Whole
use pfunc.Base.{ℕ, ◌+◌, List, [], ◌∷◌, ◌++◌, Option, none, some, update}
use pfunc.Scheduler.Policy.{Contract}
use pfunc.Manager.State.{Manager, spawn_default}

-- The task manager, what the functors (`while_wrapper`) refer to, by their addresses, and the tasks allocated so far.
pub record Loop (P : Type 0) (Q : Type 0) : Type 0 where
  pub mgr : Manager P Q
  pub references : ℕ → ℕ
  pub spawned : List ℕ

module _ {P : Type 0} (c : Contract ℕ) (new_task new_functor : ℕ → ℕ) (self : ℕ) where
  -- One turn of the first loop, once the task has been spawned.
  abbrev pub turned : ℕ → ℕ → Loop P c.Queue → Manager P c.Queue → Loop P c.Queue
  turned task_index referent s m = record {
    mgr = m;
    references = update s.references (new_functor task_index) referent;
    spawned = s.spawned ++ new_task task_index ∷ [];
  }

  -- The rest of the loop, unless the spawn faulted.
  abbrev pub go_on :
      (Manager P c.Queue → Option (Loop P c.Queue))
      → Option (Manager P c.Queue)
      → Option (Loop P c.Queue)
  go_on next none = none
  go_on next (some m) = next m

  -- The first loop, over the rest of the range; `none` is a fault of a spawn.
  unfoldable pub spawn_each : List ℕ → ℕ → Loop P c.Queue → Option (Loop P c.Queue)
  spawn_each [] task_index s = some s
  spawn_each (referent ∷ rest) task_index s =
      go_on (λ m. spawn_each rest (task_index + 1) (turned task_index referent s m))
        (spawn_default c s.mgr self (new_task task_index) (new_functor task_index))
