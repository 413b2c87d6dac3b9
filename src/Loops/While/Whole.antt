-- ===== src/Loops/While/Whole.antt =====
-- The whole of `parallel_while` (pfunc/parallel_while.hpp): it spawns a task for each element, and waits
-- for all of them. (It then releases the tasks and the functors.)
use pfunc.Base.{ℕ, List, Option, none, some, Bool}
use pfunc.Task.Exception.{Result}
use pfunc.Scheduler.Policy.{Contract}
use pfunc.Predicate.{PolicyName}
use pfunc.Interface.Sets.{wait_all}
use pfunc.Manager.State.{Manager, Body}
use pfunc.Manager.Wait.Join.{task_wait}
use pfunc.Loops.While.{Loop, spawn_each}

module _ {P : Type 0} (c : Contract ℕ) (policy : PolicyName) (comp : P → P → Bool)
    (bodies : ℕ → Body P c.Queue) (others : ℕ → Manager P c.Queue → Manager P c.Queue)
    (self fuel max : ℕ) (new_task new_functor : ℕ → ℕ) where
  -- The second loop, once the first is done.
  abbrev pub wait_for : Option (Loop P c.Queue) → Option (Manager P c.Queue × Result (Unit {0}))
  wait_for none = none
  wait_for (some t) = wait_all (task_wait c policy comp bodies others self fuel max) t.spawned t.mgr

  -- `operator()`, from the state of a loop with no task yet.
  unfoldable pub parallel_while :
      List ℕ → Loop P c.Queue → Option (Manager P c.Queue × Result (Unit {0}))
  parallel_while vs s = wait_for (spawn_each c new_task new_functor self vs 0 s)
