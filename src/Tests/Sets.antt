-- ===== src/Tests/Sets.antt =====
-- Sets of tasks: those that a loop spawns, and those that users test.
use pfunc.Base.{ℕ, suc, ◌+◌, ◌≡◌, refl, List, [], ◌∷◌, Bool, true, false, Option, none, some, ltb}
use pfunc.Task.Attribute.{attribute}
use pfunc.Task.Group.{group, barrier_spin}
use pfunc.Task.Exception.{Result, returns}
use pfunc.Task.Object.{task}
use pfunc.Scheduler.Cilk
use pfunc.Manager.State.{Manager, Body}
use pfunc.Loops.While.{Loop}
use pfunc.Loops.While.Whole.{parallel_while}
use pfunc.Predicate.{cilk_policy}
use pfunc.Task.Event
use pfunc.Task.Object
use pfunc.Interface.Sets.{each_test}

abbrev manager : Manager ℕ (List ℕ)
manager = record {
  heap = λ a. task (attribute 0 true false);
  groups = λ _. group 1 2 barrier_spin;
  task_queue = record { queues = (20 ∷ []) ∷ [] ∷ []; num_queues = 2 };
  task_cache = λ _. task (attribute 0 true false);
  thread_queue = λ i. i;
  num_threads = 2;
  default_attribute = attribute 0 true false;
  default_group = 0;
}

abbrev loop_start : Loop ℕ (List ℕ)
loop_start = record { mgr = manager; references = λ _. 0; spawned = [] }

-- The range 7, 8: the tasks are allocated from 100 on, the functors from 200 on, and thread 1 runs both
-- itself while it waits.
abbrev harmless : ℕ → Body ℕ (List ℕ)
harmless a m = (m, none)

abbrev nobody : ℕ → Manager ℕ (List ℕ) → Manager ℕ (List ℕ)
nobody k m = m

abbrev whole : Option (Manager ℕ (List ℕ) × Result (Unit {0}))
whole =
    parallel_while Cilk.contract cilk_policy ltb harmless nobody 1 4 2 (λ i. 100 + i) (λ i. 200 + i)
      (7 ∷ 8 ∷ []) loop_start

abbrev manager_of : Option (Manager ℕ (List ℕ) × Result (Unit {0})) → Manager ℕ (List ℕ)
manager_of none = manager
manager_of (some (m, r)) = m

abbrev final : Manager ℕ (List ℕ)
final = manager_of whole

-- A task is complete if its number is below 5; the state counts the tests.
abbrev below_5 : ℕ → ℕ → ℕ × Result Bool
below_5 task s = (suc s, returns (ltb task 5))

three_tests : each_test below_5 (4 ∷ 9 ∷ 3 ∷ []) 0 ≡ (3, returns (true ∷ false ∷ true ∷ []))
unfolding each_test
three_tests = refl
