-- ===== src/Tests/Tasks.antt =====
-- Tasks, their events and groups, the predicates, and a spawn and a barrier's help in a task
-- manager under the Cilk policy.

use pfunc.Base.{
  ◌==◌, if◌then◌else◌, ℕ, ◌≡◌, ◌≢◌, refl, true, false, List, [], ◌∷◌, Perm, none, some, arith, ◌==◌,
  if◌then◌else◌, replicate,
}
use pfunc.Scheduler.Store.{tasks}
use pfunc.Scheduler.Policy.{Contract}
use pfunc.Scheduler.Cilk
use pfunc.Task.Attribute.{Attribute, attribute}
use pfunc.Task.Event.{
  EventState, active_incomplete, active_complete, inactive, Event, tests, counted, reset, notify,
  tests-notify, wake_ups-complete, wait-none, wake_up,
}
use pfunc.Task.Event
use pfunc.Task.Group.{Group, barrier_spin, group, join_group}
use pfunc.Task.Exception.{unknown, caught, throws}
use pfunc.Task.Object.{Task, task, compl, reset_completion, run, test, wait}
use pfunc.Task.Object.Laws.{executed, run-notify_throws}
use pfunc.Manager.State.{Body, Manager, spawn_task}
use pfunc.Manager.State.Laws.{Spawned, spawn_task-Spawned}

abbrev new_event : Event
new_event = Event.event_base

-- Two tasks have joined: the ranks 0 and 1 are taken.
abbrev two_joined : Group
two_joined = record (group 1 4 barrier_spin) { rank_token = 2 }

-- A task of the group at `grp`, at a level of the spawn tree.
abbrev task_at : ℕ → ℕ → Task ℕ
task_at grp level = record (task (record (attribute 0 true true) { level = level })) { grp = grp }

run-notify_throws_example :
    let t' = run (reset_completion (task_at 1 0) 1) (some unknown) in
    let e = caught ": from task::run" unknown in
    (executed (reset_completion (task_at 1 0) 1) (some unknown) ≡ (t', throws e))
    × (tests 4 (compl t') ≡ (compl t', replicate 4 false))
    × (Event.wait (compl t') ≡ none)
    × (test t' two_joined ≡ ((t', two_joined), throws e))
    × (wait Event.wait t' two_joined ≡ some ((t', two_joined), throws e))
run-notify_throws_example = run-notify_throws (task_at 1 0) 1 4 unknown two_joined Event.wait

-- Tasks 10 and 11 are of the group 1, and 20 of the group 2.
abbrev heap : ℕ → Task ℕ
heap a = if a == 20 then task_at 2 3 else task_at 1 1

abbrev manager : List ℕ → List ℕ → Manager ℕ (List ℕ)
manager own other = record {
  heap = heap;
  groups = λ _. two_joined;
  task_queue = record { queues = own ∷ other ∷ []; num_queues = 2 };
  task_cache = λ _. task_at 1 1;
  thread_queue = λ i. i;
  num_threads = 2;
  default_attribute = attribute 0 true true;
  default_group = 0;
}

abbrev spawn_attribute : Attribute ℕ
spawn_attribute = attribute 0 true true

spawn_task-Spawned_example :
    let m = manager (10 ∷ []) [] in
    let c : Contract ℕ = Cilk.contract in
    (m' : Manager ℕ (List ℕ)) × (spawn_task c m 1 20 spawn_attribute 7 99 ≡ some m')
    × Perm (tasks c.view m'.task_queue) (20 ∷ tasks c.view m.task_queue)
    × Spawned (m'.heap 20) spawn_attribute 7 99
    × ((b : ℕ) → 20 ≢ b → m'.heap b ≡ m.heap b)
    × ((g : ℕ) → 7 ≢ g → m'.groups g ≡ m.groups g)
    × (m'.groups 7 ≡ (join_group two_joined).1)
spawn_task-Spawned_example =
    spawn_task-Spawned Cilk.contract (manager (10 ∷ []) []) 1 20 spawn_attribute 7 99 refl
      (omega arith)

-- Thread 0 waits in a barrier of the group 1: of the other queue it is given the task 20 only.
-- Of the tasks 10 and 20, the first one throws; thread 1 runs no other.
abbrev first_throws : ℕ → Body ℕ (List ℕ)
first_throws a m = if a == 10 then (m, some unknown) else (m, none)
