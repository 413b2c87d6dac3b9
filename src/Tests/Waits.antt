-- ===== src/Tests/Waits.antt =====
-- Task managers as they start, threads that wait, and sets of tasks.
use pfunc.Base.{
  ℕ, zero, suc, ◌≤◌, ◌<◌, ◌≡◌, ◌≢◌, refl, sym, subst, List, [], ◌∷◌, true, false, Option, none,
  some, arith, ltb, ◌==◌, if◌then◌else◌, update, ◌↔◌,
}
use pfunc.Task.Attribute.{attribute}
use pfunc.Task.Event.{active_incomplete, active_complete}
use pfunc.Task.Event
use pfunc.Task.Group.{group, barrier_spin}
use pfunc.Task.Exception.{Result, returns}
use pfunc.Task.Object.{Task, task}
use pfunc.Task.Object
use pfunc.Scheduler.Scan.{search_from}
use pfunc.Scheduler.Cilk
use pfunc.Predicate.{cilk_policy, waiting_predicate_pair}
use pfunc.Thread.{
  ThreadAttr, ThreadCall, attr_init, create, attr_destroy, create_thread, create_plan, no_affinity,
  stack_max,
}
use pfunc.Thread.Calls.{checked}
use pfunc.Thread.Laws.{effects, nothing, Prepared, create_thread-effects}
use pfunc.Manager.State.{Manager, Body, restore, execute}
use pfunc.Manager.Wait.{
  View, progress_wait, wait_loop, rounds, completion_pred, test_event, attempts,
}
use pfunc.Manager.State.Laws.{SameIdentity}
use pfunc.Manager.Wait.Laws.{Completed, progress_wait-Completed}
use pfunc.Manager.Wait.Total.{progress_wait-total}
use pfunc.Manager.Startup.{
  taskmgr, Setup, attr_of, copy_in, threads_of_queue, all_threads, start_threads, save_all,
  current_thread_id, current_task_information,
}
use pfunc.Manager.Startup.Numbers.{total}
use pfunc.Manager.Startup.Identity.{taskmgr-identity, Includes}

abbrev worker : ThreadAttr
worker = record {
  stack_size = stack_max;
  thread_id = 0;
  thread_affinity = no_affinity;
  task_queue_number = 0;
}

-- Only the last call of `create_thread` fails.
abbrev destroy_fails : ThreadCall → ℕ
destroy_fails attr_destroy = 22
destroy_fails _ = 0

create_thread-effects_example :
    let (calls, r) = create_thread destroy_fails (some worker) (some 7) (some 8) in
    let left = effects destroy_fails calls nothing in
    ((r ≡ returns tt) ↔ (
      Prepared destroy_fails stack_max
      × (destroy_fails (create 7 8) ≡ 0)
      × (destroy_fails attr_destroy ≡ 0)))
    × ((left.started ≡ true)
        ↔ (Prepared destroy_fails stack_max × (destroy_fails (create 7 8) ≡ 0)))
    × ((left.attribute ≡ true) ↔ ((destroy_fails attr_init ≡ 0) × (r ≢ returns tt)))
create_thread-effects_example = create_thread-effects destroy_fails worker 7 8

-- Two queues, with two threads and one.
abbrev two_and_one : ℕ → ℕ
two_and_one i = if i == 0 then 2 else 1

abbrev works : ℕ → ThreadCall → ℕ
works i c = 0

abbrev made : Setup (List ℕ)
made = (taskmgr works 7 (λ i. i) [] 2 two_and_one none).0

abbrev numbered : ℕ → ℕ → ThreadAttr
numbered i index = attr_of none i 0 index

made_threads : made.thread_data ≡ numbered 0 0 ∷ numbered 0 1 ∷ numbered 1 2 ∷ []
unfolding taskmgr copy_in threads_of_queue all_threads start_threads create_thread checked
    create_plan
made_threads = refl

-- The threads come to save their attributes in the order 2, 0, 1.
abbrev order : List ThreadAttr
order = numbered 1 2 ∷ numbered 0 0 ∷ numbered 0 1 ∷ []

abbrev by_number : List ThreadAttr
by_number = numbered 0 0 ∷ numbered 0 1 ∷ numbered 1 2 ∷ []

order-by_number : Includes order by_number
order-by_number zero x e = (2, e)
order-by_number (suc zero) x e = (0, e)
order-by_number (suc (suc zero)) x e = (1, e)
order-by_number (suc (suc (suc k))) x e = cc

by_number-order : Includes by_number order
by_number-order zero x e = (1, e)
by_number-order (suc zero) x e = (2, e)
by_number-order (suc (suc zero)) x e = (0, e)
by_number-order (suc (suc (suc k))) x e = cc

taskmgr-identity_example :
    let m : Setup (List ℕ) = record made { tls_attr_map = save_all made.tls_attr_map order } in
    ((t : ℕ) → t < 3 → (current_thread_id m t ≡ some t) × (current_task_information m t ≡ some t))
    × (current_thread_id m 3 ≡ some 3)
    × (current_task_information m 3 ≡ none)
unfolding total
taskmgr-identity_example =
    taskmgr-identity {Q = List ℕ} works 7 (λ i. i) [] 2 two_and_one none (λ i c. refl) (omega arith)
      order (subst (Includes order) (sym made_threads) order-by_number)
      (subst (λ l. Includes l order) (sym made_threads) by_number-order)

-- The task 30 is awaited, by thread 0, whose task is of level 1; the task 20 is on its queue.
abbrev task_of : ℕ → Task ℕ
task_of level = record (task (record (attribute 0 true false) { level = level })) {
  testing_compl = record { event_state = active_incomplete; num_waiters = 1 };
}

abbrev manager : Manager ℕ (List ℕ)
manager = record {
  heap = λ a. task_of 2;
  groups = λ _. group 1 2 barrier_spin;
  task_queue = record { queues = (20 ∷ []) ∷ [] ∷ []; num_queues = 2 };
  task_cache = λ _. task_of 1;
  thread_queue = λ i. i;
  num_threads = 2;
  default_attribute = attribute 0 true false;
  default_group = 0;
}

-- Some other thread has finished the task 30 before the sixth test.
abbrev others : ℕ → Manager ℕ (List ℕ) → Manager ℕ (List ℕ)
others k m = if ltb k 5 then m else record m {
  heap =
      update m.heap 30
        (record (m.heap 30) { testing_compl = Event.notify (m.heap 30).testing_compl });
}

abbrev harmless : ℕ → Body ℕ (List ℕ)
harmless a m = (m, none)

abbrev wait_for_30 : ℕ → Option (View ℕ (List ℕ) × Result (Unit {0}))
wait_for_30 fuel = progress_wait Cilk.contract cilk_policy ltb harmless others 30 0 fuel 3 manager

others_complete :
    (k : ℕ) (m : Manager ℕ (List ℕ))
    → 5 ≤ k
    → ((others k m).heap 30).testing_compl.event_state ≢ active_incomplete
unfolding Event.notify
others_complete k m h e = ground arith

progress_wait-total_example : (r : View ℕ (List ℕ) × Result (Unit {0})) × (wait_for_30 6 ≡ some r)
progress_wait-total_example =
    progress_wait-total Cilk.contract cilk_policy ltb harmless others 30 0 5 others_complete 3
      manager

-- How the wait ends: the task 20 was run in the meantime.
abbrev view_of : Option (View ℕ (List ℕ) × Result (Unit {0})) → View ℕ (List ℕ)
view_of none = record { mgr = manager; clock = 0 }
view_of (some (v, r)) = v

abbrev final : View ℕ (List ℕ)
final = view_of (wait_for_30 6)

wait_ends : wait_for_30 6 ≡ some (final, returns tt)
unfolding progress_wait wait_loop rounds completion_pred test_event Event.test attempts Cilk.get
    search_from waiting_predicate_pair task restore execute Object.notify Object.run Event.notify
wait_ends = refl

progress_wait-Completed_example :
    Completed 30 final.mgr × SameIdentity (final.mgr.task_cache 0) (task_of 1)
progress_wait-Completed_example =
    progress_wait-Completed Cilk.contract cilk_policy ltb harmless others 30 0 (λ k m. ground arith)
      6 3 manager final wait_ends
