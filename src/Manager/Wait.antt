-- ===== src/Manager/Wait.antt =====
-- `progress_wait` of pfunc/taskmgr.hpp: a thread that waits for the end of a nested task runs others in
-- the meantime. Other threads act whenever it tests the event: `others k` is what they do before
-- its `k`-th test. `bodies` are the functors of the tasks.
pub mod Laws
pub mod Total
pub mod Join
use pfunc.Base.{ℕ, zero, suc, ◌+◌, Option, none, some, Bool, update, ◌==◌, ◌||◌, if◌then◌else◌}
use pfunc.Task.Event
use pfunc.Task.Exception.{caught, library, Result, returns, throws}
use pfunc.Task.Object.{Task}
use pfunc.Scheduler.Scan.{Outcome, found, not_found, fault}
use pfunc.Scheduler.Store.{QueueSet}
use pfunc.Scheduler.Policy.{Contract}
use pfunc.Predicate.{PolicyName, waiting_predicate_pair}
use pfunc.Manager.Poll.{next_attempts, is_some}
use pfunc.Manager.State.{Manager, Body, execute, restore}

-- The state as the thread finds it, and how often it has tested the event.
pub record View (P : Type 0) (Q : Type 0) : Type 0 where
  pub mgr : Manager P Q
  pub clock : ℕ

-- `compl_event.test ()`, for the event of the nested task `awaited`.
unfoldable pub test_event : {P Q : Type 0} → ℕ → Manager P Q → Manager P Q × Bool
test_event awaited m =
    let (e, done) = Event.test (m.heap awaited).testing_compl in
    (
      record m { heap = update m.heap awaited (record (m.heap awaited) { testing_compl = e }) },
      done,
    )

module _ {P : Type 0} (c : Contract ℕ) (policy : PolicyName) (comp : P → P → Bool)
    (bodies : ℕ → Body P c.Queue) (others : ℕ → Manager P c.Queue → Manager P c.Queue)
    (awaited self : ℕ) where
  -- The completion predicate, after the others have acted.
  unfoldable pub completion_pred : View P c.Queue → View P c.Queue × Bool
  completion_pred v =
      let (m, done) = test_event awaited (others v.clock v.mgr) in
      (record { mgr = m; clock = v.clock + 1 }, done)

  -- What follows a look at the queues: it gave a task, or the loop goes on.
  abbrev pub after_look :
      View P c.Queue
      → View P c.Queue × Option ℕ
      → Outcome ℕ (QueueSet c.Queue)
      → View P c.Queue × Option ℕ
  after_look w again (found task s) =
      (record w { mgr = record w.mgr { task_queue = s } }, some task)
  after_look w again not_found = again
  after_look w again fault = again

  -- `get_task`: the inner loop, by the attempts left, for a thread whose task was `current`.
  unfoldable pub attempts : Task P → ℕ → View P c.Queue → View P c.Queue × Option ℕ
  attempts current zero v = ((completion_pred v).0, none)
  attempts current (suc num_attempts) v =
      let (w, done) = completion_pred v in
      let again = attempts current num_attempts w in
      if done
      then (w, none)
      else after_look w again (
          c.get w.mgr.task_queue (w.mgr.thread_queue self)
            (waiting_predicate_pair w.mgr.heap comp policy current))

  -- `get_task`: the outer loop, with fuel for its rounds.
  unfoldable pub rounds : Task P → ℕ → ℕ → ℕ → View P c.Queue → Option (View P c.Queue × Option ℕ)
  rounds current zero max_attempts num_attempts v = none
  rounds current (suc fuel) max_attempts num_attempts v =
      let (w, task) = attempts current num_attempts v in
      let (x, done) = completion_pred w in
      let more = rounds current fuel max_attempts (next_attempts max_attempts) x in
      if done || is_some task then some (x, task) else more

  -- What follows the run of a task: the cache is written back and the loop goes on, unless an
  -- exception passes.
  abbrev pub after_run :
      ℕ
      → (View P c.Queue → Option (View P c.Queue × Result (Unit {0})))
      → Manager P c.Queue × Result (Unit {0})
      → Option (View P c.Queue × Result (Unit {0}))
  after_run clock loop (m, returns u) = loop (record { mgr = m; clock = clock })
  after_run clock loop (m, throws e) = some (
    record { mgr = m; clock = clock },
    throws (caught ": from taskmgr::progress_wait" (library e)),
  )

  -- What follows `get_task`: it returned no task, or one that is run.
  abbrev pub after_get :
      Task P
      → (View P c.Queue → Option (View P c.Queue × Result (Unit {0})))
      → Option (View P c.Queue × Option ℕ)
      → Option (View P c.Queue × Result (Unit {0}))
  after_get current loop none = none
  after_get current loop (some (v, none)) = some (v, returns tt)
  after_get current loop (some (v, some task)) =
      after_run v.clock loop (restore c self current (execute c (bodies task) v.mgr self task))

  -- The loop of a thread of the task manager.
  unfoldable pub wait_loop :
      ℕ → ℕ → Task P → ℕ → View P c.Queue → Option (View P c.Queue × Result (Unit {0}))
  wait_loop poll_fuel max_attempts current zero v = none
  wait_loop poll_fuel max_attempts current (suc fuel) v =
      after_get current (wait_loop poll_fuel max_attempts current fuel)
        (rounds current poll_fuel max_attempts max_attempts v)

  -- The loop of the main thread.
  unfoldable pub spin_loop : ℕ → View P c.Queue → Option (View P c.Queue × Result (Unit {0}))
  spin_loop zero v = none
  spin_loop (suc fuel) v =
      let (w, done) = completion_pred v in
      let again = spin_loop fuel w in if done then some (w, returns tt) else again

  -- `progress_wait`; `none` is a wait that the fuel does not see the end of.
  unfoldable pub progress_wait :
      ℕ → ℕ → Manager P c.Queue → Option (View P c.Queue × Result (Unit {0}))
  progress_wait fuel max_attempts m =
      let v : View P c.Queue = record { mgr = m; clock = 0 } in
      let spun = spin_loop fuel v in
      let worked = wait_loop fuel max_attempts (m.task_cache self) fuel v in
      if m.num_threads == self then spun else worked
