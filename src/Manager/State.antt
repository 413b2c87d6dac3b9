-- ===== src/Manager/State.antt =====
-- The state of a task manager and the calls that change it, pfunc/taskmgr.hpp: `spawn_task`, the
-- work loop, and `progress_barrier`, as one thread sees them.
pub mod Laws
use pfunc.Base.{List, [], ◌∷◌, update, ℕ, Bool, Option, none, some, ◌==◌, if◌then◌else◌}
use pfunc.Task.Attribute.{Attribute, queue_current_thread}
use pfunc.Task.Group.{Group}
use pfunc.Task.Exception.{Thrown, Result, returns, throws}
use pfunc.Task.Object.{
  Task, set_attr, set_group, set_func, reset_completion, run, notify, shallow_copy,
}
use pfunc.Scheduler.Scan.{found}
use pfunc.Scheduler.Store.{QueueSet}
use pfunc.Scheduler.Policy.{Contract}
use pfunc.Predicate.{PolicyName, group_predicate_pair}

-- Tasks and groups live at addresses. `thread_queue` is the queue number of each thread's attribute;
-- the main thread's number is `num_threads`.
pub record Manager (P : Type 0) (Q : Type 0) : Type 0 where
  pub heap : ℕ → Task P
  pub groups : ℕ → Group
  pub task_queue : QueueSet Q
  pub task_cache : ℕ → Task P
  pub thread_queue : ℕ → ℕ
  pub num_threads : ℕ
  pub default_attribute : Attribute P
  pub default_group : ℕ

-- What a functor does: to the state, and whether it throws.
abbrev pub Body : Type 0 → Type 0 → Type 0
Body P Q = Manager P Q → Manager P Q × Option Thrown

module _ {P : Type 0} (c : Contract ℕ) where
  -- `new_task` as `spawn_task` prepares it, with its group.
  unfoldable pub prepare : Manager P c.Queue → ℕ → Attribute P → ℕ → ℕ → Task P × Group
  prepare m new_task new_attr new_group new_work =
      let (t, g) = set_group (set_attr (m.heap new_task) new_attr) new_group (m.groups new_group) in
      (reset_completion (set_func t new_work) new_attr.num_waiters, g)

  -- The queue that a task goes on, when thread `self` spawns it.
  abbrev pub target_queue : Manager P c.Queue → ℕ → Attribute P → ℕ
  target_queue m self new_attr =
      if queue_current_thread == new_attr.queue_number
      then m.thread_queue self
      else new_attr.queue_number

  -- `spawn_task (new_task, new_attr, new_group, new_work)`; `none` is a fault of `put`.
  unfoldable pub spawn_task :
      Manager P c.Queue → ℕ → ℕ → Attribute P → ℕ → ℕ → Option (Manager P c.Queue)
  unfolding prepare
  spawn_task m self new_task new_attr new_group new_work =
      let (t, g) = prepare m new_task new_attr new_group new_work in
      elim (c.put m.task_queue (target_queue m self new_attr) new_task) [
        | none ↦ none
        | some s ↦ some (record m {
          heap = update m.heap new_task t;
          groups = update m.groups new_group g;
          task_queue = s;
        })
      ]

  -- `spawn_task (new_task, new_work)` and `spawn_task (new_task, new_attr, new_work)`.
  abbrev pub spawn_default : Manager P c.Queue → ℕ → ℕ → ℕ → Option (Manager P c.Queue)
  spawn_default m self new_task new_work =
      spawn_task m self new_task m.default_attribute m.default_group new_work

  abbrev pub spawn_attr : Manager P c.Queue → ℕ → ℕ → Attribute P → ℕ → Option (Manager P c.Queue)
  spawn_attr m self new_task new_attr new_work =
      spawn_task m self new_task new_attr m.default_group new_work

  -- The cache of thread `self` set to the task that it is about to run.
  abbrev pub cached : Manager P c.Queue → ℕ → ℕ → Manager P c.Queue
  cached m self my_task = record m {
    task_cache = update m.task_cache self (shallow_copy (m.task_cache self) (m.heap my_task));
  }

  -- The body of the work loop: the cache is set, the task is run and notified.
  unfoldable pub execute :
      Body P c.Queue → Manager P c.Queue → ℕ → ℕ → Manager P c.Queue × Result (Unit {0})
  execute body m self my_task =
      let (ran, outcome) = body (cached m self my_task) in
      let (t, result) = notify (run (ran.heap my_task) outcome) in
      (record ran { heap = update ran.heap my_task t }, result)

  -- What follows a call, unless that throws.
  abbrev pub unless_thrown :
      Manager P c.Queue × Result (Unit {0})
      → (Manager P c.Queue → Manager P c.Queue × Result (Unit {0}))
      → Manager P c.Queue × Result (Unit {0})
  unless_thrown (m, throws e) next = (m, throws e)
  unless_thrown (m, returns u) next = next m

  -- The work loop, over the tasks that `get_task` returns one after the other until it returns NULL.
  -- `bodies` are the functors of the tasks.
  unfoldable pub work_loop :
      (ℕ → Body P c.Queue) → Manager P c.Queue → ℕ → List ℕ → Manager P c.Queue × Result (Unit {0})
  work_loop bodies m self [] = (m, returns tt)
  work_loop bodies m self (my_task ∷ rest) =
      unless_thrown (execute (bodies my_task) m self my_task)
        (λ ran. work_loop bodies ran self rest)

  -- The cache of thread `self` is written back, unless an exception passes.
  unfoldable pub restore :
      ℕ → Task P → Manager P c.Queue × Result (Unit {0}) → Manager P c.Queue × Result (Unit {0})
  restore self current (m, returns u) = (
    record m { task_cache = update m.task_cache self (shallow_copy (m.task_cache self) current) },
    returns tt,
  )
  restore self current (m, throws e) = (m, throws e)

  -- `progress_barrier`: a thread that waits in a barrier runs one task of another group.
  unfoldable pub progress_barrier :
      PolicyName
      → (P → P → Bool)
      → Body P c.Queue
      → Manager P c.Queue
      → ℕ
      → Manager P c.Queue × Result (Unit {0})
  unfolding restore
  progress_barrier policy comp body m self =
      let current = m.task_cache self in
      let helped : Manager P c.Queue × Result (Unit {0}) =
        elim (c.get m.task_queue (m.thread_queue self)
          (group_predicate_pair m.heap comp policy current)) [
            | found my_task s ↦
                restore self current (execute body (record m { task_queue = s }) self my_task)
            | _ ↦ (m, returns tt)
          ] in
      if m.num_threads == self then (m, returns tt) else helped
