-- ===== src/Manager/State/Laws.antt =====
-- What a spawn, a functor that throws and a barrier's help do to the state of a task manager
-- (pfunc/taskmgr.hpp).
use pfunc.Base.{
  update_self, ap, List, update, ℕ, ◌≡◌, ◌≢◌, ◌<◌, refl, sym, ◌∙◌, inl, inr, Bool, ◌∷◌, Perm, none,
  some, arith, subst, Bool-cases, ◌==◌, if◌then◌else◌,
}
use pfunc.Task.Attribute.{Attribute}
use pfunc.Task.Event.{active_incomplete}
use pfunc.Task.Event
use pfunc.Task.Group.{join_group}
use pfunc.Task.Exception.{Thrown, caught, Result, returns, throws}
use pfunc.Task.Object.{run, notify, Task, compl, set_group, reset_completion, shallow_copy}
use pfunc.Scheduler.Scan.{Outcome, fault, not_found, found}
use pfunc.Scheduler.Store.{QueueSet, IsValid, tasks}
use pfunc.Scheduler.Policy.{Contract}
use pfunc.Predicate.{PolicyName, group_predicate_pair, group_predicate_pair-other_group}
use pfunc.Manager.State.{
  Manager, cached, work_loop, unless_thrown, prepare, target_queue, spawn_task, Body, execute,
  restore, progress_barrier,
}

-- A task as its spawn leaves it.
pub record Spawned {P : Type 0} (t : Task P) (attr : Attribute P) (group work : ℕ) : Type 0 where
  pub attr_set : t.attr ≡ attr
  pub grp_set : t.grp ≡ group
  pub func_set : t.func ≡ some work
  pub cleared : t.except ≡ none
  pub incomplete : (compl t).event_state ≡ active_incomplete
  pub waiters : (compl t).num_waiters ≡ attr.num_waiters

-- What `shallow_copy` copies.
abbrev pub SameIdentity : {P : Type 0} → Task P → Task P → Type 0
SameIdentity t u = (t.attr ≡ u.attr) × (t.grp ≡ u.grp) × (t.gsize ≡ u.gsize) × (t.grank ≡ u.grank)

module _ {P : Type 0} (c : Contract ℕ) where
  prepare-group :
      (m : Manager P c.Queue) (a : ℕ) (attr : Attribute P) (group work : ℕ)
      → (prepare c m a attr group work).1
        ≡ (if attr.join_group then (join_group (m.groups group)).1 else m.groups group)
  unfolding prepare set_group
  prepare-group m a attr group work = ground arith

  prepare-Spawned :
      (m : Manager P c.Queue) (a : ℕ) (attr : Attribute P) (group work : ℕ)
      → Spawned (prepare c m a attr group work).0 attr group work
  unfolding prepare set_group reset_completion Event.reset
  prepare-Spawned m a attr group work = record {
    attr_set = ground arith;
    grp_set = ground arith;
    func_set = ground arith;
    cleared = ground arith;
    incomplete = ground arith;
    waiters = ground arith;
  }

  -- On a valid set, a spawn with a queue number in range succeeds. The queues then hold the new task and what
  -- they held; the task has its attributes, group and functor, no exception, and an incomplete event
  -- with the number of waiters that the attributes ask for; no other task object changes, nor does
  -- any group but the new task's, which only a task that joins its group changes.
  pub spawn_task-Spawned :
      (m : Manager P c.Queue) (self a : ℕ) (attr : Attribute P) (group work : ℕ)
      → IsValid m.task_queue
      → target_queue c m self attr < m.task_queue.num_queues
      → (m' : Manager P c.Queue) × (spawn_task c m self a attr group work ≡ some m')
        × Perm (tasks c.view m'.task_queue) (a ∷ tasks c.view m.task_queue)
        × Spawned (m'.heap a) attr group work
        × ((b : ℕ) → a ≢ b → m'.heap b ≡ m.heap b)
        × ((g : ℕ) → group ≢ g → m'.groups g ≡ m.groups g)
        × (m'.groups group
            ≡ (if attr.join_group then (join_group (m.groups group)).1 else m.groups group))
  unfolding spawn_task
  spawn_task-Spawned m self a attr group work valid inside =
      let (s, stored) =
        c.put_laws.put-total m.task_queue (target_queue c m self attr) a valid inside in
      let (valid', same, grown) =
        c.put_laws.put-some m.task_queue (target_queue c m self attr) a s valid stored in
      let p = prepare c m a attr group work in
      (
        record m { heap = update m.heap a p.0; groups = update m.groups group p.1; task_queue = s },
        rw (stored, spawn_task),
        grown,
        subst (λ t. Spawned t attr group work) (sym (update_self m.heap a p.0))
            (prepare-Spawned m a attr group work),
        λ b ne. ground arith,
        λ g ne. ground arith,
        update_self m.groups group p.1 ∙ prepare-group m a attr group work,
      )

  -- Where the set of queues is valid, a task that a thread is given while it waits in a barrier is
  -- of another group than the thread's current task, under every policy and from every queue.
  pub barrier_get-other_group :
      (policy : PolicyName) (comp : P → P → Bool) (m : Manager P c.Queue) (self a : ℕ)
      (s : QueueSet c.Queue)
      → IsValid m.task_queue
      → c.get m.task_queue
          (m.thread_queue self)
          (group_predicate_pair m.heap comp policy (m.task_cache self))
        ≡ found a s
      → (m.heap a).grp ≢ (m.task_cache self).grp
  barrier_get-other_group policy comp m self a s valid e =
      let handed =
        c.get_laws.get-found m.task_queue (m.thread_queue self)
          (group_predicate_pair m.heap comp policy (m.task_cache self)) a s valid e in
      group_predicate_pair-other_group m.heap comp policy (m.task_cache self) handed.own a
        handed.accepted

  pub restore-identity :
      (self : ℕ) (current : Task P) (r : Manager P c.Queue × Result (Unit {0}))
      → (restore c self current r).1 ≡ returns tt
      → SameIdentity ((restore c self current r).0.task_cache self) current
  unfolding restore shallow_copy
  restore-identity self current (m, returns u) e =
      subst (λ t. SameIdentity t current) (sym (update_self m.task_cache self _))
        (refl, refl, refl, refl)
  restore-identity self current (m, throws x) e = cc

  helped-identity :
      (self : ℕ) (current : Task P) (m : Manager P c.Queue) (o : Outcome ℕ (QueueSet c.Queue))
      (help : ℕ → QueueSet c.Queue → Manager P c.Queue × Result (Unit {0}))
      → m.task_cache self ≡ current
      → let r : Manager P c.Queue × Result (Unit {0}) = elim o [
        | found a s ↦ restore c self current (help a s)
        | _ ↦ (m, returns tt)
      ] in
        r.1 ≡ returns tt → SameIdentity (r.0.task_cache self) current
  helped-identity self current m fault help at e = rw at (refl, refl, refl, refl)
  helped-identity self current m not_found help at e = rw at (refl, refl, refl, refl)
  helped-identity self current m (found a s) help at e = restore-identity self current (help a s) e

  -- A thread comes back from a barrier's help as the task that it was: if `progress_barrier` throws
  -- nothing, then whatever the task that it ran did to the state, the thread's cache says again what
  -- it said before.
  pub progress_barrier-identity :
      (policy : PolicyName) (comp : P → P → Bool) (body : Body P c.Queue) (m : Manager P c.Queue)
      (self : ℕ)
      → (progress_barrier c policy comp body m self).1 ≡ returns tt
      → SameIdentity
          ((progress_barrier c policy comp body m self).0.task_cache self)
          (m.task_cache self)
  unfolding progress_barrier shallow_copy
  progress_barrier-identity policy comp body m self e = elim (Bool-cases (m.num_threads == self)) [
    | inl main ↦ rw (main) (refl, refl, refl, refl)
    | inr worker ↦ rw (worker) (
        helped-identity self (m.task_cache self) m
          (c.get m.task_queue (m.thread_queue self)
            (group_predicate_pair m.heap comp policy (m.task_cache self)))
          (λ a s. execute c body (record m { task_queue = s }) self a) refl
          (rw (worker, progress_barrier) at e))
  ]

  -- A task as a functor that threw leaves it.
  abbrev pub failed_task : Thrown → Task P → Task P
  failed_task thrown t = record t { except = some (caught ": from task::run" thrown) }

  execute-throws :
      (body : Body P c.Queue) (m ran : Manager P c.Queue) (self a : ℕ) (thrown : Thrown)
      → body (cached c m self a) ≡ (ran, some thrown)
      → execute c body m self a ≡ (
        record ran { heap = update ran.heap a (failed_task thrown (ran.heap a)) },
        throws (caught ": from task::run" thrown),
      )
  unfolding execute run notify
  execute-throws body m ran self a thrown e = rw (e, execute)

  -- A functor that throws ends the work loop of the thread that ran it: the exception, with the trace
  -- of `task::run`, leaves the loop through `notify`; the task keeps it, its event stays as the functor
  -- left it, and of the tasks that the thread would have taken next none is run.
  pub work_loop-throws :
      (bodies : ℕ → Body P c.Queue) (m ran : Manager P c.Queue) (self a : ℕ) (rest : List ℕ)
      (thrown : Thrown)
      → bodies a (cached c m self a) ≡ (ran, some thrown)
      → work_loop c bodies m self (a ∷ rest) ≡ (
        record ran { heap = update ran.heap a (failed_task thrown (ran.heap a)) },
        throws (caught ": from task::run" thrown),
      )
  unfolding work_loop
  work_loop-throws bodies m ran self a rest thrown e =
      ap (λ r. unless_thrown c r (λ n. work_loop c bodies n self rest))
        (execute-throws (bodies a) m ran self a thrown e)
