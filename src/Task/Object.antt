-- ===== src/Task/Object.antt =====
-- pfunc/task.hpp, with exceptions compiled in: a task object. Its group is shared: a method that
-- changes the group takes it and returns it. A method that throws leaves the object as it then is.
pub mod Laws
use pfunc.Base.{ℕ, Bool, Option, none, some, if◌then◌else◌}
use pfunc.Task.Attribute.{Attribute}
use pfunc.Task.Event.{Event}
use pfunc.Task.Event
use pfunc.Task.Group.{Group, join_group, leave_group}
use pfunc.Task.Exception.{Exception, Thrown, caught, Result, returns, throws}

pub record Task (Priority : Type 0) : Type 0 where
  pub attr : Attribute Priority
  pub grp : ℕ  -- the address of the group
  pub gsize : ℕ
  pub grank : ℕ
  pub func : Option ℕ  -- the address of the functor
  pub testing_compl : Event
  pub waiting_compl : Event
  pub except : Option Exception

-- `PFUNC_CHECK_AND_RETHROW` before the rest of a method.
abbrev pub check_and_rethrow : {S A : Type 0} → Option Exception → S → S × Result A → S × Result A
check_and_rethrow none s rest = rest
check_and_rethrow (some e) s rest = (s, throws e)

abbrev pub leave_if : Bool → Group → Group
leave_if grouped g = if grouped then leave_group g else g

module _ {P : Type 0} where
  -- `task ()`; address 0 is NULL.
  unfoldable pub task : Attribute P → Task P
  task attr = record {
    attr = attr;
    grp = 0;
    gsize = 0;
    grank = 0;
    func = none;
    testing_compl = Event.event_base;
    waiting_compl = Event.event_base;
    except = none;
  }

  -- `task (attr, grp, func)`, whose initialiser sets `func` to NULL.
  unfoldable pub task_with : Attribute P → ℕ → ℕ → Task P
  unfolding task
  task_with attr grp func = record (task attr) { grp = grp; func = none }

  abbrev pub set_attr : Task P → Attribute P → Task P
  set_attr t at = record t { attr = at }

  unfoldable pub set_group : Task P → ℕ → Group → Task P × Group
  set_group t gp g =
      if t.attr.join_group
      then (let (rank, g') = join_group g in
          (record t { grp = gp; gsize = g.group_size; grank = rank }, g'))
      else (record t { grp = gp }, g)

  abbrev pub set_func : Task P → ℕ → Task P
  set_func t fn = record t { func = some fn }

  -- The event that tells of the task's end.
  abbrev pub compl : Task P → Event
  compl t = if t.attr.is_nested then t.testing_compl else t.waiting_compl

  abbrev pub set_compl : Task P → Event → Task P
  set_compl t e =
      if t.attr.is_nested then record t { testing_compl = e } else record t { waiting_compl = e }

  unfoldable pub reset_completion : Task P → ℕ → Task P
  reset_completion t nwait = record (set_compl t (Event.reset nwait (compl t))) { except = none }

  -- `run`, by what the functor does: it returns, or it throws, which is stored. (The trace in the
  -- source also has the file and the line.)
  unfoldable pub run : Task P → Option Thrown → Task P
  run t none = t
  run t (some thrown) = record t { except = some (caught ": from task::run" thrown) }

  unfoldable pub notify : Task P → Task P × Result (Unit {0})
  notify t = check_and_rethrow t.except t (set_compl t (Event.notify (compl t)), returns tt)

  unfoldable pub test : Task P → Group → (Task P × Group) × Result Bool
  test t g =
      let (e, done) = Event.test (compl t) in
      check_and_rethrow t.except (t, g)
        ((set_compl t e, if done then leave_if t.attr.join_group g else g), returns done)

  -- `wait`, around the wait for the event: `progress_wait` of the task manager for a nested task,
  -- and the event's own `wait` for another. `none` is a caller that does not come back.
  unfoldable pub wait :
      (Event → Option Event) → Task P → Group → Option ((Task P × Group) × Result (Unit {0}))
  wait progress_wait t g =
      let woken =
        if t.attr.is_nested then progress_wait t.testing_compl else Event.wait t.waiting_compl in
      elim t.except [
        | some e ↦ some ((t, g), throws e)
        | none ↦ elim woken [
          | none ↦ none
          | some e ↦ some ((set_compl t e, leave_if t.attr.join_group g), returns tt)
        ]
      ]

  -- `shallow_copy`: what the cache of a thread keeps of a task.
  unfoldable pub shallow_copy : Task P → Task P → Task P
  shallow_copy t other = record t {
    attr = other.attr;
    grp = other.grp;
    gsize = other.gsize;
    grank = other.grank;
  }
