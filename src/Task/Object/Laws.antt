-- ===== src/Task/Object/Laws.antt =====
-- What becomes of a task between its spawn and its waiters: pfunc/task.hpp as the work loop of
-- pfunc/taskmgr.hpp uses it.
use pfunc.Base.{ℕ, ◌≡◌, true, false, Option, none, some, arith, replicate}
use pfunc.Task.Event.{Event, inactive, active_incomplete, active_complete, tests, tests-reset}
use pfunc.Task.Event
use pfunc.Task.Group.{Group}
use pfunc.Task.Exception.{Thrown, caught, Result, returns, throws}
use pfunc.Task.Object.{Task, compl, reset_completion, run, notify, test, wait, leave_if}

module _ {P : Type 0} where
  -- The two calls of the work loop on a task that it got: `run` and `notify`.
  abbrev pub executed : Task P → Option Thrown → Task P × Result (Unit {0})
  executed t outcome = notify (run t outcome)

  -- A task whose functor returns reaches its waiters: after `reset_completion`, `run` and `notify`,
  -- which throws nothing, each waiter's `test` returns true, throws nothing, and leaves the group if
  -- and only if the task joined it; and before `notify`, `test` returns false and changes nothing.
  pub run-notify :
      (t : Task P) (n : ℕ) (g : Group)
      → (test (run (reset_completion t n) none) g
          ≡ ((run (reset_completion t n) none, g), returns false))
        × ((executed (reset_completion t n) none).1 ≡ returns tt)
        × ((test (executed (reset_completion t n) none).0 g).1 ≡ returns true)
        × ((test (executed (reset_completion t n) none).0 g).0.1 ≡ leave_if t.attr.join_group g)
  unfolding reset_completion run notify test Event.test Event.reset Event.notify
  run-notify t n g = (ground arith, ground arith, ground arith, ground arith)

  -- A task whose functor throws does not reach a waiter that is already waiting: `run` stores the
  -- exception, but `notify` then throws it in the thread that ran the task, and changes nothing. The
  -- event stays incomplete through any number of tests, and an unnested waiter would sleep on. Only
  -- a call of `test` or `wait` that begins later is thrown the exception.
  pub run-notify_throws :
      (t : Task P) (n k : ℕ) (thrown : Thrown) (g : Group) (progress_wait : Event → Option Event)
      → let t' = run (reset_completion t n) (some thrown) in
        let e = caught ": from task::run" thrown in
        (executed (reset_completion t n) (some thrown) ≡ (t', throws e))
        × (tests k (compl t') ≡ (compl t', replicate k false))
        × (Event.wait (compl t') ≡ none)
        × (test t' g ≡ ((t', g), throws e))
        × (wait progress_wait t' g ≡ some ((t', g), throws e))
  unfolding reset_completion run notify test wait Event.wait Event.reset
  run-notify_throws t n k thrown g progress_wait = (
    ground arith,
    ground (arith, tests-reset k n t.testing_compl, tests-reset k n t.waiting_compl),
    ground arith,
    ground arith,
    ground arith,
  )

  -- A task object can be used again: after `reset_completion`, a run and its `notify` leave the
  -- task and answer as if the last run had not thrown.
  pub rerun-clears :
      (t : Task P) (n m : ℕ) (thrown : Thrown)
      → executed (reset_completion (run (reset_completion t n) (some thrown)) m) none
        ≡ executed (reset_completion t m) none
  unfolding reset_completion run notify Event.reset
  rerun-clears t n m thrown = ground arith
