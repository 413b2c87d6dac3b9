-- ===== src/Manager/Wait/Laws.antt =====
-- What a thread that waits for the end of a task comes back to (pfunc/taskmgr.hpp).
use pfunc.Base.{
  ℕ, zero, suc, ◌≡◌, ◌≢◌, refl, sym, ap, subst, ◌∙◌, inl, inr, Option, none, some, Bool, true,
  arith, ◌==◌, ◌||◌, Bool-cases,
}
use pfunc.Task.Event.{active_incomplete}
use pfunc.Task.Event
use pfunc.Task.Exception.{not_thrown, Result, returns, throws}
use pfunc.Task.Object.{Task}
use pfunc.Scheduler.Scan.{Outcome, found, not_found, fault}
use pfunc.Scheduler.Store.{QueueSet}
use pfunc.Scheduler.Policy.{Contract}
use pfunc.Predicate.{PolicyName, waiting_predicate_pair}
use pfunc.Manager.Poll.{next_attempts, is_some}
use pfunc.Manager.State.{Manager, Body, execute, restore}
use pfunc.Manager.State.Laws.{SameIdentity, restore-identity}
use pfunc.Manager.Wait.{
  View, test_event, completion_pred, attempts, after_look, rounds, after_run, after_get, wait_loop,
  spin_loop, progress_wait,
}

test_event-cache :
    {P Q : Type 0} (awaited : ℕ) (m : Manager P Q)
    → (test_event awaited m).0.task_cache ≡ m.task_cache
unfolding test_event
test_event-cache awaited m = refl

-- A test of a nested task's event that came out true.
abbrev pub Completed : {P Q : Type 0} → ℕ → Manager P Q → Type 0
Completed {P} {Q} awaited m =
    (before : Manager P Q) × ((before.heap awaited).testing_compl.event_state ≢ active_incomplete)
    × (m ≡ (test_event awaited before).0)

test-true : (e : Event.Event) → (Event.test e).1 ≡ true → e.event_state ≢ active_incomplete
unfolding Event.test
test-true e h = ground arith

module _ {P : Type 0} (c : Contract ℕ) (policy : PolicyName) (comp : P → P → Bool)
    (bodies : ℕ → Body P c.Queue) (others : ℕ → Manager P c.Queue → Manager P c.Queue)
    (awaited self : ℕ) where
  abbrev pred : View P c.Queue → View P c.Queue × Bool
  pred = completion_pred c policy comp bodies others awaited self

  abbrev inner : Task P → ℕ → View P c.Queue → View P c.Queue × Option ℕ
  inner = attempts c policy comp bodies others awaited self

  abbrev outer : Task P → ℕ → ℕ → ℕ → View P c.Queue → Option (View P c.Queue × Option ℕ)
  outer = rounds c policy comp bodies others awaited self

  abbrev loop : ℕ → ℕ → Task P → ℕ → View P c.Queue → Option (View P c.Queue × Result (Unit {0}))
  loop = wait_loop c policy comp bodies others awaited self

  pred-Completed : (v : View P c.Queue) → (pred v).1 ≡ true → Completed awaited (pred v).0.mgr
  unfolding completion_pred test_event
  pred-Completed v e =
      let before = others v.clock v.mgr in
      (before, test-true (before.heap awaited).testing_compl e, refl)

  -- `get_task` returns NULL only after a test that came out true.
  rounds-Completed :
      (current : Task P) (fuel max n : ℕ) (v w : View P c.Queue)
      → outer current fuel max n v ≡ some (w, none)
      → Completed awaited w.mgr
  unfolding rounds
  rounds-Completed current zero max n v w e = cc
  rounds-Completed current (suc fuel) max n v w e =
      let x = (inner current n v).0 in
      let y = pred x in
      elim (Bool-cases (y.1 || is_some (inner current n v).1)) [
        | inl stop ↦
            let same : y.0 ≡ w = ground arith in
            let done : y.1 ≡ true = ground arith in
            subst (λ (u : View P c.Queue). Completed awaited u.mgr) same (pred-Completed x done)
        | inr on ↦ rounds-Completed current fuel max (next_attempts max) y.0 w (ground arith)
      ]

  module _
      (apart : (k : ℕ) (m : Manager P c.Queue)
        → (others k m).task_cache self ≡ m.task_cache self) where
    pred-cache : (v : View P c.Queue) → (pred v).0.mgr.task_cache self ≡ v.mgr.task_cache self
    unfolding completion_pred
    pred-cache v =
        ap (λ f. f self) (test_event-cache awaited (others v.clock v.mgr)) ∙ apart v.clock v.mgr

    after_look-cache :
        (w : View P c.Queue) (again : View P c.Queue × Option ℕ) (o : Outcome ℕ (QueueSet c.Queue))
        → again.0.mgr.task_cache self ≡ w.mgr.task_cache self
        → (after_look c policy comp bodies others awaited self w again o).0.mgr.task_cache self
          ≡ w.mgr.task_cache self
    after_look-cache w again (found task s) e = refl
    after_look-cache w again not_found e = e
    after_look-cache w again fault e = e

    attempts-cache :
        (current : Task P) (n : ℕ) (v : View P c.Queue)
        → (inner current n v).0.mgr.task_cache self ≡ v.mgr.task_cache self
    unfolding attempts
    attempts-cache current zero v = pred-cache v
    attempts-cache current (suc n) v =
        let w = (pred v).0 in
        elim (Bool-cases (pred v).1) [
          | inl done ↦ rw done (pred-cache v)
          | inr more ↦ rw more (
              after_look-cache w (inner current n w)
                (c.get w.mgr.task_queue (w.mgr.thread_queue self)
                  (waiting_predicate_pair w.mgr.heap comp policy current))
                (attempts-cache current n w)
              ∙ pred-cache v)
        ]

    rounds-cache :
        (current : Task P) (fuel max n : ℕ) (v w : View P c.Queue) (task : Option ℕ)
        → outer current fuel max n v ≡ some (w, task)
        → w.mgr.task_cache self ≡ v.mgr.task_cache self
    unfolding rounds
    rounds-cache current zero max n v w task e = cc
    rounds-cache current (suc fuel) max n v w task e =
        let x = (inner current n v).0 in
        let kept : (pred x).0.mgr.task_cache self ≡ v.mgr.task_cache self =
          pred-cache x ∙ attempts-cache current n v in
        elim (Bool-cases ((pred x).1 || is_some (inner current n v).1)) [
          | inl stop ↦
              let same : (pred x).0 ≡ w = ground arith in
              subst (λ (u : View P c.Queue). u.mgr.task_cache self ≡ v.mgr.task_cache self) same
                kept
          | inr on ↦
              rounds-cache current fuel max (next_attempts max) (pred x).0 w task (ground arith)
              ∙ kept
        ]

    -- How a wait that returns left things.
    abbrev Back : Task P → Option (View P c.Queue × Result (Unit {0})) → Type 0
    Back current o =
        (w : View P c.Queue)
        → o ≡ some (w, returns tt)
        → Completed awaited w.mgr × SameIdentity (w.mgr.task_cache self) current

    after_run-Back :
        (current : Task P) (clock : ℕ)
        (next : View P c.Queue → Option (View P c.Queue × Result (Unit {0})))
        (r : Manager P c.Queue × Result (Unit {0}))
        → (r.1 ≡ returns tt → SameIdentity (r.0.task_cache self) current)
        → ((v : View P c.Queue)
            → SameIdentity (v.mgr.task_cache self) current
            → Back current (next v))
        → Back current (after_run c policy comp bodies others awaited self clock next r)
    after_run-Back current clock next (m, returns u) same onward =
        onward (record { mgr = m; clock = clock }) (same refl)
    after_run-Back current clock next (m, throws e) same onward = λ w h. absurd (not_thrown _ w _ h)

    after_get-Back :
        (current : Task P) (next : View P c.Queue → Option (View P c.Queue × Result (Unit {0})))
        (o : Option (View P c.Queue × Option ℕ))
        → ((w : View P c.Queue)
            → o ≡ some (w, none)
            → Completed awaited w.mgr × SameIdentity (w.mgr.task_cache self) current)
        → ((v : View P c.Queue)
            → SameIdentity (v.mgr.task_cache self) current
            → Back current (next v))
        → Back current (after_get c policy comp bodies others awaited self current next o)
    after_get-Back current next none ended onward = λ w h. cc
    after_get-Back current next (some (v, none)) ended onward = λ w h.
        let same : v ≡ w = ground arith in
        subst
          (λ (u : View P c.Queue).
            Completed awaited u.mgr × SameIdentity (u.mgr.task_cache self) current)
          same (ended v refl)
    after_get-Back current next (some (v, some task)) ended onward =
        let run = execute c (bodies task) v.mgr self task in
        after_run-Back current v.clock next (restore c self current run)
          (restore-identity c self current run) onward

    loop-Back :
        (poll_fuel max : ℕ) (current : Task P) (fuel : ℕ) (v : View P c.Queue)
        → SameIdentity (v.mgr.task_cache self) current
        → Back current (loop poll_fuel max current fuel v)
    unfolding wait_loop
    loop-Back poll_fuel max current zero v same = λ w h. cc
    loop-Back poll_fuel max current (suc fuel) v same =
        after_get-Back current (loop poll_fuel max current fuel) (outer current poll_fuel max max v)
          (λ w e. (
            rounds-Completed current poll_fuel max max v w e,
            subst (λ t. SameIdentity t current)
                (sym (rounds-cache current poll_fuel max max v w none e)) same,
          ))
          (loop-Back poll_fuel max current fuel)

    spin-Back :
        (current : Task P) (fuel : ℕ) (v : View P c.Queue)
        → SameIdentity (v.mgr.task_cache self) current
        → Back current (spin_loop c policy comp bodies others awaited self fuel v)
    unfolding spin_loop
    spin-Back current zero v same = λ w h. cc
    spin-Back current (suc fuel) v same =
        let kept : SameIdentity ((pred v).0.mgr.task_cache self) current =
          subst (λ t. SameIdentity t current) (sym (pred-cache v)) same in
        elim (Bool-cases (pred v).1) [
          | inl done ↦ rw done (λ w h.
              let ended : (pred v).0 ≡ w = ground arith in
              subst
                (λ (u : View P c.Queue).
                  Completed awaited u.mgr × SameIdentity (u.mgr.task_cache self) current)
                ended (pred-Completed v done, kept))
          | inr more ↦ rw more (spin-Back current fuel (pred v).0 kept)
        ]

    -- A wait that returns, and throws nothing, returns after a test of the awaited event that came out
    -- true and found it no longer incomplete, whatever tasks were run and whatever other threads did
    -- in the meantime, as long as they leave the thread's cache alone; and the cache then says again
    -- what it said before the wait.
    pub progress_wait-Completed :
        (fuel max : ℕ) (m : Manager P c.Queue) (w : View P c.Queue)
        → progress_wait c policy comp bodies others awaited self fuel max m ≡ some (w, returns tt)
        → Completed awaited w.mgr × SameIdentity (w.mgr.task_cache self) (m.task_cache self)
    unfolding progress_wait
    progress_wait-Completed fuel max m w e =
        let start : View P c.Queue = record { mgr = m; clock = 0 } in
        let current = m.task_cache self in
        let own : SameIdentity current current = (refl, refl, refl, refl) in
        elim (Bool-cases (m.num_threads == self)) [
          | inl main ↦ spin-Back current fuel start own w (rw main at e)
          | inr worker ↦ loop-Back fuel max current fuel start own w (rw worker at e)
        ]
