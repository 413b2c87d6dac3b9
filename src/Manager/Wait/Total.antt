-- ===== src/Manager/Wait/Total.antt =====
-- A wait for the end of a task ends (`progress_wait` of pfunc/taskmgr.hpp).
use pfunc.Base.{
  ℕ, zero, suc, ◌+◌, ◌≤◌, ◌<◌, ◌≡◌, ◌≢◌, refl, ap, ◌∙◌, inl, inr, Option, none, some, Bool, true,
  arith, ◌==◌, ◌||◌, Bool-cases, dec_lt,
}
use pfunc.Task.Event.{active_incomplete}
use pfunc.Task.Event
use pfunc.Task.Exception.{Result, returns, throws}
use pfunc.Task.Object.{Task}
use pfunc.Scheduler.Scan.{Outcome, found, not_found, fault}
use pfunc.Scheduler.Store.{QueueSet}
use pfunc.Scheduler.Policy.{Contract}
use pfunc.Predicate.{PolicyName, waiting_predicate_pair}
use pfunc.Manager.Poll.{next_attempts, is_some}
use pfunc.Manager.State.{Manager, Body, execute, restore}
use pfunc.Manager.Wait.{
  View, test_event, completion_pred, attempts, after_look, rounds, after_run, after_get, wait_loop,
  spin_loop, progress_wait,
}

test_complete : (e : Event.Event) → e.event_state ≢ active_incomplete → (Event.test e).1 ≡ true
unfolding Event.test
test_complete e h = ground arith

module _ {P : Type 0} (c : Contract ℕ) (policy : PolicyName) (comp : P → P → Bool)
    (bodies : ℕ → Body P c.Queue) (others : ℕ → Manager P c.Queue → Manager P c.Queue)
    (awaited self t : ℕ)
    (stop : (k : ℕ) (m : Manager P c.Queue)
      → t ≤ k
      → ((others k m).heap awaited).testing_compl.event_state ≢ active_incomplete) where
  abbrev pred : View P c.Queue → View P c.Queue × Bool
  pred = completion_pred c policy comp bodies others awaited self

  abbrev inner : Task P → ℕ → View P c.Queue → View P c.Queue × Option ℕ
  inner = attempts c policy comp bodies others awaited self

  abbrev outer : Task P → ℕ → ℕ → ℕ → View P c.Queue → Option (View P c.Queue × Option ℕ)
  outer = rounds c policy comp bodies others awaited self

  pred-late : (v : View P c.Queue) → t ≤ v.clock → (pred v).1 ≡ true
  unfolding completion_pred test_event
  pred-late v h = test_complete _ (stop v.clock v.mgr h)

  pred-clock : (v : View P c.Queue) → (pred v).0.clock ≡ v.clock + 1
  unfolding completion_pred
  pred-clock v = refl

  after_look-clock :
      (w : View P c.Queue) (again : View P c.Queue × Option ℕ) (o : Outcome ℕ (QueueSet c.Queue))
      → w.clock ≤ again.0.clock
      → w.clock ≤ (after_look c policy comp bodies others awaited self w again o).0.clock
  after_look-clock w again (found task s) h = omega arith
  after_look-clock w again not_found h = h
  after_look-clock w again fault h = h

  -- The inner loop tests the event, and takes no task once it is complete.
  attempts-clock :
      (current : Task P) (n : ℕ) (v : View P c.Queue) → v.clock < (inner current n v).0.clock
  unfolding attempts
  attempts-clock current zero v = omega (arith, pred-clock v)
  attempts-clock current (suc n) v =
      let w = (pred v).0 in
      elim (Bool-cases (pred v).1) [
        | inl done ↦ rw done (omega (arith, pred-clock v))
        | inr more ↦ rw more (
            omega (
              arith,
              pred-clock v,
              after_look-clock w (inner current n w)
                  (c.get w.mgr.task_queue (w.mgr.thread_queue self)
                    (waiting_predicate_pair w.mgr.heap comp policy current))
                  (omega (arith, attempts-clock current n w)),
            ))
      ]

  attempts-late :
      (current : Task P) (n : ℕ) (v : View P c.Queue) → t ≤ v.clock → (inner current n v).1 ≡ none
  unfolding attempts
  attempts-late current zero v h = refl
  attempts-late current (suc n) v h = rw (pred-late v h) refl

  -- What a poll with enough fuel comes to.
  abbrev Polled : View P c.Queue → Option (View P c.Queue × Option ℕ) → Type 0
  Polled v o =
      (w : View P c.Queue) × (task : Option ℕ) × (o ≡ some (w, task))
      × (v.clock < w.clock)
      × (t ≤ v.clock → task ≡ none)

  rounds-total :
      (current : Task P) (fuel max n : ℕ) (v : View P c.Queue)
      → t < fuel + v.clock
      → 0 < fuel
      → Polled v (outer current fuel max n v)
  unfolding rounds
  rounds-total current zero max n v h pos = absurd (omega arith)
  rounds-total current (suc fuel) max n v h pos =
      let x = (inner current n v).0 in
      let later : v.clock < (pred x).0.clock =
        omega (arith, attempts-clock current n v, pred-clock x) in
      elim (Bool-cases ((pred x).1 || is_some (inner current n v).1)) [
        | inl over ↦
            ((pred x).0, (inner current n v).1, rw over refl, later, attempts-late current n v)
        | inr on ↦
            let early : x.clock < t = elim (dec_lt x.clock t) [
              | yes lt ↦ lt
              | no ge ↦ absurd (ground (arith, pred-late x (omega arith)))
            ] in
            let (w, task, e, after, none_late) =
              rounds-total current fuel max (next_attempts max) (pred x).0
                (omega (arith, attempts-clock current n v, pred-clock x))
                (omega (arith, attempts-clock current n v, pred-clock x)) in
            (w, task, rw on e, omega arith, λ late. none_late (omega arith))
      ]

  -- A wait that ends.
  abbrev Ended : Option (View P c.Queue × Result (Unit {0})) → Type 0
  Ended o = (r : View P c.Queue × Result (Unit {0})) × (o ≡ some r)

  after_run-Ended :
      (clock : ℕ) (next : View P c.Queue → Option (View P c.Queue × Result (Unit {0})))
      (r : Manager P c.Queue × Result (Unit {0}))
      → ((v : View P c.Queue) → v.clock ≡ clock → Ended (next v))
      → Ended (after_run c policy comp bodies others awaited self clock next r)
  after_run-Ended clock next (m, returns u) onward = onward (record { mgr = m; clock = clock }) refl
  after_run-Ended clock next (m, throws e) onward = (_, refl)

  after_get-Ended :
      (current : Task P) (next : View P c.Queue → Option (View P c.Queue × Result (Unit {0})))
      (w : View P c.Queue) (task : Option ℕ)
      → ((a : ℕ) (v : View P c.Queue) → task ≡ some a → v.clock ≡ w.clock → Ended (next v))
      → Ended (after_get c policy comp bodies others awaited self current next (some (w, task)))
  after_get-Ended current next w none onward = (_, refl)
  after_get-Ended current next w (some a) onward =
      after_run-Ended w.clock next (restore c self current (execute c (bodies a) w.mgr self a))
        (λ v. onward a v refl)

  some_late : {a : ℕ} (task : Option ℕ) → task ≡ some a → task ≢ none
  some_late task e h = cc

  wait_loop-total :
      (max : ℕ) (current : Task P) (fuel : ℕ) (v : View P c.Queue)
      → t < fuel + v.clock
      → 0 < fuel
      → Ended (wait_loop c policy comp bodies others awaited self (suc t) max current fuel v)
  unfolding wait_loop
  wait_loop-total max current zero v h pos = absurd (omega arith)
  wait_loop-total max current (suc fuel) v h pos =
      let (w, task, e, after, none_late) =
        rounds-total current (suc t) max max v (omega arith) (omega arith) in
      let loop = wait_loop c policy comp bodies others awaited self (suc t) max current fuel in
      let (r, ended) = after_get-Ended current loop w task λ a u some_task same.
        let early : v.clock < t = elim (dec_lt v.clock t) [
          | yes lt ↦ lt
          | no ge ↦ absurd (some_late task some_task (none_late (omega arith)))
        ] in
        wait_loop-total max current fuel u (omega arith) (omega arith) in
      (r, ap (after_get c policy comp bodies others awaited self current loop) e ∙ ended)

  spin_loop-total :
      (fuel : ℕ) (v : View P c.Queue)
      → t < fuel + v.clock
      → 0 < fuel
      → Ended (spin_loop c policy comp bodies others awaited self fuel v)
  unfolding spin_loop
  spin_loop-total zero v h pos = absurd (omega arith)
  spin_loop-total (suc fuel) v h pos = elim (Bool-cases (pred v).1) [
    | inl done ↦ rw done (_, refl)
    | inr more ↦
        let early : v.clock < t = elim (dec_lt v.clock t) [
          | yes lt ↦ lt
          | no ge ↦ absurd (ground (arith, pred-late v (omega arith)))
        ] in
        rw more (
          spin_loop-total fuel (pred v).0 (omega (arith, pred-clock v))
            (omega (arith, pred-clock v)))
  ]

  -- A wait ends: if from its `t`-th test on the thread finds the awaited task complete, `t + 1` is
  -- fuel enough, whatever tasks it is given in the meantime, whether they throw, and however many attempts
  -- a poll makes.
  pub progress_wait-total :
      (max : ℕ) (m : Manager P c.Queue)
      → (r : View P c.Queue × Result (Unit {0})) × (progress_wait c policy comp bodies others
            awaited self
            (suc t)
            max
            m
          ≡ some r)
  unfolding progress_wait
  progress_wait-total max m =
      let start : View P c.Queue = record { mgr = m; clock = 0 } in
      elim (Bool-cases (m.num_threads == self)) [
        | inl main ↦ rw main (spin_loop-total (suc t) start (omega arith) (omega arith))
        | inr worker ↦
            rw worker
              (wait_loop-total max (m.task_cache self) (suc t) start (omega arith) (omega arith))
      ]
