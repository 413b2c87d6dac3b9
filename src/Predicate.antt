-- ===== src/Predicate.antt =====
-- pfunc/predicate.hpp: which tasks a thread may take, by its scheduling policy and by where it
-- stands: in its work loop, in a wait for a task, or in a barrier of its group.
use pfunc.Base.{ℕ, ◌≤◌, ◌≡◌, ◌≢◌, Bool, true, false, not, arith, ◌==◌, leb, if◌then◌else◌}
use pfunc.Task.Object.{Task}
use pfunc.Scheduler.Scan.{PredicatePair}
use pfunc.Scheduler.Policy.{accepts}
use pfunc.Scheduler.Prio.{compare_task_ptr}

-- The tags of pfunc/task_queue_set.hpp, by which the templates are specialised.
pub data PolicyName : Type 0 where
  fifo_policy lifo_policy cilk_policy prio_policy : PolicyName

-- A task pointer is an address; `load` reads the task there, and `comp` is the attribute's
-- `compare_type`.
module _ {P : Type 0} (load : ℕ → Task P) (comp : P → P → Bool) where
  -- Every pair steals by its `own_pred`.
  abbrev pair : (ℕ → Bool) → PredicatePair ℕ
  pair own = record { own_pred = own; steal_pred = own }

  unfoldable pub regular_predicate_pair : PredicatePair ℕ
  regular_predicate_pair = pair (λ current. true)

  -- `own_pred` of `waiting_predicate_pair`, by policy.
  waiting_pred : PolicyName → Task P → ℕ → Bool
  waiting_pred cilk_policy previous current =
      if leb previous.attr.level (load current).attr.level then true else false
  waiting_pred prio_policy previous current =
      if compare_task_ptr (λ (t : Task P). t.attr.priority) comp previous (load current)
      then true
      else false
  waiting_pred _ previous current = true

  -- `own_pred` of `group_predicate_pair`, by policy.
  group_pred : PolicyName → Task P → ℕ → Bool
  group_pred cilk_policy previous current =
      if leb previous.attr.level (load current).attr.level
      then (if not (previous.grp == (load current).grp) then true else false)
      else false
  group_pred prio_policy previous current =
      if compare_task_ptr (λ (t : Task P). t.attr.priority) comp previous (load current)
      then (if not (previous.grp == (load current).grp) then true else false)
      else false
  group_pred _ previous current = not (previous.grp == (load current).grp)

  unfoldable pub waiting_predicate_pair : PolicyName → Task P → PredicatePair ℕ
  unfolding waiting_pred
  waiting_predicate_pair policy previous = pair (waiting_pred policy previous)

  unfoldable pub group_predicate_pair : PolicyName → Task P → PredicatePair ℕ
  unfolding group_pred
  group_predicate_pair policy previous = pair (group_pred policy previous)

  -- Under every policy, the predicates of a barrier refuse each task of the group that waits there.
  pub group_predicate_pair-other_group :
      (policy : PolicyName) (previous : Task P) (own : Bool) (a : ℕ)
      → accepts (group_predicate_pair policy previous) own a ≡ true
      → (load a).grp ≢ previous.grp
  unfolding group_predicate_pair
  group_predicate_pair-other_group fifo_policy previous own a h = ground arith
  group_predicate_pair-other_group lifo_policy previous own a h = ground arith
  group_predicate_pair-other_group cilk_policy previous own a h = ground arith
  group_predicate_pair-other_group prio_policy previous own a h = ground arith

  -- Under the Cilk policy, a thread that waits, for a task or in a barrier, takes no task that is
  -- further up in the spawn tree than its own.
  pub cilk-level_le :
      (previous : Task P) (own : Bool) (a : ℕ)
      → (accepts (waiting_predicate_pair cilk_policy previous) own a ≡ true
          → previous.attr.level ≤ (load a).attr.level)
        × (accepts (group_predicate_pair cilk_policy previous) own a ≡ true
            → previous.attr.level ≤ (load a).attr.level)
  unfolding waiting_predicate_pair group_predicate_pair
  cilk-level_le previous own a = (λ h. ground arith, λ h. ground arith)

  -- Under the priority policy, a thread that waits takes only tasks that compare above its own.
  pub prio-comp :
      (previous : Task P) (own : Bool) (a : ℕ)
      → (accepts (waiting_predicate_pair prio_policy previous) own a ≡ true
          → comp previous.attr.priority (load a).attr.priority ≡ true)
        × (accepts (group_predicate_pair prio_policy previous) own a ≡ true
            → comp previous.attr.priority (load a).attr.priority ≡ true)
  unfolding waiting_predicate_pair group_predicate_pair
  prio-comp previous own a = (λ h. ground arith, λ h. ground arith)
