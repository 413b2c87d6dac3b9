-- ===== src/Manager/Wait/Join.antt =====
-- `wait` of a task (pfunc/task.hpp) as it changes the state of the task manager, and `wait_all` of
-- pfunc/pfunc.hpp over it.
use pfunc.Base.{
  ℕ, ◌≡◌, ◌≢◌, refl, sym, ◌∙◌, ◌⊎◌, inl, inr, List, [], ◌∷◌, Option, none, some, Bool, true, false,
  update, if◌then◌else◌, Bool-cases, Option-cases,
}
use pfunc.Task.Event.{active_incomplete}
use pfunc.Task.Event
use pfunc.Task.Exception.{
  Exception, not_thrown, same_state, caught, library, Result, returns, throws,
}
use pfunc.Task.Object.{leave_if}
use pfunc.Scheduler.Policy.{Contract}
use pfunc.Predicate.{PolicyName}
use pfunc.Interface.Sets.{then_wait, wait_all}
use pfunc.Manager.State.{Manager, Body}
use pfunc.Manager.Wait.{View, progress_wait}
use pfunc.Manager.Wait.Laws.{Completed, progress_wait-Completed}

none-ne : {A : Type 0} {a : A} → none ≢ some a
none-ne e = cc

-- The waiter leaves the task's group, if the task joined it.
abbrev pub left : {P Q : Type 0} → ℕ → Manager P Q → Manager P Q
left a m = record m {
  groups =
      update m.groups (m.heap a).grp
        (leave_if (m.heap a).attr.join_group (m.groups (m.heap a).grp));
}

-- What follows the wait for the event.
abbrev pub after_wait :
    {P Q : Type 0}
    → ℕ
    → Option (Manager P Q × Result (Unit {0}))
    → Option (Manager P Q × Result (Unit {0}))
after_wait a none = none
after_wait a (some (m, returns u)) = some (left a m, returns tt)
after_wait a (some (m, throws e)) = some (m, throws (caught ": from task::run" (library e)))

abbrev progressed :
    {P Q : Type 0}
    → Option (View P Q × Result (Unit {0}))
    → Option (Manager P Q × Result (Unit {0}))
progressed none = none
progressed (some (v, r)) = some (v.mgr, r)

-- The wait of an unnested task.
abbrev pub awakened : {P Q : Type 0} → ℕ → Manager P Q → Event.Event → Manager P Q
awakened a m e = record m { heap = update m.heap a (record (m.heap a) { waiting_compl = e }) }

abbrev slept :
    {P Q : Type 0} → ℕ → Manager P Q → Option Event.Event → Option (Manager P Q × Result (Unit {0}))
slept a m none = none
slept a m (some e) = some (awakened a m e, returns tt)

-- `PFUNC_CHECK_AND_RETHROW` before the wait.
abbrev unless_failed :
    {P Q : Type 0}
    → Manager P Q
    → Option Exception
    → Option (Manager P Q × Result (Unit {0}))
    → Option (Manager P Q × Result (Unit {0}))
unless_failed m none rest = rest
unless_failed m (some e) rest = some (m, throws e)

module _ {P : Type 0} (c : Contract ℕ) (policy : PolicyName) (comp : P → P → Bool)
    (bodies : ℕ → Body P c.Queue) (others : ℕ → Manager P c.Queue → Manager P c.Queue)
    (self fuel max : ℕ) where
  -- `wait` of the task `a`; `none` is a wait that the fuel does not see the end of, or a caller that
  -- goes to sleep.
  unfoldable pub task_wait : ℕ → Manager P c.Queue → Option (Manager P c.Queue × Result (Unit {0}))
  task_wait a m =
      let nested = progressed (progress_wait c policy comp bodies others a self fuel max m) in
      let unnested = slept a m (Event.wait (m.heap a).waiting_compl) in
      unless_failed m (m.heap a).except
        (after_wait a (if (m.heap a).attr.is_nested then nested else unnested))

  -- How a wait that returns took the state `m` to `m'`: the task had no exception; a nested task's event
  -- was found complete in the end, an unnested one's at once; and then the group was left.
  abbrev pub Joined : ℕ → Manager P c.Queue → Manager P c.Queue → Type 0
  Joined a m m' =
      ((m.heap a).except ≡ none)
      × ((((m.heap a).attr.is_nested ≡ true)
            × ((v : Manager P c.Queue) × Completed a v × (m' ≡ left a v)))
          ⊎ (((m.heap a).attr.is_nested ≡ false)
              × ((m.heap a).waiting_compl.event_state ≢ active_incomplete)
              × ((e : Event.Event) × (Event.wait (m.heap a).waiting_compl ≡ some e)
                  × (m' ≡ left a (awakened a m e)))))

  -- A wait for each task of a list, one after the other.
  abbrev pub AllJoined : List ℕ → Manager P c.Queue → Manager P c.Queue → Type 0
  AllJoined [] m m' = m ≡ m'
  AllJoined (a ∷ rest) m m' = (mid : Manager P c.Queue) × Joined a m mid × AllJoined rest mid m'

  module _
      (apart : (k : ℕ) (m : Manager P c.Queue)
        → (others k m).task_cache self ≡ m.task_cache self) where
    after_wait-left :
        (a : ℕ) (m' : Manager P c.Queue) (o : Option (View P c.Queue × Result (Unit {0})))
        → after_wait a (progressed o) ≡ some (m', returns tt)
        → (w : View P c.Queue) × (o ≡ some (w, returns tt)) × (m' ≡ left a w.mgr)
    after_wait-left a m' none e = absurd (none-ne e)
    after_wait-left a m' (some (w, returns u)) e = (w, refl, sym (same_state _ _ e))
    after_wait-left a m' (some (w, throws x)) e = absurd (not_thrown _ _ _ e)

    task_wait-Joined :
        (a : ℕ) (m m' : Manager P c.Queue) → task_wait a m ≡ some (m', returns tt) → Joined a m m'
    unfolding task_wait
    task_wait-Joined a m m' e = elim (Option-cases (m.heap a).except) [
      | inr (x, failed) ↦ absurd (not_thrown m m' x (rw (failed) at e))
      | inl clean ↦ (
        clean,
        elim (Bool-cases (m.heap a).attr.is_nested) [
          | inl nested ↦
              let (w, ended, same) =
                after_wait-left a m' (progress_wait c policy comp bodies others a self fuel max m)
                  (rw (clean, nested) at e) in
              let (done, own) =
                progress_wait-Completed c policy comp bodies others a self apart fuel max m w
                  ended in
              inl (nested, (w.mgr, done, same))
          | inr unnested ↦ elim (Option-cases (Event.wait (m.heap a).waiting_compl)) [
            | inl stuck ↦ absurd (none-ne (rw (clean, unnested, stuck) at e))
            | inr (x, awake) ↦ inr (
              unnested,
              λ busy. none-ne (sym ((Event.wait-none (m.heap a).waiting_compl).1 busy) ∙ awake),
              (x, awake, sym (same_state _ m' (rw (clean, unnested, awake) at e))),
            )
          ]
        ],
      )
    ]

    then_wait-returns :
        (next : Manager P c.Queue → Option (Manager P c.Queue × Result (Unit {0})))
        (o : Option (Manager P c.Queue × Result (Unit {0}))) (m' : Manager P c.Queue)
        → then_wait next o ≡ some (m', returns tt)
        → (mid : Manager P c.Queue) × (o ≡ some (mid, returns tt))
          × (next mid ≡ some (m', returns tt))
    then_wait-returns next none m' e = absurd (none-ne e)
    then_wait-returns next (some (mid, returns u)) m' e = (mid, refl, e)
    then_wait-returns next (some (mid, throws x)) m' e = absurd (not_thrown _ _ _ e)

    -- `wait_all` returns, without an exception, only after a wait for each of the tasks, in order: none of them
    -- had a stored exception when its wait began, each nested one's event was found complete at
    -- the end of its wait, and each unnested one's was not incomplete; and each task that had joined
    -- its group was counted off there. Other threads leave the waiting thread's cache alone.
    pub wait_all-AllJoined :
        (tasks : List ℕ) (m m' : Manager P c.Queue)
        → wait_all task_wait tasks m ≡ some (m', returns tt)
        → AllJoined tasks m m'
    unfolding wait_all
    wait_all-AllJoined [] m m' e = same_state m m' e
    wait_all-AllJoined (a ∷ rest) m m' e =
        let (mid, first, later) =
          then_wait-returns (wait_all task_wait rest) (task_wait a m) m' e in
        (mid, task_wait-Joined a m mid first, wait_all-AllJoined rest mid m' later)
