-- ===== src/Tests/Barriers.antt =====
-- Two tasks at the barrier of their group.
use pfunc.Base.{ℕ, ◌+◌, ◌≤◌, ◌<◌, ◌≡◌, refl, true, false, arith, update}
use pfunc.Task.Group.{Group, barrier_steal, group}
use pfunc.Sync.Barrier.{
  outside, waiting, barrier, arrive, State, Reach, start, arriving, here, next,
}
use pfunc.Sync.Barrier.Situation.{Meets}
use pfunc.Sync.Barrier.Safety.{no_early_exit, some_can_go}

abbrev pair : Group
pair = group 1 2 barrier_steal

pair-Meets : Meets pair
pair-Meets = record { several = omega arith; small = omega arith; handled = refl }

-- Task 0 waits, with the phase that it found.
abbrev one_waits : State
one_waits = record {
  grp = record pair { barrier_count = 1 };
  place = update (start pair).place 0 (waiting false);
  arrivals = update (start pair).arrivals 0 1;
}

-- Task 1 has come, and the phase has changed.
abbrev turned : State
turned = record {
  grp = record pair { barrier_phase = true };
  place = update one_waits.place 1 outside;
  arrivals = update one_waits.arrivals 1 1;
}

turned-Reach : Reach pair turned
unfolding barrier arrive
turned-Reach =
    next (next here (arriving 0 (omega arith) refl refl)) (arriving 1 (omega arith) refl refl)

no_early_exit_example :
    (turned.place 1 ≡ outside → turned.arrivals 1 ≤ turned.arrivals 0)
    × (turned.arrivals 1 ≤ turned.arrivals 0 + 1)
no_early_exit_example = no_early_exit pair-Meets refl turned-Reach 1 0 (omega arith) (omega arith)

some_can_go_example : ¬ ((i : ℕ) → i < 2 → turned.place i ≡ waiting true)
some_can_go_example = some_can_go pair-Meets refl turned-Reach
