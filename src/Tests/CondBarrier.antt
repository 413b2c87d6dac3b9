-- ===== src/Tests/CondBarrier.antt =====
-- Two threads at the start-up barrier over a condition variable.
use pfunc.Base.{ℕ, Bool, ◌<◌, ◌≡◌, refl, arith, update, false, true}
use pfunc.Sync.Barrier
use pfunc.Sync.CondBarrier.{
  outside, asleep, roused, State, Reach, start, come_last, come, here, next, barrier, initialize,
}
use pfunc.Sync.CondBarrier.Safety.{no_forgotten_thread}
use pfunc.Sync.CondBarrier.Refinement.{as_group, Shows, Reach-Shows}

-- Thread 0 has come, and sleeps.
abbrev first_sleeps : State
first_sleeps = record {
  bar = record { barrier_phase = true; barrier_count = 1; barrier_size = 2 };
  place = update (start 2).place 0 (asleep true);
  arrivals = update (start 2).arrivals 0 1;
}

-- Thread 1 has come last, and has woken it.
abbrev second_came : State
second_came = record {
  bar = record { barrier_phase = false; barrier_count = 0; barrier_size = 2 };
  place = update (λ j. roused (first_sleeps.place j)) 1 outside;
  arrivals = update first_sleeps.arrivals 1 1;
}

first_sleeps-Reach : Reach 2 first_sleeps
first_sleeps-Reach = next here (come 0 (omega arith) refl (λ e. omega arith))

second_came-Reach : Reach 2 second_came
second_came-Reach = next first_sleeps-Reach (come_last 1 (omega arith) refl refl)

Reach-Shows_example :
    (t : Barrier.State) × Barrier.Reach (as_group (initialize 2 barrier)) t × Shows second_came t
Reach-Shows_example = Reach-Shows (omega arith) second_came-Reach

no_forgotten_thread_example :
    ((i : ℕ) (my_phase : Bool)
      → second_came.place i ≡ asleep my_phase
      → my_phase ≡ second_came.bar.barrier_phase)
    × ¬ ((i : ℕ) → i < 2 → (my_phase : Bool) × (second_came.place i ≡ asleep my_phase))
no_forgotten_thread_example = no_forgotten_thread (omega arith) (omega arith) second_came-Reach
