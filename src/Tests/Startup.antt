-- ===== src/Tests/Startup.antt =====
-- Two threads at the start-up barrier of their task manager.
use pfunc.Base.{ℕ, ◌+◌, ◌≤◌, ◌<◌, ◌≡◌, refl, arith, update}
use pfunc.Sync.Startup.{
  outside, entered, last, renewed, toggled, waiting, asleep, State, Reach, start, complement, enter,
  come_last, come, renew, toggle, sleep, here, next,
}
use pfunc.Sync.Startup.Safety.{no_early_return, some_awake, IsBlocked}

-- Thread 0 has come, and sleeps.
abbrev entered_first : State
entered_first = record (start 2) { place = update (start 2).place 0 (entered 0) }

abbrev come_first : State
come_first = record {
  bar = record { barrier_size = 2; barrier_phase = 0; barrier_count = 1 };
  place = update entered_first.place 0 (waiting 0);
  arrivals = update entered_first.arrivals 0 1;
}

abbrev first_sleeps : State
first_sleeps = record come_first { place = update come_first.place 0 (asleep 0) }

-- Thread 1 has come last, and has changed the phase.
abbrev entered_second : State
entered_second = record first_sleeps { place = update first_sleeps.place 1 (entered 0) }

abbrev come_second : State
come_second = record {
  bar = record { barrier_size = 2; barrier_phase = 0; barrier_count = 0 };
  place = update entered_second.place 1 last;
  arrivals = update entered_second.arrivals 1 1;
}

abbrev renewed_count : State
renewed_count = record {
  bar = record { barrier_size = 2; barrier_phase = 0; barrier_count = 2 };
  place = update come_second.place 1 renewed;
  arrivals = come_second.arrivals;
}

abbrev toggled_phase : State
toggled_phase = record {
  bar = record { barrier_size = 2; barrier_phase = complement 0; barrier_count = 2 };
  place = update renewed_count.place 1 toggled;
  arrivals = renewed_count.arrivals;
}

first_sleeps-Reach : Reach 2 first_sleeps
first_sleeps-Reach =
    next
      (next (next here (enter 0 (omega arith) refl))
        (come 0 0 (omega arith) refl (λ e. omega arith)))
      (sleep 0 0 (omega arith) refl refl)

toggled_phase-Reach : Reach 2 toggled_phase
toggled_phase-Reach =
    next
      (next
        (next (next first_sleeps-Reach (enter 1 (omega arith) refl))
          (come_last 1 0 (omega arith) refl refl))
        (renew 1 (omega arith) refl))
      (toggle 1 (omega arith) refl)

no_early_return_example :
    (toggled_phase.place 1 ≡ outside → toggled_phase.arrivals 1 ≤ toggled_phase.arrivals 0)
    × (toggled_phase.arrivals 1 ≤ toggled_phase.arrivals 0 + 1)
no_early_return_example =
    no_early_return (omega arith) (omega arith) toggled_phase-Reach 1 0 (omega arith) (omega arith)

some_awake_example : ¬ ((i : ℕ) → i < 2 → IsBlocked 0 (first_sleeps.place i))
some_awake_example = some_awake (omega arith) (omega arith) first_sleeps-Reach
