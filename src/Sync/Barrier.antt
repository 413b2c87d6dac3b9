-- ===== src/Sync/Barrier.antt =====
-- The barrier of pfunc/group.hpp for a group of the type to steal, `barrier_steal`, where a task that waits
-- runs others in the meantime. The critical section between `group_lock.lock ()` and `unlock ()` is one
-- step. The spinning barrier is not modelled: it takes the lock by `trylock`, which over a futex is true
-- when the lock was not taken (mutex.hpp), so that its section does not exclude others.
pub mod Tally
pub mod Situation
pub mod Invariant
pub mod Safety
use pfunc.Base.{ℕ, suc, ◌+◌, ◌%◌, ◌^◌, ◌<◌, ◌≡◌, ◌≢◌, Bool, not, ◌==◌, ltb, if◌then◌else◌, update}
use pfunc.Task.Group.{Group, barrier_steal}

-- Where a task of the group stands: outside a barrier, or waiting in one, with its `my_phase`.
pub data Place : Type 0 where
  outside : Place
  waiting : Bool → Place

-- The critical section: the group afterwards, and where the task then stands.
unfoldable pub arrive : Group → Group × Place
arrive g =
    let count = (g.barrier_count + 1) % 2 ^ 32 in
    if count == g.group_size
    then (record g { barrier_count = 0; barrier_phase = not g.barrier_phase }, outside)
    else (record g { barrier_count = count }, waiting g.barrier_phase)

-- `barrier` of a group of the type to steal.
unfoldable pub barrier : Group → Group × Place
barrier g = if ltb 1 g.group_size then arrive g else (g, outside)

-- A group and its tasks; `arrivals` counts how often each has come to a barrier.
pub record State : Type 0 where
  pub grp : Group
  pub place : ℕ → Place
  pub arrivals : ℕ → ℕ

-- One step of one task: it comes to the barrier, or sees that the phase has changed and goes on.
pub data Step (s : State) : State → Type 0 where
  arriving :
      (i : ℕ)
      → i < s.grp.group_size
      → s.grp.type_of_barrier ≡ barrier_steal
      → s.place i ≡ outside
      → Step s (record {
        grp = (barrier s.grp).0;
        place = update s.place i (barrier s.grp).1;
        arrivals = update s.arrivals i (suc (s.arrivals i));
      })
  leaving :
      (i : ℕ) (my_phase : Bool)
      → i < s.grp.group_size
      → s.place i ≡ waiting my_phase
      → my_phase ≢ s.grp.barrier_phase
      → Step s (record s { place = update s.place i outside })

-- A new group, with no task in the barrier yet.
abbrev pub start : Group → State
start g = record { grp = g; place = λ _. outside; arrivals = λ _. 0 }

pub data Reach (g : Group) : State → Type 0 where
  here : Reach g (start g)
  next : {s t : State} → Reach g s → Step s t → Reach g t
