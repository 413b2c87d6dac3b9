-- ===== src/Sync/Barrier/Safety.antt =====
-- The safety of the stealing barrier of a group, and that they do not block.
use pfunc.Base.{ℕ, ◌+◌, ◌≤◌, ◌<◌, ◌≡◌, subst, arith}
use pfunc.Task.Group.{Group}
use pfunc.Sync.Barrier.{outside, waiting, State, Reach}
use pfunc.Sync.Barrier.Tally.{tally, tally-full}
use pfunc.Sync.Barrier.Situation.{Meets, Situation, Situation-bounds, Situation-waiting}
use pfunc.Sync.Barrier.Invariant.{Reach-Inv}

-- No task leaves a barrier before all have come to it: in a group of two tasks or more, whose type is
-- to steal, and with nobody in the barrier at first, a task that is outside has come to no
-- more barriers than any other, and one that waits to at most one more.
pub no_early_exit :
    {g : Group} {s : State}
    → Meets g
    → g.barrier_count ≡ 0
    → Reach g s
    → (i j : ℕ) → i < g.group_size
    → j < g.group_size
    → (s.place i ≡ outside → s.arrivals i ≤ s.arrivals j) × (s.arrivals i ≤ s.arrivals j + 1)
no_early_exit {g} {s} m e r i j hi hj =
    let inv = Reach-Inv m e r in
    let (low, high) = Situation-bounds _ _ (s.place j) (s.arrivals j) (inv.stands j hj) in
    let (low', high') = Situation-bounds _ _ (s.place i) (s.arrivals i) (inv.stands i hi) in
    (
      λ out.
          let own : s.arrivals i ≡ inv.completed =
            subst (λ q. Situation inv.completed s.grp.barrier_phase q (s.arrivals i)) out
              (inv.stands i hi) in
          omega arith,
      omega arith,
    )

-- The barrier does not block: however far the tasks have come, not all of them wait for a phase that
-- has not changed; some task is outside, or can leave. The group is one of two tasks or
-- more, of the type to steal, with nobody in the barrier at first.
pub some_can_go :
    {g : Group} {s : State}
    → Meets g
    → g.barrier_count ≡ 0
    → Reach g s
    → ¬ ((i : ℕ) → i < g.group_size → s.place i ≡ waiting s.grp.barrier_phase)
some_can_go {g} {s} m e r all =
    let inv = Reach-Inv m e r in
    let full : tally g.group_size s.arrivals inv.completed ≡ g.group_size =
      tally-full g.group_size s.arrivals inv.completed λ j h.
        Situation-waiting inv.completed s.grp.barrier_phase (s.arrivals j) (
          subst (λ q. Situation inv.completed s.grp.barrier_phase q (s.arrivals j)) (all j h)
            (inv.stands j h)) in
    omega (arith, inv.count, inv.below)
