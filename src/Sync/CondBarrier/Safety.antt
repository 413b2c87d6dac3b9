-- ===== src/Sync/CondBarrier/Safety.antt =====
-- The start-up barrier over a condition variable (pfunc/barrier.hpp) keeps its threads together, and no
-- sleeper is forgotten.
use pfunc.Base.{ℕ, ◌+◌, ◌^◌, ◌≤◌, ◌<◌, ◌≡◌, refl, sym, ap, subst, ◌∙◌, Bool, not, update-elim}
use pfunc.Sync.Barrier
use pfunc.Sync.Barrier.Situation.{Meets}
use pfunc.Sync.Barrier.Safety.{no_early_exit, some_can_go}
use pfunc.Sync.CondBarrier.{
  barrier, initialize, Place, outside, asleep, awake, roused, State, Step, come_last, come, leave,
  sleep_again, spurious, Reach, here, next,
}
use pfunc.Sync.CondBarrier.Refinement.{as_group, as_place, Reach-Shows}

meets : (size : ℕ) → 1 < size → size < 2 ^ 32 → Meets (as_group (initialize size barrier))
meets size big small = record { several = big; small = small; handled = refl }

-- No thread leaves the barrier before all have come to it: with two threads or more, a thread that is
-- outside has come to no more rounds than any other, and one inside to at most one more.
pub no_early_leave :
    {size : ℕ} {s : State}
    → 1 < size
    → size < 2 ^ 32
    → Reach size s
    → (i j : ℕ) → i < size
    → j < size
    → (s.place i ≡ outside → s.arrivals i ≤ s.arrivals j) × (s.arrivals i ≤ s.arrivals j + 1)
no_early_leave {size} {s} big small r i j hi hj =
    let (t, reached, shows) = Reach-Shows big r in
    let (out, near) = no_early_exit (meets size big small) refl reached i j hi hj in
    let same = shows.same_arrivals in
    (
      λ e. subst (λ f. f i ≤ f j) same (out (shows.same_place i ∙ ap as_place e)),
      subst (λ f. f i ≤ f j + 1) same near,
    )

-- A sleeper's phase is still its own.
abbrev Faithful : Bool → Place → Type 0
Faithful phase outside = Unit
Faithful phase (asleep my_phase) = my_phase ≡ phase
Faithful phase (awake my_phase) = Unit

Faithful-roused : (old new : Bool) (p : Place) → Faithful old p → Faithful new (roused p)
unfolding roused
Faithful-roused old new outside f = tt
Faithful-roused old new (asleep my_phase) f = tt
Faithful-roused old new (awake my_phase) f = tt

Step-Faithful :
    {s t : State}
    → Step s t
    → ((j : ℕ) → Faithful s.bar.barrier_phase (s.place j))
    → (j : ℕ) → Faithful t.bar.barrier_phase (t.place j)
Step-Faithful {s} (come_last i inside out full) f =
    update-elim (λ j p. Faithful (not s.bar.barrier_phase) p) (λ j. roused (s.place j)) i outside tt
      (λ j n. Faithful-roused s.bar.barrier_phase (not s.bar.barrier_phase) (s.place j) (f j))
Step-Faithful {s} (come i inside out room) f =
    update-elim (λ j p. Faithful s.bar.barrier_phase p) s.place i (asleep s.bar.barrier_phase) refl
      (λ j n. f j)
Step-Faithful {s} (leave i my_phase inside woken changed) f =
    update-elim (λ j p. Faithful s.bar.barrier_phase p) s.place i outside tt (λ j n. f j)
Step-Faithful {s} (sleep_again i my_phase inside woken own) f =
    update-elim (λ j p. Faithful s.bar.barrier_phase p) s.place i (asleep my_phase) own (λ j n. f j)
Step-Faithful {s} (spurious i my_phase inside sleeps) f =
    update-elim (λ j p. Faithful s.bar.barrier_phase p) s.place i (awake my_phase) tt (λ j n. f j)

Reach-Faithful :
    {size : ℕ} {s : State} → Reach size s → (j : ℕ) → Faithful s.bar.barrier_phase (s.place j)
Reach-Faithful here j = tt
Reach-Faithful (next r step) j = Step-Faithful step (Reach-Faithful r) j

-- No sleeper is forgotten, and not all sleep: whoever is in `cnd.wait` still waits for the round that is
-- under way, and some thread is not asleep. There are two threads or more, and fewer than 2^32.
pub no_forgotten_thread :
    {size : ℕ} {s : State}
    → 1 < size
    → size < 2 ^ 32
    → Reach size s
    → ((i : ℕ) (my_phase : Bool) → s.place i ≡ asleep my_phase → my_phase ≡ s.bar.barrier_phase)
      × ¬ ((i : ℕ) → i < size → (my_phase : Bool) × (s.place i ≡ asleep my_phase))
no_forgotten_thread {size} {s} big small r =
    let (t, reached, shows) = Reach-Shows big r in
    let own : (i : ℕ) (my_phase : Bool)
        → s.place i ≡ asleep my_phase
        → my_phase ≡ s.bar.barrier_phase =
      λ i my_phase e. subst (Faithful s.bar.barrier_phase) e (Reach-Faithful r i) in
    (
      own,
      λ all. some_can_go (meets size big small) refl reached (λ i hi.
          let (my_phase, e) = all i hi in
          shows.same_place i
          ∙ ap as_place e
          ∙ ap Barrier.waiting
              (own i my_phase e ∙ sym (ap (λ g. g.barrier_phase) shows.same_group))),
    )
