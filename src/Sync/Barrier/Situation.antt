-- ===== src/Sync/Barrier/Situation.antt =====
-- How far a task of a group has come, by where it stands, and the two ways through the barrier.
use pfunc.Base.{
  ℕ, suc, ◌+◌, ◌^◌, ◌≤◌, ◌<◌, ◌≡◌, ◌≢◌, refl, ◌⊎◌, inl, inr, Bool, not, arith, update, update-elim,
}
use pfunc.Task.Group.{Group, barrier_steal}
use pfunc.Sync.Barrier.{Place, outside, waiting, arrive, barrier}

-- A group whose tasks do meet in their barrier: two at least, and of the type to steal.
pub record Meets (g : Group) : Type 0 where
  pub several : 1 < g.group_size
  pub small : g.group_size < 2 ^ 32
  pub handled : g.type_of_barrier ≡ barrier_steal

-- The two ways through the critical section.
pub arrive-last :
    (g : Group)
    → Meets g
    → g.barrier_count + 1 ≡ g.group_size
    → barrier g ≡ (record g { barrier_count = 0; barrier_phase = not g.barrier_phase }, outside)
unfolding barrier arrive
arrive-last g m e = ground (arith, m.several, m.small)

pub arrive-more :
    (g : Group)
    → Meets g
    → g.barrier_count + 1 < g.group_size
    → barrier g ≡ (record g { barrier_count = g.barrier_count + 1 }, waiting g.barrier_phase)
unfolding barrier arrive
arrive-more g m e = ground (arith, m.several, m.small)

-- Where a task may stand after `g` completed barriers, when the phase is `phase`.
abbrev pub Situation : ℕ → Bool → Place → ℕ → Type 0
Situation g phase outside a = a ≡ g
Situation g phase (waiting p) a = ((p ≡ phase) × (a ≡ suc g)) ⊎ ((p ≢ phase) × (a ≡ g))

-- A task that has come to the current barrier, when the last one comes: the phase changes under it.
pub Situation-turn :
    (g : ℕ) (phase : Bool) (p : Place) (a : ℕ)
    → a ≡ suc g
    → Situation g phase p a
    → Situation (suc g) (not phase) p a
Situation-turn g phase outside a e h = absurd (omega arith)
Situation-turn g phase (waiting p) a e (inl (same, b)) = inr ((λ flip. ground arith), e)
Situation-turn g phase (waiting p) a e (inr (differs, b)) = absurd (omega arith)

pub Situation-bounds :
    (g : ℕ) (phase : Bool) (p : Place) (a : ℕ) → Situation g phase p a → (g ≤ a) × (a ≤ g + 1)
Situation-bounds g phase outside a e = (omega arith, omega arith)
Situation-bounds g phase (waiting p) a (inl (same, e)) = (omega arith, omega arith)
Situation-bounds g phase (waiting p) a (inr (differs, e)) = (omega arith, omega arith)

pub Situation-waiting :
    (g : ℕ) (phase : Bool) (a : ℕ) → Situation g phase (waiting phase) a → a ≡ suc g
Situation-waiting g phase a (inl (same, e)) = e
Situation-waiting g phase a (inr (differs, e)) = absurd (differs refl)

pub stands_update :
    (n : ℕ) (place : ℕ → Place) (arr : ℕ → ℕ) (i : ℕ) (p : Place) (g : ℕ) (phase : Bool)
    → Situation g phase p (arr i)
    → ((j : ℕ) → j < n → j ≢ i → Situation g phase (place j) (arr j))
    → (j : ℕ) → j < n
    → Situation g phase (update place i p j) (arr j)
stands_update n place arr i p g phase own others =
    update-elim (λ j q. j < n → Situation g phase q (arr j)) place i p (λ h. own)
      (λ j ne h. others j h ne)
