-- ===== src/Sync/Startup/Situation.antt =====
-- How far a thread has come in the start-up barrier (pfunc/barrier.hpp), by where it stands.
use pfunc.Base.{ℕ, suc, ◌+◌, ◌≤◌, ◌≡◌, ◌≢◌, refl, ◌⊎◌, inl, inr, arith}
use pfunc.Sync.Startup.{
  Place, outside, entered, last, renewed, toggled, waiting, asleep, complement, woken,
}

-- Where a thread may stand after `g` changes of the phase, when the phase is `phase`, by its arrivals.
abbrev pub Situation : ℕ → ℕ → Place → ℕ → Type 0
Situation g phase outside a = a ≡ g
Situation g phase (entered p) a = (p ≡ phase) × (a ≡ g)
Situation g phase last a = a ≡ suc g
Situation g phase renewed a = a ≡ suc g
Situation g phase toggled a = a ≡ g
Situation g phase (waiting p) a = ((p ≡ phase) × (a ≡ suc g)) ⊎ ((p ≢ phase) × (a ≡ g))
Situation g phase (asleep p) a = ((p ≡ phase) × (a ≡ suc g)) ⊎ ((p ≢ phase) × (a ≡ g))

complement-ne : (p : ℕ) → p ≢ complement p
complement-ne p e = omega arith

-- The phase changes under a thread that has come, and is not the one that changes it.
pub Situation-turn :
    (g phase : ℕ) (p : Place) (a : ℕ)
    → a ≡ suc g
    → p ≢ last
    → p ≢ renewed
    → Situation g phase p a
    → Situation (suc g) (complement phase) p a
Situation-turn g phase outside a e l r h = absurd (omega arith)
Situation-turn g phase (entered p) a e l r (q, h) = absurd (omega arith)
Situation-turn g phase last a e l r h = absurd (l refl)
Situation-turn g phase renewed a e l r h = absurd (r refl)
Situation-turn g phase toggled a e l r h = e
Situation-turn g phase (waiting p) a e l r (inl (same, b)) = inr (λ flip. omega arith, e)
Situation-turn g phase (waiting p) a e l r (inr (differs, b)) = absurd (omega arith)
Situation-turn g phase (asleep p) a e l r (inl (same, b)) = inr (λ flip. omega arith, e)
Situation-turn g phase (asleep p) a e l r (inr (differs, b)) = absurd (omega arith)

pub Situation-bounds :
    (g phase : ℕ) (p : Place) (a : ℕ) → Situation g phase p a → (g ≤ a) × (a ≤ g + 1)
Situation-bounds g phase outside a e = (omega arith, omega arith)
Situation-bounds g phase (entered p) a (q, e) = (omega arith, omega arith)
Situation-bounds g phase last a e = (omega arith, omega arith)
Situation-bounds g phase renewed a e = (omega arith, omega arith)
Situation-bounds g phase toggled a e = (omega arith, omega arith)
Situation-bounds g phase (waiting p) a (inl (same, e)) = (omega arith, omega arith)
Situation-bounds g phase (waiting p) a (inr (differs, e)) = (omega arith, omega arith)
Situation-bounds g phase (asleep p) a (inl (same, e)) = (omega arith, omega arith)
Situation-bounds g phase (asleep p) a (inr (differs, e)) = (omega arith, omega arith)

pub Situation-woken :
    (g phase : ℕ) (p : Place) (a : ℕ) → Situation g phase p a → Situation g phase (woken p) a
unfolding woken
Situation-woken g phase outside a h = h
Situation-woken g phase (entered p) a h = h
Situation-woken g phase last a h = h
Situation-woken g phase renewed a h = h
Situation-woken g phase toggled a h = h
Situation-woken g phase (waiting p) a h = h
Situation-woken g phase (asleep p) a h = h
