-- ===== src/Sync/Barrier/Tally.antt =====
-- How many tasks of a group have come to a barrier.
use pfunc.Base.{
  ℕ, zero, suc, ◌+◌, ◌≤◌, ◌<◌, ◌≡◌, ◌≢◌, refl, sym, subst, arith, ◌==◌, if◌then◌else◌, update,
  ℕ_discrete,
}

-- How many of the first `n` tasks have come to the barrier after the `g`-th.
unfoldable pub tally : ℕ → (ℕ → ℕ) → ℕ → ℕ
tally zero f g = 0
tally (suc n) f g = (if f n == suc g then 1 else 0) + tally n f g

tally-update_out : (n i v : ℕ) (f : ℕ → ℕ) (g : ℕ) → n ≤ i → tally n (update f i v) g ≡ tally n f g
unfolding tally
tally-update_out zero i v f g h = refl
tally-update_out (suc n) i v f g h = ground (arith, tally-update_out n i v f g (omega arith))

pub tally-update :
    (n i : ℕ) (f : ℕ → ℕ) (g : ℕ)
    → i < n
    → f i ≡ g
    → tally n (update f i (suc g)) g ≡ suc (tally n f g)
unfolding tally
tally-update zero i f g h e = absurd (omega arith)
tally-update (suc n) i f g h e = elim (ℕ_discrete i n) [
  | yes last ↦
      let at_n : f n ≡ g = subst (λ k. f k ≡ g) last e in
      ground (arith, tally-update_out n i (suc g) f g (omega arith))
  | no other ↦ ground (arith, tally-update n i f g (omega arith) e)
]

pub tally-le : (n : ℕ) (f : ℕ → ℕ) (g : ℕ) → tally n f g ≤ n
unfolding tally
tally-le zero f g = omega arith
tally-le (suc n) f g = ground (arith, tally-le n f g)

pub tally-all : (n : ℕ) (f : ℕ → ℕ) (g : ℕ) → tally n f g ≡ n → (j : ℕ) → j < n → f j ≡ suc g
unfolding tally
tally-all zero f g e j h = absurd (omega arith)
tally-all (suc n) f g e j h = elim (ℕ_discrete j n) [
  | yes last ↦
      let at_n : f n ≡ suc g = ground (arith, tally-le n f g) in
      subst (λ k. f k ≡ suc g) (sym last) at_n
  | no other ↦ tally-all n f g (ground (arith, tally-le n f g)) j (omega arith)
]

pub tally-none : (n : ℕ) (f : ℕ → ℕ) (g : ℕ) → ((j : ℕ) → j < n → f j ≢ suc g) → tally n f g ≡ 0
unfolding tally
tally-none zero f g h = refl
tally-none (suc n) f g h =
    ground (arith, h n (omega arith), tally-none n f g (λ j lt. h j (omega arith)))

pub tally-full : (n : ℕ) (f : ℕ → ℕ) (g : ℕ) → ((j : ℕ) → j < n → f j ≡ suc g) → tally n f g ≡ n
unfolding tally
tally-full zero f g h = refl
tally-full (suc n) f g h =
    ground (arith, h n (omega arith), tally-full n f g (λ j lt. h j (omega arith)))
