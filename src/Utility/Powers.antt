-- ===== src/Utility/Powers.antt =====
-- What `get_closest_power_of_2` of pfunc/utility.h returns.
use native.Mathlib.Nat.{pow-le-pow_right, pow-suc}
use pfunc.Base.{
  ℕ, zero, suc, ◌+◌, ◌*◌, ◌^◌, ◌≤◌, ◌<◌, ◌≡◌, refl, sym, ap, ◌∙◌, ltb, arith, some, ◌>>=◌, if_true,
  if_false, dec_lt, lt→ltb, subst,
}
use pfunc.Utility.{shifted, doubled, get_closest_power_of_2}

below_limit : (j : ℕ) → j ≤ 30 → 2 ^ j ≤ 1073741824
below_limit j h = pow-le-pow_right (omega arith) h

shifted-power : (j : ℕ) → j < 30 → shifted (2 ^ j) ≡ some (2 ^ suc j)
unfolding shifted
shifted-power j h =
    let next : 2 ^ j * 2 ≡ 2 ^ suc j = sym (pow-suc 2 j) in
    if_true (ltb (2 ^ j * 2) 2147483648) _ _
      (lt→ltb _ _ (omega (arith, next, below_limit (suc j) h)))
    ∙ ap some next

-- The powers of two before `2 ^ d`, and not itself, are below `n`.
record IsLeast (n d : ℕ) : Type 0 where
  pub enough : n ≤ 2 ^ d
  pub least : (i : ℕ) → i < d → 2 ^ i < n

stops : (f j n : ℕ) → n ≤ 2 ^ j → doubled (suc f) n (2 ^ j) ≡ some (2 ^ j)
unfolding doubled
stops f j n h = if_false (ltb (2 ^ j) n) _ _ (ground arith)

turns : (f j n : ℕ) → j < 30 → 2 ^ j < n → doubled (suc f) n (2 ^ j) ≡ doubled f n (2 ^ suc j)
unfolding doubled
turns f j n h more =
    if_true (ltb (2 ^ j) n) _ _ (lt→ltb _ _ more) ∙ ap (λ s. s >>= doubled f n) (shifted-power j h)

doubled-IsLeast :
    (f j n : ℕ)
    → j + f ≡ 30
    → n ≤ 1073741824
    → ((i : ℕ) → i < j → 2 ^ i < n)
    → (d : ℕ) × (d ≤ 30) × (doubled (suc f) n (2 ^ j) ≡ some (2 ^ d)) × IsLeast n d
doubled-IsLeast zero j n e small before =
    let j30 : j ≡ 30 = omega (arith, e) in
    let up : n ≤ 2 ^ j = subst (λ x. n ≤ 2 ^ x) (sym j30) small in
    (j, omega (arith, e), stops 0 j n up, record { enough = up; least = before })
doubled-IsLeast (suc f) j n e small before = elim (dec_lt (2 ^ j) n) [
  | yes more ↦
      let reached : (i : ℕ) → i < suc j → 2 ^ i < n = λ i h.
        omega (
          arith,
          more,
          pow-le-pow_right {n = 2} (omega arith) {i = i} {j = j} (omega (arith, h)),
        ) in
      let (d, d30, done, l) = doubled-IsLeast f (suc j) n (omega (arith, e)) small reached in
      (d, d30, turns (suc f) j n (omega (arith, e)) more ∙ done, l)
  | no fits ↦
      let up : n ≤ 2 ^ j = omega (arith, fits) in
      (j, omega (arith, e), stops (suc f) j n up, record { enough = up; least = before })
]

-- For a number up to 2 ^ 30 the loop ends after at most 30 turns, and the result is a power of two that
-- is at least the number, and the least of these.
pub get_closest_power_of_2-least :
    (n : ℕ)
    → n ≤ 1073741824
    → (d : ℕ) × (d ≤ 30)
      × (get_closest_power_of_2 31 n ≡ some (2 ^ d))
      × (n ≤ 2 ^ d)
      × ((i : ℕ) → i < d → 2 ^ i < n)
get_closest_power_of_2-least n small =
    let (d, d30, done, l) = doubled-IsLeast 30 0 n refl small (λ i h. omega (arith, h)) in
    (d, d30, done, l.enough, l.least)
