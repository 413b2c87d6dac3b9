-- ===== src/Examples/Dag/Counts.antt =====
-- Counting in lists of vertices, and sums over the vertices, for examples/cxx/dot_reader/dag.h.
use pfunc.Base.{
  ℕ, zero, suc, ◌+◌, ◌*◌, ◌≤◌, ◌<◌, ◌≡◌, refl, arith, List, [], ◌∷◌, ◌++◌, ◌==◌, if◌then◌else◌,
  ℕ_discrete, subst,
}

abbrev pub one : ℕ → ℕ → ℕ
one v w = if v == w then 1 else 0

abbrev pub count : ℕ → List ℕ → ℕ
count w [] = 0
count w (v ∷ vs) = one v w + count w vs

pub count-append : (w : ℕ) (vs us : List ℕ) → count w (vs ++ us) ≡ count w vs + count w us
count-append w [] us = omega arith
count-append w (v ∷ vs) us = omega (arith, count-append w vs us)

abbrev pub sum_below : ℕ → (ℕ → ℕ) → ℕ
sum_below zero f = 0
sum_below (suc n) f = sum_below n f + f n

module _ (f : ℕ → ℕ) where
  one-above : (n v : ℕ) → n ≤ v → sum_below n (λ u. one v u * f u) ≡ 0
  one-above zero v h = refl
  one-above (suc n) v h =
      let off : one v n ≡ 0 = ground arith in
      let none : one v n * f n ≡ 0 = rw off (omega arith) in
      omega (arith, none, one-above n v (omega (arith, h)))

  pub one-below : (n v : ℕ) → v < n → sum_below n (λ u. one v u * f u) ≡ f v
  one-below zero v h = omega (arith, h)
  one-below (suc n) v h = elim (ℕ_discrete v n) [
    | yes last ↦
        subst (λ x. sum_below n (λ u. one v u * f u) + one v x * f x ≡ f v) last
          (let self : one v v ≡ 1 = ground arith in
            let once : one v v * f v ≡ f v = rw self (omega arith) in
            omega (arith, once, one-above n v (omega (arith, last))))
    | no other ↦
        let off : one v n ≡ 0 = ground arith in
        let none : one v n * f n ≡ 0 = rw off (omega arith) in
        omega (arith, none, one-below n v (omega (arith, h, other)))
  ]
