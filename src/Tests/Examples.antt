-- ===== src/Tests/Examples.antt =====
-- The programs of examples/ over natural numbers, and a power of two.
use mathlib.Core.List.Perm
use pfunc.Base.{ℕ, ◌+◌, ◌*◌, ◌^◌, ◌≤◌, ◌<◌, ◌≡◌, List, [], ◌∷◌, Perm, some, arith}
use pfunc.Examples.Scale.{parallel_scale, parallel_scale-scales}
use pfunc.Loops.Space.{Space}
use pfunc.Tests.Matmult.{naturals}
use pfunc.Utility.{get_closest_power_of_2}
use pfunc.Utility.Powers.{get_closest_power_of_2-least}

-- The second invocation before the first.
abbrev second_first : List Space → List Space
second_first [] = []
second_first (s ∷ []) = s ∷ []
second_first (s ∷ t ∷ ss) = t ∷ s ∷ ss

second_first-perm : (ss : List Space) → Perm ss (second_first ss)
second_first-perm [] = Perm.refl []
second_first-perm (s ∷ []) = Perm.refl (s ∷ [])
second_first-perm (s ∷ t ∷ ss) = Perm.swap t s ss

parallel_scale-scales_example :
    (result : ℕ → ℕ) × (parallel_scale naturals 10 3 2 second_first 7 (λ i. i + 1) ≡ some result)
    × ((i : ℕ) → i < 7 → result i ≡ (i + 1) * 10)
    × ((i : ℕ) → 7 ≤ i → result i ≡ i + 1)
parallel_scale-scales_example =
    parallel_scale-scales naturals 10 2 2 second_first 7 (λ i. i + 1) (omega arith) (omega arith)
      (omega arith) second_first-perm

get_closest_power_of_2-least_example :
    (d : ℕ) × (d ≤ 30)
    × (get_closest_power_of_2 31 100 ≡ some (2 ^ d))
    × (100 ≤ 2 ^ d)
    × ((i : ℕ) → i < d → 2 ^ i < 100)
get_closest_power_of_2-least_example = get_closest_power_of_2-least 100 (omega arith)
