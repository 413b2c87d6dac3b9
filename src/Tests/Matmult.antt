-- ===== src/Tests/Matmult.antt =====
-- The product of two matrices of natural numbers, with the tasks of each batch in an order of their own.

use pfunc.Base.{ℕ, ◌+◌, ◌*◌, ◌<◌, ◌≤◌, ◌≡◌, refl, List, [], ◌∷◌, some, arith}
use pfunc.Examples.Doubles.{Arithmetic}
use pfunc.Examples.Matmult.{
  DivisibleMatrix, Quadrant, q1, q2, q3, q4, Batch, first, second, dgemm_op,
}
use pfunc.Examples.Matmult.Batches.{occurs, OnceEach}
use pfunc.Examples.Matmult.Halves.{add_blocks}
use pfunc.Examples.Matmult.Product.{whole, dgemm_op-product}

abbrev pub naturals : Arithmetic
naturals = record { Value = ℕ; nought = 0; plus = λ x y. x + y; times = λ x y. x * y }

-- The spawning thread's own task, for the fourth quadrant, runs first, and the others in any order.
abbrev order : DivisibleMatrix → Batch → List Quadrant
order m first = q4 ∷ q1 ∷ q3 ∷ q2 ∷ []
order m second = q2 ∷ q4 ∷ q3 ∷ q1 ∷ []

order-OnceEach : (m : DivisibleMatrix) (batch : Batch) → OnceEach (order m batch)
unfolding occurs
order-OnceEach m first q1 = refl
order-OnceEach m first q2 = refl
order-OnceEach m first q3 = refl
order-OnceEach m first q4 = refl
order-OnceEach m second q1 = refl
order-OnceEach m second q2 = refl
order-OnceEach m second q3 = refl
order-OnceEach m second q4 = refl

dgemm_op-product_example :
    (c' : ℕ → ℕ) × (dgemm_op naturals
        (λ i. i + 1)
        (λ i. i + 5)
        1
        order
        2
        (whole 2)
        (whole 2)
        (whole 2)
        (λ _. 0)
      ≡ some c')
    × ((r k : ℕ)
        → r < 2
        → k < 2
        → c' (r * 2 + k) ≡ add_blocks naturals 1 2 (λ t. (r * 2 + t + 1) * (t * 2 + k + 5)) 0)
    × ((r k : ℕ) → 2 ≤ r → k < 2 → c' (r * 2 + k) ≡ 0)
dgemm_op-product_example =
    dgemm_op-product naturals (λ i. i + 1) (λ i. i + 5) 1 order 1 1 (λ _. 0) (omega arith)
      (omega arith) (omega arith) order-OnceEach
