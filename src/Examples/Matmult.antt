-- ===== src/Examples/Matmult.antt =====
-- examples/cxx/matmult.cpp: the product of two square matrices, by divide and conquer. The vectors that A, B and
-- C refer to are three, as in `main`; `a`, `b` and `c` are their contents. A task is run as a whole; `order`
-- says in which order the tasks of a batch are, and the task that spawns them takes its own part in it. The
-- numbers are those of `int` as long as the matrices of `main` have fewer than 2^31 elements, since each
-- number that is computed is then at most that of the elements.
pub mod Cells
pub mod Loops
pub mod Batches
pub mod Halves
pub mod Product
use pfunc.Base.{
  ℕ, zero, suc, ◌+◌, ◌*◌, ◌/◌, Bool, List, [], ◌∷◌, Option, none, some, leb, if◌then◌else◌, update,
  ◌>>=◌,
}
use pfunc.Examples.Doubles.{Arithmetic}

pub record DivisibleMatrix : Type 0 where
  pub dim : ℕ
  pub stride : ℕ
  pub start_index : ℕ
  pub transposed : Bool

-- The numbers 1 to 4 of the quadrants.
pub data Quadrant : Type 0 where
  q1 q2 q3 q4 : Quadrant

unfoldable pub split : DivisibleMatrix → Quadrant → DivisibleMatrix
split m quadrant =
    let new_dim = m.dim / 2 in
    record m {
      dim = new_dim;
      start_index = m.start_index + elim quadrant [
        | q1 ↦ 0
        | q2 ↦ new_dim
        | q3 ↦ new_dim * m.stride
        | q4 ↦ new_dim * m.stride + new_dim
      ];
    }

-- `operator() (i, j)`, as the index into the vector.
unfoldable pub index : DivisibleMatrix → ℕ → ℕ → ℕ
index m i j =
    if m.transposed then m.start_index + j * m.stride + i else m.start_index + i * m.stride + j

-- The two batches of tasks, and the quadrants of A and B that the task for a quadrant of C multiplies.
pub data Batch : Type 0 where
  first second : Batch

abbrev pub factor_a : Batch → Quadrant → Quadrant
factor_a first q1 = q1
factor_a first q2 = q1
factor_a first q3 = q3
factor_a first q4 = q3
factor_a second q1 = q2
factor_a second q2 = q2
factor_a second q3 = q4
factor_a second q4 = q4

abbrev pub factor_b : Batch → Quadrant → Quadrant
factor_b first q1 = q1
factor_b first q2 = q2
factor_b first q3 = q1
factor_b first q4 = q2
factor_b second q1 = q3
factor_b second q2 = q4
factor_b second q3 = q3
factor_b second q4 = q4

-- Some tasks, one after the other.
unfoldable pub run_all : {S : Type 0} → (Quadrant → S → Option S) → List Quadrant → S → Option S
run_all op [] s = some s
run_all op (q ∷ qs) s = op q s >>= run_all op qs

module _ (v : Arithmetic) (a b : ℕ → v.Value) where
  -- `sum` after `k` turns of the innermost loop.
  unfoldable pub sum : DivisibleMatrix → DivisibleMatrix → ℕ → ℕ → ℕ → v.Value
  sum A B i j zero = v.nought
  sum A B i j (suc k) = v.plus (sum A B i j k) (v.times (a (index A i k)) (b (index B k j)))

  -- The vector of C after `j` turns of the middle loop, in row `i`.
  unfoldable pub columns :
      DivisibleMatrix → DivisibleMatrix → DivisibleMatrix → ℕ → ℕ → (ℕ → v.Value) → ℕ → v.Value
  columns A B C i zero c = c
  columns A B C i (suc j) c =
      let c' = columns A B C i j c in
      update c' (index C i j) (v.plus (c' (index C i j)) (sum A B i j A.dim))

  -- And after `i` turns of the outer loop.
  unfoldable pub rows :
      DivisibleMatrix → DivisibleMatrix → DivisibleMatrix → ℕ → (ℕ → v.Value) → ℕ → v.Value
  rows A B C zero c = c
  rows A B C (suc i) c = columns A B C i A.dim (rows A B C i c)

  abbrev pub dgemm_three_loop :
      DivisibleMatrix → DivisibleMatrix → DivisibleMatrix → (ℕ → v.Value) → ℕ → v.Value
  dgemm_three_loop A B C c = rows A B C A.dim c

  -- `operator()` of `dgemm_op`, with the depth of the recursion as fuel; `base` is
  -- `problem_base_case_dim`.
  unfoldable pub dgemm_op :
      (base : ℕ)
      → (order : DivisibleMatrix → Batch → List Quadrant) → ℕ
      → DivisibleMatrix
      → DivisibleMatrix
      → DivisibleMatrix
      → (ℕ → v.Value)
      → Option (ℕ → v.Value)
  dgemm_op base order zero A B C c = none
  dgemm_op base order (suc fuel) A B C c =
      let task : Batch → Quadrant → (ℕ → v.Value) → Option (ℕ → v.Value) = λ batch q.
        dgemm_op base order fuel (split A (factor_a batch q)) (split B (factor_b batch q))
          (split C q) in
      let halves =
        run_all (task first) (order C first) c >>= run_all (task second) (order C second) in
      if leb A.dim base then some (dgemm_three_loop A B C c) else halves
