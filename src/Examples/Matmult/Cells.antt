-- ===== src/Examples/Matmult/Cells.antt =====
-- Where the quadrants of examples/cxx/matmult.cpp are in the vector of an `n` by `n` matrix: the element in row `r`
-- and column `k` is at `r * n + k`.
use native.Mathlib.Nat.{mul-le-mul_right, add-mul}
use pfunc.Base.{ℕ, suc, ◌+◌, ◌*◌, ◌/◌, ◌≤◌, ◌<◌, ◌≡◌, ◌≢◌, sym, ap, false, arith, dec_lt}
use pfunc.Examples.Matmult.{DivisibleMatrix, Quadrant, q1, q2, q3, q4, split, index}

-- The submatrix of which the first element is in row `r0` and column `k0`.
pub record Placed (n r0 k0 : ℕ) (m : DivisibleMatrix) : Type 0 where
  pub upright : m.transposed ≡ false
  pub stride : m.stride ≡ n
  pub start_index : m.start_index ≡ r0 * n + k0
  pub inside : k0 + m.dim ≤ n

pub index-Placed :
    {n r0 k0 : ℕ} {m : DivisibleMatrix} (i j : ℕ)
    → Placed n r0 k0 m
    → index m i j ≡ (r0 + i) * n + (k0 + j)
unfolding index
index-Placed {n} {r0} {k0} {m} i j p =
    let row = add-mul r0 i n in rw (p.upright, p.stride, p.start_index) (omega (arith, row))

-- How far a quadrant of dimension `h` is from the start, in rows and in columns.
abbrev pub down : Quadrant → ℕ → ℕ
down q1 h = 0
down q2 h = 0
down q3 h = h
down q4 h = h

abbrev pub right : Quadrant → ℕ → ℕ
right q1 h = 0
right q2 h = h
right q3 h = 0
right q4 h = h

zero_right : (r : ℕ) → r + 0 ≡ r
zero_right r = omega arith

pub split-Placed :
    {n r0 k0 : ℕ} {m : DivisibleMatrix} (h : ℕ) (q : Quadrant)
    → m.dim ≡ h + h
    → Placed n r0 k0 m
    → Placed n (r0 + down q h) (k0 + right q h) (split m q) × ((split m q).dim ≡ h)
unfolding split
split-Placed {n} {r0} {k0} {m} h q1 halves p =
    let half : m.dim / 2 ≡ h = omega arith in
    (
      record {
        upright = p.upright;
        stride = p.stride;
        start_index = rw (p.start_index) (ground arith);
        inside = omega (arith, p.inside);
      },
      half,
    )
split-Placed {n} {r0} {k0} {m} h q2 halves p =
    let half : m.dim / 2 ≡ h = omega arith in
    (
      record {
        upright = p.upright;
        stride = p.stride;
        start_index = omega (arith, p.start_index, half, ap (λ x. x * n) (zero_right r0));
        inside = omega (arith, p.inside);
      },
      half,
    )
split-Placed {n} {r0} {k0} {m} h q3 halves p =
    let half : m.dim / 2 ≡ h = omega arith in
    let offset : m.dim / 2 * m.stride ≡ h * n = rw (half, p.stride) in
    let row = add-mul r0 h n in
    (
      record {
        upright = p.upright;
        stride = p.stride;
        start_index = omega (arith, p.start_index, half, offset, row);
        inside = omega (arith, p.inside);
      },
      half,
    )
split-Placed {n} {r0} {k0} {m} h q4 halves p =
    let half : m.dim / 2 ≡ h = omega arith in
    let offset : m.dim / 2 * m.stride ≡ h * n = rw (half, p.stride) in
    let row = add-mul r0 h n in
    (
      record {
        upright = p.upright;
        stride = p.stride;
        start_index = omega (arith, p.start_index, half, offset, row);
        inside = omega (arith, p.inside);
      },
      half,
    )

row_before : (n r k r' k' : ℕ) → k < n → r < r' → r * n + k ≢ r' * n + k'
row_before n r k r' k' h lt e =
    let below = mul-le-mul_right {m = suc r} {n = r'} n lt in
    let next = add-mul r 1 n in absurd (omega (arith, below, next))

-- Two elements at the same place are one.
pub same_cell : (n r k r' k' : ℕ) → k < n → k' < n → r * n + k ≡ r' * n + k' → (r ≡ r') × (k ≡ k')
same_cell n r k r' k' h h' e =
    let one_row : r ≡ r' = elim (dec_lt r r') [
      | yes lt ↦ absurd (row_before n r k r' k' h lt e)
      | no ge ↦ elim (dec_lt r' r) [
        | yes lt ↦ absurd (row_before n r' k' r k h' lt (sym e))
        | no le ↦ omega arith
      ]
    ] in
    (one_row, omega (arith, ap (λ x. x * n) one_row))
