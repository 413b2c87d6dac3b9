-- ===== src/Examples/Matmult/Product.antt =====
-- `dgemm_op` of examples/cxx/matmult.cpp computes the product of the matrices.
use mathlib.Core.Path.{fun_ext}
use native.Mathlib.Nat.{pow-suc, add-mul, mul-le-mul_right, one-le-pow}
use pfunc.Base.{
  ℕ, zero, suc, ◌+◌, ◌*◌, ◌^◌, ◌≤◌, ◌<◌, ◌≡◌, refl, sym, ap, subst, ◌∙◌, true, false, leb, arith,
  if_true, if_false, List, Option, some, ◌>>=◌,
}
use pfunc.Examples.Doubles.{Arithmetic, sum_of}
use pfunc.Examples.Matmult.{
  DivisibleMatrix, Quadrant, q1, q2, q3, q4, split, Batch, first, second, factor_a, factor_b,
  run_all, dgemm_three_loop, dgemm_op,
}
use pfunc.Examples.Matmult.Cells.{Placed, down, right, split-Placed}
use pfunc.Examples.Matmult.Loops.{in_block, Changes, added, rows-Changes}
use pfunc.Examples.Matmult.Halves.{add_blocks, products, add_blocks-add, two-Changes}
use pfunc.Examples.Matmult.Batches.{OnceEach, quarter, batch-Changes}

-- Where in A's columns, and in B's rows, the factors of a batch begin.
abbrev offset : Batch → ℕ → ℕ
offset first h = 0
offset second h = h

factors :
    (b : Batch) (q : Quadrant) (h : ℕ)
    → (down (factor_a b q) h ≡ down q h)
      × (right (factor_a b q) h ≡ offset b h)
      × (down (factor_b b q) h ≡ offset b h)
      × (right (factor_b b q) h ≡ right q h)
factors first q1 h = (refl, refl, refl, refl)
factors first q2 h = (refl, refl, refl, refl)
factors first q3 h = (refl, refl, refl, refl)
factors first q4 h = (refl, refl, refl, refl)
factors second q1 h = (refl, refl, refl, refl)
factors second q2 h = (refl, refl, refl, refl)
factors second q3 h = (refl, refl, refl, refl)
factors second q4 h = (refl, refl, refl, refl)

moved :
    {n r k r' k' : ℕ} {m : DivisibleMatrix} → r ≡ r' → k ≡ k' → Placed n r k m → Placed n r' k' m
moved {n} {r} {k} {r'} {k'} {m} e f p =
    subst (λ x. Placed n x k' m) e (subst (λ y. Placed n r y m) f p)

from_nought : (t : ℕ) → 0 + t ≡ t
from_nought t = omega arith

-- The matrices as `main` sets them up.
abbrev pub whole : ℕ → DivisibleMatrix
whole n = record { dim = n; stride = n; start_index = 0; transposed = false }

whole-Placed : (n : ℕ) → Placed n 0 0 (whole n)
whole-Placed n = record {
  upright = refl;
  stride = refl;
  start_index = omega arith;
  inside = omega arith;
}

module _ (v : Arithmetic) (a b : ℕ → v.Value) where
  -- An element of C when `q` blocks of `w` columns of A, from `m0` on, have been dealt with.
  abbrev dealt : (n w q m0 r k : ℕ) → v.Value → v.Value
  dealt n w q m0 r k x = add_blocks v w q (products v a b n w m0 r k) x

  one_block : (n w m0 r k : ℕ) (x : v.Value) → added v a b n m0 w r k x ≡ dealt n w 1 m0 r k x
  unfolding add_blocks
  one_block n w m0 r k x =
      let first_ : (t : ℕ) → t ≡ 0 * w + t = λ t. omega arith in
      ap (v.plus x) (ap (sum_of v w) (fun_ext λ t. ap (products v a b n w m0 r k) (first_ t)))

  module _ (base : ℕ) (order : DivisibleMatrix → Batch → List Quadrant) where
    -- What `dgemm_op` does to a block of C of `d` rows and columns, in `q` blocks of columns of A.
    abbrev Done :
        (fuel : ℕ) (A B C : DivisibleMatrix) → (n r0 m0 k0 w q d : ℕ) → (ℕ → v.Value) → Type 0
    Done fuel A B C n r0 m0 k0 w q d c =
        (c' : ℕ → v.Value) × (dgemm_op v a b base order fuel A B C c ≡ some c')
        × Changes v n (in_block r0 k0 d d) (dealt n w q m0) c c'

    leaf :
        {n r0 m0 k0 : ℕ} {A B C : DivisibleMatrix} (fuel w : ℕ) (c : ℕ → v.Value)
        → Placed n r0 m0 A
        → Placed n m0 k0 B
        → Placed n r0 k0 C
        → A.dim ≡ w
        → C.dim ≡ w
        → w ≤ base
        → Done (suc fuel) A B C n r0 m0 k0 w 1 w c
    unfolding dgemm_op
    leaf {n} {r0} {m0} {k0} {A} {B} {C} fuel w c pa pb pc da dc small =
        let test : leb A.dim base ≡ true = ground arith in
        let changes = rows-Changes v a b A.dim c pa pb pc (omega (arith, pc.inside)) in
        (
          dgemm_three_loop v a b A B C c,
          if_true (leb A.dim base) _ _ test,
          subst (λ e. Changes v n (in_block r0 k0 w w) e c (dgemm_three_loop v a b A B C c))
              (fun_ext λ r. fun_ext λ k. fun_ext λ x. one_block n w m0 r k x)
              (subst
                (λ d.
                  Changes v n (in_block r0 k0 d d) (added v a b n m0 d) c
                    (dgemm_three_loop v a b A B C c))
                da changes),
        )

    -- The task of a batch for a quadrant of C.
    abbrev task_for :
        ℕ
        → DivisibleMatrix
        → DivisibleMatrix
        → DivisibleMatrix
        → Batch
        → Quadrant
        → (ℕ → v.Value)
        → Option (ℕ → v.Value)
    task_for fuel A B C batch q =
        dgemm_op v a b base order fuel (split A (factor_a batch q)) (split B (factor_b batch q))
          (split C q)

    node :
        {n : ℕ} (r0 m0 k0 w q : ℕ) (A B C : DivisibleMatrix) (fuel : ℕ) (c : ℕ → v.Value)
        → base < A.dim
        → ((m : DivisibleMatrix) (batch : Batch) → OnceEach (order m batch))
        → ((batch : Batch) (quadrant : Quadrant) (s : ℕ → v.Value)
            → (s' : ℕ → v.Value) × (task_for fuel A B C batch quadrant s ≡ some s')
              × Changes v n
                  (quarter r0 k0 (q * w) quadrant)
                  (dealt n w q (m0 + offset batch (q * w)))
                  s
                  s')
        → Done (suc fuel) A B C n r0 m0 k0 w (q + q) (q * w + q * w) c
    unfolding dgemm_op
    node {n} r0 m0 k0 w q A B C fuel c large once each =
        let h = q * w in
        let task = task_for fuel A B C in
        let (c', done, one) =
          batch-Changes v r0 k0 h (dealt n w q (m0 + 0)) (task first) (each first) (order C first) c
            (once C first) in
        let (c'', done', two) =
          batch-Changes v r0 k0 h (dealt n w q (m0 + h)) (task second) (each second)
            (order C second) c' (once C second) in
        let test : leb A.dim base ≡ false = ground arith in
        let start : m0 + 0 ≡ m0 = omega arith in
        let both_ : (r k : ℕ) (x : v.Value)
            → dealt n w q (m0 + h) r k (dealt n w q (m0 + 0) r k x) ≡ dealt n w (q + q) m0 r k x =
          λ r k x.
            ap (λ m. dealt n w q (m0 + h) r k (dealt n w q m r k x)) start
            ∙ add_blocks-add v a b n w q q m0 r k x in
        (
          c'',
          if_false (leb A.dim base) _ _ test
              ∙ ap (λ s. s >>= run_all (task second) (order C second)) done
              ∙ done',
          subst (λ e. Changes v n (in_block r0 k0 (h + h) (h + h)) e c c'')
              (fun_ext λ r. fun_ext λ k. fun_ext λ x. both_ r k x)
              (two-Changes v n (in_block r0 k0 (h + h) (h + h)) (dealt n w q (m0 + 0))
                (dealt n w q (m0 + h)) c c' c'' one two),
        )

    -- From a matrix of `2 ^ p * w` rows and columns on, the recursion is at most `p + 1` deep.
    dgemm_op-Done :
        (p w : ℕ) {n r0 m0 k0 : ℕ} {A B C : DivisibleMatrix} (c : ℕ → v.Value)
        → w ≤ base
        → base < w + w
        → ((m : DivisibleMatrix) (batch : Batch) → OnceEach (order m batch))
        → Placed n r0 m0 A
        → Placed n m0 k0 B
        → Placed n r0 k0 C
        → A.dim ≡ 2 ^ p * w
        → B.dim ≡ 2 ^ p * w
        → C.dim ≡ 2 ^ p * w
        → Done (suc p) A B C n r0 m0 k0 w (2 ^ p) (2 ^ p * w) c
    dgemm_op-Done zero w {n} {r0} {m0} {k0} {A} {B} {C} c least most once pa pb pc da db dc =
        let whole_ : w ≡ 1 * w = omega arith in
        subst (λ d. Done 1 A B C n r0 m0 k0 w 1 d c) whole_
          (leaf 0 w c pa pb pc (omega (arith, da)) (omega (arith, dc)) least)
    dgemm_op-Done (suc p) w {n} {r0} {m0} {k0} {A} {B} {C} c least most once pa pb pc da db dc =
        let q = 2 ^ p in
        let h = q * w in
        let twice : 2 ^ suc p ≡ q + q = omega (arith, pow-suc 2 p) in
        let halves : 2 ^ suc p * w ≡ h + h = ap (λ x. x * w) twice ∙ add-mul q q w in
        let above : 1 * w ≤ q * w = mul-le-mul_right w (one-le-pow p 2 (omega arith)) in
        let large : base < A.dim = omega (arith, most, da, halves, above) in
        subst (λ d. Done (suc (suc p)) A B C n r0 m0 k0 w (2 ^ suc p) d c) (sym halves)
          (subst (λ x. Done (suc (suc p)) A B C n r0 m0 k0 w x (h + h) c) (sym twice)
            (node r0 m0 k0 w q A B C (suc p) c large once λ batch quadrant s.
              let (a_down, a_right, b_down, b_right) = factors batch quadrant h in
              let (qa, qda) = split-Placed h (factor_a batch quadrant) (da ∙ halves) pa in
              let (qb, qdb) = split-Placed h (factor_b batch quadrant) (db ∙ halves) pb in
              let (qc, qdc) = split-Placed h quadrant (dc ∙ halves) pc in
              dgemm_op-Done p w s least most once
                (moved (ap (λ x. r0 + x) a_down) (ap (λ x. m0 + x) a_right) qa)
                (moved (ap (λ x. m0 + x) b_down) (ap (λ x. k0 + x) b_right) qb) qc qda qdb qdc))

    -- The matrices of `main`, for `n = 2 ^ p * w` rows and columns and a base case from `w` to less than
    -- `2 * w`; with `n * n` elements that an `int` can count, all numbers are in its range. The recursion is
    -- at most `p + 1` deep, and in whatever order the tasks of each batch are run, the result is the same
    -- to the last bit, whatever the rounding of the arithmetic: to the element of C in row `r` and column
    -- `k` the products of A's row `r` and B's column `k` have been added in `2 ^ p` sums over `w` products
    -- each, from left to right; and nothing behind C's last row is written.
    pub dgemm_op-product :
        (p w : ℕ) (c : ℕ → v.Value)
        → w ≤ base
        → base < w + w
        → 2 ^ p * w * (2 ^ p * w) < 2 ^ 31
        → ((m : DivisibleMatrix) (batch : Batch) → OnceEach (order m batch))
        → let n = 2 ^ p * w in
          (c' : ℕ → v.Value) × (dgemm_op v a b base order (suc p) (whole n) (whole n) (whole n) c
            ≡ some c')
          × ((r k : ℕ)
              → r < n
              → k < n
              → c' (r * n + k)
                ≡ add_blocks v w
                    (2 ^ p)
                    (λ t. v.times (a (r * n + t)) (b (t * n + k)))
                    (c (r * n + k)))
          × ((r k : ℕ) → n ≤ r → k < n → c' (r * n + k) ≡ c (r * n + k))
    dgemm_op-product p w c least most range once =
        let n = 2 ^ p * w in
        let m = whole-Placed n in
        let (c', done, changes) = dgemm_op-Done p w c least most once m m m refl refl refl in
        (
          c',
          done,
          λ r k up left.
              changes r k left
              ∙ if_true (in_block 0 0 n n r k) _ _ (ground arith)
              ∙ ap (λ f. add_blocks v w (2 ^ p) f (c (r * n + k)))
                  (fun_ext λ t. ap (λ x. v.times (a (r * n + x)) (b (x * n + k))) (from_nought t)),
          λ r k under left. changes r k left ∙ if_false (in_block 0 0 n n r k) _ _ (ground arith),
        )
