-- ===== src/Examples/Matmult/Loops.antt =====
-- The three loops of `dgemm_three_loop` in examples/cxx/matmult.cpp.
use mathlib.Core.Path.{ap₂}
use pfunc.Base.{
  ℕ, zero, suc, ◌+◌, ◌*◌, ◌≤◌, ◌<◌, ◌≡◌, refl, sym, ap, subst, ◌∙◌, Bool, true, false, ◌&&◌, ◌||◌,
  ltb, leb, if◌then◌else◌, arith, ℕ_discrete, if_true, if_false, both, update, update_self,
  update_ne,
}
use pfunc.Examples.Doubles.{Arithmetic, sum_of}
use pfunc.Examples.Matmult.{DivisibleMatrix, index, sum, columns, rows}
use pfunc.Examples.Matmult.Cells.{Placed, index-Placed, same_cell}

-- Whether an element is in a block, by its row and its column.
abbrev pub in_block : (r0 k0 height width r k : ℕ) → Bool
in_block r0 k0 height width r k = leb r0 r && ltb r (r0 + height) && leb k0 k && ltb k (k0 + width)

-- A block that grows by a column, or by a row.
nothing_wide : (r0 k0 height r k : ℕ) → in_block r0 k0 height 0 r k ≡ false
nothing_wide r0 k0 height r k = ground arith

nothing_high : (r0 k0 width r k : ℕ) → in_block r0 k0 0 width r k ≡ false
nothing_high r0 k0 width r k = ground arith

wider :
    (r0 k0 height j r k : ℕ)
    → (in_block r0 k0 height (suc j) r k
        ≡ (in_block r0 k0 height j r k || in_block r0 (k0 + j) height 1 r k))
      × (in_block r0 k0 height j r k && in_block r0 (k0 + j) height 1 r k ≡ false)
wider r0 k0 height j r k = (ground arith, ground arith)

higher :
    (r0 k0 i width r k : ℕ)
    → (in_block r0 k0 (suc i) width r k
        ≡ (in_block r0 k0 i width r k || in_block (r0 + i) k0 1 width r k))
      × (in_block r0 k0 i width r k && in_block (r0 + i) k0 1 width r k ≡ false)
higher r0 k0 i width r k = (ground arith, ground arith)

not_this : (p q r k : ℕ) → (r ≡ p → k ≡ q → ⊥) → in_block p q 1 1 r k ≡ false
not_this p q r k other = elim (ℕ_discrete r p) [
  | no differs ↦ ground arith
  | yes row ↦ elim (ℕ_discrete k q) [
    | no differs ↦ ground arith
    | yes column ↦ absurd (other row column)
  ]
]

this : (p q r k : ℕ) → p ≡ r → q ≡ k → in_block p q 1 1 r k ≡ true
this p q r k row column = ground arith

module _ (v : Arithmetic) where
  -- The elements of a block are each changed by a function, and the others are as before.
  abbrev pub Changes :
      (n : ℕ) → (ℕ → ℕ → Bool) → (ℕ → ℕ → v.Value → v.Value) → (c c' : ℕ → v.Value) → Type 0
  Changes n block e c c' =
      (r k : ℕ)
      → k < n
      → c' (r * n + k) ≡ (if block r k then e r k (c (r * n + k)) else c (r * n + k))

  module _ (a b : ℕ → v.Value) where
    -- The part of the product for an element that `d` columns of A make, from column `m0` on.
    abbrev pub part : (n m0 d r k : ℕ) → v.Value
    part n m0 d r k = sum_of v d (λ t. v.times (a (r * n + (m0 + t))) (b ((m0 + t) * n + k)))

    abbrev pub added : (n m0 d r k : ℕ) → v.Value → v.Value
    added n m0 d r k x = v.plus x (part n m0 d r k)

    sum-part :
        {n r0 m0 k0 : ℕ} {A B : DivisibleMatrix} (i j d : ℕ)
        → Placed n r0 m0 A
        → Placed n m0 k0 B
        → sum v a b A B i j d ≡ part n m0 d (r0 + i) (k0 + j)
    unfolding sum sum_of
    sum-part i j zero pa pb = refl
    sum-part i j (suc d) pa pb =
        ap₂ v.plus (sum-part i j d pa pb)
          (ap₂ v.times (ap a (index-Placed i d pa)) (ap b (index-Placed d j pb)))

    -- One turn of the middle loop changes one element.
    cell-Changes :
        {n r0 m0 k0 : ℕ} {A B C : DivisibleMatrix} (i j : ℕ) (c : ℕ → v.Value)
        → Placed n r0 m0 A
        → Placed n m0 k0 B
        → Placed n r0 k0 C
        → k0 + suc j ≤ n
        → Changes n
            (in_block (r0 + i) (k0 + j) 1 1)
            (added n m0 A.dim)
            c
            (update c (index C i j) (v.plus (c (index C i j)) (sum v a b A B i j A.dim)))
    cell-Changes {n} {r0} {m0} {k0} {A} {B} {C} i j c pa pb pc fits r k h =
        let there = index-Placed i j pc in
        let new = v.plus (c (index C i j)) (sum v a b A B i j A.dim) in
        elim (ℕ_discrete (index C i j) (r * n + k)) [
          | no other ↦
              update_ne c (index C i j) _ (r * n + k) (λ e. other (sym e))
              ∙ sym (
                  if_false _ _ _ (
                    not_this (r0 + i) (k0 + j) r k
                      λ row column. other (there ∙ ap₂ (λ x y. x * n + y) (sym row) (sym column))))
          | yes same ↦
              let (row, column) =
                same_cell n (r0 + i) (k0 + j) r k (omega arith) h (sym there ∙ same) in
              let value = sum-part i j A.dim pa pb ∙ ap₂ (part n m0 A.dim) row column in
              subst (λ x. update c (index C i j) new x ≡ new) same (update_self c (index C i j) new)
              ∙ ap₂ v.plus (ap c same) value
              ∙ sym (if_true _ _ _ (this (r0 + i) (k0 + j) r k row column))
        ]

    columns-Changes :
        {n r0 m0 k0 : ℕ} {A B C : DivisibleMatrix} (i j : ℕ) (c : ℕ → v.Value)
        → Placed n r0 m0 A
        → Placed n m0 k0 B
        → Placed n r0 k0 C
        → k0 + j ≤ n
        → Changes n (in_block (r0 + i) k0 1 j) (added n m0 A.dim) c (columns v a b A B C i j c)
    unfolding columns
    columns-Changes {r0 = r0} {k0 = k0} i zero c pa pb pc fits r k h =
        sym (if_false _ _ _ (nothing_wide (r0 + i) k0 1 r k))
    columns-Changes {n} {r0} {m0} {k0} {A} {B} {C} i (suc j) c pa pb pc fits r k h =
        let (either, never) = wider (r0 + i) k0 1 j r k in
        both _ _ _ _ _ _ (added n m0 A.dim r k) (columns-Changes i j c pa pb pc (omega arith) r k h)
          (cell-Changes i j (columns v a b A B C i j c) pa pb pc fits r k h) either never

    pub rows-Changes :
        {n r0 m0 k0 : ℕ} {A B C : DivisibleMatrix} (i : ℕ) (c : ℕ → v.Value)
        → Placed n r0 m0 A
        → Placed n m0 k0 B
        → Placed n r0 k0 C
        → k0 + A.dim ≤ n
        → Changes n (in_block r0 k0 i A.dim) (added n m0 A.dim) c (rows v a b A B C i c)
    unfolding rows
    rows-Changes {r0 = r0} {k0 = k0} {A = A} zero c pa pb pc fits r k h =
        sym (if_false _ _ _ (nothing_high r0 k0 A.dim r k))
    rows-Changes {n} {r0} {m0} {k0} {A} {B} {C} (suc i) c pa pb pc fits r k h =
        let (either, never) = higher r0 k0 i A.dim r k in
        both _ _ _ _ _ _ (added n m0 A.dim r k) (rows-Changes i c pa pb pc fits r k h)
          (columns-Changes i A.dim (rows v a b A B C i c) pa pb pc fits r k h) either never
