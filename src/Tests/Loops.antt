-- ===== src/Tests/Loops.antt =====
-- Loops over a small space, and the sum of its indices.
use mathlib.Core.Path.{ap₂}
use pfunc.Base.{ℕ, zero, suc, ◌+◌, ◌≡◌, refl, List, some, arith}
use pfunc.Loops.Space.{Space, IsValid, extent, space_1D, space_1D-IsValid}
use pfunc.Loops.For.{parallel_for, Covers, parallel_for-Covers}
use pfunc.Loops.Reduce.{
  Reducer, IsReduction, Respects, parallel_reduce, fold_range, parallel_reduce-fold,
}

-- The indices 5 to 11, in pieces of at most 2.
abbrev seven : Space
seven = space_1D 2 5 12

seven-IsValid : IsValid 2 seven
seven-IsValid = space_1D-IsValid 2 5 12 (omega arith) (omega arith)

parallel_for-Covers_example :
    (out : List Space) × (parallel_for 3 2 seven ≡ some out) × Covers 2 seven out
unfolding space_1D
parallel_for-Covers_example =
    parallel_for-Covers 2 2 seven (omega arith) seven-IsValid (omega arith)

-- The sum of `n` indices from `b` on.
abbrev sum_from : ℕ → ℕ → ℕ
sum_from b zero = 0
sum_from b (suc n) = b + sum_from (b + 1) n

abbrev summing : Reducer
summing = record {
  Func = ℕ;
  apply = λ f s. f + sum_from s.space_begin (extent s);
  fresh = λ f. 0;
  join = λ f g. f + g;
}

abbrev summing-IsReduction : IsReduction summing
summing-IsReduction = record {
  Value = ℕ;
  unit = 0;
  op = λ a b. a + b;
  op_assoc = λ a b c. omega arith;
  unit_op = λ a. omega arith;
  op_unit = λ a. omega arith;
  item = λ i. i;
  value = λ f. f;
}

sum_from-fold : (b n : ℕ) → sum_from b n ≡ fold_range summing-IsReduction b n
unfolding fold_range
sum_from-fold b zero = refl
sum_from-fold b (suc n) = ap₂ (λ x y. x + y) refl (sum_from-fold (b + 1) n)

summing-Respects : Respects summing-IsReduction
summing-Respects = record {
  value-apply = λ f s. ap₂ (λ x y. x + y) refl (sum_from-fold s.space_begin (extent s));
  value-fresh = λ f. refl;
  value-join = λ f g. refl;
}

parallel_reduce-fold_example :
    (g : ℕ) × (parallel_reduce summing 3 2 seven 100 ≡ some g)
    × (g ≡ 100 + fold_range summing-IsReduction seven.space_begin (extent seven))
unfolding space_1D
parallel_reduce-fold_example =
    parallel_reduce-fold summing-IsReduction 2 2 seven 100 summing-Respects (omega arith)
      seven-IsValid (omega arith)
