-- ===== src/Loops/Reduce.antt =====
-- pfunc/parallel_reduce.hpp: pieces of a space are reduced by copies of a user's functor, which are
-- joined afterwards. The functor is the client's (pfunc/concepts/ReduceExecutable.concept.ipp), so
-- it is a parameter.

use mathlib.Core.Path.{ap₂}
use pfunc.Base.{
  ℕ, zero, suc, ◌+◌, ◌-◌, ◌*◌, ◌/◌, ◌^◌, ◌≤◌, ◌<◌, ◌≡◌, refl, sym, ap, ◌∙◌, true, Option, none,
  some, arith, if◌then◌else◌, dec_lt,
}
use pfunc.Loops.Space.{
  Space, IsValid, Halves, can_split, split, extent, split-Halves, split_none, split_flag,
  half_bound,
}

-- The operations of a ReduceExecutable: `operator()(space)`, `split()` and `join(other)`, each as
-- the functor's state afterwards.
pub record Reducer : Type 1 where
  pub Func : Type 0
  pub apply : Func → Space → Func
  pub fresh : Func → Func  -- `split`
  pub join : Func → Func → Func

-- `operator()`: the functor after the work on a space. The spawned task has a functor of its own,
-- split off before either half starts, so the two halves share nothing. `none`: the fuel ran out.
unfoldable pub parallel_reduce : (r : Reducer) → ℕ → ℕ → Space → r.Func → Option r.Func
parallel_reduce r zero base space func = none
parallel_reduce r (suc fuel) base space func =
    let halves : Option r.Func = elim (split base space) [
      | none ↦ none
      | some (left, right) ↦ elim (parallel_reduce r fuel base left func) [
        | none ↦ none
        | some own ↦ elim (parallel_reduce r fuel base right (r.fresh func)) [
          | none ↦ none
          | some spawned ↦ some (r.join own spawned)
        ]
      ]
    ] in
    if can_split space then halves else some (r.apply func space)

-- What a reduction assumes of its functor: the functor stands for a value of a monoid, starts from
-- the unit when it is split off, takes in the items of a space from left to right, and joins on the
-- right. The operation need not be commutative.
pub record IsReduction (r : Reducer) : Type 1 where
  pub Value : Type 0
  pub unit : Value
  pub op : Value → Value → Value
  pub op_assoc : (a b c : Value) → op (op a b) c ≡ op a (op b c)
  pub unit_op : (a : Value) → op unit a ≡ a
  pub op_unit : (a : Value) → op a unit ≡ a
  pub item : ℕ → Value
  pub value : r.Func → Value

module _ {r : Reducer} (m : IsReduction r) where
  open m use {Value, unit, op, op_assoc, unit_op, op_unit, item, value}

  -- The items of `n` indices from `b` on, from left to right: the sequential reduction.
  unfoldable pub fold_range : ℕ → ℕ → Value
  fold_range b zero = unit
  fold_range b (suc n) = op (item b) (fold_range (b + 1) n)

  same : (b c n k : ℕ) → b ≡ c → n ≡ k → fold_range b n ≡ fold_range c k
  same b c n k e f = ap₂ fold_range e f

  pub fold_range-add :
      (b n k : ℕ) → fold_range b (n + k) ≡ op (fold_range b n) (fold_range (b + n) k)
  unfolding fold_range
  fold_range-add b zero k =
      same b (b + 0) (0 + k) k (omega arith) (omega arith) ∙ sym (unit_op (fold_range (b + 0) k))
  fold_range-add b (suc n) k =
      same b b (suc n + k) (suc (n + k)) refl (omega arith)
      ∙ ap (op (item b)) (fold_range-add (b + 1) n k)
      ∙ sym (op_assoc (item b) (fold_range (b + 1) n) (fold_range (b + 1 + n) k))
      ∙ ap (op (op (item b) (fold_range (b + 1) n)))
          (same (b + 1 + n) (b + suc n) k k (omega arith) refl)

  -- The functor's operations act on its value as described.
  pub record Respects : Type 0 where
    pub value-apply :
        (f : r.Func) (s : Space)
        → value (r.apply f s) ≡ op (value f) (fold_range s.space_begin (extent s))
    pub value-fresh : (f : r.Func) → value (r.fresh f) ≡ unit
    pub value-join : (f g : r.Func) → value (r.join f g) ≡ op (value f) (value g)

  -- `op` over two neighbouring halves.
  join-Halves :
      (base : ℕ) (s left right : Space) (a : Value)
      → Halves base s left right
      → op
          (op a (fold_range left.space_begin (extent left)))
          (op unit (fold_range right.space_begin (extent right)))
        ≡ op a (fold_range s.space_begin (extent s))
  join-Halves base s left right a h =
      ap (op (op a (fold_range left.space_begin (extent left)))) (unit_op _)
      ∙ op_assoc a _ _
      ∙ ap (op a) (
          ap₂ op (same _ s.space_begin _ (extent s / 2) h.from_begin h.left_extent) (
            same _ (s.space_begin + extent s / 2) _ (extent s - extent s / 2)
              (omega (arith, h.from_begin, h.meet, h.left_extent, h.left_valid)) h.right_extent)
          ∙ sym (fold_range-add s.space_begin (extent s / 2) (extent s - extent s / 2))
          ∙ same _ _ _ (extent s) refl (omega arith))

  leaf :
      (fuel base : ℕ) (s : Space) (f : r.Func)
      → Respects
      → IsValid base s
      → extent s ≤ base
      → (g : r.Func) × (parallel_reduce r (suc fuel) base s f ≡ some g)
        × (value g ≡ op (value f) (fold_range s.space_begin (extent s)))
  unfolding parallel_reduce
  leaf fuel base s f law v h =
      (r.apply f s, ground (arith, split_none base s v h), law.value-apply f s)

  branch :
      (fuel base : ℕ) (s left right : Space) (f : r.Func) {own spawned : r.Func}
      → s.splittable ≡ true
      → split base s ≡ some (left, right)
      → parallel_reduce r fuel base left f ≡ some own
      → parallel_reduce r fuel base right (r.fresh f) ≡ some spawned
      → parallel_reduce r (suc fuel) base s f ≡ some (r.join own spawned)
  unfolding parallel_reduce
  branch fuel base s left right f flag halves e e' = ground arith

  -- The reduction ends with the sequential result: over a valid space of at most `base * 2 ^ k`
  -- indices, with a positive base case size and a functor that respects the monoid, the recursion is
  -- at most `k + 1` deep, and the functor then stands for its value before, followed by the items of
  -- the space from left to right.
  pub parallel_reduce-fold :
      (k base : ℕ) (s : Space) (f : r.Func)
      → Respects
      → 0 < base
      → IsValid base s
      → extent s ≤ base * 2 ^ k
      → (g : r.Func) × (parallel_reduce r (suc k) base s f ≡ some g)
        × (value g ≡ op (value f) (fold_range s.space_begin (extent s)))
  parallel_reduce-fold zero base s f law pos v h = leaf zero base s f law v (omega arith)
  parallel_reduce-fold (suc k) base s f law pos v h = elim (dec_lt base (extent s)) [
    | no small ↦ leaf (suc k) base s f law v (omega arith)
    | yes lt ↦
        let (left, right, halves, hv) = split-Halves base s v lt in
        let bound : extent s ≤ 2 * (base * 2 ^ k) = half_bound base k (extent s) h in
        let (own, e, own_value) =
          parallel_reduce-fold k base left f law pos hv.left_valid
            (omega (arith, hv.left_extent)) in
        let (spawned, e', spawned_value) =
          parallel_reduce-fold k base right (r.fresh f) law pos hv.right_valid
            (omega (arith, hv.right_extent)) in
        (
          r.join own spawned,
          branch (suc k) base s left right f (split_flag base s v lt) halves e e',
          law.value-join own spawned
              ∙ ap₂ op own_value (
                  spawned_value
                  ∙ ap (λ a. op a (fold_range right.space_begin (extent right)))
                      (law.value-fresh f))
              ∙ join-Halves base s left right (value f) hv,
        )
  ]
