-- ===== src/Loops/For.antt =====
-- pfunc/parallel_for.hpp: `func` is invoked on the pieces of a space. The piece that a task keeps
-- and the one that it spawns are worked on at the same time; the list of invocations is in the order
-- of the space, and says nothing of their order in time.
use pfunc.Base.{
  ℕ, zero, suc, ◌+◌, ◌*◌, ◌^◌, ◌≤◌, ◌<◌, ◌≡◌, refl, true, List, [], ◌∷◌, ◌++◌, Option, none, some,
  arith, ltb, leb, ◌&&◌, if◌then◌else◌, dec_lt, subst, sym,
}
use pfunc.Loops.Space.{
  Space, IsValid, Halves, can_split, split, extent, split-Halves, split_none, split_flag,
  half_bound,
}

abbrev either : Option (List Space) → Option (List Space) → Option (List Space)
either (some own) (some spawned) = some (own ++ spawned)
either (some own) none = none
either none spawned = none

-- `operator()`, as the spaces on which `func` is invoked in the end. The task spawns a
-- `parallel_for` over the right half, works on the left half itself, and waits. `none` says that the
-- fuel, the depth of the recursion, ran out.
unfoldable pub parallel_for : ℕ → ℕ → Space → Option (List Space)
parallel_for zero base space = none
parallel_for (suc fuel) base space =
    let halves : Option (List Space) = elim (split base space) [
      | none ↦ none
      | some (l, r) ↦ either (parallel_for fuel base l) (parallel_for fuel base r)
    ] in
    if can_split space then halves else some (space ∷ [])

-- How often `func` sees the index `i`.
abbrev pub visits : ℕ → List Space → ℕ
visits i [] = 0
visits i (s ∷ ss) = (if leb s.space_begin i && ltb i s.space_end then 1 else 0) + visits i ss

abbrev pub All {ℓ κ} : {A : Type ℓ} → (A → Type κ) → List A → Type κ
All P [] = Unit
All P (x ∷ xs) = P x × All P xs

All-append {ℓ κ} :
    {A : Type ℓ} (P : A → Type κ) (xs ys : List A) → All P xs → All P ys → All P (xs ++ ys)
All-append P [] ys h k = k
All-append P (x ∷ xs) ys h k = (h.0, All-append P xs ys h.1 k)

-- The pieces lie end to end from `b` to `e`.
abbrev pub Tiles : ℕ → ℕ → List Space → Type 0
Tiles b e [] = b ≡ e
Tiles b e (s ∷ ss) = (s.space_begin ≡ b) × (s.space_begin ≤ s.space_end) × Tiles s.space_end e ss

Tiles-append : (b m e : ℕ) (xs ys : List Space) → Tiles b m xs → Tiles m e ys → Tiles b e (xs ++ ys)
Tiles-append b m e [] ys h k = rw h k
Tiles-append b m e (x ∷ xs) ys h k = (h.0, h.1, Tiles-append x.space_end m e xs ys h.2 k)

Tiles-visits :
    (b e i : ℕ) (ss : List Space)
    → b ≤ e
    → Tiles b e ss
    → visits i ss ≡ (if leb b i && ltb i e then 1 else 0)
Tiles-visits b e i [] h t = ground arith
Tiles-visits b e i (s ∷ ss) h t =
    ground (arith, Tiles-visits s.space_end e i ss, Tiles-le s.space_end e ss t.2)
  where
    Tiles-le : (b e : ℕ) (ss : List Space) → Tiles b e ss → b ≤ e
    Tiles-le b e [] t = omega arith
    Tiles-le b e (s ∷ ss) t = omega (arith, Tiles-le s.space_end e ss t.2)

-- What a run of the loop leaves behind, at a positive base case size.
pub record Covers (base : ℕ) (s : Space) (out : List Space) : Type 0 where
  pub tiles : Tiles s.space_begin s.space_end out
  pub small : All (λ p. extent p ≤ base) out
  pub busy : 0 < extent s → All (λ p. 0 < extent p) out

Covers-Halves :
    (base : ℕ) (s l r : Space) (xs ys : List Space)
    → 0 < base
    → base < extent s
    → Halves base s l r
    → Covers base l xs
    → Covers base r ys
    → Covers base s (xs ++ ys)
Covers-Halves base s l r xs ys pos lt h cl cr = record {
  tiles =
      Tiles-append s.space_begin l.space_end s.space_end xs ys
        (subst (λ b. Tiles b l.space_end xs) h.from_begin cl.tiles)
        (subst (λ e. Tiles l.space_end e ys) h.to_end
          (subst (λ b. Tiles b r.space_end ys) (sym h.meet) cr.tiles));
  small = All-append _ xs ys cl.small cr.small;
  busy = λ _. All-append _ xs ys (cl.busy (omega arith)) (cr.busy (omega arith));
}

leaf :
    (fuel base : ℕ) (s : Space)
    → IsValid base s
    → extent s ≤ base
    → (out : List Space) × (parallel_for (suc fuel) base s ≡ some out) × Covers base s out
unfolding parallel_for
leaf fuel base s v h = (
  s ∷ [],
  rw (split_none base s v h),
  record { tiles = (refl, v.ordered, refl); small = (h, tt); busy = λ lt. (lt, tt) },
)

branch :
    (fuel base : ℕ) (s l r : Space) {xs ys : List Space}
    → s.splittable ≡ true
    → split base s ≡ some (l, r)
    → parallel_for fuel base l ≡ some xs
    → parallel_for fuel base r ≡ some ys
    → parallel_for (suc fuel) base s ≡ some (xs ++ ys)
unfolding parallel_for
branch fuel base s l r flag halves own spawned = ground arith

-- The loop ends, and covers its space: over a valid space of at most `base * 2 ^ k` indices, with a
-- positive base case size, the recursion is at most `k + 1` deep, and the pieces on which the
-- function is invoked lie end to end from the beginning to the end of the space, none larger than
-- the base case size, and none empty unless the space is.
pub parallel_for-Covers :
    (k base : ℕ) (s : Space)
    → 0 < base
    → IsValid base s
    → extent s ≤ base * 2 ^ k
    → (out : List Space) × (parallel_for (suc k) base s ≡ some out) × Covers base s out
parallel_for-Covers zero base s pos v h = leaf zero base s v (omega arith)
parallel_for-Covers (suc k) base s pos v h = elim (dec_lt base (extent s)) [
  | no small ↦ leaf (suc k) base s v (omega arith)
  | yes lt ↦
      let (l, r, halves, hv) = split-Halves base s v lt in
      let bound : extent s ≤ 2 * (base * 2 ^ k) = half_bound base k (extent s) h in
      let (xs, own, cl) =
        parallel_for-Covers k base l pos hv.left_valid (omega (arith, hv.left_extent)) in
      let (ys, spawned, cr) =
        parallel_for-Covers k base r pos hv.right_valid (omega (arith, hv.right_extent)) in
      (
        xs ++ ys,
        branch (suc k) base s l r (split_flag base s v lt) halves own spawned,
        Covers-Halves base s l r xs ys pos lt hv cl cr,
      )
]

-- Over a valid space of at most `base * 2 ^ k` indices, with a positive base case size, the loop
-- visits each index of the space exactly once, and no other index at all.
pub parallel_for-visits :
    (k base : ℕ) (s : Space)
    → 0 < base
    → IsValid base s
    → extent s ≤ base * 2 ^ k
    → (out : List Space) × (parallel_for (suc k) base s ≡ some out)
      × ((i : ℕ) → visits i out ≡ (if leb s.space_begin i && ltb i s.space_end then 1 else 0))
parallel_for-visits k base s pos v h =
    let (out, e, c) = parallel_for-Covers k base s pos v h in
    (out, e, λ i. Tiles-visits s.space_begin s.space_end i out v.ordered c.tiles)

-- With a base case size of 0 the loop never ends on a valid space that is not empty: at every depth
-- some task splits again.
pub parallel_for-diverges :
    (fuel : ℕ) (s : Space) → IsValid 0 s → 0 < extent s → parallel_for fuel 0 s ≡ none
unfolding parallel_for
parallel_for-diverges zero s v h = refl
parallel_for-diverges (suc fuel) s v h =
    let (l, r, halves, hv) = split-Halves 0 s v h in
    let spawned : parallel_for fuel 0 r ≡ none =
      parallel_for-diverges fuel r hv.right_valid (omega (arith, hv.right_extent)) in
    ground (arith, split_flag 0 s v h)
