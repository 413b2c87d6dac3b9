-- ===== src/Examples/Matmult/Batches.antt =====
-- The batches of tasks of `dgemm_op` in examples/cxx/matmult.cpp: four tasks, for the four quadrants of C.
use mathlib.Core.Bool.{true≢false}
use pfunc.Base.{
  ℕ, ◌+◌, ◌*◌, ◌≤◌, ◌≡◌, ◌≢◌, refl, sym, ap, subst, ◌∙◌, Bool, true, false, ◌&&◌, ◌||◌,
  if◌then◌else◌, arith, both, dec_lt, ℕ_discrete, ◌⊎◌, inl, inr, List, [], ◌∷◌, Option, some, ◌>>=◌,
}
use pfunc.Examples.Doubles.{Arithmetic}
use pfunc.Examples.Matmult.{Quadrant, q1, q2, q3, q4, run_all}
use pfunc.Examples.Matmult.Cells.{down, right}
use pfunc.Examples.Matmult.Loops.{in_block, Changes}

-- How often a quadrant is in a list.
abbrev pub is : Quadrant → Quadrant → ℕ
is q1 q1 = 1
is q2 q2 = 1
is q3 q3 = 1
is q4 q4 = 1
is _ _ = 0

unfoldable pub occurs : Quadrant → List Quadrant → ℕ
occurs q [] = 0
occurs q (x ∷ xs) = is q x + occurs q xs

-- The element is in the quadrant `q`, or in one of some.
abbrev pub quarter : (r0 k0 h : ℕ) → Quadrant → ℕ → ℕ → Bool
quarter r0 k0 h q r k = in_block (r0 + down q h) (k0 + right q h) h h r k

unfoldable pub covered : (r0 k0 h : ℕ) → List Quadrant → ℕ → ℕ → Bool
covered r0 k0 h [] r k = false
covered r0 k0 h (q ∷ qs) r k = quarter r0 k0 h q r k || covered r0 k0 h qs r k

is_self : (q : Quadrant) → is q q ≡ 1
is_self q1 = refl
is_self q2 = refl
is_self q3 = refl
is_self q4 = refl

apart :
    (r0 k0 h r k : ℕ) (p q : Quadrant)
    → is p q ≡ 0
    → quarter r0 k0 h p r k && quarter r0 k0 h q r k ≡ false
apart r0 k0 h r k q1 q1 e = absurd (omega arith)
apart r0 k0 h r k q2 q2 e = absurd (omega arith)
apart r0 k0 h r k q3 q3 e = absurd (omega arith)
apart r0 k0 h r k q4 q4 e = absurd (omega arith)
apart r0 k0 h r k q1 q2 e = ground arith
apart r0 k0 h r k q1 q3 e = ground arith
apart r0 k0 h r k q1 q4 e = ground arith
apart r0 k0 h r k q2 q1 e = ground arith
apart r0 k0 h r k q2 q3 e = ground arith
apart r0 k0 h r k q2 q4 e = ground arith
apart r0 k0 h r k q3 q1 e = ground arith
apart r0 k0 h r k q3 q2 e = ground arith
apart r0 k0 h r k q3 q4 e = ground arith
apart r0 k0 h r k q4 q1 e = ground arith
apart r0 k0 h r k q4 q2 e = ground arith
apart r0 k0 h r k q4 q3 e = ground arith

never_both : (p q s : Bool) → p && q ≡ false → p && s ≡ false → p && (q || s) ≡ false
never_both true q s e f = ground (arith, e, f)
never_both false q s e f = refl

not_covered :
    (r0 k0 h r k : ℕ) (q : Quadrant) (qs : List Quadrant)
    → occurs q qs ≡ 0
    → quarter r0 k0 h q r k && covered r0 k0 h qs r k ≡ false
unfolding occurs covered
not_covered r0 k0 h r k q [] e = nowhere (quarter r0 k0 h q r k)
  where
    nowhere : (p : Bool) → p && false ≡ false
    nowhere true = refl
    nowhere false = refl
not_covered r0 k0 h r k q (x ∷ xs) e =
    never_both (quarter r0 k0 h q r k) (quarter r0 k0 h x r k) (covered r0 k0 h xs r k)
      (apart r0 k0 h r k q x (omega arith)) (not_covered r0 k0 h r k q xs (omega arith))

-- No quadrant twice.
abbrev pub AtMostOnce : List Quadrant → Type 0
AtMostOnce [] = Unit
AtMostOnce (q ∷ qs) = (occurs q qs ≡ 0) × AtMostOnce qs

-- Tasks each of which changes its quadrant change together all of their quadrants.
pub run_all-Changes :
    (v : Arithmetic) {n : ℕ} (r0 k0 h : ℕ) (e : ℕ → ℕ → v.Value → v.Value)
    (op : Quadrant → (ℕ → v.Value) → Option (ℕ → v.Value))
    → ((q : Quadrant) (c : ℕ → v.Value)
        → (c' : ℕ → v.Value) × (op q c ≡ some c') × Changes v n (quarter r0 k0 h q) e c c')
    → (qs : List Quadrant) (c : ℕ → v.Value) → AtMostOnce qs
    → (c' : ℕ → v.Value) × (run_all op qs c ≡ some c') × Changes v n (covered r0 k0 h qs) e c c'
unfolding run_all covered
run_all-Changes v r0 k0 h e op each [] c once = (c, refl, λ r k lt. refl)
run_all-Changes v r0 k0 h e op each (q ∷ qs) c (new, once) =
    let (c', done, adds) = each q c in
    let (c'', rest, adds') = run_all-Changes v r0 k0 h e op each qs c' once in
    (
      c'',
      ap (λ s. s >>= run_all op qs) done ∙ rest,
      λ r k lt.
          both _ _ _ _ _ _ (e r k) (adds r k lt) (adds' r k lt) refl
            (not_covered r0 k0 h r k q qs new),
    )

-- Each quadrant once, in whatever order.
abbrev pub OnceEach : List Quadrant → Type 0
OnceEach qs = (q : Quadrant) → occurs q qs ≡ 1

no_more_than_once : (qs : List Quadrant) → ((q : Quadrant) → occurs q qs ≤ 1) → AtMostOnce qs
unfolding occurs
no_more_than_once [] h = tt
no_more_than_once (q ∷ qs) h =
    (omega (arith, h q, is_self q), no_more_than_once qs (λ p. omega (arith, h p)))

is_same : (p q : Quadrant) → is p q ≢ 0 → p ≡ q
is_same q1 q1 h = refl
is_same q1 q2 h = absurd (h refl)
is_same q1 q3 h = absurd (h refl)
is_same q1 q4 h = absurd (h refl)
is_same q2 q1 h = absurd (h refl)
is_same q2 q2 h = refl
is_same q2 q3 h = absurd (h refl)
is_same q2 q4 h = absurd (h refl)
is_same q3 q1 h = absurd (h refl)
is_same q3 q2 h = absurd (h refl)
is_same q3 q3 h = refl
is_same q3 q4 h = absurd (h refl)
is_same q4 q1 h = absurd (h refl)
is_same q4 q2 h = absurd (h refl)
is_same q4 q3 h = absurd (h refl)
is_same q4 q4 h = refl

or_true : (p q : Bool) → (p ≡ true) ⊎ (q ≡ true) → p || q ≡ true
or_true true q h = refl
or_true false q (inl h) = absurd (true≢false (sym h))
or_true false q (inr h) = h

true_or : (p q : Bool) → p || q ≡ true → (p ≡ true) ⊎ (q ≡ true)
true_or true q h = inl refl
true_or false q h = inr h

quarter-covered :
    (r0 k0 h r k : ℕ) (q : Quadrant) (qs : List Quadrant)
    → occurs q qs ≢ 0
    → quarter r0 k0 h q r k ≡ true
    → covered r0 k0 h qs r k ≡ true
unfolding occurs covered
quarter-covered r0 k0 h r k q [] some_ there = absurd (some_ refl)
quarter-covered r0 k0 h r k q (x ∷ xs) some_ there =
    or_true (quarter r0 k0 h x r k) (covered r0 k0 h xs r k) (elim (ℕ_discrete (is q x) 0) [
      | no same ↦ inl (subst (λ y. quarter r0 k0 h y r k ≡ true) (is_same q x same) there)
      | yes other ↦ inr (quarter-covered r0 k0 h r k q xs (λ none_. some_ (omega arith)) there)
    ])

quarter_block :
    (r0 k0 h r k : ℕ) (q : Quadrant)
    → quarter r0 k0 h q r k ≡ true
    → in_block r0 k0 (h + h) (h + h) r k ≡ true
quarter_block r0 k0 h r k q1 there = ground arith
quarter_block r0 k0 h r k q2 there = ground arith
quarter_block r0 k0 h r k q3 there = ground arith
quarter_block r0 k0 h r k q4 there = ground arith

covered_block :
    (r0 k0 h r k : ℕ) (qs : List Quadrant)
    → covered r0 k0 h qs r k ≡ true
    → in_block r0 k0 (h + h) (h + h) r k ≡ true
unfolding covered
covered_block r0 k0 h r k [] there = absurd (true≢false (sym there))
covered_block r0 k0 h r k (q ∷ qs) there =
    elim (true_or (quarter r0 k0 h q r k) (covered r0 k0 h qs r k) there) [
      | inl in_q ↦ quarter_block r0 k0 h r k q in_q
      | inr in_rest ↦ covered_block r0 k0 h r k qs in_rest
    ]

block_quarter :
    (r0 k0 h r k : ℕ)
    → in_block r0 k0 (h + h) (h + h) r k ≡ true
    → (q : Quadrant) × (quarter r0 k0 h q r k ≡ true)
block_quarter r0 k0 h r k there = elim (dec_lt r (r0 + h)) [
  | yes up ↦ elim (dec_lt k (k0 + h)) [
    | yes left ↦ (q1, ground arith)
    | no more ↦ (q2, ground arith)
  ]
  | no under ↦ elim (dec_lt k (k0 + h)) [
    | yes left ↦ (q3, ground arith)
    | no more ↦ (q4, ground arith)
  ]
]

same_truth : (p q : Bool) → (p ≡ true → q ≡ true) → (q ≡ true → p ≡ true) → p ≡ q
same_truth true q to from = sym (to refl)
same_truth false true to from = from refl
same_truth false false to from = refl

covered_once :
    (r0 k0 h r k : ℕ) (qs : List Quadrant)
    → OnceEach qs
    → covered r0 k0 h qs r k ≡ in_block r0 k0 (h + h) (h + h) r k
covered_once r0 k0 h r k qs once = same_truth _ _ (covered_block r0 k0 h r k qs) λ there.
    let (q, in_q) = block_quarter r0 k0 h r k there in
    quarter-covered r0 k0 h r k q qs (λ e. absurd (omega (arith, once q))) in_q

-- A batch changes the whole of C, in whatever order its tasks are run.
pub batch-Changes :
    (v : Arithmetic) {n : ℕ} (r0 k0 h : ℕ) (e : ℕ → ℕ → v.Value → v.Value)
    (op : Quadrant → (ℕ → v.Value) → Option (ℕ → v.Value))
    → ((q : Quadrant) (c : ℕ → v.Value)
        → (c' : ℕ → v.Value) × (op q c ≡ some c') × Changes v n (quarter r0 k0 h q) e c c')
    → (qs : List Quadrant) (c : ℕ → v.Value) → OnceEach qs
    → (c' : ℕ → v.Value) × (run_all op qs c ≡ some c')
      × Changes v n (in_block r0 k0 (h + h) (h + h)) e c c'
batch-Changes v {n} r0 k0 h e op each qs c once =
    let (c', done, adds) =
      run_all-Changes v r0 k0 h e op each qs c
        (no_more_than_once qs (λ q. omega (arith, once q))) in
    (
      c',
      done,
      λ r k lt.
          subst (λ p. c' (r * n + k) ≡ (if p then e r k (c (r * n + k)) else c (r * n + k)))
            (covered_once r0 k0 h r k qs once) (adds r k lt),
    )
