-- ===== src/Examples/Scale.antt =====
-- `vector_scale` of examples/cxx/for.cpp, which multiplies the elements of a vector by a factor, run by
-- `parallel_for`. The functor's copies refer to one vector, of which `my_vector` is the content. An
-- invocation is run as a whole; `order` puts the invocations in the order in which the threads make
-- them. The functor lives until the loop has ended; `main` gives the loop a temporary, which does not,
-- and is not modelled.
use mathlib.Core.List.{foldr}
use mathlib.Core.List.Perm
use native.Mathlib.Nat.{ℕ_set}
use pfunc.Base.{
  ℕ, zero, suc, ◌+◌, ◌*◌, ◌^◌, ◌≤◌, ◌<◌, ◌≡◌, refl, sym, ap, ◌∙◌, List, [], ◌∷◌, Perm, Option, some,
  arith, ltb, leb, ◌&&◌, if◌then◌else◌, update, update_self, update_ne, subst, ℕ_discrete, ◌>>=◌,
}
use pfunc.Examples.Doubles.{Arithmetic}
use pfunc.Loops.Space.{Space, space_1D, space_1D-IsValid, extent}
use pfunc.Loops.For.{parallel_for, visits, parallel_for-visits}

-- Whether an index is in [b, e), as a number.
abbrev inside : ℕ → ℕ → ℕ → ℕ
inside b e i = if leb b i && ltb i e then 1 else 0

visits-foldr :
    (i : ℕ) (ss : List Space)
    → visits i ss ≡ foldr (λ s n. inside s.space_begin s.space_end i + n) 0 ss
visits-foldr i [] = refl
visits-foldr i (s ∷ ss) = ap (λ n. inside s.space_begin s.space_end i + n) (visits-foldr i ss)

visits-perm : {ss ts : List Space} (i : ℕ) → Perm ss ts → visits i ss ≡ visits i ts
visits-perm {ss} {ts} i p =
    visits-foldr i ss
    ∙ Perm.foldr-eq ℕ_set (λ s n. inside s.space_begin s.space_end i + n) (λ s t n. omega arith) p 0
    ∙ sym (visits-foldr i ts)

module _ (v : Arithmetic) (scaling_factor : v.Value) where
  -- The vector after `k` turns of the loop from `b` on.
  unfoldable pub scaled : ℕ → ℕ → (ℕ → v.Value) → ℕ → v.Value
  scaled b zero my_vector = my_vector
  scaled b (suc k) my_vector =
      let so_far = scaled b k my_vector in
      update so_far (b + k) (v.times (so_far (b + k)) scaling_factor)

  -- `operator()` of `vector_scale`.
  abbrev pub vector_scale : Space → (ℕ → v.Value) → ℕ → v.Value
  vector_scale space my_vector = scaled space.space_begin (extent space) my_vector

  -- Invocations on some spaces, one after the other.
  abbrev pub invoke_all : List Space → (ℕ → v.Value) → ℕ → v.Value
  invoke_all [] my_vector = my_vector
  invoke_all (s ∷ ss) my_vector = vector_scale s (invoke_all ss my_vector)

  -- `operator()` of a `parallel_for` over [0, n), with its spawns and waits, and a `vector_scale`.
  unfoldable pub parallel_scale :
      (fuel base : ℕ) → (order : List Space → List Space) → ℕ → (ℕ → v.Value) → Option (ℕ → v.Value)
  parallel_scale fuel base order n my_vector = do
    spaces ← parallel_for fuel base (space_1D base 0 n)
    some (invoke_all (order spaces) my_vector)

  -- An element after `n` multiplications.
  abbrev often : ℕ → v.Value → v.Value
  often zero x = x
  often (suc n) x = v.times (often n x) scaling_factor

  scaled-often :
      (b k : ℕ) (c : ℕ → v.Value) (i : ℕ) → scaled b k c i ≡ often (inside b (b + k) i) (c i)
  unfolding scaled
  scaled-often b zero c i =
      let never : 0 ≡ inside b (b + 0) i = ground arith in ap (λ n. often n (c i)) never
  scaled-often b (suc k) c i = elim (ℕ_discrete (b + k) i) [
    | no other ↦
        let same : inside b (b + k) i ≡ inside b (b + suc k) i = ground arith in
        update_ne (scaled b k c) (b + k) _ i (λ e. other (sym e))
        ∙ scaled-often b k c i
        ∙ ap (λ n. often n (c i)) same
    | yes here ↦
        let before : inside b (b + k) (b + k) ≡ 0 = ground arith in
        let now : 1 ≡ inside b (b + suc k) (b + k) = ground arith in
        subst (λ x. scaled b (suc k) c x ≡ often (inside b (b + suc k) x) (c x)) here
          (update_self (scaled b k c) (b + k) _
            ∙ ap (λ x. v.times x scaling_factor)
                (scaled-often b k c (b + k) ∙ ap (λ n. often n (c (b + k))) before)
            ∙ ap (λ n. often n (c (b + k))) now)
  ]

  often-add : (n k : ℕ) (x : v.Value) → often n (often k x) ≡ often (n + k) x
  often-add zero k x = let none : k ≡ 0 + k = omega arith in ap (λ m. often m x) none
  often-add (suc n) k x =
      let next : suc (n + k) ≡ suc n + k = omega arith in
      ap (λ y. v.times y scaling_factor) (often-add n k x) ∙ ap (λ m. often m x) next

  invoke_all-often :
      (ss : List Space) (c : ℕ → v.Value) (i : ℕ) → invoke_all ss c i ≡ often (visits i ss) (c i)
  invoke_all-often [] c i = refl
  invoke_all-often (s ∷ ss) c i =
      let upto : inside s.space_begin (s.space_begin + extent s) i
          ≡ inside s.space_begin s.space_end i =
        ground arith in
      scaled-often s.space_begin (extent s) (invoke_all ss c) i
      ∙ ap (λ n. often n (invoke_all ss c i)) upto
      ∙ ap (often (inside s.space_begin s.space_end i)) (invoke_all-often ss c i)
      ∙ often-add _ (visits i ss) (c i)

  -- A `parallel_for` with a `vector_scale` that outlives it scales each element once: with a chunk size of at
  -- least one, and at most `chunk * 2 ^ k` elements and fewer than 2^64, the recursion is at most `k + 1`
  -- deep, and in whatever order the threads make the invocations, each element of [0, n) is multiplied by
  -- the factor exactly once afterwards, and nothing behind them is written.
  pub parallel_scale-scales :
      (k base : ℕ) (order : List Space → List Space) (n : ℕ) (my_vector : ℕ → v.Value)
      → 0 < base
      → n < 2 ^ 64
      → n ≤ base * 2 ^ k
      → ((ss : List Space) → Perm ss (order ss))
      → (result : ℕ → v.Value) × (parallel_scale (suc k) base order n my_vector ≡ some result)
        × ((i : ℕ) → i < n → result i ≡ v.times (my_vector i) scaling_factor)
        × ((i : ℕ) → n ≤ i → result i ≡ my_vector i)
  unfolding parallel_scale space_1D
  parallel_scale-scales k base order n my_vector pos small fits any =
      let (ss, done, seen) =
        parallel_for-visits k base (space_1D base 0 n) pos
          (space_1D-IsValid base 0 n (omega arith) small) (omega (arith, fits)) in
      let final : (i : ℕ) → invoke_all (order ss) my_vector i ≡ often (inside 0 n i) (my_vector i) =
        λ i.
          invoke_all-often (order ss) my_vector i
          ∙ ap (λ m. often m (my_vector i)) (sym (visits-perm i (any ss)) ∙ seen i) in
      (
        invoke_all (order ss) my_vector,
        ap (λ o. o >>= λ spaces. some (invoke_all (order spaces) my_vector)) done,
        λ i h.
            let once : inside 0 n i ≡ 1 = ground arith in
            final i ∙ ap (λ m. often m (my_vector i)) once,
        λ i h.
            let never : inside 0 n i ≡ 0 = ground arith in
            final i ∙ ap (λ m. often m (my_vector i)) never,
      )
