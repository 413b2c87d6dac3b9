-- ===== src/Interface/Sets.antt =====
-- `wait_all` and `test_all`: over a range of tasks in pfunc/pfunc.hpp, and over an array in
-- lib/pfunc_c.cpp.
use pfunc.Base.{
  ℕ, zero, suc, ◌+◌, ◌≤◌, ◌<◌, ◌≡◌, refl, sym, ap, ◌∙◌, List, [], ◌∷◌, Option, none, some, Bool,
  arith, set, length, get_elem?, set-set, length-set, get_elem?-set_ne, get_elem?-set_self, ◌⊎◌,
  inl, inr,
}
use pfunc.Task.Exception.{Result, returns, throws}

-- `wait_all` of pfunc/pfunc.hpp, over what `wait` does to a state for each task; `none` is a
-- wait that does not return.
abbrev pub then_wait :
    {S : Type 0}
    → (S → Option (S × Result (Unit {0})))
    → Option (S × Result (Unit {0}))
    → Option (S × Result (Unit {0}))
then_wait next none = none
then_wait next (some (s, returns u)) = next s
then_wait next (some (s, throws e)) = some (s, throws e)

unfoldable pub wait_all :
    {S A : Type 0}
    → (A → S → Option (S × Result (Unit {0})))
    → List A
    → S
    → Option (S × Result (Unit {0}))
wait_all wait [] s = some (s, returns tt)
wait_all wait (task ∷ rest) s = then_wait (wait_all wait rest) (wait task s)

-- What the tests of a range find, one after the other: the first that throws is the last.
abbrev pub then_test : {S B C : Type 0} → (S → B → S × Result C) → S × Result B → S × Result C
then_test next (s, returns b) = next s b
then_test next (s, throws e) = (s, throws e)

abbrev pub cons_result : {S B : Type 0} → B → S × Result (List B) → S × Result (List B)
cons_result b (s, returns bs) = (s, returns (b ∷ bs))
cons_result b (s, throws e) = (s, throws e)

module _ {S A : Type 0} (test : A → S → S × Result Bool) where
  -- The results of all tests, in order.
  unfoldable pub each_test : List A → S → S × Result (List Bool)
  each_test [] s = (s, returns [])
  each_test (task ∷ rest) s =
      then_test (λ t done. cons_result done (each_test rest t)) (test task s)

  -- A test, for a caller who also writes to an array.
  abbrev pub with_array : List Bool → S × Result Bool → (S × List Bool) × Result Bool
  with_array array (s, r) = ((s, array), r)

  -- `test_all` of pfunc/pfunc.hpp, with `completion_arr` and `return_value`; its index stays 0.
  unfoldable pub test_all : List A → S × List Bool → Bool → (S × List Bool) × Result Bool
  test_all [] s return_value = (s, returns return_value)
  test_all (task ∷ rest) (s, completion_arr) return_value =
      then_test (λ t done. test_all rest (t.0, set t.1 0 done) done)
        (with_array completion_arr (test task s))

  -- `pfunc_*_test_all` of lib/pfunc_c.cpp, from the task `i` on.
  unfoldable pub c_test_all : List A → ℕ → S × List Bool → (S × List Bool) × Result (Unit {0})
  c_test_all [] i s = (s, returns tt)
  c_test_all (task ∷ rest) i (s, completed) =
      then_test (λ t done. c_test_all rest (i + 1) (t.0, set t.1 i done))
        (with_array completed (test task s))

  -- The tests of a range, where none throws.
  each_test-step :
      (task : A) (rest : List A) (s t : S) (bs : List Bool)
      → each_test (task ∷ rest) s ≡ (t, returns bs)
      → (u : S) × (b : Bool) × (bs' : List Bool) × (test task s ≡ (u, returns b))
        × (bs ≡ b ∷ bs')
        × (each_test rest u ≡ (t, returns bs'))
  unfolding each_test
  each_test-step task rest s t bs = from_test (test task s)
    where
      from_rest :
          (u : S) (b : Bool) (r : S × Result (List Bool))
          → cons_result b r ≡ (t, returns bs)
          → (bs' : List Bool) × (bs ≡ b ∷ bs') × (r ≡ (t, returns bs'))
      from_rest u b (v, returns xs) e = (xs, ground (arith, e), ground (arith, e))
      from_rest u b (v, throws x) e = cc

      from_test :
          (r : S × Result Bool)
          → then_test (λ u done. cons_result done (each_test rest u)) r ≡ (t, returns bs)
          → (u : S) × (b : Bool) × (bs' : List Bool) × (r ≡ (u, returns b))
            × (bs ≡ b ∷ bs')
            × (each_test rest u ≡ (t, returns bs'))
      from_test (u, returns b) e =
          let (bs', same, later) = from_rest u b (each_test rest u) e in
          (u, b, bs', refl, same, later)
      from_test (u, throws x) e = cc

  abbrev pub last_of : List Bool → Bool → Bool
  last_of [] b = b
  last_of (x ∷ xs) b = last_of xs x

  -- The first place of an array, once something is written there.
  abbrev pub first_written : List Bool → Bool → List Bool → List Bool
  first_written [] b array = array
  first_written (x ∷ xs) b array = set array 0 (last_of xs x)

  abbrev answered : S → List Bool → Bool → (S × List Bool) × Result Bool
  answered s array b = ((s, array), returns b)

  first_written-set :
      (xs : List Bool) (b : Bool) (array : List Bool)
      → first_written xs b (set array 0 b) ≡ set array 0 (last_of xs b)
  first_written-set [] b array = refl
  first_written-set (x ∷ xs) b array = set-set array 0 b (last_of xs x)

  -- `test_all` of the C++ interface tells of the last task alone: where no test throws, it returns the
  -- last one's result, or false for no task, and of the array it writes the first place only, with
  -- that result.
  pub test_all-last :
      (tasks : List A) (s t : S) (bs completion_arr : List Bool) (b : Bool)
      → each_test tasks s ≡ (t, returns bs)
      → test_all tasks (s, completion_arr) b
        ≡ ((t, first_written bs b completion_arr), returns (last_of bs b))
  unfolding test_all each_test
  test_all-last [] s t bs arr b e =
      let none_tested : bs ≡ [] = ground (arith, e) in
      let same : t ≡ s = ground (arith, e) in rw (none_tested, same) refl
  test_all-last (task ∷ rest) s t bs arr b e =
      let (u, x, bs', first, same, later) = each_test-step task rest s t bs e in
      let written : first_written bs' x (set arr 0 x) ≡ set arr 0 (last_of bs' x) =
        first_written-set bs' x arr in
      ap (λ r. then_test (λ v done. test_all rest (v.0, set v.1 0 done) done) (with_array arr r))
        first
      ∙ test_all-last rest u t bs' (set arr 0 x) x later
      ∙ ap (λ a. answered t a (last_of bs' x)) written
      ∙ ap (λ l. answered t (first_written l b arr) (last_of l b)) (sym same)

  -- The places of the first task, and of the rest.
  place_each :
      (completed' completed : List Bool) (i : ℕ) (x : Bool) (bs bs' : List Bool) {n : ℕ}
      → bs ≡ x ∷ bs'
      → ((k : ℕ)
          → (k < i + 1) ⊎ (i + 1 + n ≤ k)
          → get_elem? completed' k ≡ get_elem? (set completed i x) k)
      → ((k : ℕ) → k < n → get_elem? completed' (i + 1 + k) ≡ get_elem? bs' k)
      → i < length completed
      → (k : ℕ) → k < suc n
      → get_elem? completed' (i + k) ≡ get_elem? bs k
  place_each completed' completed i x bs bs' same others each inside zero h =
      let here : i ≡ i + 0 = omega arith in
      ap (get_elem? completed') (sym here)
      ∙ others i (inl (omega arith))
      ∙ get_elem?-set_self completed i x inside
      ∙ ap (λ l. get_elem? l 0) (sym same)
  place_each completed' completed i x bs bs' same others each inside (suc k) h =
      let later : i + 1 + k ≡ i + suc k = omega arith in
      ap (get_elem? completed') (sym later)
      ∙ each k (omega arith)
      ∙ ap (λ l. get_elem? l (suc k)) (sym same)

  -- `test_all` of the C interface tells of each task: where no test throws, the array has at each
  -- place from the first on the result of the task at that place, and beyond the tasks what it had.
  pub c_test_all-each :
      (tasks : List A) (i : ℕ) (s t : S) (bs completed : List Bool)
      → each_test tasks s ≡ (t, returns bs)
      → i + length tasks ≤ length completed
      → (completed' : List Bool) × (c_test_all tasks i (s, completed)
          ≡ ((t, completed'), returns tt))
        × (length completed' ≡ length completed)
        × (length bs ≡ length tasks)
        × ((k : ℕ) → k < length tasks → get_elem? completed' (i + k) ≡ get_elem? bs k)
        × ((k : ℕ)
            → (k < i) ⊎ (i + length tasks ≤ k)
            → get_elem? completed' k ≡ get_elem? completed k)
  unfolding c_test_all each_test
  c_test_all-each [] i s t bs completed e inside =
      let none_tested : bs ≡ [] = ground (arith, e) in
      let same : s ≡ t = ground (arith, e) in
      (
        completed,
        rw same refl,
        refl,
        ap length none_tested,
        λ k h. absurd (omega arith),
        λ k h. refl,
      )
  c_test_all-each (task ∷ rest) i s t bs completed e inside =
      let (u, x, bs', first, same, later) = each_test-step task rest s t bs e in
      let set_in = set completed i x in
      let kept : length set_in ≡ length completed = length-set completed i x in
      let (completed', result, measured, counted, each, others) =
        c_test_all-each rest (i + 1) u t bs' set_in later (omega arith) in
      (
        completed',
        ap
              (λ r.
                then_test (λ v done. c_test_all rest (i + 1) (v.0, set v.1 i done))
                  (with_array completed r))
              first
            ∙ result,
        measured ∙ kept,
        ap length same ∙ ap suc counted,
        λ k h. place_each completed' completed i x bs bs' same others each (omega arith) k h,
        λ k h.
            others k (elim h [ inl low ↦ inl (omega arith) | inr high ↦ inr (omega arith) ])
            ∙ get_elem?-set_ne completed x
                (elim h [ inl low ↦ λ eq. omega arith | inr high ↦ λ eq. omega arith ]),
      )
