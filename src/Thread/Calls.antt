-- ===== src/Thread/Calls.antt =====
-- How the wrappers of pfunc/thread.hpp, pfunc/mutex.hpp and pfunc/cond.hpp call the system: one call
-- after the other, and the first error code that is not 0 is thrown.
use Prim.Native.String.{String}
use pfunc.Base.{
  ℕ, ◌≡◌, ◌≢◌, refl, ap, ◌⊎◌, inl, inr, List, [], ◌∷◌, ◌++◌, map, ◌==◌, if◌then◌else◌, arith,
  ℕ_discrete,
}
use pfunc.Task.Exception.{Exception, system_error, Result, returns, throws}

-- A call, and the trace and the text of the exception that a failure throws.
pub record Attempt (C : Type 0) : Type 0 where
  pub call : C
  pub site : String
  pub what : String

abbrev pub failure : {C : Type 0} → Attempt C → ℕ → Exception
failure a code = record {
  error_trace = a.site ∷ [];
  error_string = a.what;
  error_code = system_error code;
}

-- What the system is asked to do, and what comes of it. `os` gives the code that a call returns.
abbrev pub Outcome : Type 0 → Type 0
Outcome C = List C × Result (Unit {0})

module _ {C : Type 0} (os : C → ℕ) where
  abbrev and_then : C → Outcome C → Outcome C
  and_then c (calls, r) = (c ∷ calls, r)

  unfoldable pub checked : List (Attempt C) → Outcome C
  checked [] = ([], returns tt)
  checked (a ∷ rest) =
      let later = checked rest in
      if os a.call == 0
      then and_then a.call later
      else (a.call ∷ [], throws (failure a (os a.call)))

  -- All calls succeeded, or `a` is the first that failed.
  abbrev pub Succeeded : List (Attempt C) → Type 0
  Succeeded [] = Unit {0}
  Succeeded (a ∷ rest) = (os a.call ≡ 0) × Succeeded rest

  abbrev pub Failed : List (Attempt C) → List (Attempt C) → Attempt C → Type 0
  Failed plan done a =
      (rest : List (Attempt C)) × (plan ≡ done ++ a ∷ rest) × Succeeded done × (os a.call ≢ 0)

  -- Where all calls succeed, all are made and the wrapper returns; else the calls end with the first
  -- that failed, and its code is thrown.
  pub checked-Outcome :
      (plan : List (Attempt C))
      → (Succeeded plan × (checked plan ≡ (map (λ a. a.call) plan, returns tt)))
        ⊎ ((done : List (Attempt C)) × (a : Attempt C) × Failed plan done a
            × (checked plan
                ≡ (map (λ b. b.call) done ++ a.call ∷ [], throws (failure a (os a.call)))))
  unfolding checked
  checked-Outcome [] = inl (tt, refl)
  checked-Outcome (a ∷ rest) = elim (ℕ_discrete (os a.call) 0) [
    | no bad ↦ inr ([], a, (rest, refl, tt, bad), ground arith)
    | yes good ↦ elim (checked-Outcome rest) [
      | inl (all, e) ↦ inl ((good, all), ground (arith, e))
      | inr (done, b, (after, split, before, bad), e) ↦
          inr (a ∷ done, b, (after, ap (◌∷◌ a) split, (good, before), bad), ground (arith, e))
    ]
  ]
