-- ===== src/Interface/Codes.antt =====
-- The numbers that the functions of the C interface return (lib/pfunc_c.cpp, pfunc/pfunc_common.h): an
-- exception is caught, and its error code returned.
use pfunc.Base.{
  ℕ, ◌≡◌, ◌≢◌, refl, subst, ◌⊎◌, inl, inr, ◌↔◌, List, Option, none, some, Bool, true, false, arith,
}
use pfunc.Task.Exception.{
  ErrorCode, pfunc_error, invalid_attr, invalid_arguments, system_error, Result, returns, throws,
}
use pfunc.Interface.Sets.{wait_all}

-- `negsuc n` is -(n + 1).
pub data ℤ : Type 0 where
  pos : ℕ → ℤ
  negsuc : ℕ → ℤ

-- `PFUNC_SUCCESS`, `PFUNC_TASK_COMPLETE` and `PFUNC_TASK_INCOMPLETE`.
abbrev pub success : ℤ
success = pos 0

abbrev pub task_complete : ℤ
task_complete = pos 2

abbrev pub task_incomplete : ℤ
task_incomplete = negsuc 0xFFF4

-- `code ()` of an exception; `PFUNC_ERROR` is -0xFFFF.
unfoldable pub number : ErrorCode → ℤ
number pfunc_error = negsuc 0xFFFE
number invalid_arguments = negsuc 0xFFFB
number invalid_attr = negsuc 0xFFFA
number (system_error n) = pos n

-- `PFUNC_C_CATCH_AND_RETURN_EXCEPTION_CODE` round a call, where it returns.
unfoldable pub status : {B : Type 0} → (B → ℤ) → Result B → ℤ
status code (returns b) = code b
status code (throws e) = number e.error_code

abbrev pub succeeds : Unit {0} → ℤ
succeeds u = success

-- `pfunc_*_test`.
abbrev pub tested : Bool → ℤ
tested true = task_complete
tested false = task_incomplete

module _ {S : Type 0} where
  -- `pfunc_*_wait` and `pfunc_*_wait_all`; `none` is a wait that does not return.
  unfoldable pub waited : Option (S × Result (Unit {0})) → Option (S × ℤ)
  waited none = none
  waited (some (s, r)) = some (s, status succeeds r)

  abbrev pub c_wait : (ℕ → S → Option (S × Result (Unit {0}))) → ℕ → S → Option (S × ℤ)
  c_wait wait task s = waited (wait task s)

  abbrev pub c_wait_all : (ℕ → S → Option (S × Result (Unit {0}))) → List ℕ → S → Option (S × ℤ)
  c_wait_all wait tasks s = waited (wait_all wait tasks s)

  -- `pfunc_*_wait_any`, which waits for nothing and writes nothing.
  abbrev pub c_wait_any : List ℕ → S × List Bool → (S × List Bool) × ℤ
  c_wait_any tasks s = (s, success)

  abbrev pub c_test : (ℕ → S → S × Result Bool) → ℕ → S → S × ℤ
  c_test test task s = let (t, r) = test task s in (t, status tested r)

-- A result that is an exception with this code.
abbrev pub ThrowsCode : {B : Type 0} → Result B → ErrorCode → Type 0
ThrowsCode (returns b) code = ⊥
ThrowsCode (throws e) code = e.error_code ≡ code

number-system : (code : ErrorCode) (n : ℕ) → (number code ≡ pos n) ↔ (code ≡ system_error n)
unfolding number
number-system pfunc_error n = (λ e. cc, λ e. cc)
number-system invalid_arguments n = (λ e. cc, λ e. cc)
number-system invalid_attr n = (λ e. cc, λ e. cc)
number-system (system_error m) n = (λ e. cc, λ e. cc)

number-ne_incomplete : (code : ErrorCode) → number code ≢ task_incomplete
unfolding number
number-ne_incomplete pfunc_error e = ground arith
number-ne_incomplete invalid_arguments e = ground arith
number-ne_incomplete invalid_attr e = ground arith
number-ne_incomplete (system_error m) e = cc

status-tested :
    (r : Result Bool)
    → ((status tested r ≡ task_incomplete) ↔ (r ≡ returns false))
      × ((status tested r ≡ task_complete) ↔ ((r ≡ returns true) ⊎ ThrowsCode r (system_error 2)))
unfolding status
status-tested (returns true) = ((λ e. cc, λ e. cc), (λ e. inl refl, λ e. refl))
status-tested (returns false) =
    ((λ e. refl, λ e. refl), (λ e. cc, λ e. elim e [ inl h ↦ cc | inr h ↦ elim h [ ] ]))
status-tested (throws x) = (
  (λ e. absurd (number-ne_incomplete x.error_code e), λ e. cc),
  (
    λ e. inr ((number-system x.error_code 2).0 e),
    λ e. elim e [ inl h ↦ cc | inr h ↦ (number-system x.error_code 2).1 h ],
  ),
)

status-succeeds :
    (r : Result (Unit {0}))
    → (status succeeds r ≡ success) ↔ ((r ≡ returns tt) ⊎ ThrowsCode r (system_error 0))
unfolding status
status-succeeds (returns u) = (λ e. inl refl, λ e. refl)
status-succeeds (throws x) = (
  λ e. inr ((number-system x.error_code 0).0 e),
  λ e. elim e [ inl h ↦ cc | inr h ↦ (number-system x.error_code 0).1 h ],
)

-- What a caller of the C `test` may conclude: the number for an incomplete task is returned exactly if
-- the test found the task incomplete; that for a complete one exactly if the test found it
-- complete, or threw an exception with the error code 2 of the system, which is the same number.
pub c_test-number :
    {S : Type 0} (test : ℕ → S → S × Result Bool) (task : ℕ) (s : S)
    → (((c_test test task s).1 ≡ task_incomplete) ↔ ((test task s).1 ≡ returns false))
      × (((c_test test task s).1 ≡ task_complete)
          ↔ (((test task s).1 ≡ returns true) ⊎ ThrowsCode (test task s).1 (system_error 2)))
c_test-number test task s = status-tested (test task s).1

-- What a caller of the C `wait_all` may conclude from `PFUNC_SUCCESS`, where it returns: exactly that each wait
-- returned, or that one threw an exception with the error code 0, which is the same number.
pub c_wait_all-success :
    {S : Type 0} (wait : ℕ → S → Option (S × Result (Unit {0}))) (tasks : List ℕ) (s t : S) (n : ℤ)
    → c_wait_all wait tasks s ≡ some (t, n)
    → (r : Result (Unit {0})) × (wait_all wait tasks s ≡ some (t, r))
      × ((n ≡ success) ↔ ((r ≡ returns tt) ⊎ ThrowsCode r (system_error 0)))
unfolding waited
c_wait_all-success {S} wait tasks s t n = from_wait (wait_all wait tasks s)
  where
    from_wait :
        (o : Option (S × Result (Unit {0})))
        → waited o ≡ some (t, n)
        → (r : Result (Unit {0})) × (o ≡ some (t, r))
          × ((n ≡ success) ↔ ((r ≡ returns tt) ⊎ ThrowsCode r (system_error 0)))
    from_wait none e = cc
    from_wait (some (u, r)) e =
        let same : u ≡ t = ground (arith, e) in
        let code : status succeeds r ≡ n = ground (arith, e) in
        (
          r,
          rw same refl,
          subst (λ k. (k ≡ success) ↔ ((r ≡ returns tt) ⊎ ThrowsCode r (system_error 0))) code
              (status-succeeds r),
        )
