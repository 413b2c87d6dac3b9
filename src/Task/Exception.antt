-- ===== src/Task/Exception.antt =====
-- pfunc/exception.hpp: the exceptions that the library throws, and what its catch blocks make of one
-- that passes. A trace is the list of its pieces.
pub mod Objects
use Prim.Native.String.{String}
use pfunc.Base.{ℕ, ◌≡◌, List, [], ◌∷◌, ◌++◌, Option, some, arith}

-- `PFUNC_ERROR`, `PFUNC_INVALID_ATTR`, `PFUNC_INVALID_ARGUMENTS`, or a number of the system.
pub data ErrorCode : Type 0 where
  pfunc_error invalid_attr invalid_arguments : ErrorCode
  system_error : ℕ → ErrorCode

-- `exception_generic_impl`.
pub record Exception : Type 0 where
  pub error_trace : List String
  pub error_string : String
  pub error_code : ErrorCode

-- What a catch block can meet: an exception of the library, another `std::exception` with its type's
-- name, or anything else.
pub data Thrown : Type 0 where
  library : Exception → Thrown
  standard : String → String → Thrown
  unknown : Thrown

-- `add_to_trace`.
abbrev pub add_to_trace : String → Exception → Exception
add_to_trace site e = record e { error_trace = e.error_trace ++ site ∷ [] }

-- The exception that `PFUNC_CATCH_AND_STORE` keeps, and that `PFUNC_CATCH_AND_RETHROW` throws on.
unfoldable pub caught : String → Thrown → Exception
caught site (library e) = add_to_trace site e
caught site (standard name what) = record {
  error_trace = name ∷ site ∷ [];
  error_string = what;
  error_code = pfunc_error;
}
caught site unknown = record {
  error_trace = site ∷ [];
  error_string = "Unknown error";
  error_code = pfunc_error;
}

-- The result of a call that may throw.
pub data Result {ℓ} (A : Type ℓ) : Type ℓ where
  returns : A → Result A
  throws : Exception → Result A

-- What a call with a state comes to, told apart.
pub not_thrown :
    {A : Type 0} (v w : A) (e : Exception)
    → ¬ (◌≡◌ {A = Option (A × Result (Unit {0}))} (some (v, throws e)) (some (w, returns tt)))
not_thrown v w e h = cc

pub same_state :
    {A : Type 0} (v w : A)
    → ◌≡◌ {A = Option (A × Result (Unit {0}))} (some (v, returns tt)) (some (w, returns tt))
    → v ≡ w
same_state v w e = ground (arith, e)
