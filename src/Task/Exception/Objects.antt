-- ===== src/Task/Exception/Objects.antt =====
-- The exception objects of pfunc/exception.hpp on the heap, and the pointer `except` of an object whose
-- methods end in the catch blocks there. Address 0 is NULL; `none` is undefined behaviour: a call on NULL or on
-- an object that is gone, or `free` of memory that `new` gave. `malloc` and `new` return the address that they
-- are handed here, 0 when there is no memory. Copies of strings find memory.
pub mod Laws
pub mod Life
use Prim.Native.String.{String}
use pfunc.Base.{ℕ, List, [], ◌∷◌, Option, none, some, Bool, ◌==◌, if◌then◌else◌, update, ◌>>=◌}
use pfunc.Task.Exception.{
  ErrorCode, pfunc_error, Exception, Thrown, library, standard, unknown, add_to_trace,
}

-- Where the memory of an object comes from.
pub data Maker : Type 0 where
  by_malloc by_new : Maker

pub record Object : Type 0 where
  pub maker : Maker
  pub exception : Exception

abbrev pub Heap : Type 0
Heap = ℕ → Option Object

pub record State : Type 0 where
  pub except : ℕ
  pub heap : Heap

-- `exception_generic_impl`.
abbrev pub exception_generic_impl : List String → String → ErrorCode → Exception
exception_generic_impl trace what code = record {
  error_trace = trace;
  error_string = what;
  error_code = code;
}

-- The heap with a copy in the memory at `at`, and the address that is returned.
abbrev pub copied : ℕ → Exception → Heap → Heap × ℕ
copied at e heap =
    if at == 0
    then (heap, 0)
    else (update heap at (some (record { maker = by_malloc; exception = e })), at)

unfoldable pub clone : ℕ → Exception → Heap → Heap × ℕ
clone at e heap = copied at e heap

unfoldable pub convert : ℕ → List String → String → ErrorCode → Heap → Heap × ℕ
convert at trace what code heap = copied at (exception_generic_impl trace what code) heap

-- `free` of the memory of an object.
abbrev pub freed : ℕ → Heap → Maker → Option Heap
freed p heap by_malloc = some (update heap p none)
freed p heap by_new = none

unfoldable pub destroy : ℕ → Heap → Option Heap
destroy p heap = do o ← heap p; freed p heap o.maker

-- `add_to_trace` on the object at an address.
abbrev pub add_to_trace_of : ℕ → String → Heap → Option Heap
add_to_trace_of p site heap = if p == 0 then none else do
  o ← heap p
  some (update heap p (some (record o { exception = add_to_trace site o.exception })))

-- `rethrow`: what the object at an address throws.
unfoldable pub rethrow : ℕ → Heap → Option Exception
rethrow p heap = if p == 0 then none else do o ← heap p; some o.exception

-- `if (NULL != except) except->destroy ()`.
abbrev pub destroy_old : State → Option Heap
destroy_old s = if s.except == 0 then some s.heap else destroy s.except s.heap

-- The first clause of the catch blocks, up to `rethrow`.
unfoldable pub keep_library : String → ℕ → Exception → State → Option State
keep_library site at error s = do
  heap ← destroy_old s
  heap' ← add_to_trace_of (clone at error heap).1 site (clone at error heap).0
  some (record { except = (clone at error heap).1; heap = heap' })

-- The second clause.
unfoldable pub keep_standard : String → ℕ → String → String → State → Option State
keep_standard site at name what s = do
  heap ← destroy_old s
  some (record {
    except = (convert at (name ∷ site ∷ []) what pfunc_error heap).1;
    heap = (convert at (name ∷ site ∷ []) what pfunc_error heap).0;
  })

-- How a catch block is left.
pub data Leaves : Type 0 where
  goes_on : Leaves
  throws_up : Thrown → Leaves

abbrev pub rethrown : State → Option (State × Leaves)
rethrown s = do e ← rethrow s.except s.heap; some (s, throws_up (library e))

-- The exception that the last clause makes.
abbrev pub unknown_error : String → Exception
unknown_error site = exception_generic_impl (site ∷ []) "Unknown error" pfunc_error

-- `PFUNC_CATCH_AND_RETHROW`.
unfoldable pub catch_and_rethrow : String → ℕ → Thrown → State → Option (State × Leaves)
catch_and_rethrow site at (library error) s = do s' ← keep_library site at error s; rethrown s'
catch_and_rethrow site at (standard name what) s = do
  s' ← keep_standard site at name what s
  rethrown s'
catch_and_rethrow site at unknown s = some (s, throws_up (library (unknown_error site)))

-- `PFUNC_CATCH_AND_STORE`; `bad_alloc` is what `new` throws.
unfoldable pub catch_and_store : Thrown → String → ℕ → Thrown → State → Option (State × Leaves)
catch_and_store bad_alloc site at (library error) s = do
  s' ← keep_library site at error s
  some (s', goes_on)
catch_and_store bad_alloc site at (standard name what) s = do
  s' ← keep_standard site at name what s
  some (s', goes_on)
catch_and_store bad_alloc site at unknown s =
    if at == 0
    then some (s, throws_up bad_alloc)
    else some (
      record {
        except = at;
        heap = update s.heap at (some (record { maker = by_new; exception = unknown_error site }));
      },
      goes_on,
    )

-- `PFUNC_CHECK_AND_RETHROW`.
unfoldable pub check_and_rethrow : State → Option (State × Leaves)
check_and_rethrow s = if s.except == 0 then some (s, goes_on) else rethrown s

-- `PFUNC_EXCEPT_PTR_CLEAR`.
unfoldable pub except_ptr_clear : State → Option State
except_ptr_clear s =
    if s.except == 0
    then some s
    else do heap ← destroy s.except s.heap; some (record { except = 0; heap = heap })

-- `PFUNC_EXCEPT_PTR_INIT`.
abbrev pub except_ptr_init : Heap → State
except_ptr_init heap = record { except = 0; heap = heap }

-- An exception that is caught at `site`, with what `malloc` or `new` returns then.
pub record Catch : Type 0 where
  pub rethrows : Bool  -- which of the two blocks it meets
  pub site : String
  pub at : ℕ
  pub thrown : Thrown

abbrev pub catch_one : Thrown → Catch → State → Option (State × Leaves)
catch_one bad_alloc c s =
    if c.rethrows
    then catch_and_rethrow c.site c.at c.thrown s
    else catch_and_store bad_alloc c.site c.at c.thrown s

-- The exceptions that an object catches in its life, in order.
unfoldable pub catches : Thrown → List Catch → State → Option State
catches bad_alloc [] s = some s
catches bad_alloc (c ∷ cs) s = do r ← catch_one bad_alloc c s; catches bad_alloc cs r.0
