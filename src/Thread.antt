-- ===== src/Thread.antt =====
-- pfunc/thread.hpp, with pthreads and exceptions: what a thread is given at its start, and how threads
-- are created and joined. The system is a parameter: `os` says which code each call returns.
pub mod Calls
pub mod Laws
use Prim.Native.String.{String}
use pfunc.Base.{
  ℕ, ◌-◌, ◌*◌, ◌^◌, List, [], ◌∷◌, Option, none, some, replicate, ltb, length, set, get_elem?,
  if◌then◌else◌,
}
use pfunc.Task.Exception.{ErrorCode, invalid_attr, invalid_arguments, throws}
use pfunc.Thread.Calls.{Attempt, Outcome, checked}

-- `PFUNC_STACK_MAX` and `PFUNC_NO_AFFINITY`.
abbrev pub stack_max : ℕ
stack_max = 4096 * 4096

abbrev pub no_affinity : ℕ
no_affinity = 2 ^ 32 - 1

pub record ThreadAttr : Type 0 where
  pub stack_size : ℕ
  pub thread_id : ℕ
  pub thread_affinity : ℕ
  pub task_queue_number : ℕ

-- The calls of pthreads that the wrappers make; a start function and its argument are addresses.
pub data ThreadCall : Type 0 where
  attr_init : ThreadCall
  attr_setstacksize : ℕ → ThreadCall
  attr_setscope : ThreadCall
  create : ℕ → ℕ → ThreadCall
  attr_destroy : ThreadCall
  join : ℕ → ThreadCall

abbrev attempt : ThreadCall → String → String → Attempt ThreadCall
attempt call site what = record { call = call; site = site; what = what }

abbrev init_site : String
init_site = "pfunc::detail::thread::create_thread::pthread_attr_init"

-- The calls of `create_thread`, in order.
unfoldable pub create_plan : ℕ → ℕ → ℕ → List (Attempt ThreadCall)
create_plan stack_size func arg =
    attempt attr_init init_site "Could not initialize the attribute"
    ∷ attempt (attr_setstacksize stack_size) init_site "Could not set the stacksize"
    ∷ attempt attr_setscope init_site "Could not set thread scope"
    ∷ attempt (create func arg) init_site "Could not create the thread"
    ∷ attempt attr_destroy init_site "Could not destroy the attribute"
    ∷ []

-- An argument that is NULL.
abbrev pub rejected : String → ErrorCode → Outcome ThreadCall
rejected what code = (
  [],
  throws (record {
    error_trace = "pfunc::detail::thread::create_thread" ∷ [];
    error_string = what;
    error_code = code;
  }),
)

-- `create_thread`; `none` is a NULL pointer.
unfoldable pub create_thread :
    (ThreadCall → ℕ) → Option ThreadAttr → Option ℕ → Option ℕ → Outcome ThreadCall
create_thread os none func arg = rejected "NULL attribute provided" invalid_attr
create_thread os (some attr) none arg = rejected "NULL start function for thread" invalid_arguments
create_thread os (some attr) (some func) none =
    rejected "NULL argument for thread start function" invalid_arguments
create_thread os (some attr) (some func) (some arg) =
    checked os (create_plan attr.stack_size func arg)

-- `join_thread`.
unfoldable pub join_thread : (ThreadCall → ℕ) → ℕ → Outcome ThreadCall
join_thread os handle = checked os (
    attempt (join handle) "pfunc::detail::thread::join_thread::pthread_join"
      "Could not join on the thread"
    ∷ [])

-- `initialize`, `tls_set` and `tls_get` where the compiler has thread-local variables: a vector with one
-- place for each thread, and `self` is `pfunc_thread_self_id`. `none` is an access out of bounds.
abbrev pub initialize : ℕ → List (Option ThreadAttr)
initialize nthreads = replicate nthreads none

abbrev pub tls_set : List (Option ThreadAttr) → ℕ → ThreadAttr → Option (List (Option ThreadAttr))
tls_set tls self attr = if ltb self (length tls) then some (set tls self (some attr)) else none

abbrev pub tls_get : List (Option ThreadAttr) → ℕ → Option (Option ThreadAttr)
tls_get tls self = get_elem? tls self
