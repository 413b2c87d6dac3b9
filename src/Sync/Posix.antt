-- ===== src/Sync/Posix.antt =====
-- The mutex of pfunc/mutex.hpp and the condition variable of pfunc/cond.hpp over pthreads, with
-- exceptions. The system is a parameter: `os` says which code each call returns.
use Prim.Native.String.{String}
use pfunc.Base.{ℕ, ◌≡◌, ◌≢◌, List, [], ◌∷◌, Bool, true, false, ◌==◌, if◌then◌else◌, arith, ◌↔◌}
use pfunc.Task.Exception.{Result, returns, throws}
use pfunc.Thread.Calls.{Outcome, checked, failure}

pub data PosixCall : Type 0 where
  mutex_init mutex_destroy mutex_lock mutex_unlock : PosixCall
  cond_init cond_destroy cond_wait cond_signal cond_broadcast : PosixCall

module _ (os : PosixCall → ℕ) where
  -- One call, and the trace (without the file and the line) and the text of its exception.
  abbrev pub single : PosixCall → String → String → Outcome PosixCall
  single call site what = checked os (record { call = call; site = site; what = what } ∷ [])

  -- `mutex ()`, `~mutex ()`, `lock` and `unlock`.
  abbrev pub mutex : Outcome PosixCall
  mutex =
      single mutex_init "pfunc::detail::mutex::mutex::pthread_mutex_init at "
        "Error initializing the mutex"

  abbrev pub destroy_mutex : Outcome PosixCall
  destroy_mutex =
      single mutex_destroy "pfunc::detail::mutex::mutex::pthread_mutex_destroy at "
        "Error destroying the mutex"

  abbrev pub lock : Outcome PosixCall
  lock =
      single mutex_lock "pfunc::detail::mutex::mutex::pthread_mutex_lock at "
        "Error locking the mutex"

  abbrev pub unlock : Outcome PosixCall
  unlock =
      single mutex_unlock "pfunc::detail::mutex::mutex::pthread_mutex_unlock at "
        "Error unlocking the mutex"

  -- `trylock`, where there is errno.h; `ebusy` is its `EBUSY`.
  unfoldable pub trylock : ℕ → List PosixCall × Result Bool
  trylock ebusy =
      let error = os mutex_lock in
      (
        mutex_lock ∷ [],
        if error == 0
            then returns true
            else if error == ebusy
            then returns false
            else throws (
                failure
                  (record {
                    call = mutex_lock;
                    site = "pfunc::detail::mutex::mutex::pthread_mutex_trylock at ";
                    what = "Error trying to lock the mutex";
                  })
                  error),
      )

  -- `cond ()`, `~cond ()`, `wait`, `signal` and `broadcast`.
  abbrev pub cond : Outcome PosixCall
  cond =
      single cond_init "pfunc::detail::cond::cond::pthread_cond_init at "
        "Error in initializing the condition variable"

  abbrev pub destroy_cond : Outcome PosixCall
  destroy_cond =
      single cond_destroy "pfunc::detail::cond::~cond::pthread_cond_destroy at "
        "Error in destroying the condition variable"

  abbrev pub wait : Outcome PosixCall
  wait =
      single cond_wait "pfunc::detail::cond::wait::pthread_cond_wait at "
        "Error in waiting for the condition variable"

  abbrev pub signal : Outcome PosixCall
  signal =
      single cond_signal "pfunc::detail::cond::signal::pthread_cond_signal at "
        "Error in signaling the condition variable"

  abbrev pub broadcast : Outcome PosixCall
  broadcast =
      single cond_broadcast "pfunc::detail::cond::broadcast::pthread_cond_signal at "
        "Error in broadcasting the condition variable"

  -- `trylock` makes the call that `lock` makes, which waits for a held mutex. Where that never returns
  -- EBUSY, as pthreads have it, `trylock` never returns false: it returns true exactly if
  -- `lock` returns, and throws if `lock` throws.
  pub trylock-like_lock :
      (ebusy : ℕ)
      → os mutex_lock ≢ ebusy
      → let (calls, taken) = trylock ebusy in
        let (calls', locked) = lock in
        (calls ≡ calls')
        × (taken ≢ returns false)
        × ((taken ≡ returns true) ↔ (locked ≡ returns tt))
  unfolding trylock checked
  trylock-like_lock ebusy blocks = ground arith
