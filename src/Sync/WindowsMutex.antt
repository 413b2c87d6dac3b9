-- ===== src/Sync/WindowsMutex.antt =====
-- The mutex of pfunc/mutex.hpp for Windows, with exceptions. The system is a parameter: `os` says for a call
-- 0, or the error code that `GetLastError` then has; a wait has a result of its own besides.
use Prim.Native.String.{String}
use pfunc.Base.{ℕ, ◌≡◌, ◌↔◌, List, [], ◌∷◌, Bool, true, false}
use pfunc.Task.Exception.{Exception, Result, returns, throws}
use pfunc.Thread.Calls.{Outcome, checked, failure}

pub data MutexCall : Type 0 where
  create_mutex close_handle release_mutex wait_infinite wait_zero : MutexCall

-- What `WaitForSingleObject` returns.
pub data WaitResult : Type 0 where
  wait_object_0 wait_timeout wait_abandoned wait_failed : WaitResult

module _ (os : MutexCall → ℕ) where
  abbrev pub one_call : MutexCall → String → String → Outcome MutexCall
  one_call call site what = checked os (record { call = call; site = site; what = what } ∷ [])

  -- `mutex ()`, `~mutex ()` and `unlock`.
  abbrev pub mutex : Outcome MutexCall
  mutex =
      one_call create_mutex "pfunc::detail::mutex::mutex::CreateMutex at "
        "Error initializing the mutex"

  abbrev pub destroy_mutex : Outcome MutexCall
  destroy_mutex =
      one_call close_handle "pfunc::detail::mutex::mutex::CloseHandle at "
        "Error destroying the mutex"

  abbrev pub unlock : Outcome MutexCall
  unlock =
      one_call release_mutex "pfunc::detail::mutex::lock::ReleaseMutex at "
        "Error unlocking the mutex"

  -- What a wait that ended otherwise throws.
  abbrev pub bad_wait : MutexCall → Exception
  bad_wait call =
      failure
        (record {
          call = call;
          site = "pfunc::detail::mutex::lock::WaitForSingleObject at ";
          what = "Error locking the mutex";
        })
        (os call)

  unfoldable pub lock : WaitResult → List MutexCall × Result (Unit {0})
  lock wait_object_0 = (wait_infinite ∷ [], returns tt)
  lock _ = (wait_infinite ∷ [], throws (bad_wait wait_infinite))

  unfoldable pub trylock : WaitResult → List MutexCall × Result Bool
  trylock wait_object_0 = (wait_zero ∷ [], returns true)
  trylock wait_timeout = (wait_zero ∷ [], returns false)
  trylock _ = (wait_zero ∷ [], throws (bad_wait wait_zero))

  -- `lock` returns exactly if its wait ended with `WAIT_OBJECT_0`, and `trylock` then returns true, only
  -- then; `trylock` returns false exactly after a timeout. So both throw after an abandoned wait.
  pub trylock-lock :
      (r : WaitResult)
      → (((lock r).1 ≡ returns tt) ↔ (r ≡ wait_object_0))
        × (((trylock r).1 ≡ returns true) ↔ (r ≡ wait_object_0))
        × (((trylock r).1 ≡ returns false) ↔ (r ≡ wait_timeout))
  unfolding lock trylock
  trylock-lock wait_object_0 = ((λ h. cc, λ h. cc), (λ h. cc, λ h. cc), (λ h. cc, λ h. cc))
  trylock-lock wait_timeout = ((λ h. cc, λ h. cc), (λ h. cc, λ h. cc), (λ h. cc, λ h. cc))
  trylock-lock wait_abandoned = ((λ h. cc, λ h. cc), (λ h. cc, λ h. cc), (λ h. cc, λ h. cc))
  trylock-lock wait_failed = ((λ h. cc, λ h. cc), (λ h. cc, λ h. cc), (λ h. cc, λ h. cc))
