-- ===== src/Interface/Global.antt =====
-- The functions of the C interface (lib/pfunc_c.cpp) on the global task manager: those that set it, and
-- those that call their local counterparts with it. The manager is a handle, and 0 is NULL.
use pfunc.Base.{ℕ, List, Option, none, some, Bool, ◌==◌, if◌then◌else◌}
use pfunc.Task.Exception.{invalid_arguments, Result}
use pfunc.Scheduler.Policy.{Contract}
use pfunc.Sync.Barrier.{Place}
use pfunc.Manager.Startup.{Setup}
use pfunc.Interface.Sets.{c_test_all}
use pfunc.Interface.Codes.{ℤ, success, number, c_wait, c_wait_all, c_wait_any, c_test}
use pfunc.Interface.Handles.{taskmgr_max_attempts_set, taskmgr_max_attempts_get}
use pfunc.Interface.Running.{World, spawn_c, spawn_cxx, thread_id, group_rank, group_size, barrier}

-- `pfunc_*_init`: the global manager afterwards, and the status. `none` is a NULL pointer to a handle.
unfoldable pub global_init : Option ℕ → ℕ → ℕ × ℤ
global_init none global_tmanager = (global_tmanager, number invalid_arguments)
global_init (some local_tmanager) global_tmanager =
    if local_tmanager == 0
    then (global_tmanager, number invalid_arguments)
    else (local_tmanager, success)

-- `pfunc_*_clear`.
unfoldable pub global_clear : ℕ → ℕ × ℤ
global_clear global_tmanager =
    if global_tmanager == 0 then (global_tmanager, number invalid_arguments) else (0, success)

-- `pfunc_*_taskmgr_max_attempts_set_gbl` and `pfunc_*_taskmgr_max_attempts_get_gbl`.
module _ {Q : Type 0} where
  abbrev pub max_attempts_set_gbl :
      ℕ → ℕ → (ℕ → Option (Setup Q)) → Option ((ℕ → Option (Setup Q)) × ℤ)
  max_attempts_set_gbl global_tmanager max_attempts taskmgrs =
      taskmgr_max_attempts_set global_tmanager max_attempts taskmgrs

  abbrev pub max_attempts_get_gbl : ℕ → (ℕ → Option (Setup Q)) → Option (ℕ × ℤ)
  max_attempts_get_gbl global_tmanager taskmgrs = taskmgr_max_attempts_get global_tmanager taskmgrs

-- The waits and the tests, over what the wait for a task and its test do with a task manager.
module _ {S : Type 0} (wait : ℕ → ℕ → S → Option (S × Result (Unit {0})))
    (test : ℕ → ℕ → S → S × Result Bool) where
  abbrev pub wait_gbl : ℕ → ℕ → S → Option (S × ℤ)
  wait_gbl global_tmanager task s = c_wait (wait global_tmanager) task s

  abbrev pub wait_all_gbl : ℕ → List ℕ → S → Option (S × ℤ)
  wait_all_gbl global_tmanager tasks s = c_wait_all (wait global_tmanager) tasks s

  abbrev pub wait_any_gbl : ℕ → List ℕ → S × List Bool → (S × List Bool) × ℤ
  wait_any_gbl global_tmanager tasks s = c_wait_any tasks s

  abbrev pub test_gbl : ℕ → ℕ → S → S × ℤ
  test_gbl global_tmanager task s = c_test (test global_tmanager) task s

  abbrev pub test_all_gbl : ℕ → List ℕ → S × List Bool → (S × List Bool) × Result (Unit {0})
  test_all_gbl global_tmanager tasks s = c_test_all (test global_tmanager) tasks 0 s

module _ {P : Type 0} (c : Contract ℕ) where
  abbrev pub spawn_c_gbl :
      World P c.Queue → ℕ → ℕ → ℕ → ℕ → ℕ → ℕ → ℕ → ℕ → Option (World P c.Queue × ℤ)
  spawn_c_gbl w self new global_tmanager task attr group work arg =
      spawn_c c w self new global_tmanager task attr group work arg

  abbrev pub spawn_cxx_gbl : World P c.Queue → ℕ → ℕ → ℕ → ℕ → ℕ → ℕ → Option (World P c.Queue × ℤ)
  spawn_cxx_gbl w self global_tmanager task attr group work =
      spawn_cxx c w self global_tmanager task attr group work

module _ {P Q : Type 0} where
  abbrev pub thread_id_gbl : World P Q → ℕ → ℕ → Option (ℕ × ℤ)
  thread_id_gbl w self global_tmanager = thread_id w self global_tmanager

  abbrev pub group_rank_gbl : World P Q → ℕ → ℕ → Option (ℕ × ℤ)
  group_rank_gbl w self global_tmanager = group_rank w self global_tmanager

  abbrev pub group_size_gbl : World P Q → ℕ → ℕ → Option (ℕ × ℤ)
  group_size_gbl w self global_tmanager = group_size w self global_tmanager

  abbrev pub barrier_gbl : World P Q → ℕ → ℕ → Option ((World P Q × Place) × ℤ)
  barrier_gbl w self global_tmanager = barrier w self global_tmanager
