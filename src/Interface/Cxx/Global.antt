-- ===== src/Interface/Cxx/Global.antt =====
-- The namespace `global` of pfunc/pfunc.hpp: the functions on the task manager that `init` was given. They
-- call those that take a task manager; without one they are faults.
use pfunc.Base.{ℕ, List, Option, none, some, Bool, false}
use pfunc.Task.Attribute.{Attribute}
use pfunc.Task.Exception.{Result}
use pfunc.Scheduler.Policy.{Contract}
use pfunc.Predicate.{PolicyName}
use pfunc.Sync.Barrier.{Place}
use pfunc.Manager.State.{Manager, Body}
use pfunc.Manager.Startup.{Setup}
use pfunc.Interface.Sets
use pfunc.Interface.Cxx

-- `init` and `clear`, as the value of `global_tmanager` afterwards.
abbrev pub init : {M : Type 0} → M → Option M
init tmanager = some tmanager

abbrev pub clear : {M : Type 0} → Option M
clear = none

-- A call of a function with `*global_tmanager`.
abbrev pub on_global : {M A : Type 0} → Option M → (M → Option A) → Option A
on_global none call = none
on_global (some m) call = call m

module _ {Q : Type 0} where
  abbrev pub thread_id : Option (Setup Q) → ℕ → Option ℕ
  thread_id global_tmanager self = on_global global_tmanager (λ t. Cxx.thread_id t self)

  abbrev pub taskmgr_max_attempts_set : Option (Setup Q) → ℕ → Option (Setup Q)
  taskmgr_max_attempts_set global_tmanager attempts =
      on_global global_tmanager (λ t. some (Cxx.taskmgr_max_attempts_set t attempts))

  abbrev pub taskmgr_max_attempts_get : Option (Setup Q) → Option ℕ
  taskmgr_max_attempts_get global_tmanager =
      on_global global_tmanager (λ t. some (Cxx.taskmgr_max_attempts_get t))

  abbrev pub get_num_queues : Option (Setup Q) → Option ℕ
  get_num_queues global_tmanager = on_global global_tmanager (λ t. some (Cxx.get_num_queues t))

  abbrev pub get_num_threads : Option (Setup Q) → Option ℕ
  get_num_threads global_tmanager = on_global global_tmanager (λ t. some (Cxx.get_num_threads t))

module _ {P Q : Type 0} where
  abbrev pub group_rank : Option (Setup Q) → Manager P Q → ℕ → Option ℕ
  group_rank global_tmanager m self = on_global global_tmanager (λ t. Cxx.group_rank t m self)

  abbrev pub group_size : Option (Setup Q) → Manager P Q → ℕ → Option ℕ
  group_size global_tmanager m self = on_global global_tmanager (λ t. Cxx.group_size t m self)

  abbrev pub barrier : Option (Setup Q) → Manager P Q → ℕ → Option (Manager P Q × Place)
  barrier global_tmanager m self = on_global global_tmanager (λ t. Cxx.barrier t m self)

module _ {P : Type 0} (c : Contract ℕ) where
  -- The three `spawn`s.
  abbrev pub spawn :
      Option (Manager P c.Queue) → ℕ → ℕ → Attribute P → ℕ → ℕ → Option (Manager P c.Queue)
  spawn global_tmanager self task attr grp func =
      on_global global_tmanager (λ m. Cxx.spawn c m self task attr grp func)

  abbrev pub spawn_plain : Option (Manager P c.Queue) → ℕ → ℕ → ℕ → Option (Manager P c.Queue)
  spawn_plain global_tmanager self task func =
      on_global global_tmanager (λ m. Cxx.spawn_plain c m self task func)

  abbrev pub spawn_with_attr :
      Option (Manager P c.Queue) → ℕ → ℕ → Attribute P → ℕ → Option (Manager P c.Queue)
  spawn_with_attr global_tmanager self task attr func =
      on_global global_tmanager (λ m. Cxx.spawn_with_attr c m self task attr func)

  -- `wait` and `wait_all`.
  module _ (policy : PolicyName) (comp : P → P → Bool) (bodies : ℕ → Body P c.Queue)
      (others : ℕ → Manager P c.Queue → Manager P c.Queue) (self fuel max : ℕ) where
    abbrev pub wait :
        Option (Manager P c.Queue) → ℕ → Option (Manager P c.Queue × Result (Unit {0}))
    wait global_tmanager task =
        on_global global_tmanager (λ m. Cxx.wait c policy comp bodies others self fuel max task m)

    abbrev pub wait_all :
        Option (Manager P c.Queue) → List ℕ → Option (Manager P c.Queue × Result (Unit {0}))
    wait_all global_tmanager tasks =
        on_global global_tmanager
          (λ m. Sets.wait_all (Cxx.wait c policy comp bodies others self fuel max) tasks m)

-- `test` and `test_all`, over the test of a task with a task manager.
module _ {M S : Type 0} (test_with : M → ℕ → S → S × Result Bool) where
  abbrev pub test : Option M → ℕ → S → Option (S × Result Bool)
  test global_tmanager task s = on_global global_tmanager (λ m. some (test_with m task s))

  abbrev pub test_all : Option M → List ℕ → S × List Bool → Option ((S × List Bool) × Result Bool)
  test_all global_tmanager tasks s =
      on_global global_tmanager (λ m. some (Sets.test_all (test_with m) tasks s false))
