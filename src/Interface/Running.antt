-- ===== src/Interface/Running.antt =====
-- The C interface (lib/pfunc_c.cpp) where it needs a task manager: work objects (pfunc/pfunc.h), spawns,
-- and what a running task asks. As in Handles, an access to an address without an object is `none`.
pub mod Spawns
use pfunc.Base.{ℕ, Option, none, some, ◌==◌, if◌then◌else◌, update}
use pfunc.Task.Attribute.{Attribute}
use pfunc.Scheduler.Policy.{Contract}
use pfunc.Sync.Barrier.{Place}
use pfunc.Manager.State.{Manager, spawn_task}
use pfunc.Manager.Startup.{Setup, current_thread_id}
use pfunc.Manager.Current.{
  read, current_task_group_rank, current_task_group_size, current_task_group_barrier,
}
use pfunc.Interface.Codes.{ℤ, success}
use pfunc.Interface.Handles.{init, clear, written, got}

-- `internal_work_func_t`: a function's address and its argument.
pub record Work : Type 0 where
  pub func_ptr : ℕ
  pub func_arg : ℕ

-- Its two constructors.
abbrev pub internal_work_func : ℕ → ℕ → Work
internal_work_func func arg = record { func_ptr = func; func_arg = arg }

abbrev pub no_work : Work
no_work = record { func_ptr = 0; func_arg = 0 }

-- `pfunc_*_work_init`, `pfunc_*_work_clear`, and the functions on a work object.
abbrev pub work_init : ℕ → (ℕ → Option Work) → (ℕ × (ℕ → Option Work)) × ℤ
work_init new works = init new no_work works

abbrev pub work_clear : ℕ → (ℕ → Option Work) → Option ((ℕ → Option Work) × ℤ)
work_clear work works = clear work works

unfoldable pub work_func_set : ℕ → ℕ → (ℕ → Option Work) → Option ((ℕ → Option Work) × ℤ)
work_func_set work func works = written (λ w. record w { func_ptr = func }) work works (works work)

unfoldable pub work_arg_set : ℕ → ℕ → (ℕ → Option Work) → Option ((ℕ → Option Work) × ℤ)
work_arg_set work arg works = written (λ w. record w { func_arg = arg }) work works (works work)

unfoldable pub work_func_get : ℕ → (ℕ → Option Work) → Option (ℕ × ℤ)
work_func_get work works = got (λ w. w.func_ptr) (works work)

unfoldable pub work_arg_get : ℕ → (ℕ → Option Work) → Option (ℕ × ℤ)
work_arg_get work works = got (λ w. w.func_arg) (works work)

-- The objects that a spawn reads and writes. Tasks and groups are those of the task managers.
pub record World (P : Type 0) (Q : Type 0) : Type 0 where
  pub taskmgrs : ℕ → Option (Setup Q × Manager P Q)
  pub attrs : ℕ → Option (Attribute P)
  pub works : ℕ → Option Work

-- A call that goes through the handle of a task manager.
abbrev pub through :
    {P Q B : Type 0} → World P Q → ℕ → (Setup Q × Manager P Q → Option B) → Option B
through w taskmgr call = elim (w.taskmgrs taskmgr) [ none ↦ none | some m ↦ call m ]

module _ {P : Type 0} (c : Contract ℕ) where
  -- The spawn of the task with this attribute, once the work object is known; `self` is the caller.
  abbrev pub spawned_on :
      World P c.Queue
      → ℕ
      → ℕ
      → Option (Manager P c.Queue)
      → Setup c.Queue
      → Option (World P c.Queue × ℤ)
  spawned_on w self taskmgr none setup = none
  spawned_on w self taskmgr (some m) setup =
      some (record w { taskmgrs = update w.taskmgrs taskmgr (some (setup, m)) }, success)

  abbrev pub spawn_with :
      World P c.Queue
      → ℕ
      → ℕ
      → ℕ
      → Option (Attribute P)
      → ℕ
      → Option Work
      → ℕ
      → Option (World P c.Queue × ℤ)
  spawn_with w self taskmgr task (some attr) group (some work) address =
      through w taskmgr
        (λ m. spawned_on w self taskmgr (spawn_task c m.1 self task attr group address) m.0)
  spawn_with w self taskmgr task _ group _ address = none

  -- `pfunc_*_spawn_cxx`.
  unfoldable pub spawn_cxx : World P c.Queue → ℕ → ℕ → ℕ → ℕ → ℕ → ℕ → Option (World P c.Queue × ℤ)
  spawn_cxx w self taskmgr task attr group work =
      spawn_with w self taskmgr task (w.attrs attr) group (w.works work) work

  -- `pfunc_*_spawn_c`, where `new (std::nothrow)` returned the address `new`.
  unfoldable pub spawn_c :
      World P c.Queue → ℕ → ℕ → ℕ → ℕ → ℕ → ℕ → ℕ → ℕ → Option (World P c.Queue × ℤ)
  spawn_c w self new taskmgr task attr group work arg =
      let made = record w { works = update w.works new (some (internal_work_func work arg)) } in
      if new == 0
      then none
      else spawn_with made self taskmgr task (made.attrs attr) group (made.works new) new

-- What a function stores at the address that it is given, with `PFUNC_SUCCESS`.
abbrev pub stored : {B : Type 0} → Option B → Option (B × ℤ)
stored none = none
stored (some b) = some (b, success)

module _ {P Q : Type 0} where
  -- `pfunc_*_thread_id`, `pfunc_*_group_rank` and `pfunc_*_group_size`, called by thread `self`.
  unfoldable pub thread_id : World P Q → ℕ → ℕ → Option (ℕ × ℤ)
  thread_id w self taskmgr = through w taskmgr (λ m. stored (current_thread_id m.0 self))

  unfoldable pub group_rank : World P Q → ℕ → ℕ → Option (ℕ × ℤ)
  group_rank w self taskmgr = through w taskmgr (λ m. stored (current_task_group_rank m.0 m.1 self))

  unfoldable pub group_size : World P Q → ℕ → ℕ → Option (ℕ × ℤ)
  group_size w self taskmgr = through w taskmgr (λ m. stored (current_task_group_size m.0 m.1 self))

  -- The world when the manager at `taskmgr` has come to a state.
  abbrev pub with_manager : World P Q → ℕ → Setup Q → Manager P Q → World P Q
  with_manager w taskmgr setup m = record w {
    taskmgrs = update w.taskmgrs taskmgr (some (setup, m));
  }

  -- `pfunc_*_barrier`, up to where the caller waits.
  unfoldable pub barrier : World P Q → ℕ → ℕ → Option ((World P Q × Place) × ℤ)
  barrier w self taskmgr = through w taskmgr (λ m.
      stored (
        read (λ b. (with_manager w taskmgr m.0 b.0, b.1))
          (current_task_group_barrier m.0 m.1 self)))
