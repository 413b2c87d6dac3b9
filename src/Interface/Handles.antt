-- ===== src/Interface/Handles.antt =====
-- The handles of the C interface (lib/pfunc_c.cpp): a handle is the address of an object of the C++
-- interface, and each function calls a method of it. One heap for each kind of object; NULL is 0. An access
-- to an address that has no object is `none`: the code does not test its handles.
pub mod Settings
pub mod Getters
pub mod Groups
use pfunc.Base.{ℕ, Option, none, some, Bool, true, false, not, ◌==◌, if◌then◌else◌, update}
use pfunc.Task.Attribute.{Attribute, attribute}
use pfunc.Task.Group.{Group, BarrierType, default_group}
use pfunc.Task.Object.{Task, task}
use pfunc.Task.Exception.{Result, returns, throws}
use pfunc.Thread.{ThreadCall}
use pfunc.Manager.Startup.{Setup, taskmgr, set_max_attempts, get_max_attempts}
use pfunc.Interface.Codes.{ℤ, success, number}

module _ {A : Type 0} where
  -- `new (std::nothrow)`, which returned the address `new`; a NULL is stored in the handle as well.
  abbrev pub init : ℕ → A → (ℕ → Option A) → (ℕ × (ℕ → Option A)) × ℤ
  init new a objects =
      if new == 0 then ((0, objects), success) else ((new, update objects new (some a)), success)

  abbrev pub deleted : ℕ → (ℕ → Option A) → Option A → Option ((ℕ → Option A) × ℤ)
  deleted handle objects none = none
  deleted handle objects (some a) = some (update objects handle none, success)

  -- `delete`, which does nothing on NULL.
  abbrev pub clear : ℕ → (ℕ → Option A) → Option ((ℕ → Option A) × ℤ)
  clear handle objects =
      if handle == 0 then some (objects, success) else deleted handle objects (objects handle)

  abbrev pub written : (A → A) → ℕ → (ℕ → Option A) → Option A → Option ((ℕ → Option A) × ℤ)
  written f handle objects none = none
  written f handle objects (some a) = some (update objects handle (some (f a)), success)

  abbrev pub got {ℓ} : {B : Type ℓ} → (A → B) → Option A → Option (B × ℤ)
  got f none = none
  got f (some a) = some (f a, success)

-- `(nested==0) ? false: true`, and the number of a `bool`.
abbrev pub flag : ℕ → Bool
flag n = not (n == 0)

abbrev pub of_bool : Bool → ℕ
of_bool true = 1
of_bool false = 0

module _ {P : Type 0} where
  -- `pfunc_*_attr_init` and `pfunc_*_attr_clear`.
  abbrev pub attr_init : P → ℕ → (ℕ → Option (Attribute P)) → (ℕ × (ℕ → Option (Attribute P))) × ℤ
  attr_init lowest new attrs = init new (attribute lowest true false) attrs

  abbrev pub attr_clear : ℕ → (ℕ → Option (Attribute P)) → Option ((ℕ → Option (Attribute P)) × ℤ)
  attr_clear attr attrs = clear attr attrs

  unfoldable pub attr_priority_set :
      ℕ → P → (ℕ → Option (Attribute P)) → Option ((ℕ → Option (Attribute P)) × ℤ)
  attr_priority_set attr priority attrs =
      written (λ a. record a { priority = priority }) attr attrs (attrs attr)

  unfoldable pub attr_qnum_set :
      ℕ → ℕ → (ℕ → Option (Attribute P)) → Option ((ℕ → Option (Attribute P)) × ℤ)
  attr_qnum_set attr queue_num attrs =
      written (λ a. record a { queue_number = queue_num }) attr attrs (attrs attr)

  unfoldable pub attr_num_waiters_set :
      ℕ → ℕ → (ℕ → Option (Attribute P)) → Option ((ℕ → Option (Attribute P)) × ℤ)
  attr_num_waiters_set attr num_waiters attrs =
      written (λ a. record a { num_waiters = num_waiters }) attr attrs (attrs attr)

  unfoldable pub attr_nested_set :
      ℕ → ℕ → (ℕ → Option (Attribute P)) → Option ((ℕ → Option (Attribute P)) × ℤ)
  attr_nested_set attr nested attrs =
      written (λ a. record a { is_nested = flag nested }) attr attrs (attrs attr)

  unfoldable pub attr_grouped_set :
      ℕ → ℕ → (ℕ → Option (Attribute P)) → Option ((ℕ → Option (Attribute P)) × ℤ)
  attr_grouped_set attr grouped attrs =
      written (λ a. record a { join_group = flag grouped }) attr attrs (attrs attr)

  unfoldable pub attr_level_set :
      ℕ → ℕ → (ℕ → Option (Attribute P)) → Option ((ℕ → Option (Attribute P)) × ℤ)
  attr_level_set attr level attrs =
      written (λ a. record a { level = level }) attr attrs (attrs attr)

  unfoldable pub attr_priority_get : ℕ → (ℕ → Option (Attribute P)) → Option (P × ℤ)
  attr_priority_get attr attrs = got (λ a. a.priority) (attrs attr)

  unfoldable pub attr_qnum_get : ℕ → (ℕ → Option (Attribute P)) → Option (ℕ × ℤ)
  attr_qnum_get attr attrs = got (λ a. a.queue_number) (attrs attr)

  unfoldable pub attr_num_waiters_get : ℕ → (ℕ → Option (Attribute P)) → Option (ℕ × ℤ)
  attr_num_waiters_get attr attrs = got (λ a. a.num_waiters) (attrs attr)

  unfoldable pub attr_nested_get : ℕ → (ℕ → Option (Attribute P)) → Option (ℕ × ℤ)
  attr_nested_get attr attrs = got (λ a. of_bool a.is_nested) (attrs attr)

  unfoldable pub attr_grouped_get : ℕ → (ℕ → Option (Attribute P)) → Option (ℕ × ℤ)
  attr_grouped_get attr attrs = got (λ a. of_bool a.join_group) (attrs attr)

  unfoldable pub attr_level_get : ℕ → (ℕ → Option (Attribute P)) → Option (ℕ × ℤ)
  attr_level_get attr attrs = got (λ a. a.level) (attrs attr)

-- `pfunc_*_group_init`, `pfunc_*_group_clear`, and the functions on a group.
abbrev pub group_init : ℕ → (ℕ → Option Group) → (ℕ × (ℕ → Option Group)) × ℤ
group_init new groups = init new default_group groups

abbrev pub group_clear : ℕ → (ℕ → Option Group) → Option ((ℕ → Option Group) × ℤ)
group_clear group groups = clear group groups

unfoldable pub group_size_set : ℕ → ℕ → (ℕ → Option Group) → Option ((ℕ → Option Group) × ℤ)
group_size_set group size groups =
    written (λ g. record g { group_size = size }) group groups (groups group)

unfoldable pub group_id_set : ℕ → ℕ → (ℕ → Option Group) → Option ((ℕ → Option Group) × ℤ)
group_id_set group id groups = written (λ g. record g { group_id = id }) group groups (groups group)

-- The barrier types that pfunc_common.h names.
unfoldable pub group_barrier_set :
    ℕ → BarrierType → (ℕ → Option Group) → Option ((ℕ → Option Group) × ℤ)
group_barrier_set group barrier groups =
    written (λ g. record g { type_of_barrier = barrier }) group groups (groups group)

unfoldable pub group_size_get : ℕ → (ℕ → Option Group) → Option (ℕ × ℤ)
group_size_get group groups = got (λ g. g.group_size) (groups group)

unfoldable pub group_id_get : ℕ → (ℕ → Option Group) → Option (ℕ × ℤ)
group_id_get group groups = got (λ g. g.group_id) (groups group)

unfoldable pub group_barrier_get : ℕ → (ℕ → Option Group) → Option (BarrierType × ℤ)
group_barrier_get group groups = got (λ g. g.type_of_barrier) (groups group)

module _ {P : Type 0} where
  -- `pfunc_*_task_init` and `pfunc_*_task_clear`.
  abbrev pub task_init : P → ℕ → (ℕ → Option (Task P)) → (ℕ × (ℕ → Option (Task P))) × ℤ
  task_init lowest new tasks = init new (task (attribute lowest true false)) tasks

  abbrev pub task_clear : ℕ → (ℕ → Option (Task P)) → Option ((ℕ → Option (Task P)) × ℤ)
  task_clear task tasks = clear task tasks

module _ {Q : Type 0} where
  -- The constructor returned or threw; where it threw, the handle is not written.
  abbrev pub constructed :
      ℕ
      → ℕ
      → (ℕ → Option (Setup Q))
      → Setup Q × Result (Unit {0})
      → (ℕ × (ℕ → Option (Setup Q))) × ℤ
  constructed old new taskmgrs (s, returns u) = ((new, update taskmgrs new (some s)), success)
  constructed old new taskmgrs (s, throws e) = ((old, taskmgrs), number e.error_code)

  -- `pfunc_*_taskmgr_init` on a handle that has the value `old`.
  unfoldable pub taskmgr_init :
      (ℕ → ThreadCall → ℕ)
      → ℕ
      → (ℕ → ℕ)
      → Q
      → ℕ
      → ℕ
      → ℕ
      → (ℕ → ℕ)
      → Option (ℕ → ℕ → ℕ)
      → (ℕ → Option (Setup Q))
      → (ℕ × (ℕ → Option (Setup Q))) × ℤ
  taskmgr_init os reroute args empty old new num_queues num_threads_per_queue affinities taskmgrs =
      let made = taskmgr os reroute args empty num_queues num_threads_per_queue affinities in
      if new == 0 then ((0, taskmgrs), success) else constructed old new taskmgrs made

  unfoldable pub taskmgr_max_attempts_set :
      ℕ → ℕ → (ℕ → Option (Setup Q)) → Option ((ℕ → Option (Setup Q)) × ℤ)
  taskmgr_max_attempts_set handle max_attempts taskmgrs =
      written (λ m. set_max_attempts m max_attempts) handle taskmgrs (taskmgrs handle)

  unfoldable pub taskmgr_max_attempts_get : ℕ → (ℕ → Option (Setup Q)) → Option (ℕ × ℤ)
  taskmgr_max_attempts_get handle taskmgrs = got (λ m. get_max_attempts m) (taskmgrs handle)
