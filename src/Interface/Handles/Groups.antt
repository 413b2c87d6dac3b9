-- ===== src/Interface/Handles/Groups.antt =====
-- What the getters of groups in the C interface (lib/pfunc_c.cpp) return after any calls of the setters.
use pfunc.Base.{ℕ, ◌≡◌, refl, List, Option, none, some}
use pfunc.Task.Group.{Group, BarrierType}
use pfunc.Interface.Codes.{ℤ, success}
use pfunc.Interface.Handles.{
  written, group_size_set, group_id_set, group_barrier_set, group_size_get, group_id_get,
  group_barrier_get,
}
use pfunc.Interface.Handles.Settings.{set_all, AllLive, overwritten, last, got-last, set_all-after}

-- A call of a setter, with its argument.
pub data GroupCall : Type 0 where
  size_call id_call : ℕ → GroupCall
  barrier_call : BarrierType → GroupCall

unfoldable pub group_set : ℕ → GroupCall → (ℕ → Option Group) → Option ((ℕ → Option Group) × ℤ)
group_set group (size_call n) groups = group_size_set group n groups
group_set group (id_call n) groups = group_id_set group n groups
group_set group (barrier_call b) groups = group_barrier_set group b groups

-- The value that a call gives to each of the fields.
abbrev pub size_of : GroupCall → Option ℕ
size_of (size_call n) = some n
size_of _ = none

abbrev pub id_of : GroupCall → Option ℕ
id_of (id_call n) = some n
id_of _ = none

abbrev pub barrier_of : GroupCall → Option BarrierType
barrier_of (barrier_call b) = some b
barrier_of _ = none

apply : GroupCall → Group → Group
apply (size_call n) g = record g { group_size = n }
apply (id_call n) g = record g { group_id = n }
apply (barrier_call b) g = record g { type_of_barrier = b }

acts :
    (group : ℕ) (call : GroupCall) (groups : ℕ → Option Group)
    → group_set group call groups ≡ written (apply call) group groups (groups group)
unfolding group_set group_size_set group_id_set group_barrier_set apply
acts group (size_call n) groups = refl
acts group (id_call n) groups = refl
acts group (barrier_call b) groups = refl

-- The token of the ranks and the state of the barrier are not set by any call.
fields :
    (call : GroupCall) (g : Group)
    → ((apply call g).group_size ≡ overwritten (size_of call) g.group_size)
      × ((apply call g).group_id ≡ overwritten (id_of call) g.group_id)
      × ((apply call g).type_of_barrier ≡ overwritten (barrier_of call) g.type_of_barrier)
unfolding apply
fields (size_call n) g = (refl, refl, refl)
fields (id_call n) g = (refl, refl, refl)
fields (barrier_call b) g = (refl, refl, refl)

-- Any sequence of calls of the setters of groups, each on a handle that has a group, runs to its end. Every
-- getter then returns, with `PFUNC_SUCCESS`, the last value that its setter was given on its handle, or
-- the value from before where there was none.
pub group_get-last :
    (calls : List (ℕ × GroupCall)) (groups : ℕ → Option Group)
    → AllLive calls groups
    → (after : ℕ → Option Group) × (set_all group_set calls groups ≡ some after)
      × ((group : ℕ) (g : Group)
          → groups group ≡ some g
          → (group_size_get group after ≡ some (last size_of group calls g.group_size, success))
            × (group_id_get group after ≡ some (last id_of group calls g.group_id, success))
            × (group_barrier_get group after
                ≡ some (last barrier_of group calls g.type_of_barrier, success)))
unfolding group_size_get group_id_get group_barrier_get
group_get-last calls groups live =
    let (h, all, ends) = set_all-after group_set apply acts calls groups live in
    (
      h,
      all,
      λ group g before.
          let at = ends group g before in
          (
            got-last apply (λ b. b.group_size) size_of (λ c b. (fields c b).0) group calls g
                (h group) at,
            got-last apply (λ b. b.group_id) id_of (λ c b. (fields c b).1) group calls g (h group)
                at,
            got-last apply (λ b. b.type_of_barrier) barrier_of (λ c b. (fields c b).2) group calls g
                (h group) at,
          ),
    )
