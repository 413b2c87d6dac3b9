-- ===== src/Interface/Handles/Getters.antt =====
-- What the getters of the C interface (lib/pfunc_c.cpp) return after any calls of the setters.
use pfunc.Base.{ℕ, ◌≡◌, refl, List, Option, none, some, ◌==◌, if◌then◌else◌, arith}
use pfunc.Task.Attribute.{Attribute}
use pfunc.Interface.Codes.{ℤ, success}
use pfunc.Interface.Handles.{
  written, flag, of_bool, attr_priority_set, attr_qnum_set, attr_num_waiters_set, attr_nested_set,
  attr_grouped_set, attr_level_set, attr_priority_get, attr_qnum_get, attr_num_waiters_get,
  attr_nested_get, attr_grouped_get, attr_level_get,
}
use pfunc.Interface.Handles.Settings.{set_all, AllLive, overwritten, last, got-last, set_all-after}

-- A call of a setter, with its argument.
pub data AttrCall (P : Type 0) : Type 0 where
  priority_call : P → AttrCall P
  qnum_call num_waiters_call nested_call grouped_call level_call : ℕ → AttrCall P

-- What a getter returns for a flag that was set to `n`.
abbrev pub normal : ℕ → ℕ
normal n = if n == 0 then 0 else 1

of_bool-flag : (n : ℕ) → of_bool (flag n) ≡ normal n
of_bool-flag n = ground arith

module _ {P : Type 0} where
  unfoldable pub attr_set :
      ℕ → AttrCall P → (ℕ → Option (Attribute P)) → Option ((ℕ → Option (Attribute P)) × ℤ)
  attr_set attr (priority_call p) attrs = attr_priority_set attr p attrs
  attr_set attr (qnum_call n) attrs = attr_qnum_set attr n attrs
  attr_set attr (num_waiters_call n) attrs = attr_num_waiters_set attr n attrs
  attr_set attr (nested_call n) attrs = attr_nested_set attr n attrs
  attr_set attr (grouped_call n) attrs = attr_grouped_set attr n attrs
  attr_set attr (level_call n) attrs = attr_level_set attr n attrs

  -- The value that a call gives to each of the fields.
  abbrev pub priority_of : AttrCall P → Option P
  priority_of (priority_call p) = some p
  priority_of _ = none

  abbrev pub qnum_of : AttrCall P → Option ℕ
  qnum_of (qnum_call n) = some n
  qnum_of _ = none

  abbrev pub num_waiters_of : AttrCall P → Option ℕ
  num_waiters_of (num_waiters_call n) = some n
  num_waiters_of _ = none

  abbrev pub nested_of : AttrCall P → Option ℕ
  nested_of (nested_call n) = some (normal n)
  nested_of _ = none

  abbrev pub grouped_of : AttrCall P → Option ℕ
  grouped_of (grouped_call n) = some (normal n)
  grouped_of _ = none

  abbrev pub level_of : AttrCall P → Option ℕ
  level_of (level_call n) = some n
  level_of _ = none

  apply : AttrCall P → Attribute P → Attribute P
  apply (priority_call p) a = record a { priority = p }
  apply (qnum_call n) a = record a { queue_number = n }
  apply (num_waiters_call n) a = record a { num_waiters = n }
  apply (nested_call n) a = record a { is_nested = flag n }
  apply (grouped_call n) a = record a { join_group = flag n }
  apply (level_call n) a = record a { level = n }

  acts :
      (attr : ℕ) (call : AttrCall P) (attrs : ℕ → Option (Attribute P))
      → attr_set attr call attrs ≡ written (apply call) attr attrs (attrs attr)
  unfolding attr_set attr_priority_set attr_qnum_set attr_num_waiters_set attr_nested_set
      attr_grouped_set attr_level_set apply
  acts attr (priority_call p) attrs = refl
  acts attr (qnum_call n) attrs = refl
  acts attr (num_waiters_call n) attrs = refl
  acts attr (nested_call n) attrs = refl
  acts attr (grouped_call n) attrs = refl
  acts attr (level_call n) attrs = refl

  -- The numbers that the six getters return.
  abbrev nested_number : Attribute P → ℕ
  nested_number a = of_bool a.is_nested

  abbrev grouped_number : Attribute P → ℕ
  grouped_number a = of_bool a.join_group

  fields :
      (call : AttrCall P) (a : Attribute P)
      → ((apply call a).priority ≡ overwritten (priority_of call) a.priority)
        × ((apply call a).queue_number ≡ overwritten (qnum_of call) a.queue_number)
        × ((apply call a).num_waiters ≡ overwritten (num_waiters_of call) a.num_waiters)
        × (nested_number (apply call a) ≡ overwritten (nested_of call) (nested_number a))
        × (grouped_number (apply call a) ≡ overwritten (grouped_of call) (grouped_number a))
        × ((apply call a).level ≡ overwritten (level_of call) a.level)
  unfolding apply
  fields (priority_call p) a = (refl, refl, refl, refl, refl, refl)
  fields (qnum_call n) a = (refl, refl, refl, refl, refl, refl)
  fields (num_waiters_call n) a = (refl, refl, refl, refl, refl, refl)
  fields (nested_call n) a = (refl, refl, refl, of_bool-flag n, refl, refl)
  fields (grouped_call n) a = (refl, refl, refl, refl, of_bool-flag n, refl)
  fields (level_call n) a = (refl, refl, refl, refl, refl, refl)

  -- Any sequence of calls of the setters of attributes, each on a handle that has an attribute, runs to its
  -- end. Every getter then returns, with `PFUNC_SUCCESS`, the last value that its setter was given on
  -- its handle, or the value from before where there was none: calls for other fields and on other
  -- handles make no difference. For the two flags that value is 0 or 1.
  pub attr_get-last :
      (calls : List (ℕ × AttrCall P)) (attrs : ℕ → Option (Attribute P))
      → AllLive calls attrs
      → (after : ℕ → Option (Attribute P)) × (set_all attr_set calls attrs ≡ some after)
        × ((attr : ℕ) (a : Attribute P)
            → attrs attr ≡ some a
            → (attr_priority_get attr after
                ≡ some (last priority_of attr calls a.priority, success))
              × (attr_qnum_get attr after ≡ some (last qnum_of attr calls a.queue_number, success))
              × (attr_num_waiters_get attr after
                  ≡ some (last num_waiters_of attr calls a.num_waiters, success))
              × (attr_nested_get attr after
                  ≡ some (last nested_of attr calls (of_bool a.is_nested), success))
              × (attr_grouped_get attr after
                  ≡ some (last grouped_of attr calls (of_bool a.join_group), success))
              × (attr_level_get attr after ≡ some (last level_of attr calls a.level, success)))
  unfolding attr_priority_get attr_qnum_get attr_num_waiters_get attr_nested_get attr_grouped_get
      attr_level_get
  attr_get-last calls attrs live =
      let (h, all, ends) = set_all-after attr_set apply acts calls attrs live in
      (
        h,
        all,
        λ attr a before.
            let at = ends attr a before in
            (
              got-last apply (λ b. b.priority) priority_of (λ c b. (fields c b).0) attr calls a
                  (h attr) at,
              got-last apply (λ b. b.queue_number) qnum_of (λ c b. (fields c b).1) attr calls a
                  (h attr) at,
              got-last apply (λ b. b.num_waiters) num_waiters_of (λ c b. (fields c b).2) attr calls
                  a (h attr) at,
              got-last apply (nested_number) nested_of (λ c b. (fields c b).3) attr calls a (h attr)
                  at,
              got-last apply (grouped_number) grouped_of (λ c b. (fields c b).4) attr calls a
                  (h attr) at,
              got-last apply (λ b. b.level) level_of (λ c b. (fields c b).5) attr calls a (h attr)
                  at,
            ),
      )
