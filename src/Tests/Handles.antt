-- ===== src/Tests/Handles.antt =====
-- Handles of the C interface.
use pfunc.Base.{ℕ, ◌≡◌, refl, List, [], ◌∷◌, Option, none, some, true, false, ltb, if◌then◌else◌}
use pfunc.Task.Attribute.{Attribute, attribute}
use pfunc.Interface.Handles.Settings.{last}
use pfunc.Interface.Handles.Getters.{AttrCall, priority_call, qnum_call, nested_call, nested_of}

-- Attributes at the addresses 4 and 5.
abbrev attrs : ℕ → Option (Attribute ℕ)
attrs a = if ltb a 4 then none else if ltb a 6 then some (attribute 0 true false) else none

abbrev calls : List (ℕ × AttrCall ℕ)
calls =
    (4, qnum_call 2)
    ∷ (5, qnum_call 3)
    ∷ (4, nested_call 0)
    ∷ (4, priority_call 7)
    ∷ (4, nested_call 9)
    ∷ []

-- The flag was set to 9, and is read as 1.
nested_last : last nested_of 4 calls 0 ≡ 1
unfolding last
nested_last = refl
