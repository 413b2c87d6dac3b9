-- ===== src/Interface/Handles/Settings.antt =====
-- Sequences of calls of the C interface on the handles of attributes and of groups: what the getters
-- return after the setters.
use pfunc.Base.{
  ℕ, ◌≡◌, ◌≢◌, refl, sym, ap, ◌∙◌, List, [], ◌∷◌, Option, none, some, Bool, true, false, ◌==◌,
  if◌then◌else◌, update, update-elim, some-elim, Option-cases, inl, inr, arith,
}
use pfunc.Interface.Codes.{ℤ, success}
use pfunc.Interface.Handles.{written, got}

not_none : {A : Type 0} {a : A} → some a ≢ none
not_none e = cc

-- The heap that a call left.
abbrev heap_of : {H : Type 0} → Option (H × ℤ) → Option H
heap_of none = none
heap_of (some (h, code)) = some h

-- The calls of a list, each with the handle it is on.
module _ {A C : Type 0} (set : ℕ → C → (ℕ → Option A) → Option ((ℕ → Option A) × ℤ)) where
  abbrev and_then :
      ((ℕ → Option A) → Option (ℕ → Option A)) → Option ((ℕ → Option A) × ℤ) → Option (ℕ → Option A)
  and_then next none = none
  and_then next (some (h, code)) = next h

  unfoldable pub set_all : List (ℕ × C) → (ℕ → Option A) → Option (ℕ → Option A)
  set_all [] h = some h
  set_all ((handle, call) ∷ rest) h = and_then (λ g. set_all rest g) (set handle call h)

-- Each call is on a handle that has an object.
abbrev pub AllLive : {A C : Type 0} → List (ℕ × C) → (ℕ → Option A) → Type 0
AllLive [] h = Unit
AllLive ((handle, call) ∷ rest) h = (h handle ≢ none) × AllLive rest h

-- The last value that the calls give a field of the object of a handle; `before`, if none does.
abbrev pub overwritten {ℓ} : {B : Type ℓ} → Option B → B → B
overwritten none before = before
overwritten (some b) before = b

unfoldable pub last {ℓ} : {C : Type 0} {B : Type ℓ} → (C → Option B) → ℕ → List (ℕ × C) → B → B
last field handle [] before = before
last field handle ((other, call) ∷ rest) before =
    last field handle rest (if other == handle then overwritten (field call) before else before)

-- The object of a handle after the calls, when each applies a function to its own.
unfoldable pub after : {A C : Type 0} → (C → A → A) → ℕ → List (ℕ × C) → A → A
after apply handle [] x = x
after apply handle ((other, call) ∷ rest) x =
    after apply handle rest (if other == handle then apply call x else x)

get-if {ℓ} :
    {A : Type 0} {B : Type ℓ} (get : A → B) (b : Bool) (y x : A) (z : B)
    → get y ≡ z
    → get (if b then y else x) ≡ (if b then z else get x)
get-if get true y x z e = e
get-if get false y x z e = refl

-- A field of that object has the last value that the calls gave it.
after-last {ℓ} :
    {A C : Type 0} {B : Type ℓ} (apply : C → A → A) (get : A → B) (field : C → Option B)
    → ((call : C) (x : A) → get (apply call x) ≡ overwritten (field call) (get x))
    → (handle : ℕ) (calls : List (ℕ × C)) (x : A)
    → get (after apply handle calls x) ≡ last field handle calls (get x)
unfolding after last
after-last apply get field law handle [] x = refl
after-last apply get field law handle ((other, call) ∷ rest) x =
    after-last apply get field law handle rest (if other == handle then apply call x else x)
    ∙ ap (last field handle rest) (
        get-if get (other == handle) (apply call x) x (overwritten (field call) (get x))
          (law call x))

pub got-last {ℓ} :
    {A C : Type 0} {B : Type ℓ} (apply : C → A → A) (get : A → B) (field : C → Option B)
    → ((call : C) (x : A) → get (apply call x) ≡ overwritten (field call) (get x))
    → (handle : ℕ) (calls : List (ℕ × C)) (x : A) (o : Option A)
    → o ≡ some (after apply handle calls x)
    → got get o ≡ some (last field handle calls (get x), success)
got-last apply get field law handle calls x o at =
    ap (got get) at ∙ ap (λ v. some (v, success)) (after-last apply get field law handle calls x)

module _ {A C : Type 0} (set : ℕ → C → (ℕ → Option A) → Option ((ℕ → Option A) × ℤ))
    (apply : C → A → A)
    (acts : (handle : ℕ) (call : C) (h : ℕ → Option A)
      → set handle call h ≡ written (apply call) handle h (h handle)) where
  -- A call on a handle with an object succeeds, and changes that object alone.
  abbrev One : ℕ → C → (ℕ → Option A) → (ℕ → Option A) → Type 0
  One other call h g =
      (set other call h ≡ some (g, success))
      × ((handle : ℕ) → h handle ≢ none → g handle ≢ none)
      × ((handle : ℕ) (x : A)
          → h handle ≡ some x
          → g handle ≡ some (if other == handle then apply call x else x))

  one :
      (other : ℕ) (call : C) (h : ℕ → Option A) (y : A)
      → h other ≡ some y
      → One other call h (update h other (some (apply call y)))
  one other call h y at = (
    acts other call h ∙ ap (written (apply call) other h) at,
    update-elim (λ handle o. h handle ≢ none → o ≢ none) h other (some (apply call y))
        (λ live e. absurd (not_none e)) (λ handle differs live. live),
    update-elim
        (λ handle o.
          (x : A) → h handle ≡ some x → o ≡ some (if other == handle then apply call x else x))
        h other (some (apply call y))
        (λ x here.
          let same : y ≡ x = some-elim (sym at ∙ here) in
          let own : (other == other) ≡ true = ground arith in rw (own, same))
        (λ handle differs x here.
          let foreign : (other == handle) ≡ false = ground arith in rw (foreign, here)),
  )

  live_after :
      (calls : List (ℕ × C)) (h g : ℕ → Option A)
      → ((handle : ℕ) → h handle ≢ none → g handle ≢ none)
      → AllLive calls h
      → AllLive calls g
  live_after [] h g kept live = tt
  live_after ((other, call) ∷ rest) h g kept (here, later) =
      (kept other here, live_after rest h g kept later)

  -- The whole of such a list of calls.
  pub set_all-after :
      (calls : List (ℕ × C)) (h : ℕ → Option A)
      → AllLive calls h
      → (g : ℕ → Option A) × (set_all set calls h ≡ some g)
        × ((handle : ℕ) (x : A) → h handle ≡ some x → g handle ≡ some (after apply handle calls x))
  unfolding set_all after
  set_all-after [] h live = (h, refl, λ handle x at. at)
  set_all-after ((other, call) ∷ rest) h (here, later) = elim (Option-cases (h other)) [
    | inl gone ↦ absurd (here gone)
    | inr (y, at) ↦
        let (done, kept, changed) = one other call h y at in
        let (g, all, at_end) =
          set_all-after rest (update h other (some (apply call y)))
            (live_after rest h (update h other (some (apply call y))) kept later) in
        (
          g,
          ap (and_then set (λ k. set_all set rest k)) done ∙ all,
          λ handle x before.
              at_end handle (if other == handle then apply call x else x) (changed handle x before),
        )
  ]
