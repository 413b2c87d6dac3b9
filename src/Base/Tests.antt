-- ===== src/Base/Tests.antt =====
-- Boolean tests on the native numbers, and the conditional.
use Prim.Native.Nat.{ℕ, ◌≤◌, ◌<◌, compare, Ordering}
use mathlib.Core.Path.{◌≡◌, refl, sym, ap, subst, ◌∙◌, fun_ext}
use mathlib.Core.Logic.{◌≢◌, ◌↔◌, ◌⊎◌, inl, inr}
use mathlib.Core.Bool.{Bool, true, false, ◌&&◌, ◌||◌, true≢false}
use mathlib.Core.Option.{Option, none, some}
use native.Mathlib.Omega.{arith}
use native.Mathlib.Decide.{ℕ_discrete}

abbrev pub ltb : ℕ → ℕ → Bool
ltb a b = elim (compare a b) [ Ordering.lt ↦ true | _ ↦ false ]

abbrev pub leb : ℕ → ℕ → Bool
leb a b = elim (compare a b) [ Ordering.gt ↦ false | _ ↦ true ]

infix 50 ◌==◌
abbrev pub ◌==◌ : ℕ → ℕ → Bool
a == b = elim (compare a b) [ Ordering.eq ↦ true | _ ↦ false ]

infix 1 if◌then◌else◌
abbrev pub if◌then◌else◌ {ℓ} : {A : Type ℓ} → Bool → A → A → A
if true then x else y = x
if false then x else y = y

pub ltb→lt : (a b : ℕ) → ltb a b ≡ true → a < b
ltb→lt a b h = ground arith

pub lt→ltb : (a b : ℕ) → a < b → ltb a b ≡ true
lt→ltb a b h = ground arith

pub leb→le : (a b : ℕ) → leb a b ≡ true → a ≤ b
leb→le a b h = ground arith

pub ==_iff : (a b : ℕ) → ((a == b) ≡ true) ↔ (a ≡ b)
==_iff a b = ground arith

-- To split on a computed value and keep the equation.
pub Bool-cases : (b : Bool) → (b ≡ true) ⊎ (b ≡ false)
Bool-cases true = inl refl
Bool-cases false = inr refl

pub Option-cases {ℓ} : {A : Type ℓ} (o : Option A) → (o ≡ none) ⊎ ((a : A) × (o ≡ some a))
Option-cases none = inl refl
Option-cases (some a) = inr (a, refl)

pub some-elim {ℓ} : {A : Type ℓ} {x y : A} → some x ≡ some y → x ≡ y
some-elim e = cc

-- A function with its value at `i` written anew.
abbrev pub update {ℓ} : {A : Type ℓ} → (ℕ → A) → ℕ → A → ℕ → A
update f i a j = if i == j then a else f j

-- What holds of the new value at `i`, and of the old ones elsewhere.
pub update-elim {ℓ ℓ'} :
    {A : Type ℓ} (P : ℕ → A → Type ℓ') (f : ℕ → A) (i : ℕ) (a : A)
    → P i a
    → ((j : ℕ) → j ≢ i → P j (f j))
    → (j : ℕ) → P j (update f i a j)
update-elim P f i a own others j = elim (ℕ_discrete i j) [
  | yes same ↦
      let here : a ≡ update f i a j = ground arith in subst (P j) here (subst (λ k. P k a) same own)
  | no differs ↦
      let there : f j ≡ update f i a j = ground arith in
      subst (P j) there (others j (λ e. differs (sym e)))
]

pub update_self {ℓ} : {A : Type ℓ} (f : ℕ → A) (i : ℕ) (a : A) → update f i a i ≡ a
update_self f i a = ground arith

pub update_ne {ℓ} : {A : Type ℓ} (f : ℕ → A) (i : ℕ) (a : A) (j : ℕ) → j ≢ i → update f i a j ≡ f j
update_ne f i a j h = ground arith

-- Two functions with their values at `i` written anew.
pub update_both {ℓ} :
    {A B : Type 0} (P : ℕ → A → B → Type ℓ) (f : ℕ → A) (g : ℕ → B) (i : ℕ) (a : A) (b : B)
    → P i a b
    → ((j : ℕ) → j ≢ i → P j (f j) (g j))
    → (j : ℕ) → P j (update f i a j) (update g i b j)
update_both P f g i a b own others =
    update-elim (λ j x. P j x (update g i b j)) f i a (subst (P i a) (sym (update_self g i b)) own)
      (λ j differs. subst (P j (f j)) (sym (update_ne g i b j differs)) (others j differs))

infixl 5 ◌>>=◌
abbrev pub ◌>>=◌ {ℓ κ} : {A : Type ℓ} {B : Type κ} → Option A → (A → Option B) → Option B
none >>= f = none
some a >>= f = f a

-- A value that is written and then written anew, and one that is written back.
pub update-update {ℓ} :
    {A : Type ℓ} (f : ℕ → A) (i : ℕ) (a b : A) → update (update f i a) i b ≡ update f i b
update-update f i a b = fun_ext λ j. ground arith

pub update_back {ℓ} :
    {A : Type ℓ} (f : ℕ → A) (i : ℕ) (a b : A) → f i ≡ b → update (update f i a) i b ≡ f
update_back f i a b h = fun_ext λ j. elim (ℕ_discrete i j) [
  | yes same ↦ ground (arith, subst (λ k. f k ≡ b) same h)
  | no differs ↦ ground arith
]

-- A conditional whose test is known.
pub if_true {ℓ} : {A : Type ℓ} (b : Bool) (x y : A) → b ≡ true → (if b then x else y) ≡ x
if_true b x y e = ap (λ c. if c then x else y) e

pub if_false {ℓ} : {A : Type ℓ} (b : Bool) (x y : A) → b ≡ false → (if b then x else y) ≡ y
if_false b x y e = ap (λ c. if c then x else y) e

-- Two changes, of which at most one is made.
pub both :
    {V : Type 0} (p q s : Bool) (x0 x1 x2 : V) (f : V → V)
    → x1 ≡ (if p then f x0 else x0)
    → x2 ≡ (if q then f x1 else x1)
    → s ≡ (p || q)
    → p && q ≡ false
    → x2 ≡ (if s then f x0 else x0)
both p q s x0 x1 x2 f one two either never =
    subst (λ t. x2 ≡ (if t then f x0 else x0)) (sym either) (cases p q one two never)
  where
    cases :
        (p q : Bool)
        → x1 ≡ (if p then f x0 else x0)
        → x2 ≡ (if q then f x1 else x1)
        → p && q ≡ false
        → x2 ≡ (if p || q then f x0 else x0)
    cases true true one two never = absurd (true≢false never)
    cases true false one two never = two ∙ one
    cases false true one two never = two ∙ ap f one
    cases false false one two never = two ∙ one
