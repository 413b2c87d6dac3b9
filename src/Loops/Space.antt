-- ===== src/Loops/Space.antt =====
-- pfunc/space_1D.hpp: the iteration space [begin, end). `size_t` has 64 bits, so a number is below
-- 2^64 and a difference wraps.
use native.Mathlib.Nat.{pow-suc}
use pfunc.Base.{
  ℕ, ◌+◌, ◌-◌, ◌*◌, suc, ◌/◌, ◌%◌, ◌^◌, ◌≤◌, ◌<◌, ◌≡◌, refl, Bool, true, false, Option, none, some,
  arith, ltb, if◌then◌else◌,
}

-- `a - b` and `a + b` at type `size_t`.
abbrev pub sub64 : ℕ → ℕ → ℕ
sub64 a b = (a + 2 ^ 64 - b) % 2 ^ 64

abbrev pub add64 : ℕ → ℕ → ℕ
add64 a b = (a + b) % 2 ^ 64

pub record Space : Type 0 where
  pub space_begin : ℕ
  pub space_end : ℕ
  pub splittable : Bool

-- The constructor. `base` is the static member `base_case_size`, which users may set.
unfoldable pub space_1D : ℕ → ℕ → ℕ → Space
space_1D base b e = record { space_begin = b; space_end = e; splittable = ltb base (sub64 e b) }

-- `can_split`.
abbrev pub can_split : Space → Bool
can_split s = s.splittable

-- `split`: the two halves, left first; `none` where `assert (splittable)` stops the program.
unfoldable pub split : ℕ → Space → Option (Space × Space)
split base s =
    let split_point = add64 s.space_begin (sub64 s.space_end s.space_begin / 2) in
    if s.splittable
    then some (space_1D base s.space_begin split_point, space_1D base split_point s.space_end)
    else none

-- Numbers in range and in order, and the flag as the constructor sets it.
pub record IsValid (base : ℕ) (s : Space) : Type 0 where
  pub ordered : s.space_begin ≤ s.space_end
  pub in_range : s.space_end < 2 ^ 64
  pub flag : s.splittable ≡ ltb base (s.space_end - s.space_begin)

abbrev pub extent : Space → ℕ
extent s = s.space_end - s.space_begin

pub space_1D-IsValid : (base b e : ℕ) → b ≤ e → e < 2 ^ 64 → IsValid base (space_1D base b e)
unfolding space_1D
space_1D-IsValid base b e h r =
    let d : sub64 e b ≡ e - b = omega arith in record { ordered = h; in_range = r; flag = rw d }

-- What `split` makes of a space: neighbouring valid halves, neither larger than half, rounded up.
pub record Halves (base : ℕ) (s l r : Space) : Type 0 where
  pub left_valid : IsValid base l
  pub right_valid : IsValid base r
  pub from_begin : l.space_begin ≡ s.space_begin
  pub meet : l.space_end ≡ r.space_begin
  pub to_end : r.space_end ≡ s.space_end
  pub left_extent : extent l ≡ extent s / 2
  pub right_extent : extent r ≡ extent s - extent s / 2

-- A valid space that is larger than the base case splits into two neighbouring valid spaces that
-- make it up, of half its extent rounded down and rounded up.
pub split-Halves :
    (base : ℕ) (s : Space)
    → IsValid base s
    → base < extent s
    → (l : Space) × (r : Space) × (split base s ≡ some (l, r)) × Halves base s l r
unfolding split space_1D
split-Halves base s v h =
    let flag : s.splittable ≡ true = ground (arith, v.flag) in
    let d : sub64 s.space_end s.space_begin ≡ extent s = omega (arith, v.ordered, v.in_range) in
    let m : add64 s.space_begin (extent s / 2) ≡ s.space_begin + extent s / 2 =
      omega (arith, v.ordered, v.in_range) in
    let mid = s.space_begin + extent s / 2 in
    (
      space_1D base s.space_begin mid,
      space_1D base mid s.space_end,
      rw (flag, d, m),
      record {
        left_valid =
            space_1D-IsValid base s.space_begin mid (omega arith)
              (omega (arith, v.ordered, v.in_range));
        right_valid = space_1D-IsValid base mid s.space_end (omega (arith, v.ordered)) v.in_range;
        from_begin = refl;
        meet = refl;
        to_end = refl;
        left_extent = omega arith;
        right_extent = omega arith;
      },
    )

pub split_none : (base : ℕ) (s : Space) → IsValid base s → extent s ≤ base → s.splittable ≡ false
split_none base s v h = ground (arith, v.flag)

pub split_flag : (base : ℕ) (s : Space) → IsValid base s → base < extent s → s.splittable ≡ true
split_flag base s v h = ground (arith, v.flag)

-- A bound on a space, halved.
pub half_bound : (base k n : ℕ) → n ≤ base * 2 ^ suc k → n ≤ 2 * (base * 2 ^ k)
half_bound base k n h = grind (arith, pow-suc)
