-- ===== src/Utility.antt =====
-- pfunc/utility.h, `get_closest_power_of_2`. An `int` has 32 bits; a shift out of its range is
-- undefined in C++, `none`. A number below 1 is as 0: the loop makes no turn.
pub mod Powers
use pfunc.Base.{ℕ, zero, suc, ◌*◌, Bool, Option, none, some, ltb, if◌then◌else◌, ◌>>=◌}

-- `closest_power_of_2 << 1`.
unfoldable pub shifted : ℕ → Option ℕ
shifted x = if ltb (x * 2) 2147483648 then some (x * 2) else none

-- The loop from `x` on; the fuel is for its turns and its last test.
unfoldable pub doubled : ℕ → ℕ → ℕ → Option ℕ
doubled zero n x = none
doubled (suc fuel) n x = let next = shifted x >>= doubled fuel n in if ltb x n then next else some x

abbrev pub get_closest_power_of_2 : (fuel n : ℕ) → Option ℕ
get_closest_power_of_2 fuel n = doubled fuel n 1
