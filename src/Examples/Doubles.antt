-- ===== src/Examples/Doubles.antt =====
-- The arithmetic of `double`, a parameter of the programs in examples/.
use pfunc.Base.{ℕ, zero, suc}

pub record Arithmetic : Type 1 where
  pub Value : Type 0
  pub nought : Value  -- `0.0`
  pub plus : Value → Value → Value
  pub times : Value → Value → Value

-- The sum of the first values of a sequence, from left to right.
unfoldable pub sum_of : (v : Arithmetic) → ℕ → (ℕ → v.Value) → v.Value
sum_of v zero f = v.nought
sum_of v (suc n) f = v.plus (sum_of v n f) (f n)
