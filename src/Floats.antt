-- ===== src/Floats.antt =====
-- C's `float` and `double`, which the program computes with and the machine implements: two types
-- and their operations, taken as a parameter. `decimal m k` is the literal m * 10^-k. No operation
-- has a law here; a theorem that needs one states it as a hypothesis.
use ptop.Prelude.{ℕ, Bool}
use ptop.Prelude.Int.{ℤ}

pub record Floats : Type 1 where
  pub Single : Type 0
  pub Double : Type 0
  pub of_u64 : ℕ → Single
  pub add : Single → Single → Single
  pub sub : Single → Single → Single
  pub mul : Single → Single → Single
  pub div : Single → Single → Single
  pub lt : Single → Single → Bool
  pub widen : Single → Double
  pub narrow : Double → Single
  pub of_u64_double : ℕ → Double
  pub of_int_double : ℤ → Double
  pub decimal : ℕ → ℕ → Double
  pub add_double : Double → Double → Double
  pub mul_double : Double → Double → Double
  pub div_double : Double → Double → Double
