-- ===== src/CpuOps/FloatOps.antt =====
-- What the CPU ops use of C++'s `float` and <cmath>: the type and its operations are parameters.
use image_processing_engine.Prelude.{ℕ, Bool}
use image_processing_engine.Prelude.Integers.{ℤ}

pub record Arithmetic (F : Type 0) : Type 0 where
  -- `static_cast<float>` of an int, also the literals without a fraction.
  pub of_int : ℤ → F
  -- The literal nearest to this many thousandths.
  pub of_thousandths : ℕ → F
  pub add : F → F → F
  pub mul : F → F → F
  pub div : F → F → F
  pub neg : F → F
  pub sqrt : F → F
  pub exp : F → F
  pub less : F → F → Bool
  -- `a >= b`, which is not the negation of `a < b` on a NaN.
  pub at_least : F → F → Bool
  -- `static_cast<int>(std::ceil(value))`
  pub ceil : F → ℤ
  -- `std::lround`
  pub lround : F → ℤ
