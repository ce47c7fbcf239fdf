-- ===== src/OpChain/Numerics.antt =====
-- What the op chain uses of C++'s `float`: the type and its operations are parameters. The literals
-- of the op table are written in hundredths, since a literal such as 0.1F and the quotient
-- 10 / 100.0F are both the float nearest to a tenth.
use image_processing_engine.Prelude.{ℕ, ◌≤◌, ◌≡◌, Bool, true, List, some, length}
use image_processing_engine.Prelude.Integers.{ℤ, nat_abs, ltb_ℤ}
use image_processing_engine.OpChain.Decimal.{decimal}

pub record Floats : Type 1 where
  pub F : Type 0
  -- The value that `strtof` reads and how many characters it consumes.
  pub strtof : List ℕ → F × ℕ
  pub is_finite : F → Bool
  -- `std::lround(static_cast<double>(value) * 100.0)`
  pub hundredths : F → ℤ
  -- `static_cast<float>(n) / 100.0F`
  pub of_hundredths : ℤ → F
  pub less : F → F → Bool

-- The widest bound of the op table, 4.0, in hundredths.
abbrev pub widest : ℕ
widest = 400

-- Facts of IEEE single precision with a correctly rounding `strtof`, over the parameters' range:
-- hundredths survive the quotient by 100 and back, the quotient keeps the strict order against a
-- bound in the range, and a plain decimal with at most two places is read whole, as its quotient.
-- Floats are equal here as C++ compares them, which does not tell -0.0 from 0.0.
pub record FloatLaws (R : Floats) : Type 0 where
  pub hundredths_exact : (n : ℤ) → nat_abs n ≤ widest → R.hundredths (R.of_hundredths n) ≡ n
  pub less_below :
      (n m : ℤ) → nat_abs m ≤ widest → R.less (R.of_hundredths n) (R.of_hundredths m) ≡ ltb_ℤ n m
  pub less_above :
      (n m : ℤ) → nat_abs m ≤ widest → R.less (R.of_hundredths m) (R.of_hundredths n) ≡ ltb_ℤ m n
  pub strtof_decimal :
      (text : List ℕ) (n : ℤ)
      → decimal text ≡ some n
      → nat_abs n ≤ widest
      → R.strtof text ≡ (R.of_hundredths n, length text)
  pub finite_in_range : (n : ℤ) → nat_abs n ≤ widest → R.is_finite (R.of_hundredths n) ≡ true
