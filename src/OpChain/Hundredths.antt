-- ===== src/OpChain/Hundredths.antt =====
-- Whole numbers of hundredths in place of the floats: an instance for which the laws hold.
use image_processing_engine.Prelude.{ℕ, refl, true, List, Option, none, some, length}
use image_processing_engine.Prelude.Integers.{ℤ, pos, ltb_ℤ}
use image_processing_engine.OpChain.Decimal.{decimal}
use image_processing_engine.OpChain.Numerics.{Floats, FloatLaws}

abbrev read_hundredths : List ℕ → Option ℤ → ℤ × ℕ
read_hundredths text none = (pos 0, 0)
read_hundredths text (some n) = (n, length text)

abbrev pub hundredths_floats : Floats
hundredths_floats = record {
  F = ℤ;
  strtof = λ text. read_hundredths text (decimal text);
  is_finite = λ n. true;
  hundredths = λ n. n;
  of_hundredths = λ n. n;
  less = ltb_ℤ;
}

abbrev pub hundredths_laws : FloatLaws hundredths_floats
hundredths_laws = record {
  hundredths_exact = λ n h. refl;
  less_below = λ n m h. refl;
  less_above = λ n m h. refl;
  strtof_decimal = λ text n e h. rw e refl;
  finite_in_range = λ n h. refl;
}
