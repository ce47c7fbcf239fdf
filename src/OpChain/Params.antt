-- ===== src/OpChain/Params.antt =====
-- The printed parameters: every one in range is read back as the number that it prints, and holds no
-- character that the parser treats as a separator. Both are checked by evaluation over the range.
use image_processing_engine.Prelude.{
  ℕ, zero, suc, ◌≤◌, ◌<◌, ◌≡◌, refl, Bool, true, false, ◌&&◌, not, List, [], ◌∷◌, Option, none,
  some, arith, ◌==◌, if◌then◌else◌,
}
use image_processing_engine.Prelude.Integers.{ℤ, pos, negsuc, nat_abs, eqb_ℤ, eqb_ℤ_iff}
use image_processing_engine.OpChain.Decimal.{decimal}
use image_processing_engine.OpChain.Numerics.{widest}
use image_processing_engine.OpChain.{is_space, format_scaled}

-- Whether every number below `top` passes a test, by running it.
holds_under : (ℕ → Bool) → ℕ → Bool
holds_under test zero = true
holds_under test (suc top) = if test top then holds_under test top else false

holds_under_lem :
    (test : ℕ → Bool) (top k : ℕ) → k < top → holds_under test top ≡ true → test k ≡ true
unfolding holds_under
holds_under_lem test zero k below passed = absurd (omega arith)
holds_under_lem test (suc top) k below passed = ground (arith, holds_under_lem test top k)

-- A character that is no white space and neither a comma nor a colon.
abbrev pub is_plain : ℕ → Bool
is_plain c = not (is_space c) && not (c == b',') && not (c == b':')

abbrev pub all_plain : List ℕ → Bool
all_plain [] = true
all_plain (c ∷ text) = is_plain c && all_plain text

abbrev reads_back : ℤ → Option ℤ → Bool
reads_back n none = false
reads_back n (some m) = eqb_ℤ m n

abbrev pub non_empty : List ℕ → Bool
non_empty [] = false
non_empty (c ∷ text) = true

abbrev good : ℤ → Bool
good n =
    reads_back n (decimal (format_scaled n))
    && all_plain (format_scaled n)
    && non_empty (format_scaled n)

positive_table : holds_under (λ n. good (pos n)) 401 ≡ true
unfolding holds_under decimal format_scaled
positive_table = refl

negative_table : holds_under (λ n. good (negsuc n)) 400 ≡ true
unfolding holds_under decimal format_scaled
negative_table = refl

good_in_range : (n : ℤ) → nat_abs n ≤ widest → good n ≡ true
good_in_range (pos n) h = holds_under_lem (λ k. good (pos k)) 401 n (omega arith) positive_table
good_in_range (negsuc n) h =
    holds_under_lem (λ k. good (negsuc k)) 400 n (omega arith) negative_table

reads_back_sound : (n : ℤ) (o : Option ℤ) → reads_back n o ≡ true → o ≡ some n
reads_back_sound n none h = ground arith
reads_back_sound n (some m) h = ground (arith, eqb_ℤ_iff m n)

-- The text that `format_param` makes of a number of hundredths within the bounds of the op table is
-- the decimal of that number.
pub decimal-format_scaled : (n : ℤ) → nat_abs n ≤ widest → decimal (format_scaled n) ≡ some n
decimal-format_scaled n h =
    reads_back_sound n (decimal (format_scaled n)) (ground (arith, good_in_range n h))

pub format_scaled_plain :
    (n : ℤ)
    → nat_abs n ≤ widest
    → (all_plain (format_scaled n) ≡ true) × (non_empty (format_scaled n) ≡ true)
format_scaled_plain n h = (ground (arith, good_in_range n h), ground (arith, good_in_range n h))
