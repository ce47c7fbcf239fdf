-- ===== src/OpChain/Decimal.antt =====
-- Plain decimals with one or two places, read as a number of hundredths: the C grammar of the texts
-- that the program prints, independent of how it prints them.
use image_processing_engine.Prelude.{
  ℕ, zero, suc, ◌+◌, ◌-◌, ◌*◌, Bool, true, false, ◌&&◌, List, [], ◌∷◌, Option, none, some, leb,
  ◌==◌, if◌then◌else◌,
}
use image_processing_engine.Prelude.Integers.{ℤ, pos, negsuc}

abbrev is_digit : ℕ → Bool
is_digit c = leb b'0' c && leb c b'9'

-- The places behind the point, in hundredths.
unfoldable pub places : ℕ → List ℕ → Option ℕ
places whole (d ∷ []) = if is_digit d then some (whole * 100 + (d - b'0') * 10) else none
places whole (d ∷ e ∷ []) =
    if is_digit d && is_digit e then some (whole * 100 + (d - b'0') * 10 + (e - b'0')) else none
places whole _ = none

-- The digits before the point.
unfoldable pub digits_from : ℕ → List ℕ → Option ℕ
unfolding places
digits_from whole [] = none
digits_from whole (c ∷ rest) =
    if c == b'.'
    then places whole rest
    else if is_digit c
    then digits_from (whole * 10 + (c - b'0')) rest
    else none

abbrev negate : ℕ → ℤ
negate zero = pos 0
negate (suc n) = negsuc n

abbrev signed : Bool → Option ℕ → Option ℤ
signed negative none = none
signed negative (some n) = some (if negative then negate n else pos n)

unfoldable pub decimal : List ℕ → Option ℤ
unfolding digits_from
decimal [] = none
decimal (c ∷ rest) =
    if c == b'-' then signed true (digits_from 0 rest) else signed false (digits_from 0 (c ∷ rest))
