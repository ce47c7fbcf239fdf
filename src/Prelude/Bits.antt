-- ===== src/Prelude/Bits.antt =====
-- A mask of low bits as a residue and an or of disjoint fields as a sum, at variables, where the
-- native operations do not compute. Both follow from the recursion on binary digits that they share.
use Prim.Native.Nat.{
  ℕ, zero, suc, ◌+◌, ◌-◌, ◌*◌, ◌/◌, ◌%◌, ◌^◌, ◌≤◌, ◌<◌, min, max, bit_and, bit_or, digits,
  bit_and-bitwise, bit_or-bitwise,
}
use mathlib.Core.Path.{◌≡◌, refl, ap, ◌∙◌}
use native.Mathlib.Nat.{pow-suc}
use native.Mathlib.Omega.{arith}

-- The digits of any operation: a count that covers the first number may be larger.
module _ (rest : ℕ → ℕ) (op : ℕ → ℕ → ℕ) where
  one_more : (count x y : ℕ) → x ≤ count → digits rest op (suc count) x y ≡ digits rest op count x y
  one_more zero zero y le = refl
  one_more (suc count) zero y le = refl
  one_more zero (suc x) y le = absurd (omega arith)
  one_more (suc count) (suc x) y le =
      let higher = one_more count (suc x / 2) (y / 2) (omega arith) in
      ap (λ h. h * 2 + op (suc x % 2) (y % 2)) higher

  surplus :
      (extra count x y : ℕ)
      → x ≤ count
      → digits rest op (extra + count) x y ≡ digits rest op count x y
  surplus zero count x y le =
      let same : 0 + count ≡ count = omega arith in ap (λ k. digits rest op k x y) same
  surplus (suc extra) count x y le =
      let next : suc extra + count ≡ suc (extra + count) = omega arith in
      ap (λ k. digits rest op k x y) next
      ∙ one_more (extra + count) x y (omega arith)
      ∙ surplus extra count x y le

  -- The lowest digit apart, for a first number that is not 0.
  lowest_apart :
      (x y : ℕ)
      → digits rest op (suc x) (suc x) y
        ≡ digits rest op (suc x / 2) (suc x / 2) (y / 2) * 2 + op (suc x % 2) (y % 2)
  lowest_apart x y =
      let half = suc x / 2 in
      let covers : x ≡ (x - half) + half = omega arith in
      let higher =
        ap (λ k. digits rest op k half (y / 2)) covers
        ∙ surplus (x - half) half half (y / 2) (omega arith) in
      ap (λ h. h * 2 + op (suc x % 2) (y % 2)) higher

and_halves : (x y : ℕ) → bit_and x y ≡ bit_and (x / 2) (y / 2) * 2 + min (x % 2) (y % 2)
and_halves zero y = omega (arith, bit_and-bitwise 0 y, bit_and-bitwise 0 (y / 2))
and_halves (suc x) y = omega (
  arith,
  bit_and-bitwise (suc x) y,
  bit_and-bitwise (suc x / 2) (y / 2),
  lowest_apart (λ b. zero) min x y,
)

or_halves : (x y : ℕ) → bit_or x y ≡ bit_or (x / 2) (y / 2) * 2 + max (x % 2) (y % 2)
or_halves zero y = omega (arith, bit_or-bitwise 0 y, bit_or-bitwise 0 (y / 2))
or_halves (suc x) y = omega (
  arith,
  bit_or-bitwise (suc x) y,
  bit_or-bitwise (suc x / 2) (y / 2),
  lowest_apart (λ b. b) max x y,
)

-- No digit is in both numbers when the second is 0.
and_nothing : (count x : ℕ) → digits (λ b. zero) min count x 0 ≡ 0
and_nothing zero x = refl
and_nothing (suc count) zero = refl
and_nothing (suc count) (suc x) = omega (arith, and_nothing count (suc x / 2))

-- `k` ones.
abbrev mask : ℕ → ℕ
mask zero = 0
mask (suc k) = mask k * 2 + 1

-- The `k` lowest bits of a number.
abbrev low_bits : ℕ → ℕ → ℕ
low_bits zero x = 0
low_bits (suc k) x = low_bits k (x / 2) * 2 + x % 2

bit_and-mask : (k x : ℕ) → bit_and x (mask k) ≡ low_bits k x
bit_and-mask zero x = bit_and-bitwise x 0 ∙ and_nothing x x
bit_and-mask (suc k) x =
    let shorter : (mask k * 2 + 1) / 2 ≡ mask k = omega arith in
    let masked = ap (bit_and (x / 2)) shorter ∙ bit_and-mask k (x / 2) in
    omega (arith, and_halves x (mask k * 2 + 1), masked)

-- `x & 0xFF` is the low byte.
pub bit_and_byte : (x : ℕ) → bit_and x 0xff ≡ x % 256
bit_and_byte x = bit_and-mask 8 x ∙ omega arith

-- An or with a number shifted past every bit of the other is their sum.
pub bit_or-shift : (k x y : ℕ) → x < 2 ^ k → bit_or x (y * 2 ^ k) ≡ x + y * 2 ^ k
bit_or-shift zero zero y h = omega (arith, bit_or-bitwise 0 (y * 2 ^ 0))
bit_or-shift zero (suc x) y h = absurd (omega arith)
bit_or-shift (suc k) x y h =
    let power : 2 ^ suc k ≡ 2 ^ k * 2 = pow-suc 2 k in
    let doubled : y * 2 ^ suc k ≡ y * 2 ^ k * 2 = ap (λ p. y * p) power ∙ omega arith in
    let half : y * 2 ^ k * 2 / 2 ≡ y * 2 ^ k = omega arith in
    let below : x / 2 < 2 ^ k = omega (arith, power) in
    let higher = ap (bit_or (x / 2)) half ∙ bit_or-shift k (x / 2) y below in
    ap (bit_or x) doubled ∙ omega (arith, or_halves x (y * 2 ^ k * 2), higher, doubled)
