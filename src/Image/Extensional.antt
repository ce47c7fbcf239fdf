-- ===== src/Image/Extensional.antt =====
-- Well-formed images with the same samples are the same.
use native.Mathlib.Decide.{dec_lt}
use native.Mathlib.Nat.{mul-suc}
use image_processing_engine.Prelude.{
  ℕ, zero, suc, ◌+◌, ◌-◌, ◌*◌, ◌<◌, ◌≡◌, refl, sym, ap, ◌∙◌, List, [], ◌∷◌, arith, length, get_or,
}
use image_processing_engine.Image.{Image, at, index}
use image_processing_engine.Image.Pixels.{IsImage, IsWithin}

list_ext :
    (xs ys : List ℕ)
    → length xs ≡ length ys
    → ((i : ℕ) → i < length xs → get_or xs i 0 ≡ get_or ys i 0)
    → xs ≡ ys
list_ext [] [] e h = refl
list_ext [] (y ∷ ys) e h = absurd (omega arith)
list_ext (x ∷ xs) [] e h = absurd (omega arith)
list_ext (x ∷ xs) (y ∷ ys) e h =
    let heads : x ≡ y = h 0 (omega arith) in
    let tails : xs ≡ ys = list_ext xs ys (omega arith) (λ i lt. h (suc i) (omega arith)) in
    λ i. heads i ∷ tails i

-- A number below a product, in mixed digits.
mixed_digits : (n m i : ℕ) → i < n * m → (q : ℕ) × (r : ℕ) × (q < m) × (r < n) × (i ≡ q * n + r)
mixed_digits n zero i h = absurd (omega arith)
mixed_digits n (suc m) i h = elim (dec_lt i (n * m)) [
  | yes lt ↦ let (q, r, q_lt, r_lt, e) = mixed_digits n m i lt in (q, r, omega arith, r_lt, e)
  | no ge ↦ (m, i - n * m, omega arith, grind (arith, mul-suc n m), grind arith)
]

module _ {a b : Image} (v : IsImage a) (w : IsImage b) where
  sample_index :
      (i : ℕ)
      → i < length a.pixels
      → (x : ℕ) × (y : ℕ) × (c : ℕ) × IsWithin a x y c × (i ≡ index a x y c)
  sample_index i h =
      let below : i < a.stride * a.height = omega (arith, h, v.filled) in
      let (y, r, y_in, r_lt, rows) = mixed_digits a.stride a.height i below in
      let inside : r < a.channels * a.width = grind (arith, v.packed) in
      let (x, c, x_in, c_in, columns) = mixed_digits a.channels a.width r inside in
      (x, y, c, record { x_in = x_in; y_in = y_in; c_in = c_in }, omega (arith, rows, columns))

  pub samples_determine :
      a.width ≡ b.width
      → a.height ≡ b.height
      → a.channels ≡ b.channels
      → ((x y c : ℕ) → IsWithin a x y c → at a x y c ≡ at b x y c)
      → a ≡ b
  unfolding at
  samples_determine ws hs cs same =
      let strides : a.stride ≡ b.stride = v.packed ∙ rw (ws, cs) (sym w.packed) in
      let lengths : length a.pixels ≡ length b.pixels =
        v.filled ∙ rw (strides, hs) (sym w.filled) in
      let pixels = list_ext a.pixels b.pixels lengths (λ i lt.
        let (x, y, c, inside, e) = sample_index i lt in
        let indexes : index a x y c ≡ index b x y c = rw (strides, cs) refl in
        ap (λ n. get_or a.pixels n 0) e
        ∙ same x y c inside
        ∙ ap (λ n. get_or b.pixels n 0) (sym (e ∙ indexes))) in
      λ i. record {
        width = ws i;
        height = hs i;
        channels = cs i;
        stride = strides i;
        pixels = pixels i;
      }
