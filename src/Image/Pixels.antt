-- ===== src/Image/Pixels.antt =====
-- Well-formed images, and what one assignment to a sample changes.
use image_processing_engine.Prelude.{
  ℕ, zero, suc, ◌+◌, ◌*◌, ◌<◌, ◌≡◌, refl, ap, ◌∙◌, sym, ◌⊎◌, inl, inr, Bool, true, ◌&&◌, List, [],
  ◌∷◌, some, arith, ◌==◌, if◌then◌else◌, length, set, get_or, length-set, length-replicate,
  Bool-cases, ==_iff,
}
use image_processing_engine.Prelude.Integers.{ℤ, pos, negsuc}
use native.Mathlib.Decide.{dec_lt}
use image_processing_engine.Image.{Image, init, index, at, set_at}

-- Packed rows of the supported channel counts, and a sample for every index.
pub record IsImage (image : Image) : Type 0 where
  pub width_positive : 0 < image.width
  pub height_positive : 0 < image.height
  pub channels_supported : (image.channels ≡ 1) ⊎ (image.channels ≡ 3) ⊎ (image.channels ≡ 4)
  pub packed : image.stride ≡ image.width * image.channels
  pub filled : length image.pixels ≡ image.stride * image.height

-- The coordinates of a sample of the image.
pub record IsWithin (image : Image) (x y c : ℕ) : Type 0 where
  pub x_in : x < image.width
  pub y_in : y < image.height
  pub c_in : c < image.channels

pub init-IsImage : (w h c : ℤ) {image : Image} → init w h c ≡ some image → IsImage image
unfolding init
init-IsImage (pos w) (pos h) (pos c) {image} e =
    ground (arith, length-replicate {A = ℕ} (w * c * h) 0)
init-IsImage (pos w) (pos h) (negsuc c) e = ground arith
init-IsImage (pos w) (negsuc h) c e = ground arith
init-IsImage (negsuc w) h c e = ground arith

pub digit_less : (n a b a' : ℕ) → b < n → a < a' → a * n + b < a' * n
digit_less n a b a' h k = grind arith

-- A number in mixed digits has one reading.
digit_unique : (n a b a' b' : ℕ) → b < n → b' < n → a * n + b ≡ a' * n + b' → (a ≡ a') × (b ≡ b')
digit_unique n a b a' b' h h' e = elim (dec_lt a a') [
  | yes less ↦ absurd (omega (arith, digit_less n a b a' h less))
  | no ge ↦ elim (dec_lt a' a) [
    | yes more ↦ absurd (omega (arith, digit_less n a' b' a h' more))
    | no le ↦ same (omega arith)
  ]
]
  where
    same : a ≡ a' → (a ≡ a') × (b ≡ b')
    same p = (p, omega (arith, ap (λ (t : ℕ). t * n) p))

digit_bound : (n m a b : ℕ) → b < n → a < m → a * n + b < n * m
digit_bound n m a b h k = grind arith

module _ {image : Image} (v : IsImage image) where
  pub offset_bound : (x y c : ℕ) → IsWithin image x y c → x * image.channels + c < image.stride
  offset_bound x y c i =
      rw v.packed (omega (arith, digit_bound image.channels image.width x c i.c_in i.x_in))

  pub index_bound : (x y c : ℕ) → IsWithin image x y c → index image x y c < length image.pixels
  index_bound x y c i = rw v.filled (
      digit_bound image.stride image.height y (x * image.channels + c) (offset_bound x y c i)
        i.y_in)

  -- Two samples have the same index only if they are the same.
  pub index_unique :
      (x y c x' y' c' : ℕ)
      → IsWithin image x y c
      → IsWithin image x' y' c'
      → index image x y c ≡ index image x' y' c'
      → (x ≡ x') × (y ≡ y') × (c ≡ c')
  index_unique x y c x' y' c' i i' e =
      let (rows, offsets) =
        digit_unique image.stride y _ y' _ (offset_bound x y c i) (offset_bound x' y' c' i') e in
      let (columns, same) = digit_unique image.channels x c x' c' i.c_in i'.c_in offsets in
      (columns, rows, same)

get_or-set :
    (xs : List ℕ) (i j v d : ℕ)
    → i < length xs
    → get_or (set xs i v) j d ≡ (if i == j then v else get_or xs j d)
get_or-set [] i j v d h = absurd (omega arith)
get_or-set (x ∷ xs) zero zero v d h = refl
get_or-set (x ∷ xs) zero (suc j) v d h = ground arith
get_or-set (x ∷ xs) (suc i) zero v d h = ground arith
get_or-set (x ∷ xs) (suc i) (suc j) v d h = ground (arith, get_or-set xs i j v d (omega arith))

-- The test that two coordinates are the same sample.
abbrev pub same_sample : ℕ → ℕ → ℕ → ℕ → ℕ → ℕ → Bool
same_sample x y c x' y' c' = x == x' && y == y' && c == c'

index_test :
    {image : Image} (x y c x' y' c' : ℕ)
    → IsImage image
    → IsWithin image x y c
    → IsWithin image x' y' c'
    → (index image x y c == index image x' y' c') ≡ same_sample x y c x' y' c'
index_test {image} x y c x' y' c' v i i' =
    elim (Bool-cases (index image x y c == index image x' y' c')) [
      | inl eq ↦
          let (xs, ys, cs) = index_unique v x y c x' y' c' i i' ((==_iff _ _).0 eq) in
          eq ∙ ground arith
      | inr ne ↦ elim (Bool-cases (same_sample x y c x' y' c')) [
        | inl same ↦ absurd (cc (ne, equal (ground arith) (ground arith) (ground arith)))
        | inr differ ↦ ne ∙ sym differ
      ]
    ]
  where
    equal : x ≡ x' → y ≡ y' → c ≡ c' → (index image x y c == index image x' y' c') ≡ true
    equal p q r = rw (p, q, r) (ground arith)

-- On a well-formed image an assignment to one sample changes that sample and no other, and keeps
-- the image well formed.
pub at-set_at :
    {image : Image} (x y c x' y' c' value : ℕ)
    → IsImage image
    → IsWithin image x y c
    → IsWithin image x' y' c'
    → at (set_at image x y c value) x' y' c'
      ≡ (if same_sample x y c x' y' c' then value else at image x' y' c')
unfolding at set_at
at-set_at {image} x y c x' y' c' value v i i' =
    get_or-set image.pixels (index image x y c) (index image x' y' c') value 0
      (index_bound v x y c i)
    ∙ ap (λ (b : Bool). if b then value else get_or image.pixels (index image x' y' c') 0)
        (index_test x y c x' y' c' v i i')

pub set_at-IsImage :
    {image : Image} (x y c value : ℕ) → IsImage image → IsImage (set_at image x y c value)
unfolding set_at
set_at-IsImage {image} x y c value v = record {
  width_positive = v.width_positive;
  height_positive = v.height_positive;
  channels_supported = v.channels_supported;
  packed = v.packed;
  filled = length-set image.pixels _ value ∙ v.filled;
}
