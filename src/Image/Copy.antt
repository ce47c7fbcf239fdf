-- ===== src/Image/Copy.antt =====
-- What `from_bytes` makes of a source with padded rows.
use image_processing_engine.Prelude.{
  ℕ, zero, suc, ◌+◌, ◌*◌, ◌≤◌, ◌<◌, ◌≡◌, refl, ap, ◌∙◌, sym, ◌⊎◌, ◌≢◌, inl, inr, ◌&&◌, List, [],
  ◌∷◌, none, some, arith, ltb, leb, ◌==◌, if◌then◌else◌, length, get_or, take, drop, length-take,
  length-drop, Bool-cases, Option-cases, ==_iff,
}
use mathlib.Core.Path.{subst}
use native.Mathlib.Decide.{dec_lt}
use image_processing_engine.Prelude.Integers.{ℤ}
use image_processing_engine.Image.{Image, init, copy_to, copy_rows, from_rows, from_bytes, row, at}
use image_processing_engine.Image.Pixels.{IsImage, IsWithin, init-IsImage, offset_bound, digit_less}

length-copy_to : (xs : List ℕ) (off : ℕ) (bs : List ℕ) → length (copy_to xs off bs) ≡ length xs
unfolding copy_to
length-copy_to [] off bs = refl
length-copy_to (x ∷ xs) (suc off) bs = ap suc (length-copy_to xs off bs)
length-copy_to (x ∷ xs) zero [] = refl
length-copy_to (x ∷ xs) zero (b ∷ bs) = ap suc (length-copy_to xs zero bs)

-- The bytes between `off` and `off + length bs` are replaced, the others stay.
get_or-copy_to_in :
    (xs : List ℕ) (off : ℕ) (bs : List ℕ) (i j : ℕ)
    → i ≡ off + j
    → i < length xs
    → j < length bs
    → get_or (copy_to xs off bs) i 0 ≡ get_or bs j 0
unfolding copy_to
get_or-copy_to_in [] off bs i j e h k = absurd (omega arith)
get_or-copy_to_in (x ∷ xs) (suc off) bs zero j e h k = absurd (omega arith)
get_or-copy_to_in (x ∷ xs) (suc off) bs (suc i) j e h k =
    get_or-copy_to_in xs off bs i j (omega arith) (omega arith) k
get_or-copy_to_in (x ∷ xs) zero [] i j e h k = absurd (omega arith)
get_or-copy_to_in (x ∷ xs) zero (b ∷ bs) zero zero e h k = refl
get_or-copy_to_in (x ∷ xs) zero (b ∷ bs) zero (suc j) e h k = absurd (omega arith)
get_or-copy_to_in (x ∷ xs) zero (b ∷ bs) (suc i) zero e h k = absurd (omega arith)
get_or-copy_to_in (x ∷ xs) zero (b ∷ bs) (suc i) (suc j) e h k =
    get_or-copy_to_in xs zero bs i j (omega arith) (omega arith) (omega arith)

get_or-copy_to_out :
    (xs : List ℕ) (off : ℕ) (bs : List ℕ) (j : ℕ)
    → (j < off) ⊎ (off + length bs ≤ j)
    → get_or (copy_to xs off bs) j 0 ≡ get_or xs j 0
unfolding copy_to
get_or-copy_to_out [] off bs j h = refl
get_or-copy_to_out (x ∷ xs) (suc off) bs zero h = refl
get_or-copy_to_out (x ∷ xs) (suc off) bs (suc j) h = get_or-copy_to_out xs off bs j (omega arith)
get_or-copy_to_out (x ∷ xs) zero [] j h = refl
get_or-copy_to_out (x ∷ xs) zero (b ∷ bs) zero h = absurd (omega arith)
get_or-copy_to_out (x ∷ xs) zero (b ∷ bs) (suc j) h = get_or-copy_to_out xs zero bs j (omega arith)

get_or-take : (n : ℕ) (xs : List ℕ) (j : ℕ) → j < n → get_or (take n xs) j 0 ≡ get_or xs j 0
get_or-take zero xs j h = absurd (omega arith)
get_or-take (suc n) [] j h = refl
get_or-take (suc n) (x ∷ xs) zero h = refl
get_or-take (suc n) (x ∷ xs) (suc j) h = get_or-take n xs j (omega arith)

get_or-drop : (k : ℕ) (xs : List ℕ) (i j : ℕ) → i ≡ k + j → get_or (drop k xs) j 0 ≡ get_or xs i 0
get_or-drop zero xs i j e = ap (λ n. get_or xs n 0) (omega arith)
get_or-drop (suc k) [] i j e = refl
get_or-drop (suc k) (x ∷ xs) zero j e = absurd (omega arith)
get_or-drop (suc k) (x ∷ xs) (suc i) j e = get_or-drop k xs i j (omega arith)

-- The image after row `y` was copied.
abbrev copied : Image → ℕ → List ℕ → ℕ → Image
copied image y source ss = record image {
  pixels = copy_to image.pixels (row image y) (take image.stride (drop (y * ss) source));
}

copied-IsImage :
    {image : Image} (y : ℕ) (source : List ℕ) (ss : ℕ)
    → IsImage image
    → IsImage (copied image y source ss)
copied-IsImage {image} y source ss v = record {
  width_positive = v.width_positive;
  height_positive = v.height_positive;
  channels_supported = v.channels_supported;
  packed = v.packed;
  filled = length-copy_to image.pixels _ _ ∙ v.filled;
}

copy_rows-IsImage :
    (left y : ℕ) {image : Image} (source : List ℕ) (ss : ℕ)
    → IsImage image
    → IsImage (copy_rows left y image source ss)
      × ((copy_rows left y image source ss).width ≡ image.width)
      × ((copy_rows left y image source ss).height ≡ image.height)
      × ((copy_rows left y image source ss).channels ≡ image.channels)
      × ((copy_rows left y image source ss).stride ≡ image.stride)
unfolding copy_rows
copy_rows-IsImage zero y source ss v = (v, refl, refl, refl, refl)
copy_rows-IsImage (suc left) y source ss v =
    copy_rows-IsImage left (y + 1) source ss (copied-IsImage y source ss v)

-- A source holds the rows that are read of it.
abbrev pub Holds : List ℕ → ℕ → ℕ → ℕ → Type 0
Holds source height ss stride = (r : ℕ) → r < height → r * ss + stride ≤ length source

below_row : (s m r o : ℕ) → o < s → r < m → r * s + o < s * m
below_row s m r o h k = grind arith

row_copied :
    {image : Image} (source : List ℕ) (ss y o : ℕ)
    → IsImage image
    → Holds source image.height ss image.stride
    → y < image.height
    → o < image.stride
    → get_or (copied image y source ss).pixels (y * image.stride + o) 0
      ≡ get_or source (y * ss + o) 0
row_copied {image} source ss y o v held hy ho =
    get_or-copy_to_in image.pixels (row image y) _ _ o refl
      (rw v.filled (below_row image.stride image.height y o ho hy))
      (omega (
        arith,
        length-take image.stride (drop (y * ss) source),
        length-drop (y * ss) source,
        held y hy,
      ))
    ∙ get_or-take image.stride (drop (y * ss) source) o ho
    ∙ get_or-drop (y * ss) source _ o refl

rows_apart : (s y r o : ℕ) → o < s → y ≢ r → (r * s + o < y * s) ⊎ (y * s + s ≤ r * s + o)
rows_apart s y r o h ne = elim (dec_lt r y) [
  | yes less ↦ inl (digit_less s r o y h less)
  | no ge ↦ inr (grind arith)
]

row_kept :
    (image : Image) (source : List ℕ) (ss y r o : ℕ)
    → y ≢ r
    → o < image.stride
    → get_or (copied image y source ss).pixels (r * image.stride + o) 0
      ≡ get_or image.pixels (r * image.stride + o) 0
row_kept image source ss y r o ne ho = get_or-copy_to_out image.pixels (row image y) _ _ (
    omega
      (arith, rows_apart image.stride y r o ho ne, length-take image.stride (drop (y * ss) source)))

row_step :
    (image : Image) (source : List ℕ) (ss y r o : ℕ)
    → IsImage image
    → Holds source image.height ss image.stride
    → y < image.height
    → o < image.stride
    → get_or (copied image y source ss).pixels (r * image.stride + o) 0 ≡ (
        if y == r
        then get_or source (r * ss + o) 0
        else get_or image.pixels (r * image.stride + o) 0)
row_step image source ss y r o v held hy ho = elim (Bool-cases (y == r)) [
  | inl same ↦
      let e : y ≡ r = (==_iff y r).0 same in
      rw same (
        subst
          (λ k.
            get_or (copied image y source ss).pixels (k * image.stride + o) 0
            ≡ get_or source (k * ss + o) 0)
          e (row_copied source ss y o v held hy ho))
  | inr differ ↦ rw differ (row_kept image source ss y r o (ground arith) ho)
]

-- The rows from `y` on are copied, the others keep their bytes.
copy_rows_lem :
    (left y : ℕ) {image : Image} (source : List ℕ) (ss r o : ℕ)
    → IsImage image
    → Holds source image.height ss image.stride
    → y + left ≤ image.height
    → o < image.stride
    → get_or (copy_rows left y image source ss).pixels (r * image.stride + o) 0 ≡ (
        if leb y r && ltb r (y + left)
        then get_or source (r * ss + o) 0
        else get_or image.pixels (r * image.stride + o) 0)
unfolding copy_rows
copy_rows_lem zero y source ss r o v held hy ho = ground arith
copy_rows_lem (suc left) y {image} source ss r o v held hy ho = ground (
  arith,
  copy_rows_lem left (y + 1) {image = copied image y source ss} source ss r o
      (copied-IsImage y source ss v) held (omega arith) ho,
  row_step image source ss y r o v held (omega arith) ho,
)

from_bytes_cases :
    (w h c : ℤ) (source : List ℕ) (ss : ℕ) {image : Image}
    → from_bytes w h c source ss ≡ some image
    → (blank : Image) × (init w h c ≡ some blank)
      × (blank.stride ≤ ss)
      × (copy_rows blank.height 0 blank source ss ≡ image)
unfolding from_bytes
from_bytes_cases w h c source ss e = elim (Option-cases (init w h c)) [
  | inl bad ↦ absurd (cc (rw (bad, from_bytes) at e))
  | inr (blank, made) ↦
      let f : from_rows source ss blank ≡ some _ = rw (made, from_bytes) at e in
      (blank, made, ground arith, ground arith)
]

pub from_bytes-IsImage :
    (w h c : ℤ) (source : List ℕ) (ss : ℕ) {image : Image}
    → from_bytes w h c source ss ≡ some image
    → IsImage image
from_bytes-IsImage w h c source ss e =
    let (blank, made, wide, result) = from_bytes_cases w h c source ss e in
    subst IsImage result (copy_rows-IsImage blank.height 0 source ss (init-IsImage w h c made)).0

-- Where the dimensions are refused, or the source stride is narrower than a packed row, there is no
-- image.
pub from_bytes_refuses :
    (w h c : ℤ) (source : List ℕ) (ss : ℕ)
    → ((init w h c ≡ none) → from_bytes w h c source ss ≡ none)
      × ((blank : Image)
          → init w h c ≡ some blank
          → ss < blank.stride
          → from_bytes w h c source ss ≡ none)
unfolding from_bytes
from_bytes_refuses w h c source ss =
    (λ bad. rw (bad, from_bytes), λ blank made narrow. rw (made, from_bytes) (ground arith))

at-copy_rows :
    {blank : Image} (source : List ℕ) (ss x y ch : ℕ)
    → IsImage blank
    → Holds source blank.height ss blank.stride
    → IsWithin blank x y ch
    → at (copy_rows blank.height 0 blank source ss) x y ch
      ≡ get_or source (y * ss + (x * (copy_rows blank.height 0 blank source ss).channels + ch)) 0
unfolding at
at-copy_rows {blank} source ss x y ch v held i =
    let (kept, _, same_height, same_channels, same_stride) =
      copy_rows-IsImage blank.height 0 source ss v in
    rw (same_stride, same_channels)
      (ground (
        arith,
        copy_rows_lem blank.height 0 source ss y (x * blank.channels + ch) v held (omega arith)
            (offset_bound v x y ch i),
        i.y_in,
      ))

-- Where `from_bytes` gives an image from a source that holds every row that is read, the image is
-- well formed, and each of its samples is the source's byte at the same place of the padded row.
pub at-from_bytes :
    (w h c : ℤ) (source : List ℕ) (ss : ℕ) {image : Image} (x y ch : ℕ)
    → from_bytes w h c source ss ≡ some image
    → Holds source image.height ss image.stride
    → IsWithin image x y ch
    → IsImage image × (at image x y ch ≡ get_or source (y * ss + (x * image.channels + ch)) 0)
at-from_bytes w h c source ss {image} x y ch e held i =
    let (blank, made, wide, result) = from_bytes_cases w h c source ss e in
    let v : IsImage blank = init-IsImage w h c made in
    let (kept, same_width, same_height, same_channels, same_stride) =
      copy_rows-IsImage blank.height 0 source ss v in
    let ws : image.width ≡ blank.width = ap (λ (im : Image). im.width) (sym result) ∙ same_width in
    let hs : image.height ≡ blank.height =
      ap (λ (im : Image). im.height) (sym result) ∙ same_height in
    let cs : image.channels ≡ blank.channels =
      ap (λ (im : Image). im.channels) (sym result) ∙ same_channels in
    let ss' : image.stride ≡ blank.stride =
      ap (λ (im : Image). im.stride) (sym result) ∙ same_stride in
    (
      subst IsImage result kept,
      subst (λ (im : Image). at im x y ch ≡ get_or source (y * ss + (x * im.channels + ch)) 0)
          result
          (at-copy_rows source ss x y ch v (λ r lt. omega (arith, held r (omega arith)))
            (record { x_in = omega arith; y_in = omega arith; c_in = omega arith })),
    )
