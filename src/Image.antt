-- ===== src/Image.antt =====
-- include/imgjit/core/image.h and src/core/image.cpp: interleaved 8-bit samples in packed rows.
-- `none` is the invalid_argument that a constructor throws. Dimensions come in as `int`; an image
-- that was made has positive ones, so its fields are natural numbers. That the allocation fails is
-- not modelled.
pub mod Channels
pub mod Pixels
pub mod Copy
pub mod Extensional
mod Tests
use image_processing_engine.Prelude.{
  ℕ, zero, suc, ◌+◌, ◌-◌, ◌*◌, ◌%◌, ◌^◌, Bool, true, false, ◌||◌, not, List, [], ◌∷◌, Option, none,
  some, ltb, ◌==◌, if◌then◌else◌, length, set, get_or, take, drop, replicate,
}
use image_processing_engine.Prelude.Integers.{ℤ, pos, negsuc}
use Channels.{is_supported_channel_count}

pub record Image : Type 0 where
  pub width : ℕ
  pub height : ℕ
  pub channels : ℕ
  pub stride : ℕ
  pub pixels : List ℕ

-- `Image{}`
abbrev pub no_image : Image
no_image = record { width = 0; height = 0; channels = 0; stride = 0; pixels = [] }

-- `static_cast<int>` of a uint32_t.
unfoldable pub int_of_u32 : ℕ → ℤ
int_of_u32 n = if ltb n (2 ^ 31) then pos n else negsuc (2 ^ 32 - n - 1)

abbrev is_positive : ℤ → Bool
is_positive (pos n) = ltb 0 n
is_positive (negsuc n) = false

abbrev to_ℕ : ℤ → ℕ
to_ℕ (pos n) = n
to_ℕ (negsuc n) = 0

abbrev is_supported_int : ℤ → Bool
is_supported_int (pos n) = is_supported_channel_count n
is_supported_int (negsuc n) = false

-- `stride_ * height` is a size_t product; with `int` dimensions and 4 channels it does not wrap.
unfoldable pub init : ℤ → ℤ → ℤ → Option Image
unfolding is_supported_channel_count
init width height channels =
    if not (is_positive width) || not (is_positive height) || not (is_supported_int channels)
    then none
    else some (record {
      width = to_ℕ width;
      height = to_ℕ height;
      channels = to_ℕ channels;
      stride = to_ℕ width * to_ℕ channels;
      pixels = replicate (to_ℕ width * to_ℕ channels * to_ℕ height) 0;
    })

-- `std::memcpy(pixels + offset, bytes, size)` inside the vector.
unfoldable pub copy_to : List ℕ → ℕ → List ℕ → List ℕ
copy_to [] offset bytes = []
copy_to (x ∷ xs) (suc offset) bytes = x ∷ copy_to xs offset bytes
copy_to (x ∷ xs) zero [] = x ∷ xs
copy_to (x ∷ xs) zero (b ∷ bytes) = b ∷ copy_to xs zero bytes

-- `row(y)` begins at this index.
abbrev pub row : Image → ℕ → ℕ
row image y = y * image.stride

-- The loop of `from_bytes` from row `y` on, with `left` rows to go. A source shorter than the rows
-- that are read is undefined in the source program.
unfoldable pub copy_rows : ℕ → ℕ → Image → List ℕ → ℕ → Image
unfolding copy_to
copy_rows zero y image source source_stride = image
copy_rows (suc left) y image source source_stride =
    copy_rows left (y + 1)
      (record image {
        pixels =
            copy_to image.pixels (row image y)
              (take image.stride (drop (y * source_stride) source));
      })
      source source_stride

abbrev pub from_rows : List ℕ → ℕ → Image → Option Image
from_rows source source_stride image =
    if ltb source_stride image.stride
    then none
    else some (copy_rows image.height 0 image source source_stride)

unfoldable pub from_bytes : ℤ → ℤ → ℤ → List ℕ → ℕ → Option Image
unfolding init copy_rows
from_bytes width height channels source source_stride = elim (init width height channels) [
  | none ↦ none
  | some image ↦ from_rows source source_stride image
]

-- The index of a sample, as `at` computes it.
abbrev pub index : Image → ℕ → ℕ → ℕ → ℕ
index image x y channel = row image y + (x * image.channels + channel)

-- `at(x, y, channel)` as a value, and as the target of an assignment.
unfoldable pub at : Image → ℕ → ℕ → ℕ → ℕ
at image x y channel = get_or image.pixels (index image x y channel) 0

unfoldable pub set_at : Image → ℕ → ℕ → ℕ → ℕ → Image
set_at image x y channel value = record image {
  pixels = set image.pixels (index image x y channel) value;
}

unfoldable pub byte_count : Image → ℕ
byte_count image = length image.pixels
