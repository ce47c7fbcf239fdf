-- ===== src/Image/Tests.antt =====
-- Witnesses of the image's theorems on an image of two gray pixels read from padded rows.
use image_processing_engine.Prelude.{
  ℕ, ◌+◌, ◌*◌, ◌≡◌, refl, arith, List, [], ◌∷◌, some, inl, get_or,
}
use image_processing_engine.Prelude.Integers.{pos}
use image_processing_engine.Image.{Image, init, copy_rows, copy_to, from_bytes, at}
use image_processing_engine.Image.Pixels.{IsImage, IsWithin}
use image_processing_engine.Image.Copy.{at-from_bytes}

-- One column of two rows, 9 and 8, each padded to three bytes.
abbrev padded : List ℕ
padded = 9 ∷ 0 ∷ 0 ∷ 8 ∷ 0 ∷ 0 ∷ []

abbrev column : Image
column = record { width = 1; height = 2; channels = 1; stride = 1; pixels = 9 ∷ 8 ∷ [] }

read_column : from_bytes (pos 1) (pos 2) (pos 1) padded 3 ≡ some column
unfolding from_bytes init copy_rows copy_to
read_column = refl

column-IsImage : IsImage column
column-IsImage = record {
  width_positive = omega arith;
  height_positive = omega arith;
  channels_supported = inl refl;
  packed = refl;
  filled = refl;
}

abbrev second_row : IsWithin column 0 1 0
second_row = record { x_in = omega arith; y_in = omega arith; c_in = omega arith }

abbrev first_row : IsWithin column 0 0 0
first_row = record { x_in = omega arith; y_in = omega arith; c_in = omega arith }

at-from_bytes_example :
    IsImage column × (at column 0 1 0 ≡ get_or padded (1 * 3 + (0 * column.channels + 0)) 0)
at-from_bytes_example =
    at-from_bytes (pos 1) (pos 2) (pos 1) padded 3 0 1 0 read_column (λ r lt. omega arith)
      second_row
