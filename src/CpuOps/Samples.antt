-- ===== src/CpuOps/Samples.antt =====
-- The loops over an image, sample by sample: colors are set to their values and alpha to the input's.
use image_processing_engine.Prelude.{
  ℕ, ◌≤◌, ◌<◌, ◌≡◌, refl, ◌∙◌, Bool, ◌&&◌, ltb, ◌==◌, arith, if◌then◌else◌, Bool-cases, inl, inr,
}
use image_processing_engine.Image.{Image, at, set_at}
use image_processing_engine.Image.Pixels.{IsImage, IsWithin, at-set_at, set_at-IsImage, same_sample}
use image_processing_engine.CpuOps.Loops.{loop, each_pixel, loop_sets}
use image_processing_engine.CpuOps.{color_channels, copy_alpha}

-- A well-formed image of the input's shape.
pub record IsLike (input output : Image) : Type 0 where
  pub valid : IsImage output
  pub same_width : output.width ≡ input.width
  pub same_height : output.height ≡ input.height
  pub same_channels : output.channels ≡ input.channels

pub set_at-IsLike :
    {input output : Image} (x y c value : ℕ)
    → IsLike input output
    → IsLike input (set_at output x y c value)
unfolding set_at
set_at-IsLike x y c value l = record {
  valid = set_at-IsImage x y c value l.valid;
  same_width = l.same_width;
  same_height = l.same_height;
  same_channels = l.same_channels;
}

within_like :
    {input output : Image} {x y c : ℕ}
    → IsLike input output
    → IsWithin input x y c
    → IsWithin output x y c
within_like {input} {output} {x} {y} {c} l i = record {
  x_in = omega (arith, l.same_width, i.x_in);
  y_in = omega (arith, l.same_height, i.y_in);
  c_in = omega (arith, l.same_channels, i.c_in);
}

pub color_channels_le : (channels : ℕ) → color_channels channels ≤ channels
color_channels_le channels = ground arith

module _ (input : Image) (x' y' c' : ℕ) (inside : IsWithin input x' y' c') where
  abbrev observe : Image → ℕ
  observe image = at image x' y' c'

  -- What one pixel's round does to the sample that is observed.
  abbrev pub SetsPixel : (ℕ → ℕ → Image → Image) → Bool → ℕ → Type 0
  SetsPixel body guard v =
      (x y : ℕ) (image : Image)
      → x < input.width
      → y < input.height
      → IsLike input image
      → IsLike input (body x y image)
        × (observe (body x y image) ≡ (if guard && (x == x' && y == y') then v else observe image))

  pub each_pixel_sets :
      (body : ℕ → ℕ → Image → Image) (guard : Bool) (v : ℕ)
      → SetsPixel body guard v
      → (image : Image) → IsLike input image
      → IsLike input (each_pixel input body image)
        × (observe (each_pixel input body image) ≡ (if guard then v else observe image))
  each_pixel_sets body guard v sets image like =
      let (l, e) =
        loop_sets (IsLike input) observe v guard y' input.height
          (λ y. loop 0 input.width (λ x. body x y))
          (λ y image y_in like.
            let (l, e) =
              loop_sets (IsLike input) observe v (guard && y == y') x' input.width (λ x. body x y)
                (λ x image x_in like.
                  let (l, e) = sets x y image x_in y_in like in (l, e ∙ ground arith))
                0 input.width image (omega arith) like in
            (l, e ∙ ground (arith, inside.x_in)))
          0 input.height image (omega arith) like in
      (l, e ∙ ground (arith, inside.y_in))

  pub set_sample :
      (x y c value : ℕ) (image : Image)
      → IsWithin input x y c
      → IsLike input image
      → IsLike input (set_at image x y c value)
        × (observe (set_at image x y c value)
            ≡ (if same_sample x y c x' y' c' then value else observe image))
  set_sample x y c value image i like = (
    set_at-IsLike x y c value like,
    at-set_at x y c x' y' c' value like.valid (within_like like i) (within_like like inside),
  )

  -- The loop over the channels of a pixel, with a value for each sample.
  pub channel_loop_sets :
      (n : ℕ) (value : ℕ → ℕ → ℕ → ℕ)
      → n ≤ input.channels
      → SetsPixel
          (λ x y. loop 0 n (λ c out. set_at out x y c (value x y c)))
          (ltb c' n)
          (value x' y' c')
  channel_loop_sets n value le x y image x_in y_in like =
      let (l, e) =
        loop_sets (IsLike input) observe (value x' y' c') (x == x' && y == y') c' n
          (λ c out. set_at out x y c (value x y c))
          (λ c image c_in like.
            let (l, e) =
              set_sample x y c (value x y c) image
                (record { x_in = x_in; y_in = y_in; c_in = omega arith }) like in
            (l, e ∙ same_value c image))
          0 n image (omega arith) like in
      (l, e ∙ ground arith)
    where
      same_value :
          (c : ℕ) (image : Image)
          → (if same_sample x y c x' y' c' then value x y c else observe image)
            ≡ (if (x == x' && y == y') && c == c' then value x' y' c' else observe image)
      same_value c image = elim (Bool-cases (same_sample x y c x' y' c')) [
        | inl e ↦
            let xs : x ≡ x' = ground arith in
            let ys : y ≡ y' = ground arith in
            let cs : c ≡ c' = ground arith in
            let values : value x y c ≡ value x' y' c' = cc in ground arith
        | inr e ↦ ground arith
      ]

  pub copy_alpha_sets :
      (output : Image)
      → IsLike input output
      → IsLike input (copy_alpha input output)
        × (observe (copy_alpha input output)
            ≡ (if input.channels == 4 && c' == 3 then observe input else observe output))
  unfolding copy_alpha
  copy_alpha_sets output like = elim (Bool-cases (input.channels == 4)) [
    | inl four ↦
        let (l, e) =
          each_pixel_sets (λ x y out. set_at out x y 3 (at input x y 3)) (c' == 3) (observe input)
            (λ x y image x_in y_in like.
              let (l, e) =
                set_sample x y 3 (at input x y 3) image
                  (record { x_in = x_in; y_in = y_in; c_in = ground arith }) like in
              (l, e ∙ same_alpha x y image))
            output like in
        rw (four, copy_alpha) (l, e)
    | inr other ↦ rw (other, copy_alpha) (like, refl)
  ]
    where
      same_alpha :
          (x y : ℕ) (image : Image)
          → (if same_sample x y 3 x' y' c' then at input x y 3 else observe image)
            ≡ (if c' == 3 && (x == x' && y == y') then observe input else observe image)
      same_alpha x y image = elim (Bool-cases (same_sample x y 3 x' y' c')) [
        | inl e ↦
            let xs : x ≡ x' = ground arith in
            let ys : y ≡ y' = ground arith in
            let cs : 3 ≡ c' = ground arith in
            let values : at input x y 3 ≡ at input x' y' c' = cc in ground arith
        | inr e ↦ ground arith
      ]

-- The result of an op that succeeds: an image of the input's shape, whose colors have the given
-- values and whose alpha is the input's.
pub record HasSamples (input : Image) (value : ℕ → ℕ → ℕ → ℕ) (output : Image) : Type 0 where
  pub like : IsLike input output
  pub colors :
      (x y c : ℕ)
      → IsWithin input x y c
      → c < color_channels input.channels
      → at output x y c ≡ value x y c
  pub alpha :
      (x y c : ℕ)
      → IsWithin input x y c
      → color_channels input.channels ≤ c
      → at output x y c ≡ at input x y c
