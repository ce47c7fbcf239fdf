-- ===== src/CpuOps/Results.antt =====
-- Every op on a well-formed image: the samples that it computes, its shape and its alpha.
use image_processing_engine.Prelude.{
  ℕ, ◌-◌, ◌*◌, ◌≤◌, ◌<◌, ◌≡◌, refl, ◌∙◌, true, ◌&&◌, ltb, ◌==◌, arith, if◌then◌else◌, some,
  Bool-cases, inl, inr, replicate,
}
use image_processing_engine.Prelude.Integers.{pos}
use image_processing_engine.Image.{Image, at, set_at, init}
use image_processing_engine.Image.Pixels.{IsImage, IsWithin, init-IsImage, same_sample}
use image_processing_engine.OpChain.{OpKind, Op}
use image_processing_engine.CpuOps.FloatOps.{Arithmetic}
use image_processing_engine.CpuOps.Loops.{loop, each_pixel}
use image_processing_engine.CpuOps.Samples.{
  IsLike, HasSamples, SetsPixel, each_pixel_sets, channel_loop_sets, copy_alpha_sets,
  color_channels_le, set_sample,
}
use image_processing_engine.CpuOps.{
  color_channels, copy_alpha, each_color, with_output, output_for, apply_invert, apply_grayscale,
  apply_brightness, apply_threshold, apply_gaussian, apply_sobel, apply_op, grayscale_pixel,
  brightness_sample, threshold_sample, gaussian_sample, gaussian_weights_1d, gaussian_radius,
  sobel_sample, luma, store_sample,
}

abbrev blank : Image → Image
blank input = record {
  width = input.width;
  height = input.height;
  channels = input.channels;
  stride = input.width * input.channels;
  pixels = replicate (input.width * input.channels * input.height) 0;
}

output_for-IsLike :
    (input : Image)
    → IsImage input
    → (output : Image) × (output_for input ≡ some output) × IsLike input output
unfolding output_for init
output_for-IsLike input v =
    let made : output_for input ≡ some (blank input) =
      ground (arith, v.width_positive, v.height_positive, v.channels_supported) in
    (
      blank input,
      made,
      record {
        valid = init-IsImage (pos input.width) (pos input.height) (pos input.channels) made;
        same_width = refl;
        same_height = refl;
        same_channels = refl;
      },
    )

module _ (input : Image) (v : IsImage input) where
  first_sample : IsWithin input 0 0 0
  first_sample = record {
    x_in = v.width_positive;
    y_in = v.height_positive;
    c_in = elim v.channels_supported [
      | inl one ↦ omega (arith, one)
      | inr (inl three) ↦ omega (arith, three)
      | inr (inr four) ↦ omega (arith, four)
    ];
  }

  with_output-HasSamples :
      (body : ℕ → ℕ → Image → Image) (value : ℕ → ℕ → ℕ → ℕ)
      → ((x y c : ℕ) (i : IsWithin input x y c)
          → SetsPixel input x y c i body (ltb c (color_channels input.channels)) (value x y c))
      → (output : Image) × (with_output input (each_pixel input body) ≡ some output)
        × HasSamples input value output
  unfolding with_output
  with_output-HasSamples body value sets =
      let (blank, made, like) = output_for-IsLike input v in
      let colored = each_pixel input body blank in
      let sample = λ (x y c : ℕ) (i : IsWithin input x y c).
        each_pixel_sets input x y c i body (ltb c (color_channels input.channels)) (value x y c)
          (sets x y c i) blank like in
      let colored_like : IsLike input colored = (sample 0 0 0 first_sample).0 in
      let final = λ (x y c : ℕ) (i : IsWithin input x y c).
        copy_alpha_sets input x y c i colored colored_like in
      (
        copy_alpha input colored,
        rw (made, with_output) refl,
        record {
          like = (final 0 0 0 first_sample).0;
          colors = λ x y c i lt.
              (final x y c i).1
              ∙ color (at input x y c) (at colored x y c) c lt
              ∙ (sample x y c i).1
              ∙ ground arith;
          alpha = λ x y c i ge.
              (final x y c i).1 ∙ alpha_sample (at input x y c) (at colored x y c) c (i.c_in) ge;
        },
      )
    where
      color :
          (kept other c : ℕ)
          → c < color_channels input.channels
          → (if input.channels == 4 && c == 3 then kept else other) ≡ other
      color kept other c lt = ground arith

      alpha_sample :
          (kept other c : ℕ)
          → c < input.channels
          → color_channels input.channels ≤ c
          → (if input.channels == 4 && c == 3 then kept else other) ≡ kept
      alpha_sample kept other c lt ge = ground arith

  each_color-HasSamples :
      (value : ℕ → ℕ → ℕ → ℕ)
      → (output : Image) × (with_output input (each_color input value) ≡ some output)
        × HasSamples input value output
  unfolding each_color
  each_color-HasSamples value =
      with_output-HasSamples
        (λ x y. loop 0 (color_channels input.channels) (λ c out. set_at out x y c (value x y c)))
        value
        (λ x y c i.
          channel_loop_sets input x y c i (color_channels input.channels) value
            (color_channels_le input.channels))

module _ {F : Type 0} (A : Arithmetic F) where
  -- The gray value of a pixel; an image of one channel is its own luminance.
  abbrev pub grayscale_sample : Image → ℕ → ℕ → ℕ → ℕ
  grayscale_sample input x y c =
      if color_channels input.channels == 1
      then at input x y 0
      else store_sample A (luma A (at input x y 0) (at input x y 1) (at input x y 2))

  -- The color that an op gives the sample of channel `c` at (x, y), as a function of the input.
  abbrev pub op_sample : Op F → Image → ℕ → ℕ → ℕ → ℕ
  op_sample op input x y c = elim op.kind [
    | OpKind.grayscale ↦ grayscale_sample input x y c
    | OpKind.invert ↦ 255 - at input x y c
    | OpKind.brightness ↦ brightness_sample A op.param (at input x y c)
    | OpKind.threshold ↦ threshold_sample A op.param (at input x y c)
    | OpKind.gaussian ↦
        gaussian_sample A input (gaussian_weights_1d A op.param) (gaussian_radius A op.param) x y c
    | OpKind.sobel ↦ sobel_sample A input x y c
  ]

  grayscale_pixel_sets :
      (input : Image) (x y c : ℕ) (i : IsWithin input x y c)
      → SetsPixel input x y c i
          (grayscale_pixel A input)
          (ltb c (color_channels input.channels))
          (grayscale_sample input x y c)
  unfolding grayscale_pixel
  grayscale_pixel_sets input x' y' c' i x y image x_in y_in like =
      elim (Bool-cases (color_channels input.channels == 1)) [
        | inl one ↦
            let (l, e) =
              set_sample input x' y' c' i x y 0 (at input x y 0) image
                (record { x_in = x_in; y_in = y_in; c_in = ground (arith, i.c_in) }) like in
            rw (one, grayscale_pixel) (l, e ∙ same_gray (ground (arith, i.c_in)))
        | inr more ↦
            let (l, e) =
              channel_loop_sets input x' y' c' i (color_channels input.channels)
                (λ x y c.
                  store_sample A (luma A (at input x y 0) (at input x y 1) (at input x y 2)))
                (color_channels_le input.channels) x y image x_in y_in like in
            rw (more, grayscale_pixel) (l, e)
      ]
    where
      same_gray :
          (c' ≡ 0) × (ltb c' (color_channels input.channels) ≡ true)
          → (if same_sample x y 0 x' y' c' then at input x y 0 else at image x' y' c') ≡ (
              if ltb c' (color_channels input.channels) && (x == x' && y == y')
              then at input x' y' 0
              else at image x' y' c')
      same_gray (zeroth, low) = elim (Bool-cases (same_sample x y 0 x' y' c')) [
        | inl e ↦
            let xs : x ≡ x' = ground arith in
            let ys : y ≡ y' = ground arith in
            let values : at input x y 0 ≡ at input x' y' 0 = cc in ground arith
        | inr e ↦ ground arith
      ]

  -- Every op succeeds on a well-formed image, whatever its parameter and the arithmetic of floats. The
  -- result has the input's width, height and channels, each color sample is the value of the op at
  -- that pixel as a function of the input alone, and an alpha sample is the input's.
  pub apply_op-HasSamples :
      (input : Image) (op : Op F)
      → IsImage input
      → (output : Image) × (apply_op A input op ≡ some output)
        × HasSamples input (op_sample op input) output
  unfolding apply_op apply_grayscale apply_invert apply_brightness apply_threshold apply_gaussian
      apply_sobel
  apply_op-HasSamples input op v = by_kind op.kind op.param
    where
      by_kind :
          (kind : OpKind) (param : F)
          → (output : Image) × (apply_op A input (record { kind = kind; param = param })
              ≡ some output)
            × HasSamples input (op_sample (record { kind = kind; param = param }) input) output
      by_kind OpKind.grayscale param =
          with_output-HasSamples input v (grayscale_pixel A input) (grayscale_sample input)
            (grayscale_pixel_sets input)
      by_kind OpKind.invert param = each_color-HasSamples input v _
      by_kind OpKind.brightness param = each_color-HasSamples input v _
      by_kind OpKind.threshold param = each_color-HasSamples input v _
      by_kind OpKind.gaussian param = each_color-HasSamples input v _
      by_kind OpKind.sobel param = each_color-HasSamples input v _
