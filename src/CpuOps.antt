-- ===== src/CpuOps.antt =====
-- include/imgjit/backend/cpu/ops.h and src/backend/cpu/ops.cpp: the scalar implementation of the ops.
-- `none` is the invalid_argument of the constructor of the output image. The loops over -radius to
-- radius run over the indexes 0 to 2 * radius, which the source uses for the weights, and the offset
-- is the index less the radius.
pub mod FloatOps
pub mod Loops
pub mod Samples
pub mod Results
pub mod Chains
pub mod Identities
mod Tests
use image_processing_engine.Prelude.{
  ℕ, zero, suc, ◌+◌, ◌-◌, ◌*◌, ◌%◌, ◌^◌, max, Bool, true, false, not, List, [], ◌∷◌, Option, none,
  some, ltb, ◌==◌, if◌then◌else◌, set, get_or, replicate, map,
}
use image_processing_engine.Prelude.Integers.{ℤ, pos, negsuc, nat_abs, sub_ℕ}
use image_processing_engine.Image.{Image, init, at, set_at}
use image_processing_engine.OpChain.{OpKind, Op, OpChain}
use FloatOps.{Arithmetic}
use Loops.{loop, each_pixel}

abbrev pub color_channels : ℕ → ℕ
color_channels channels = if channels == 4 then 3 else channels

-- `std::clamp(value, 0, limit - 1)`, for a positive limit.
unfoldable pub clamp_coordinate : ℤ → ℕ → ℕ
clamp_coordinate (pos n) limit = if ltb (limit - 1) n then limit - 1 else n
clamp_coordinate (negsuc n) limit = 0

-- `static_cast<std::uint8_t>`
abbrev pub byte_of : ℤ → ℕ
byte_of (pos n) = n % 256
byte_of (negsuc n) = 255 - n % 256

-- `Image output(input.width(), input.height(), input.channels())`
unfoldable pub output_for : Image → Option Image
unfolding init
output_for input = init (pos input.width) (pos input.height) (pos input.channels)

unfoldable pub copy_alpha : Image → Image → Image
unfolding at set_at
copy_alpha input output =
    if not (input.channels == 4)
    then output
    else each_pixel input (λ x y out. set_at out x y 3 (at input x y 3)) output

-- The loops of an op that computes a color sample at a time.
unfoldable pub each_color : Image → (ℕ → ℕ → ℕ → ℕ) → Image → Image
unfolding set_at
each_color input value =
    each_pixel input
      (λ x y. loop 0 (color_channels input.channels) (λ c out. set_at out x y c (value x y c)))

-- The output image, its colors and then its alpha.
unfoldable pub with_output : Image → (Image → Image) → Option Image
unfolding output_for copy_alpha
with_output input colors = elim (output_for input) [
  | none ↦ none
  | some output ↦ some (copy_alpha input (colors output))
]

unfoldable pub apply_invert : Image → Option Image
unfolding with_output each_color at
apply_invert input = with_output input (each_color input (λ x y c. 255 - at input x y c))

module _ {F : Type 0} (A : Arithmetic F) where
  open A use {of_int, of_thousandths, add, mul, div, neg, sqrt, exp, less, at_least, ceil, lround}

  unfoldable pub load_sample : ℕ → F
  load_sample value = div (of_int (pos value)) (of_int (pos 255))

  -- `std::clamp(value, low, high)`
  abbrev clamp : F → F → F → F
  clamp value low high = if less value low then low else if less high value then high else value

  unfoldable pub store_sample : F → ℕ
  store_sample value =
      byte_of (lround (mul (clamp value (of_int (pos 0)) (of_int (pos 1))) (of_int (pos 255))))

  unfoldable pub luma : ℕ → ℕ → ℕ → F
  unfolding load_sample
  luma r g b =
      add
        (add (mul (of_thousandths 299) (load_sample r)) (mul (of_thousandths 587) (load_sample g)))
        (mul (of_thousandths 114) (load_sample b))

  -- The body of the loops of `apply_grayscale`.
  unfoldable pub grayscale_pixel : Image → ℕ → ℕ → Image → Image
  unfolding luma store_sample at set_at
  grayscale_pixel input x y out =
      if color_channels input.channels == 1
      then set_at out x y 0 (at input x y 0)
      else let gray = store_sample (luma (at input x y 0) (at input x y 1) (at input x y 2)) in
        loop 0 (color_channels input.channels) (λ c out. set_at out x y c gray) out

  unfoldable pub apply_grayscale : Image → Option Image
  unfolding with_output grayscale_pixel
  apply_grayscale input = with_output input (each_pixel input (grayscale_pixel input))

  unfoldable pub brightness_sample : F → ℕ → ℕ
  unfolding load_sample store_sample
  brightness_sample delta value = store_sample (add (load_sample value) delta)

  unfoldable pub apply_brightness : Image → F → Option Image
  unfolding with_output each_color brightness_sample at
  apply_brightness input delta =
      with_output input (each_color input (λ x y c. brightness_sample delta (at input x y c)))

  unfoldable pub threshold_sample : F → ℕ → ℕ
  unfolding load_sample
  threshold_sample threshold value = if at_least (load_sample value) threshold then 255 else 0

  unfoldable pub apply_threshold : Image → F → Option Image
  unfolding with_output each_color threshold_sample at
  apply_threshold input threshold =
      with_output input (each_color input (λ x y c. threshold_sample threshold (at input x y c)))

  -- `std::max(1, static_cast<int>(std::ceil(3.0F * sigma)))`
  abbrev pub at_least_one : ℤ → ℕ
  at_least_one (pos n) = max 1 n
  at_least_one (negsuc n) = 1

  unfoldable pub gaussian_radius : F → ℕ
  gaussian_radius sigma = at_least_one (ceil (mul (of_int (pos 3)) sigma))

  -- The value before the division, for the offset `i - radius`.
  abbrev weight_value : F → ℕ → ℕ → F
  weight_value sigma radius i =
      let offset = nat_abs (sub_ℕ i radius) in
      exp (div (neg (of_int (pos (offset * offset)))) (mul (mul (of_int (pos 2)) sigma) sigma))

  unfoldable pub weight_loop : F → ℕ → List F × F
  weight_loop sigma radius =
      loop 0 (2 * radius + 1)
        (λ i state.
          (set state.0 i (weight_value sigma radius i), add state.1 (weight_value sigma radius i)))
        (replicate (2 * radius + 1) (of_int (pos 0)), of_int (pos 0))

  unfoldable pub gaussian_weights_1d : F → List F
  unfolding gaussian_radius weight_loop
  gaussian_weights_1d sigma =
      let state = weight_loop sigma (gaussian_radius sigma) in
      map (λ weight. div weight state.1) state.0

  -- A read of the stencil at clamped coordinates, the offsets being `dx - radius` and `dy - radius`.
  unfoldable pub clamped_sample : Image → ℕ → ℕ → ℕ → ℕ → ℕ → ℕ → F
  unfolding load_sample clamp_coordinate at
  clamped_sample input radius x y c dx dy = load_sample (
      at input (clamp_coordinate (sub_ℕ (x + dx) radius) input.width)
        (clamp_coordinate (sub_ℕ (y + dy) radius) input.height) c)

  unfoldable pub gaussian_sample : Image → List F → ℕ → ℕ → ℕ → ℕ → ℕ
  unfolding clamped_sample store_sample
  gaussian_sample input weights radius x y c =
      let weight = λ (i : ℕ). get_or weights i (of_int (pos 0)) in
      store_sample (
        loop 0 (2 * radius + 1)
          (λ dy. loop 0 (2 * radius + 1) (λ dx sum.
            add sum (mul (mul (weight dy) (weight dx)) (clamped_sample input radius x y c dx dy))))
          (of_int (pos 0)))

  unfoldable pub apply_gaussian : Image → F → Option Image
  unfolding with_output each_color gaussian_sample gaussian_weights_1d gaussian_radius
  apply_gaussian input sigma =
      with_output input (
        each_color input
          (gaussian_sample input (gaussian_weights_1d sigma) (gaussian_radius sigma)))

  -- kGx and kGy by row and column; kGy is the transpose of kGx.
  abbrev pub sobel_x : ℕ → ℕ → ℤ
  sobel_x dy zero = if dy == 1 then negsuc 1 else negsuc 0
  sobel_x dy (suc zero) = pos 0
  sobel_x dy (suc (suc dx)) = if dy == 1 then pos 2 else pos 1

  abbrev pub sobel_y : ℕ → ℕ → ℤ
  sobel_y dy dx = sobel_x dx dy

  unfoldable pub sobel_sample : Image → ℕ → ℕ → ℕ → ℕ
  unfolding clamped_sample store_sample
  sobel_sample input x y c =
      let sums =
        loop {A = F × F} 0 3
          (λ dy. loop {A = F × F} 0 3 (λ dx sum.
            let sample = clamped_sample input 1 x y c dx dy in
            (
              add sum.0 (mul (of_int (sobel_x dy dx)) sample),
              add sum.1 (mul (of_int (sobel_y dy dx)) sample),
            )))
          (of_int (pos 0), of_int (pos 0)) in
      store_sample (sqrt (add (mul sums.0 sums.0) (mul sums.1 sums.1)))

  unfoldable pub apply_sobel : Image → Option Image
  unfolding with_output each_color sobel_sample
  apply_sobel input = with_output input (each_color input (sobel_sample input))

  -- The throw for an unknown kind is not reached, a kind being one of six.
  unfoldable pub apply_op : Image → Op F → Option Image
  unfolding apply_grayscale apply_invert apply_brightness apply_threshold apply_gaussian apply_sobel
  apply_op input op = elim op.kind [
    | OpKind.grayscale ↦ apply_grayscale input
    | OpKind.invert ↦ apply_invert input
    | OpKind.brightness ↦ apply_brightness input op.param
    | OpKind.threshold ↦ apply_threshold input op.param
    | OpKind.gaussian ↦ apply_gaussian input op.param
    | OpKind.sobel ↦ apply_sobel input
  ]

  unfoldable pub apply_chain : Image → OpChain F → Option Image
  unfolding apply_op
  apply_chain current [] = some current
  apply_chain current (op ∷ ops) = elim (apply_op current op) [
    | none ↦ none
    | some next ↦ apply_chain next ops
  ]
