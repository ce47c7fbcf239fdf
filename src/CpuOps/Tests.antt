-- ===== src/CpuOps/Tests.antt =====
-- Witnesses of the CPU ops' theorems on one RGBA pixel, with natural numbers of 255ths for the floats.
use image_processing_engine.Prelude.{
  ℕ, zero, get_or, suc, ◌+◌, ◌*◌, ◌/◌, ◌≡◌, ◌<◌, refl, arith, List, [], ◌∷◌, some, inr, ltb, leb,
}
use image_processing_engine.Prelude.Predicates.{All}
use image_processing_engine.Prelude.Integers.{ℤ, pos, negsuc}
use image_processing_engine.Image.{Image, at, set_at, init}
use image_processing_engine.Image.Pixels.{IsImage, IsWithin}
use image_processing_engine.OpChain.{OpKind, Op}
use image_processing_engine.CpuOps.FloatOps.{Arithmetic}
use image_processing_engine.CpuOps.Samples.{HasSamples}
use image_processing_engine.CpuOps.Results.{op_sample, apply_op-HasSamples}
use image_processing_engine.CpuOps.Chains.{AreBytes}
use image_processing_engine.CpuOps.Identities.{invert_invert}
use image_processing_engine.CpuOps.{
  apply_op, apply_chain, apply_invert, with_output, output_for, copy_alpha, each_color,
}

abbrev whole : ℤ → ℕ
whole (pos n) = n * 255
whole (negsuc n) = 0

abbrev coarse : Arithmetic ℕ
coarse = record {
  of_int = whole;
  of_thousandths = λ n. n * 255 / 1000;
  add = λ a b. a + b;
  mul = λ a b. a * b / 255;
  div = λ a b. a * 255 / b;
  neg = λ a. a;
  sqrt = λ a. a;
  exp = λ a. a;
  less = ltb;
  at_least = λ a b. leb b a;
  ceil = λ a. pos ((a + 254) / 255);
  lround = λ a. pos ((a + 127) / 255);
}

abbrev pixel : List ℕ → Image
pixel samples = record { width = 1; height = 1; channels = 4; stride = 4; pixels = samples }

abbrev orange : Image
orange = pixel (240 ∷ 140 ∷ 20 ∷ 77 ∷ [])

orange-IsImage : IsImage orange
orange-IsImage = record {
  width_positive = omega arith;
  height_positive = omega arith;
  channels_supported = inr (inr refl);
  packed = refl;
  filled = refl;
}

byte_at : (xs : List ℕ) (i : ℕ) → All (λ b. b < 256) xs → get_or xs i 0 < 256
byte_at [] i h = omega arith
byte_at (x ∷ xs) zero h = h.0
byte_at (x ∷ xs) (suc i) h = byte_at xs i h.1

orange-AreBytes : AreBytes orange
unfolding at
orange-AreBytes = record {
  byte = λ x y c i.
      byte_at orange.pixels _ (omega arith, (omega arith, (omega arith, (omega arith, tt))));
}

abbrev op : OpKind → ℕ → Op ℕ
op kind param = record { kind = kind; param = param }

abbrev green : IsWithin orange 0 0 1
green = record { x_in = omega arith; y_in = omega arith; c_in = omega arith }

apply_op-HasSamples_example :
    (output : Image) × (apply_op coarse orange (op OpKind.gaussian 255) ≡ some output)
    × HasSamples orange (op_sample coarse (op OpKind.gaussian 255) orange) output
apply_op-HasSamples_example =
    apply_op-HasSamples coarse orange (op OpKind.gaussian 255) orange-IsImage

abbrev inverted : Image
inverted = pixel (15 ∷ 115 ∷ 235 ∷ 77 ∷ [])

orange_run : apply_chain coarse orange (op OpKind.invert 0 ∷ []) ≡ some inverted
unfolding apply_chain apply_op apply_invert with_output output_for init copy_alpha each_color at
    set_at
orange_run = refl

invert_invert_example :
    apply_chain coarse orange (op OpKind.invert 0 ∷ op OpKind.invert 1 ∷ []) ≡ some orange
invert_invert_example = invert_invert coarse orange 0 1 orange-IsImage orange-AreBytes
