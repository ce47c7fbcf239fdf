-- ===== src/CpuOps/Chains.antt =====
-- Chains of ops: success, shape and alpha, composition, bytes, and ops that undo each other.
use mathlib.Core.Path.{subst}
use image_processing_engine.Prelude.{
  ℕ, zero, suc, ◌+◌, ◌-◌, ◌*◌, ◌≤◌, ◌<◌, ◌≡◌, refl, sym, ◌∙◌, arith, some, List, [], ◌∷◌, length,
  length-map, length-set, length-replicate,
}
use image_processing_engine.Prelude.Integers.{ℤ, pos, negsuc}
use image_processing_engine.Image.{Image, at}
use image_processing_engine.Image.Pixels.{IsImage, IsWithin}
use image_processing_engine.OpChain.{OpChain}
use image_processing_engine.CpuOps.FloatOps.{Arithmetic}
use image_processing_engine.CpuOps.Loops.{loop}
use image_processing_engine.CpuOps.Samples.{IsLike}
use image_processing_engine.CpuOps.Results.{apply_op-HasSamples}
use image_processing_engine.CpuOps.{
  color_channels, apply_chain, clamp_coordinate, gaussian_radius, gaussian_weights_1d, weight_loop,
  at_least_one,
}

-- Of the input's shape, with the input's alpha.
pub record KeepsAlpha (input output : Image) : Type 0 where
  pub like : IsLike input output
  pub alpha :
      (x y c : ℕ)
      → IsWithin input x y c
      → color_channels input.channels ≤ c
      → at output x y c ≡ at input x y c

-- Every sample is a byte.
pub record AreBytes (image : Image) : Type 0 where
  pub byte : (x y c : ℕ) → IsWithin image x y c → at image x y c < 256

pub IsLike-trans : {a b c : Image} → IsLike a b → IsLike b c → IsLike a c
IsLike-trans p q = record {
  valid = q.valid;
  same_width = q.same_width ∙ p.same_width;
  same_height = q.same_height ∙ p.same_height;
  same_channels = q.same_channels ∙ p.same_channels;
}

pub within : {a b : Image} {x y c : ℕ} → IsLike a b → IsWithin a x y c → IsWithin b x y c
within l i = record {
  x_in = omega (arith, l.same_width, i.x_in);
  y_in = omega (arith, l.same_height, i.y_in);
  c_in = omega (arith, l.same_channels, i.c_in);
}

KeepsAlpha-trans : {a b c : Image} → KeepsAlpha a b → KeepsAlpha b c → KeepsAlpha a c
KeepsAlpha-trans p q = record {
  like = IsLike-trans p.like q.like;
  alpha = λ x y c i ge.
      q.alpha x y c (within p.like i)
        (subst (λ n. color_channels n ≤ c) (sym p.like.same_channels) ge)
      ∙ p.alpha x y c i ge;
}

-- A clamped coordinate is inside the image: it is the coordinate itself where that is inside, the
-- first one for a negative coordinate, and else the last one.
pub clamp_coordinate_cases :
    (value : ℤ) (limit : ℕ)
    → 0 < limit
    → (clamp_coordinate value limit < limit)
      × ((n : ℕ) → value ≡ pos n → n < limit → clamp_coordinate value limit ≡ n)
      × ((n : ℕ) → value ≡ pos n → limit ≤ n → clamp_coordinate value limit ≡ limit - 1)
      × ((n : ℕ) → value ≡ negsuc n → clamp_coordinate value limit ≡ 0)
unfolding clamp_coordinate
clamp_coordinate_cases (pos m) limit h =
    (ground arith, λ n e lt. ground arith, λ n e ge. ground arith, λ n e. absurd (cc))
clamp_coordinate_cases (negsuc m) limit h =
    (ground arith, λ n e lt. absurd (cc), λ n e ge. absurd (cc), λ n e. refl)

module _ {F : Type 0} (A : Arithmetic F) where
  -- A chain succeeds on every well-formed image, and the result has the image's width, height,
  -- channels and alpha samples.
  pub apply_chain-KeepsAlpha :
      (input : Image) (chain : OpChain F)
      → IsImage input
      → (output : Image) × (apply_chain A input chain ≡ some output) × KeepsAlpha input output
  unfolding apply_chain
  apply_chain-KeepsAlpha input [] v = (
    input,
    refl,
    record {
      like = record { valid = v; same_width = refl; same_height = refl; same_channels = refl };
      alpha = λ x y c i ge. refl;
    },
  )
  apply_chain-KeepsAlpha input (op ∷ ops) v =
      let (next, made, samples) = apply_op-HasSamples A input op v in
      let (output, rest, keeps) = apply_chain-KeepsAlpha next ops samples.like.valid in
      (
        output,
        rw (made, apply_chain) rest,
        KeepsAlpha-trans (record { like = samples.like; alpha = samples.alpha }) keeps,
      )

  length-loop :
      (f : ℕ → List F × F → List F × F)
      → ((i : ℕ) (s : List F × F) → length (f i s).0 ≡ length s.0)
      → (from left : ℕ) (state : List F × F) → length (loop from left f state).0 ≡ length state.0
  length-loop f keeps from zero state = refl
  length-loop f keeps from (suc left) state =
      length-loop f keeps (from + 1) left (f from state) ∙ keeps from state

  weight_loop-length :
      (sigma : F) (radius : ℕ) → length (weight_loop A sigma radius).0 ≡ 2 * radius + 1
  unfolding weight_loop
  weight_loop-length sigma radius =
      length-loop _ (λ i s. length-set s.0 i _) 0 (2 * radius + 1) _
      ∙ length-replicate (2 * radius + 1) _

  gaussian_radius_positive : (sigma : F) → 1 ≤ gaussian_radius A sigma
  unfolding gaussian_radius
  gaussian_radius_positive sigma = by_ceil (A.ceil (A.mul (A.of_int (pos 3)) sigma))
    where
      by_ceil : (n : ℤ) → 1 ≤ at_least_one A n
      by_ceil (pos n) = omega arith
      by_ceil (negsuc n) = omega arith

  -- The weights are one for each tap from -radius to radius, and the radius is positive, so the
  -- indexes that the stencil reads, up to 2 * radius, are inside.
  pub gaussian_weights_1d-length :
      (sigma : F)
      → (length (gaussian_weights_1d A sigma) ≡ 2 * gaussian_radius A sigma + 1)
        × (1 ≤ gaussian_radius A sigma)
  unfolding gaussian_weights_1d
  gaussian_weights_1d-length sigma = (
    length-map (weight_loop A sigma (gaussian_radius A sigma)).0 _
        ∙ weight_loop-length sigma (gaussian_radius A sigma),
    gaussian_radius_positive sigma,
  )
