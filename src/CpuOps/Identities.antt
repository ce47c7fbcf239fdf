-- ===== src/CpuOps/Identities.antt =====
-- Inverting twice.
use native.Mathlib.Decide.{dec_lt}
use image_processing_engine.Prelude.{ℕ, ◌≤◌, ◌<◌, ◌≡◌, refl, sym, ap, ◌∙◌, arith, some, [], ◌∷◌}
use image_processing_engine.Image.{Image, at}
use image_processing_engine.Image.Pixels.{IsImage, IsWithin}
use image_processing_engine.Image.Extensional.{samples_determine}
use image_processing_engine.OpChain.{OpKind, Op}
use image_processing_engine.CpuOps.FloatOps.{Arithmetic}
use image_processing_engine.CpuOps.Samples.{HasSamples}
use image_processing_engine.CpuOps.Results.{op_sample, apply_op-HasSamples}
use image_processing_engine.CpuOps.Chains.{AreBytes, IsLike-trans, within}
use mathlib.Core.Path.{subst}
use image_processing_engine.CpuOps.{color_channels, apply_op, apply_chain}

some_injective : {A : Type 0} {a b : A} → some a ≡ some b → a ≡ b
some_injective e = cc

module _ {F : Type 0} (A : Arithmetic F) where
  two_ops :
      (input between output : Image) (first second : Op F)
      → apply_op A input first ≡ some between
      → apply_op A between second ≡ some output
      → apply_chain A input (first ∷ second ∷ []) ≡ some output
  unfolding apply_chain
  two_ops input between output first second p q = rw (p, apply_chain) (rw (q, apply_chain) refl)

  abbrev invert_op : F → Op F
  invert_op param = record { kind = OpKind.invert; param = param }

  -- A chain of two inversions gives back the very image, if it is well formed and its samples are
  -- bytes; the parameters do not matter.
  pub invert_invert :
      (input : Image) (first second : F)
      → IsImage input
      → AreBytes input
      → apply_chain A input (invert_op first ∷ invert_op second ∷ []) ≡ some input
  invert_invert input first second v b =
      let (between, made, once) = apply_op-HasSamples A input (invert_op first) v in
      let (output, made_again, twice) =
        apply_op-HasSamples A between (invert_op second) once.like.valid in
      let like = IsLike-trans once.like twice.like in
      two_ops input between output (invert_op first) (invert_op second) made made_again
      ∙ ap some (
          sym (
            samples_determine v like.valid (sym like.same_width) (sym like.same_height)
              (sym like.same_channels)
              (λ x y c i. sym (twice_sample between output x y c once twice i))))
    where
      twice_sample :
          (between output : Image) (x y c : ℕ)
          → HasSamples input (op_sample A (invert_op first) input) between
          → HasSamples between (op_sample A (invert_op second) between) output
          → IsWithin input x y c
          → at output x y c ≡ at input x y c
      twice_sample between output x y c once twice i =
          let j = within once.like i in
          elim (dec_lt c (color_channels input.channels)) [
            | yes color ↦
                let back =
                  twice.colors x y c j
                    (subst (λ n. c < color_channels n) (sym once.like.same_channels) color) in
                omega (arith, back, once.colors x y c i color, b.byte x y c i)
            | no other ↦
                twice.alpha x y c j
                  (subst (λ n. color_channels n ≤ c) (sym once.like.same_channels) (omega arith))
                ∙ once.alpha x y c i (omega arith)
          ]
