-- ===== src/KernelKey/Tests.antt =====
-- Witnesses of the kernel key's theorems: two keys that differ in an ignored parameter.
use image_processing_engine.Prelude.{◌≡◌, ◌↔◌, refl, true, [], ◌∷◌}
use image_processing_engine.Prelude.Integers.{ℤ, pos, ltb_ℤ}
use image_processing_engine.OpChain.Numerics.{Floats}
use image_processing_engine.OpChain.{OpKind}
use image_processing_engine.KernelKey.{
  TileVariant, ConstantsMode, KernelKey, key_eq, hash_kernel_key,
}
use image_processing_engine.KernelKey.Inputs.{inputs, key_eq_iff, hash_kernel_key-key_eq}

-- Floats as numbers of hundredths; a key reads no text.
abbrev plain_floats : Floats
plain_floats = record {
  F = ℤ;
  strtof = λ text. (pos 0, 0);
  is_finite = λ n. true;
  hundredths = λ n. n;
  of_hundredths = λ n. n;
  less = ltb_ℤ;
}

abbrev blur_key : ℤ → KernelKey ℤ
blur_key sigma = record {
  chain = record { kind = OpKind.gaussian; param = sigma } ∷ [];
  channels = pos 3;
  tile = TileVariant.tiled;
  tile_size = pos 16;
  constants = ConstantsMode.parameterized;
}

key_eq_iff_example :
    (key_eq plain_floats (blur_key (pos 140)) (blur_key (pos 300)) ≡ true)
    ↔ (inputs plain_floats (blur_key (pos 140)) ≡ inputs plain_floats (blur_key (pos 300)))
key_eq_iff_example = key_eq_iff plain_floats (blur_key (pos 140)) (blur_key (pos 300))

one_kernel : key_eq plain_floats (blur_key (pos 140)) (blur_key (pos 300)) ≡ true
unfolding key_eq
one_kernel = refl

hash_kernel_key-key_eq_example :
    hash_kernel_key plain_floats (blur_key (pos 140))
    ≡ hash_kernel_key plain_floats (blur_key (pos 300))
hash_kernel_key-key_eq_example =
    hash_kernel_key-key_eq plain_floats (blur_key (pos 140)) (blur_key (pos 300)) one_kernel
