-- ===== src/KernelCache/Tests.antt =====
-- A witness of the cache's theorem: two keys that differ in a parameter that is not baked.
use image_processing_engine.Prelude.{ℕ, ◌≡◌, refl, true, [], ◌∷◌, Option, some}
use image_processing_engine.Prelude.Integers.{ℤ, pos, ltb_ℤ}
use image_processing_engine.OpChain.Numerics.{Floats}
use image_processing_engine.OpChain.{OpKind}
use image_processing_engine.KernelKey.{
  TileVariant, ConstantsMode, KernelKey, key_eq, same_ops, param_hundredths,
}
use image_processing_engine.KernelCache.{KernelCache, find, get, get_new}
use image_processing_engine.KernelCache.Once.{begun, get_once}

abbrev keyed_floats : Floats
keyed_floats = record {
  F = ℤ;
  strtof = λ text. (pos 0, 0);
  is_finite = λ n. true;
  hundredths = λ n. n;
  of_hundredths = λ n. n;
  less = ltb_ℤ;
}

abbrev blur : ℤ → KernelKey ℤ
blur sigma = record {
  chain = record { kind = OpKind.gaussian; param = sigma } ∷ [];
  channels = pos 3;
  tile = TileVariant.naive;
  tile_size = pos 0;
  constants = ConstantsMode.parameterized;
}

-- A compiler whose programs are numbers.
abbrev compiler : KernelKey ℤ → Option ℕ
compiler key = some 42

abbrev no_entries : KernelCache keyed_floats ℕ
no_entries = record { entries = []; compile_count = 0 }

abbrev one_entry : KernelCache keyed_floats ℕ
one_entry = record { entries = (blur (pos 140), 42) ∷ []; compile_count = 1 }

compiled : get keyed_floats compiler no_entries (blur (pos 140)) ≡ some (42, one_entry)
unfolding get get_new find
compiled = refl

equal_keys : key_eq keyed_floats (blur (pos 300)) (blur (pos 140)) ≡ true
unfolding key_eq same_ops param_hundredths
equal_keys = refl

get_once_example : get keyed_floats compiler one_entry (blur (pos 300)) ≡ some (42, one_entry)
get_once_example =
    get_once keyed_floats compiler no_entries one_entry one_entry (blur (pos 140)) (blur (pos 300))
      42 compiled begun equal_keys
