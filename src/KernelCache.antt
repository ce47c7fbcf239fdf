-- ===== src/KernelCache.antt =====
-- src/backend/cuda/kernel_cache.h and kernel_cache.cpp: the map from kernel keys to compiled chains.
-- The code generator and the compiler are a parameter, `none` being what they throw; the map's
-- elements stand in the order of their insertion, and a lookup compares the hash and then the keys.
pub mod Once
mod Tests
use image_processing_engine.Prelude.{
  ℕ, ◌+◌, Bool, true, false, ◌&&◌, List, [], ◌∷◌, ◌++◌, Option, none, some, ◌==◌, if◌then◌else◌,
  length,
}
use image_processing_engine.OpChain.Numerics.{Floats}
use image_processing_engine.KernelKey.{KernelKey, key_eq, hash_kernel_key}

module _ (R : Floats) where
  open R use {F}

  -- `KeyHash` and `operator==` as the map applies them.
  unfoldable pub matches : KernelKey F → KernelKey F → Bool
  unfolding key_eq hash_kernel_key
  matches key other = (hash_kernel_key R key == hash_kernel_key R other) && key_eq R key other

module _ (R : Floats) (CompiledChain : Type 0) where
  open R use {F}

  pub record KernelCache : Type 0 where
    pub entries : List (KernelKey F × CompiledChain)
    pub compile_count : ℕ

module _ (R : Floats) {CompiledChain : Type 0} where
  open R use {F}

  unfoldable pub find : KernelKey F → List (KernelKey F × CompiledChain) → Option CompiledChain
  unfolding matches
  find key [] = none
  find key ((stored, chain) ∷ entries) =
      if matches R key stored then some chain else find key entries

  abbrev pub insert :
      KernelCache R CompiledChain → KernelKey F → CompiledChain → KernelCache R CompiledChain
  insert cache key chain = record {
    entries = cache.entries ++ ((key, chain) ∷ []);
    compile_count = cache.compile_count + 1;
  }

  -- The branch of a miss: a compile that throws leaves no entry and is not counted.
  unfoldable pub get_new :
      (KernelKey F → Option CompiledChain)
      → KernelCache R CompiledChain
      → KernelKey F
      → Option (CompiledChain × KernelCache R CompiledChain)
  get_new compile cache key = elim (compile key) [
    | none ↦ none
    | some chain ↦ some (chain, insert cache key chain)
  ]

  unfoldable pub get :
      (KernelKey F → Option CompiledChain)
      → KernelCache R CompiledChain
      → KernelKey F
      → Option (CompiledChain × KernelCache R CompiledChain)
  unfolding find get_new
  get compile cache key = elim (find key cache.entries) [
    | some chain ↦ some (chain, cache)
    | none ↦ get_new compile cache key
  ]

  unfoldable pub clear : KernelCache R CompiledChain → KernelCache R CompiledChain
  clear cache = record { entries = []; compile_count = cache.compile_count }
