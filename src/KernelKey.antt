-- ===== src/KernelKey.antt =====
-- include/imgjit/core/kernel_key.h and src/core/kernel_key.cpp: the kernel cache's key, its equality
-- and its hash. A C++ `int` is an integer in its range, and its bits are its residue modulo 2 ^ 32.
pub mod Inputs
mod Tests
use image_processing_engine.Prelude.{
  ℕ, zero, suc, ◌+◌, ◌-◌, ◌*◌, ◌/◌, ◌%◌, ◌^◌, Bool, true, false, ◌&&◌, ◌||◌, not, List, [], ◌∷◌,
  ◌==◌, if◌then◌else◌, length, bit_xor,
}
use image_processing_engine.Prelude.Integers.{ℤ, pos, negsuc, eqb_ℤ}
use image_processing_engine.OpChain.Numerics.{Floats}
use image_processing_engine.OpChain.{OpKind, kind_code, Op, OpChain}

pub data TileVariant : Type 0 where
  naive tiled : TileVariant

pub data ConstantsMode : Type 0 where
  baked parameterized : ConstantsMode

-- `static_cast<std::uint8_t>(tile)`
abbrev pub tile_code : TileVariant → ℕ
tile_code naive = 0
tile_code tiled = 1

-- `static_cast<std::uint8_t>(constants)`
abbrev pub constants_code : ConstantsMode → ℕ
constants_code baked = 0
constants_code parameterized = 1

pub record KernelKey (F : Type 0) : Type 0 where
  pub chain : OpChain F
  pub channels : ℤ
  pub tile : TileVariant
  pub tile_size : ℤ
  pub constants : ConstantsMode

abbrev pub fnv_offset_basis : ℕ
fnv_offset_basis = 1469598103934665603

abbrev pub fnv_prime : ℕ
fnv_prime = 1099511628211

-- `static_cast<std::uint32_t>(value)`
unfoldable pub bits_of : ℤ → ℕ
bits_of (pos n) = n % 2 ^ 32
bits_of (negsuc n) = 2 ^ 32 - 1 - n % 2 ^ 32

unfoldable pub hash_byte : ℕ → ℕ → ℕ
hash_byte state byte = bit_xor state byte * fnv_prime % 2 ^ 64

-- The four rounds of the loop over the shifts 0, 8, 16 and 24, on the bits of the value.
unfoldable pub hash_u32 : ℕ → ℕ → ℕ
unfolding hash_byte
hash_u32 state bits =
    hash_byte
      (hash_byte (hash_byte (hash_byte state (bits % 256)) (bits / 2 ^ 8 % 256))
        (bits / 2 ^ 16 % 256))
      (bits / 2 ^ 24 % 256)

unfoldable pub hash_i32 : ℕ → ℤ → ℕ
unfolding hash_u32 bits_of
hash_i32 state value = hash_u32 state (bits_of value)

abbrev pub keyed_by_params : ConstantsMode → Bool
keyed_by_params baked = true
keyed_by_params parameterized = false

module _ (R : Floats) where
  open R use {F, hundredths}

  -- The bits of the std::int32_t, which determine it.
  unfoldable pub param_hundredths : F → ℕ
  unfolding bits_of
  param_hundredths param = bits_of (hundredths param)

  -- The loop of `operator==`, on chains of one length.
  unfoldable pub same_ops : Bool → OpChain F → OpChain F → Bool
  unfolding param_hundredths
  same_ops keyed [] [] = true
  same_ops keyed [] (right ∷ rhs) = false
  same_ops keyed (left ∷ lhs) [] = false
  same_ops keyed (left ∷ lhs) (right ∷ rhs) =
      let rest = same_ops keyed lhs rhs in
      if not (kind_code left.kind == kind_code right.kind)
        || keyed && not (param_hundredths left.param == param_hundredths right.param)
      then false
      else rest

  -- `operator==`
  unfoldable pub key_eq : KernelKey F → KernelKey F → Bool
  unfolding same_ops
  key_eq lhs rhs =
      if not (eqb_ℤ lhs.channels rhs.channels)
        || not (tile_code lhs.tile == tile_code rhs.tile)
        || not (eqb_ℤ lhs.tile_size rhs.tile_size)
        || not (constants_code lhs.constants == constants_code rhs.constants)
        || not (length lhs.chain == length rhs.chain)
      then false
      else same_ops (keyed_by_params lhs.constants) lhs.chain rhs.chain

  unfoldable pub hash_ops : Bool → ℕ → OpChain F → ℕ
  unfolding hash_u32 hash_byte param_hundredths
  hash_ops keyed state [] = state
  hash_ops keyed state (op ∷ ops) =
      let tagged = hash_byte state (kind_code op.kind) in
      hash_ops keyed (if keyed then hash_u32 tagged (param_hundredths op.param) else tagged) ops

  unfoldable pub hash_kernel_key : KernelKey F → ℕ
  unfolding hash_ops hash_i32 hash_u32 hash_byte
  hash_kernel_key key =
      let counted = hash_u32 fnv_offset_basis (length key.chain % 2 ^ 32) in
      let chained = hash_ops (keyed_by_params key.constants) counted key.chain in
      let channelled = hash_byte (hash_i32 chained key.channels) (tile_code key.tile) in
      hash_byte (hash_i32 channelled key.tile_size) (constants_code key.constants)
