-- ===== src/KernelKey/Inputs.antt =====
-- What a key stands for: the inputs of the code generator. Equality of keys is equality of these
-- inputs, and the hash depends on them alone.
use image_processing_engine.Prelude.{
  ℕ, suc, ◌%◌, ◌^◌, ◌≡◌, refl, sym, ap, ◌∙◌, Bool, true, false, List, [], ◌∷◌, Option, none, some,
  arith, if◌then◌else◌, length, map, ◌↔◌,
}
use image_processing_engine.Prelude.Integers.{ℤ, eqb_ℤ_iff}
use image_processing_engine.OpChain.Numerics.{Floats}
use image_processing_engine.OpChain.{kind_code, Op, OpChain}
use image_processing_engine.KernelKey.{
  ConstantsMode, tile_code, constants_code, KernelKey, keyed_by_params, param_hundredths, same_ops,
  key_eq, hash_ops, hash_kernel_key, hash_byte, hash_i32, hash_u32, fnv_offset_basis,
}

-- The enumerators are given by their codes.
pub record Inputs : Type 0 where
  -- The kind of each op in order, with the hundredths of its parameter where that is baked.
  pub ops : List (ℕ × Option ℕ)
  pub channels : ℤ
  pub tile : ℕ
  pub tile_size : ℤ
  pub constants : ℕ

keyed_by_params_lem :
    (a b : ConstantsMode)
    → constants_code a ≡ constants_code b
    → keyed_by_params a ≡ keyed_by_params b
keyed_by_params_lem ConstantsMode.baked ConstantsMode.baked h = refl
keyed_by_params_lem ConstantsMode.baked ConstantsMode.parameterized h = absurd (omega arith)
keyed_by_params_lem ConstantsMode.parameterized ConstantsMode.baked h = absurd (omega arith)
keyed_by_params_lem ConstantsMode.parameterized ConstantsMode.parameterized h = refl

-- The part of the hash behind the ops.
hash_fields : ℕ → Inputs → ℕ
unfolding hash_byte hash_i32
hash_fields chained i =
    hash_byte (hash_i32 (hash_byte (hash_i32 chained i.channels) i.tile) i.tile_size) i.constants

module _ (R : Floats) where
  open R use {F}

  abbrev pub op_input : Bool → Op F → ℕ × Option ℕ
  op_input keyed op =
      (kind_code op.kind, if keyed then some (param_hundredths R op.param) else none)

  abbrev pub inputs : KernelKey F → Inputs
  inputs key = record {
    ops = map (op_input (keyed_by_params key.constants)) key.chain;
    channels = key.channels;
    tile = tile_code key.tile;
    tile_size = key.tile_size;
    constants = constants_code key.constants;
  }

  same_ops-inputs :
      (keyed : Bool) (lhs rhs : OpChain F)
      → same_ops R keyed lhs rhs ≡ true
      → map (op_input keyed) lhs ≡ map (op_input keyed) rhs
  unfolding same_ops
  same_ops-inputs keyed [] [] h = refl
  same_ops-inputs keyed [] (right ∷ rhs) h = absurd (cc)
  same_ops-inputs keyed (left ∷ lhs) [] h = absurd (cc)
  same_ops-inputs true (left ∷ lhs) (right ∷ rhs) h = grind (arith, same_ops-inputs true lhs rhs)
  same_ops-inputs false (left ∷ lhs) (right ∷ rhs) h = grind (arith, same_ops-inputs false lhs rhs)

  inputs-same_ops :
      (keyed : Bool) (lhs rhs : OpChain F)
      → map (op_input keyed) lhs ≡ map (op_input keyed) rhs
      → same_ops R keyed lhs rhs ≡ true
  unfolding same_ops
  inputs-same_ops keyed [] [] h = refl
  inputs-same_ops keyed [] (right ∷ rhs) h = absurd (cc)
  inputs-same_ops keyed (left ∷ lhs) [] h = absurd (cc)
  inputs-same_ops true (left ∷ lhs) (right ∷ rhs) h = grind (arith, inputs-same_ops true lhs rhs)
  inputs-same_ops false (left ∷ lhs) (right ∷ rhs) h = grind (arith, inputs-same_ops false lhs rhs)

  hash_ops-inputs :
      (keyed : Bool) (state : ℕ) (lhs rhs : OpChain F)
      → map (op_input keyed) lhs ≡ map (op_input keyed) rhs
      → hash_ops R keyed state lhs ≡ hash_ops R keyed state rhs
  unfolding hash_ops
  hash_ops-inputs keyed state [] [] h = refl
  hash_ops-inputs keyed state [] (right ∷ rhs) h = absurd (cc)
  hash_ops-inputs keyed state (left ∷ lhs) [] h = absurd (cc)
  hash_ops-inputs true state (left ∷ lhs) (right ∷ rhs) h =
      let kinds : kind_code left.kind ≡ kind_code right.kind = cc in
      let params : param_hundredths R left.param ≡ param_hundredths R right.param = cc in
      let behind : map (op_input true) lhs ≡ map (op_input true) rhs = cc in
      rw (kinds, params)
        (hash_ops-inputs true
          (hash_u32 (hash_byte state (kind_code right.kind)) (param_hundredths R right.param)) lhs
          rhs behind)
  hash_ops-inputs false state (left ∷ lhs) (right ∷ rhs) h =
      let kinds : kind_code left.kind ≡ kind_code right.kind = cc in
      let behind : map (op_input false) lhs ≡ map (op_input false) rhs = cc in
      rw kinds (hash_ops-inputs false (hash_byte state (kind_code right.kind)) lhs rhs behind)

  length-inputs :
      (keyed : Bool) (lhs rhs : OpChain F)
      → map (op_input keyed) lhs ≡ map (op_input keyed) rhs
      → length lhs ≡ length rhs
  length-inputs keyed [] [] h = refl
  length-inputs keyed [] (right ∷ rhs) h = absurd (cc)
  length-inputs keyed (left ∷ lhs) [] h = absurd (cc)
  length-inputs keyed (left ∷ lhs) (right ∷ rhs) h = ap suc (length-inputs keyed lhs rhs (cc))

  key_eq-inputs : (a b : KernelKey F) → key_eq R a b ≡ true → inputs a ≡ inputs b
  unfolding key_eq
  key_eq-inputs a b h =
      let channels : a.channels ≡ b.channels = (eqb_ℤ_iff a.channels b.channels).0 (ground arith) in
      let sizes : a.tile_size ≡ b.tile_size =
        (eqb_ℤ_iff a.tile_size b.tile_size).0 (ground arith) in
      let tiles : tile_code a.tile ≡ tile_code b.tile = ground arith in
      let modes : constants_code a.constants ≡ constants_code b.constants = ground arith in
      let same : same_ops R (keyed_by_params a.constants) a.chain b.chain ≡ true = ground arith in
      let ops =
        same_ops-inputs (keyed_by_params a.constants) a.chain b.chain same
        ∙ ap (λ keyed. map (op_input keyed) b.chain)
            (keyed_by_params_lem a.constants b.constants modes) in
      λ i. record {
        ops = ops i;
        channels = channels i;
        tile = tiles i;
        tile_size = sizes i;
        constants = modes i;
      }

  inputs-key_eq : (a b : KernelKey F) → inputs a ≡ inputs b → key_eq R a b ≡ true
  unfolding key_eq
  inputs-key_eq a b h =
      let modes = ap Inputs.constants h in
      let ops =
        ap Inputs.ops h
        ∙ ap (λ keyed. map (op_input keyed) b.chain)
            (sym (keyed_by_params_lem a.constants b.constants modes)) in
      let channels = (eqb_ℤ_iff a.channels b.channels).1 (ap Inputs.channels h) in
      let sizes = (eqb_ℤ_iff a.tile_size b.tile_size).1 (ap Inputs.tile_size h) in
      let tiles = ap Inputs.tile h in
      let lengths = length-inputs (keyed_by_params a.constants) a.chain b.chain ops in
      let same = inputs-same_ops (keyed_by_params a.constants) a.chain b.chain ops in ground arith

  -- Two keys compare equal exactly when they stand for the same inputs of the code generator: the op
  -- kinds in order, the channels, the tile variant and size, the constants mode, and the parameters'
  -- hundredths if they are baked.
  pub key_eq_iff : (a b : KernelKey F) → (key_eq R a b ≡ true) ↔ (inputs a ≡ inputs b)
  key_eq_iff a b = (key_eq-inputs a b, inputs-key_eq a b)

  -- The state behind the number of ops.
  abbrev counted : ℕ → ℕ
  counted n = hash_u32 fnv_offset_basis (n % 2 ^ 32)

  hash_kernel_key_lem :
      (key : KernelKey F)
      → hash_kernel_key R key
        ≡ hash_fields
            (hash_ops R (keyed_by_params key.constants) (counted (length key.chain)) key.chain)
            (inputs key)
  unfolding hash_kernel_key hash_fields hash_ops
  hash_kernel_key_lem key = refl

  -- Keys that compare equal have the same hash, in both constants modes.
  pub hash_kernel_key-key_eq :
      (a b : KernelKey F) → key_eq R a b ≡ true → hash_kernel_key R a ≡ hash_kernel_key R b
  hash_kernel_key-key_eq a b h =
      let e = key_eq-inputs a b h in
      let modes = keyed_by_params_lem a.constants b.constants (ap Inputs.constants e) in
      let ops = ap Inputs.ops e ∙ ap (λ keyed. map (op_input keyed) b.chain) (sym modes) in
      hash_kernel_key_lem a
      ∙ ap
          (λ n.
            hash_fields (hash_ops R (keyed_by_params a.constants) (counted n) a.chain) (inputs a))
          (length-inputs (keyed_by_params a.constants) a.chain b.chain ops)
      ∙ ap (λ chained. hash_fields chained (inputs a))
          (hash_ops-inputs (keyed_by_params a.constants) (counted (length b.chain)) a.chain b.chain
            ops)
      ∙ ap (λ keyed. hash_fields (hash_ops R keyed (counted (length b.chain)) b.chain) (inputs a))
          modes
      ∙ ap
          (hash_fields
            (hash_ops R (keyed_by_params b.constants) (counted (length b.chain)) b.chain))
          e
      ∙ sym (hash_kernel_key_lem b)
