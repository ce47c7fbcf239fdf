-- ===== src/Codegen.antt =====
-- src/backend/cuda/codegen.h and codegen.cpp: the fusion plan of a chain, the keys that the generator
-- accepts, and what the launcher is told of each stage. The emitted CUDA text is not modelled.
pub mod Plan
pub mod Fused
mod Tests
use mathlib.Core.List.{reverse}
use image_processing_engine.Prelude.{
  ℕ, zero, suc, ◌+◌, ◌*◌, Bool, true, false, ◌&&◌, not, List, [], ◌∷◌, ◌++◌, Option, none, some,
  ltb, leb, ◌==◌, if◌then◌else◌, map,
}
use image_processing_engine.Prelude.Integers.{ℤ, pos, negsuc}
use image_processing_engine.Image.Channels.{is_supported_channel_count}
use image_processing_engine.KernelKey.{TileVariant, ConstantsMode, KernelKey}
use image_processing_engine.OpChain.{OpKind, Op, OpChain, op_spec}

abbrev naive_block_dim : ℕ
naive_block_dim = 16

abbrev pub max_tile_size : ℕ
max_tile_size = 32

abbrev pub max_static_shared_bytes : ℕ
max_static_shared_bytes = 48 * 1024

unfoldable pub is_supported_tile : TileVariant → ℤ → Bool
is_supported_tile TileVariant.naive (pos n) = n == 0
is_supported_tile TileVariant.naive (negsuc n) = false
is_supported_tile TileVariant.tiled (pos n) = leb 1 n && leb n max_tile_size
is_supported_tile TileVariant.tiled (negsuc n) = false

unfoldable pub is_supported_constants : ConstantsMode → TileVariant → Bool
is_supported_constants ConstantsMode.baked _ = true
is_supported_constants ConstantsMode.parameterized TileVariant.naive = true
is_supported_constants ConstantsMode.parameterized TileVariant.tiled = false

-- `shared_bytes` of a stage that is tiled, a float taking four bytes.
unfoldable pub shared_bytes : ℕ → ℕ → ℕ → ℕ
shared_bytes colors tile_size radius =
    colors * (tile_size + 2 * radius) * (tile_size + 2 * radius) * 4

module _ (F : Type 0) where
  pub record PlannedOp : Type 0 where
    pub op : Op F
    pub index : ℕ

  -- `stencil` is `none` where `has_stencil` is false.
  pub record Stage : Type 0 where
    pub prologue : List PlannedOp
    pub stencil : Option PlannedOp
    pub epilogue : List PlannedOp

module _ {F : Type 0} where
  abbrev pub no_ops : Stage F
  no_ops = record { prologue = []; stencil = none; epilogue = [] }

  abbrev pub is_stencil : PlannedOp F → Bool
  is_stencil planned = (op_spec planned.op.kind).is_stencil

  -- A pointwise op goes to the epilogue behind a stencil and else to the prologue.
  abbrev pub attach : PlannedOp F → Stage F → Option (PlannedOp F) → Stage F
  attach planned current none = record current { prologue = current.prologue ++ (planned ∷ []) }
  attach planned current (some stencil) = record current {
    epilogue = current.epilogue ++ (planned ∷ []);
  }

  -- A stencil op claims the stage at the back or opens another behind it.
  abbrev pub claim_stage :
      PlannedOp F → Stage F → List (Stage F) → Option (PlannedOp F) → List (Stage F)
  claim_stage planned current earlier none = record current { stencil = some planned } ∷ earlier
  claim_stage planned current earlier (some stencil) =
      record no_ops { stencil = some planned } ∷ current ∷ earlier

  abbrev pub plan_at : PlannedOp F → Stage F → List (Stage F) → List (Stage F)
  plan_at planned current earlier =
      if is_stencil planned
      then claim_stage planned current earlier current.stencil
      else attach planned current current.stencil ∷ earlier

  -- One round of the loop, on the stages from the back to the front.
  unfoldable pub plan_op : PlannedOp F → List (Stage F) → List (Stage F)
  plan_op planned [] = plan_at planned no_ops []
  plan_op planned (current ∷ earlier) = plan_at planned current earlier

  unfoldable pub plan_loop : ℕ → OpChain F → List (Stage F) → List (Stage F)
  unfolding plan_op
  plan_loop index [] stages = stages
  plan_loop index (op ∷ ops) stages =
      plan_loop (index + 1) ops (plan_op (record { op = op; index = index }) stages)

  unfoldable pub plan_stages : OpChain F → List (Stage F)
  unfolding plan_loop
  plan_stages chain = reverse (plan_loop 0 chain [])

  unfoldable pub param_indices : List (PlannedOp F) → Bool → List ℕ
  param_indices ops false = []
  param_indices [] true = []
  param_indices (planned ∷ ops) true =
      let rest = param_indices ops true in
      if (op_spec planned.op.kind).takes_param then planned.index ∷ rest else rest

  -- The two refusals of `emit_cuda_source` that depend on the key's modes, and that of its channels.
  unfoldable pub is_emitted : KernelKey F → Bool
  unfolding is_supported_tile is_supported_constants is_supported_channel_count
  is_emitted key =
      elim key.channels [ pos n ↦ is_supported_channel_count n | negsuc n ↦ false ]
      && is_supported_tile key.tile key.tile_size
      && is_supported_constants key.constants key.tile
