-- ===== src/Codegen/Tests.antt =====
-- Witnesses of the plan's theorems on a chain with two stencils.
use image_processing_engine.Prelude.{ℕ, ◌≡◌, ◌≤◌, arith, [], ◌∷◌}
use image_processing_engine.OpChain.{OpKind, OpChain}
use image_processing_engine.Codegen.{plan_stages, shared_bytes, max_static_shared_bytes}
use image_processing_engine.Codegen.Plan.{all_ops, numbered, all_ops-plan_stages}
use image_processing_engine.Codegen.Fused.{IsFused, plan_stages-IsFused, shared_bytes_bound}

abbrev two_stencils : OpChain ℕ
two_stencils =
    record { kind = OpKind.grayscale; param = 0 }
    ∷ record { kind = OpKind.gaussian; param = 140 }
    ∷ record { kind = OpKind.invert; param = 0 }
    ∷ record { kind = OpKind.sobel; param = 0 }
    ∷ []

all_ops-plan_stages_example : all_ops (plan_stages two_stencils) ≡ numbered 0 two_stencils
all_ops-plan_stages_example = all_ops-plan_stages two_stencils

plan_stages-IsFused_example : IsFused (plan_stages two_stencils)
plan_stages-IsFused_example = plan_stages-IsFused two_stencils

shared_bytes_bound_example :
    (shared_bytes 3 32 12 ≤ 37632) × (shared_bytes 3 32 12 ≤ max_static_shared_bytes)
shared_bytes_bound_example = shared_bytes_bound 3 32 12 (omega arith) (omega arith) (omega arith)
