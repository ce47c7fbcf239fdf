-- ===== src/Codegen/Fused.antt =====
-- The shape of the plan, and the shared memory of a tiled stage.
use mathlib.Core.List.{reverse, reverse-cons}
use image_processing_engine.Prelude.{
  ℕ, ◌+◌, ◌*◌, ◌≤◌, ◌≡◌, refl, sym, ◌∙◌, ◌≢◌, List, [], ◌∷◌, ◌++◌, none, arith,
}
use mathlib.Core.Path.{subst}
use image_processing_engine.Prelude.Predicates.{All, All-snoc}
use image_processing_engine.OpChain.{OpChain}
use image_processing_engine.Codegen.{
  Stage, plan_loop, plan_stages, shared_bytes, max_tile_size, max_static_shared_bytes,
}
use image_processing_engine.Codegen.Plan.{IsPlan, plan_loop-IsPlan}

module _ {F : Type 0} where
  -- Stages behind the first.
  abbrev pub AreBehind : List (Stage F) → Type 0
  AreBehind [] = Unit {0}
  AreBehind (stage ∷ stages) = (stage.prologue ≡ []) × (stage.stencil ≢ none) × AreBehind stages

  -- The first stage, and what stands behind it: if anything does, the first has a stencil too.
  abbrev pub IsFused : List (Stage F) → Type 0
  IsFused [] = Unit {0}
  IsFused (first ∷ []) = first.stencil ≡ none → first.epilogue ≡ []
  IsFused (first ∷ (next ∷ stages)) = (first.stencil ≢ none) × AreBehind (next ∷ stages)

  AreBehind-snoc :
      (stages : List (Stage F)) (last : Stage F)
      → AreBehind stages
      → last.prologue ≡ []
      → last.stencil ≢ none
      → AreBehind (stages ++ (last ∷ []))
  AreBehind-snoc [] last b p s = (p, s, tt)
  AreBehind-snoc (stage ∷ stages) last (q, t, b) p s = (q, t, AreBehind-snoc stages last b p s)

  abbrev HaveStencils : List (Stage F) → Type 0
  HaveStencils stages = All (λ (stage : Stage F). stage.stencil ≢ none) stages

  IsFused-snoc :
      (stages : List (Stage F)) (last : Stage F)
      → IsFused stages
      → HaveStencils stages
      → last.prologue ≡ []
      → last.stencil ≢ none
      → stages ≢ []
      → IsFused (stages ++ (last ∷ []))
  IsFused-snoc [] last f have p s full = absurd (full refl)
  IsFused-snoc (first ∷ []) last f have p s full = (have.0, (p, s, tt))
  IsFused-snoc (first ∷ (next ∷ stages)) last f have p s full =
      (f.0, AreBehind-snoc (next ∷ stages) last f.1 p s)

  IsPlan-HaveStencils :
      (stage : Stage F) (earlier : List (Stage F))
      → stage.stencil ≢ none
      → IsPlan (stage ∷ earlier)
      → HaveStencils (reverse (stage ∷ earlier))
  IsPlan-HaveStencils stage [] s p = (s, tt)
  IsPlan-HaveStencils stage (previous ∷ earlier) s p =
      subst HaveStencils (sym (reverse-cons stage (previous ∷ earlier)))
        (All-snoc _ (reverse (previous ∷ earlier)) (IsPlan-HaveStencils previous earlier p.2 p.3) s)

  snoc_non_empty : (stages : List (Stage F)) (last : Stage F) → stages ++ (last ∷ []) ≢ []
  snoc_non_empty [] last e = cc
  snoc_non_empty (x ∷ xs) last e = cc

  reverse-non_empty : (stage : Stage F) (earlier : List (Stage F)) → reverse (stage ∷ earlier) ≢ []
  reverse-non_empty stage earlier e =
      snoc_non_empty (reverse earlier) stage (sym (reverse-cons stage earlier) ∙ e)

  IsPlan-IsFused : (stages : List (Stage F)) → IsPlan stages → IsFused (reverse stages)
  IsPlan-IsFused [] p = tt
  IsPlan-IsFused (stage ∷ []) p = p
  IsPlan-IsFused (stage ∷ (previous ∷ earlier)) p =
      subst IsFused (sym (reverse-cons stage (previous ∷ earlier))) (
        IsFused-snoc (reverse (previous ∷ earlier)) stage (IsPlan-IsFused (previous ∷ earlier) p.3)
          (IsPlan-HaveStencils previous earlier p.2 p.3) p.0 p.1
          (reverse-non_empty previous earlier))

  -- In the plan of any chain only the first stage may have a prologue, and every stage behind it has
  -- a stencil; where there is more than one stage the first has a stencil too.
  pub plan_stages-IsFused : (chain : OpChain F) → IsFused (plan_stages chain)
  unfolding plan_stages
  plan_stages-IsFused chain =
      IsPlan-IsFused (plan_loop 0 chain []) (plan_loop-IsPlan 0 chain [] tt).0

area_bound : (colors edge : ℕ) → colors ≤ 3 → edge ≤ 56 → colors * edge * edge ≤ 9408
area_bound colors edge c e =
    let row : colors * edge ≤ 168 = grind arith in
    let area : colors * edge * edge ≤ 168 * 56 = grind arith in omega (arith, area)

-- A tiled stage of a supported tile size, with at most three colors and a radius of at most 12, needs
-- no more static shared memory than a block has: 37632 bytes at the most.
pub shared_bytes_bound :
    (colors tile_size radius : ℕ)
    → colors ≤ 3
    → tile_size ≤ max_tile_size
    → radius ≤ 12
    → (shared_bytes colors tile_size radius ≤ 37632)
      × (shared_bytes colors tile_size radius ≤ max_static_shared_bytes)
unfolding shared_bytes
shared_bytes_bound colors tile_size radius c t r =
    let edge : tile_size + 2 * radius ≤ 56 = omega arith in
    let bound = area_bound colors (tile_size + 2 * radius) c edge in
    (omega (arith, bound), omega (arith, bound))
