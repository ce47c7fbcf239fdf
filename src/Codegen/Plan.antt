-- ===== src/Codegen/Plan.antt =====
-- The fusion plan keeps every op in its place.
use mathlib.Core.List.{reverse, reverse-cons, append_assoc, append-nil}
use image_processing_engine.Prelude.{
  ℕ, ◌+◌, ◌≡◌, refl, sym, ap, ◌∙◌, ◌≢◌, inl, inr, List, [], ◌∷◌, ◌++◌, Option, none, some,
  Bool-cases,
}
use image_processing_engine.OpChain.{OpChain}
use image_processing_engine.Codegen.{
  PlannedOp, Stage, no_ops, is_stencil, attach, claim_stage, plan_at, plan_op, plan_loop,
  plan_stages,
}

module _ {F : Type 0} where
  abbrev stencil_ops : Option (PlannedOp F) → List (PlannedOp F)
  stencil_ops none = []
  stencil_ops (some planned) = planned ∷ []

  -- The ops of a stage in the order in which its kernel applies them.
  abbrev pub stage_ops : Stage F → List (PlannedOp F)
  stage_ops stage = stage.prologue ++ (stencil_ops stage.stencil ++ stage.epilogue)

  -- The ops of the stages, from the first stage on.
  abbrev pub all_ops : List (Stage F) → List (PlannedOp F)
  all_ops [] = []
  all_ops (stage ∷ stages) = stage_ops stage ++ all_ops stages

  -- The chain's ops with their positions from `index` on.
  abbrev pub numbered : ℕ → OpChain F → List (PlannedOp F)
  numbered index [] = []
  numbered index (op ∷ ops) = record { op = op; index = index } ∷ numbered (index + 1) ops

  -- The same of stages from the back to the front.
  abbrev ops_from_back : List (Stage F) → List (PlannedOp F)
  ops_from_back [] = []
  ops_from_back (stage ∷ earlier) = ops_from_back earlier ++ stage_ops stage

  all_ops-append : (xs ys : List (Stage F)) → all_ops (xs ++ ys) ≡ all_ops xs ++ all_ops ys
  all_ops-append [] ys = refl
  all_ops-append (x ∷ xs) ys =
      ap (λ l. stage_ops x ++ l) (all_ops-append xs ys)
      ∙ sym (append_assoc (stage_ops x) (all_ops xs) (all_ops ys))

  all_ops-reverse : (stages : List (Stage F)) → all_ops (reverse stages) ≡ ops_from_back stages
  all_ops-reverse [] = refl
  all_ops-reverse (stage ∷ earlier) =
      ap all_ops (reverse-cons stage earlier)
      ∙ all_ops-append (reverse earlier) (stage ∷ [])
      ∙ ap (λ l. all_ops (reverse earlier) ++ l) (append-nil (stage_ops stage))
      ∙ ap (λ l. l ++ stage_ops stage) (all_ops-reverse earlier)

  -- A stage without a stencil has no epilogue.
  abbrev pub IsOpen : Stage F → Type 0
  IsOpen stage = stage.stencil ≡ none → stage.epilogue ≡ []

  -- Every stage but the first has a stencil and no prologue, and each stage behind which another
  -- stands has a stencil; the stages are given from the back.
  abbrev pub IsPlan : List (Stage F) → Type 0
  IsPlan [] = Unit {0}
  IsPlan (stage ∷ []) = IsOpen stage
  IsPlan (stage ∷ (previous ∷ earlier)) =
      (stage.prologue ≡ [])
      × (stage.stencil ≢ none)
      × (previous.stencil ≢ none)
      × IsPlan (previous ∷ earlier)

  attach-ops :
      (planned : PlannedOp F) (stage : Stage F)
      → IsOpen stage
      → stage_ops (attach planned stage stage.stencil) ≡ stage_ops stage ++ (planned ∷ [])
  attach-ops planned stage o = by_stencil stage.prologue stage.stencil stage.epilogue o
    where
      by_stencil :
          (prologue : List (PlannedOp F)) (stencil : Option (PlannedOp F))
          (epilogue : List (PlannedOp F))
          → (stencil ≡ none → epilogue ≡ [])
          → stage_ops (
              attach planned
                (record { prologue = prologue; stencil = stencil; epilogue = epilogue })
                stencil)
            ≡ (prologue ++ (stencil_ops stencil ++ epilogue)) ++ (planned ∷ [])
      by_stencil prologue none epilogue o =
          ap (λ l. (prologue ++ (planned ∷ [])) ++ l) (o refl)
          ∙ append-nil (prologue ++ (planned ∷ []))
          ∙ ap (λ l. l ++ (planned ∷ []))
              (sym (append-nil prologue) ∙ ap (λ l. prologue ++ l) (sym (o refl)))
      by_stencil prologue (some s) epilogue o =
          sym (append_assoc prologue (s ∷ epilogue) (planned ∷ []))

  claim_stage-ops :
      (planned : PlannedOp F) (stage : Stage F) (earlier : List (Stage F))
      → IsOpen stage
      → ops_from_back (claim_stage planned stage earlier stage.stencil)
        ≡ ops_from_back (stage ∷ earlier) ++ (planned ∷ [])
  claim_stage-ops planned stage earlier o = by_stencil stage.prologue stage.stencil stage.epilogue o
    where
      by_stencil :
          (prologue : List (PlannedOp F)) (stencil : Option (PlannedOp F))
          (epilogue : List (PlannedOp F))
          → (stencil ≡ none → epilogue ≡ [])
          → ops_from_back (
              claim_stage planned
                (record { prologue = prologue; stencil = stencil; epilogue = epilogue })
                earlier
                stencil)
            ≡ (ops_from_back earlier ++ (prologue ++ (stencil_ops stencil ++ epilogue)))
              ++ (planned ∷ [])
      by_stencil prologue none epilogue o =
          ap (λ l. ops_from_back earlier ++ (prologue ++ ((planned ∷ []) ++ l))) (o refl)
          ∙ ap (λ l. ops_from_back earlier ++ (l ++ (planned ∷ [])))
              (sym (append-nil prologue) ∙ ap (λ l. prologue ++ l) (sym (o refl)))
          ∙ sym (append_assoc (ops_from_back earlier) (prologue ++ epilogue) (planned ∷ []))
      by_stencil prologue (some s) epilogue o = refl

  plan_at-ops :
      (planned : PlannedOp F) (stage : Stage F) (earlier : List (Stage F))
      → IsOpen stage
      → ops_from_back (plan_at planned stage earlier)
        ≡ ops_from_back (stage ∷ earlier) ++ (planned ∷ [])
  plan_at-ops planned stage earlier o = elim (Bool-cases (is_stencil planned)) [
    | inl stencil ↦ rw stencil (claim_stage-ops planned stage earlier o)
    | inr pointwise ↦ rw pointwise (
        ap (λ l. ops_from_back earlier ++ l) (attach-ops planned stage o)
        ∙ sym (append_assoc (ops_from_back earlier) (stage_ops stage) (planned ∷ [])))
  ]

  IsPlan-IsOpen :
      (stage : Stage F) (earlier : List (Stage F)) → IsPlan (stage ∷ earlier) → IsOpen stage
  IsPlan-IsOpen stage [] p = p
  IsPlan-IsOpen stage (previous ∷ earlier) p = λ e. absurd (p.1 e)

  plan_op-ops :
      (planned : PlannedOp F) (stages : List (Stage F))
      → IsPlan stages
      → ops_from_back (plan_op planned stages) ≡ ops_from_back stages ++ (planned ∷ [])
  unfolding plan_op
  plan_op-ops planned [] p = plan_at-ops planned no_ops [] (λ e. refl)
  plan_op-ops planned (stage ∷ earlier) p =
      plan_at-ops planned stage earlier (IsPlan-IsOpen stage earlier p)

  attach-IsPlan :
      (planned : PlannedOp F) (stage : Stage F) (earlier : List (Stage F))
      → IsPlan (stage ∷ earlier)
      → IsPlan (attach planned stage stage.stencil ∷ earlier)
  attach-IsPlan planned stage earlier p =
      by_stencil stage.prologue stage.stencil stage.epilogue earlier p
    where
      by_stencil :
          (prologue : List (PlannedOp F)) (stencil : Option (PlannedOp F))
          (epilogue : List (PlannedOp F)) (earlier : List (Stage F))
          → IsPlan
              (record { prologue = prologue; stencil = stencil; epilogue = epilogue } ∷ earlier)
          → IsPlan (
              attach planned
                (record { prologue = prologue; stencil = stencil; epilogue = epilogue })
                stencil
              ∷ earlier)
      by_stencil prologue none epilogue [] p = p
      by_stencil prologue (some s) epilogue [] p = λ e. absurd (cc)
      by_stencil prologue none epilogue (previous ∷ earlier) p = absurd (p.1 refl)
      by_stencil prologue (some s) epilogue (previous ∷ earlier) p = p

  claim_stage-IsPlan :
      (planned : PlannedOp F) (stage : Stage F) (earlier : List (Stage F))
      → IsPlan (stage ∷ earlier)
      → IsPlan (claim_stage planned stage earlier stage.stencil)
  claim_stage-IsPlan planned stage earlier p =
      by_stencil stage.prologue stage.stencil stage.epilogue earlier p
    where
      by_stencil :
          (prologue : List (PlannedOp F)) (stencil : Option (PlannedOp F))
          (epilogue : List (PlannedOp F)) (earlier : List (Stage F))
          → IsPlan
              (record { prologue = prologue; stencil = stencil; epilogue = epilogue } ∷ earlier)
          → IsPlan (
              claim_stage planned
                (record { prologue = prologue; stencil = stencil; epilogue = epilogue })
                earlier
                stencil)
      by_stencil prologue none epilogue [] p = λ e. absurd (cc)
      by_stencil prologue none epilogue (previous ∷ earlier) p = absurd (p.1 refl)
      by_stencil prologue (some s) epilogue earlier p = (refl, λ e. cc, λ e. cc, p)

  plan_at-IsPlan :
      (planned : PlannedOp F) (stage : Stage F) (earlier : List (Stage F))
      → IsPlan (stage ∷ earlier)
      → IsPlan (plan_at planned stage earlier)
  plan_at-IsPlan planned stage earlier p = elim (Bool-cases (is_stencil planned)) [
    | inl stencil ↦ rw stencil (claim_stage-IsPlan planned stage earlier p)
    | inr pointwise ↦ rw pointwise (attach-IsPlan planned stage earlier p)
  ]

  plan_op-IsPlan :
      (planned : PlannedOp F) (stages : List (Stage F))
      → IsPlan stages
      → IsPlan (plan_op planned stages)
  unfolding plan_op
  plan_op-IsPlan planned [] p = plan_at-IsPlan planned no_ops [] (λ e. refl)
  plan_op-IsPlan planned (stage ∷ earlier) p = plan_at-IsPlan planned stage earlier p

  pub plan_loop-IsPlan :
      (index : ℕ) (ops : OpChain F) (stages : List (Stage F))
      → IsPlan stages
      → IsPlan (plan_loop index ops stages)
        × (ops_from_back (plan_loop index ops stages) ≡ ops_from_back stages ++ numbered index ops)
  unfolding plan_loop
  plan_loop-IsPlan index [] stages p = (p, sym (append-nil (ops_from_back stages)))
  plan_loop-IsPlan index (op ∷ ops) stages p =
      let planned : PlannedOp F = record { op = op; index = index } in
      let (q, e) =
        plan_loop-IsPlan (index + 1) ops (plan_op planned stages)
          (plan_op-IsPlan planned stages p) in
      (
        q,
        e
            ∙ ap (λ l. l ++ numbered (index + 1) ops) (plan_op-ops planned stages p)
            ∙ append_assoc (ops_from_back stages) (planned ∷ []) (numbered (index + 1) ops),
      )

  -- The stages of the plan, each with its prologue, its stencil and its epilogue in this order, hold
  -- the ops of the chain in the chain's order, each once and with its position: fusing reorders
  -- nothing and drops nothing.
  pub all_ops-plan_stages : (chain : OpChain F) → all_ops (plan_stages chain) ≡ numbered 0 chain
  unfolding plan_stages
  all_ops-plan_stages chain =
      all_ops-reverse (plan_loop 0 chain []) ∙ (plan_loop-IsPlan 0 chain [] tt).1
