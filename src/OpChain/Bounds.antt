-- ===== src/OpChain/Bounds.antt =====
-- Every op that the parser makes is canonical: its parameter is a quotient of hundredths within the
-- bounds of its op.
use image_processing_engine.Prelude.{
  ℕ, zero, suc, ◌+◌, ◌≤◌, ◌≡◌, refl, sym, ap, ◌∙◌, false, List, [], ◌∷◌, ◌++◌, Option, none, some,
  arith, length, take, drop, Option-cases, Bool-cases, inl, inr,
}
use mathlib.Core.Path.{subst}
use image_processing_engine.Prelude.Ascii.{eq_text}
use image_processing_engine.Prelude.Integers.{ℤ, pos, negsuc, nat_abs, ltb_ℤ}
use image_processing_engine.Prelude.Predicates.{All, All-snoc}
use image_processing_engine.OpChain.Numerics.{Floats, FloatLaws, widest}
use image_processing_engine.OpChain.{
  OpKind, Op, OpSpec, OpChain, op_spec, op_specs, Result, ok, err, ◌>>=◌, find_in, find_spec,
  find_char, trim, before, parse_float, check_param, parse_param, parse_rest, parse_named,
  parse_token, parse_loop, parse_body, parse_op_chain,
}

-- What lies between the bounds of an op lies in the range of the float laws.
pub in_bounds_small :
    (kind : OpKind) (n : ℤ)
    → ltb_ℤ n (op_spec kind).min_param ≡ false
    → ltb_ℤ (op_spec kind).max_param n ≡ false
    → nat_abs n ≤ widest
in_bounds_small OpKind.grayscale (pos n) lo hi = ground arith
in_bounds_small _ (pos n) lo hi = ground arith
in_bounds_small _ (negsuc n) lo hi = ground arith

-- The bounds of each op lie in the range of the float laws.
pub spec_range :
    (kind : OpKind)
    → (nat_abs (op_spec kind).min_param ≤ widest) × (nat_abs (op_spec kind).max_param ≤ widest)
spec_range OpKind.grayscale = omega arith
spec_range _ = omega arith

-- The spec of a table entry is the one that its kind leads to.
abbrev pub IsEntry : OpSpec → Type 0
IsEntry spec = spec ≡ op_spec spec.kind

find_in-IsEntry :
    (specs : List OpSpec) (name : List ℕ) {spec : OpSpec}
    → All IsEntry specs
    → find_in specs name ≡ some spec
    → IsEntry spec
unfolding find_in
find_in-IsEntry [] name entries h = absurd (cc)
find_in-IsEntry (s ∷ specs) name {spec} (entry, entries) h =
    elim (Bool-cases (eq_text s.name name)) [
      | inl same ↦ let e : s ≡ spec = cc (simp same at h) in subst IsEntry e entry
      | inr differ ↦ find_in-IsEntry specs name entries (simp differ at h)
    ]

pub find_spec-IsEntry : (name : List ℕ) {spec : OpSpec} → find_spec name ≡ some spec → IsEntry spec
unfolding find_spec
find_spec-IsEntry name h =
    find_in-IsEntry op_specs name (refl, (refl, (refl, (refl, (refl, (refl, tt)))))) h

-- A parse that goes through went through its first step.
pub >>=-eq-ok {ℓ κ} :
    {Found : Type ℓ} {Made : Type κ} {made : Made} (first : Result Found)
    (next : Found → Result Made)
    → (first >>= next) ≡ ok made
    → (found : Found) × (first ≡ ok found) × (next found ≡ ok made)
>>=-eq-ok (err reason) next e = absurd (cc)
>>=-eq-ok (ok found) next e = (found, refl, e)

module _ (R : Floats) where
  open R use {F, hundredths, of_hundredths, less}

  -- The parameter is a number of hundredths within the op's bounds; an op without a parameter has 0.
  pub record IsCanonical (op : Op F) : Type 0 where
    pub scaled : ℤ
    pub quantized : op.param ≡ of_hundredths scaled
    pub above : ltb_ℤ scaled (op_spec op.kind).min_param ≡ false
    pub below : ltb_ℤ (op_spec op.kind).max_param scaled ≡ false

  module _ (laws : FloatLaws R) where
    within-IsCanonical :
        (kind : OpKind) (n : ℤ)
        → less (of_hundredths n) (of_hundredths (op_spec kind).min_param) ≡ false
        → less (of_hundredths (op_spec kind).max_param) (of_hundredths n) ≡ false
        → IsCanonical (record { kind = kind; param = of_hundredths n })
    within-IsCanonical kind n lo hi = record {
      scaled = n;
      quantized = refl;
      above = sym (laws.less_below n _ (spec_range kind).0) ∙ lo;
      below = sym (laws.less_above n _ (spec_range kind).1) ∙ hi;
    }

    check_param-IsCanonical :
        (name : List ℕ) (spec : OpSpec) (raw : F) {op : Op F}
        → IsEntry spec
        → check_param R name spec raw ≡ ok op
        → IsCanonical op
    unfolding check_param
    check_param-IsCanonical name spec raw {op} entry h =
        let n : ℤ = hundredths raw in
        let made : record { kind = spec.kind; param = of_hundredths n } ≡ op = ground arith in
        let lo : less (of_hundredths n) (of_hundredths spec.min_param) ≡ false = ground arith in
        let hi : less (of_hundredths spec.max_param) (of_hundredths n) ≡ false = ground arith in
        subst IsCanonical made (
          within-IsCanonical spec.kind n
            (ap (λ (t : OpSpec). less (of_hundredths n) (of_hundredths t.min_param)) (sym entry)
              ∙ lo)
            (ap (λ (t : OpSpec). less (of_hundredths t.max_param) (of_hundredths n)) (sym entry)
              ∙ hi))

    parse_param-IsCanonical :
        (name : List ℕ) (spec : OpSpec) (text : List ℕ) {op : Op F}
        → IsEntry spec
        → parse_param R name spec text ≡ ok op
        → IsCanonical op
    unfolding parse_param
    parse_param-IsCanonical name spec text {op} entry h =
        elim (Option-cases (parse_float R (trim text))) [
          | inl bad ↦ absurd (ground arith)
          | inr (raw, good) ↦ check_param-IsCanonical name spec raw entry (ground arith)
        ]

    default-IsCanonical :
        (kind : OpKind)
        → IsCanonical (record { kind = kind; param = of_hundredths (op_spec kind).default_param })
    default-IsCanonical OpKind.grayscale = record {
      scaled = _;
      quantized = refl;
      above = refl;
      below = refl;
    }
    default-IsCanonical _ = record { scaled = _; quantized = refl; above = refl; below = refl }

    parse_rest-IsCanonical :
        (name : List ℕ) (spec : OpSpec) (colon : Option ℕ) (token : List ℕ) {op : Op F}
        → IsEntry spec
        → parse_rest R name spec colon token ≡ ok op
        → IsCanonical op
    unfolding parse_rest
    parse_rest-IsCanonical name spec none token {op} entry h =
        let made : record {
          kind = spec.kind;
          param = of_hundredths (op_spec spec.kind).default_param;
        }
            ≡ op =
          ap (λ (t : OpSpec). record { kind = spec.kind; param = of_hundredths t.default_param })
            (sym entry)
          ∙ cc in
        subst IsCanonical made (default-IsCanonical spec.kind)
    parse_rest-IsCanonical name spec (some colon) token entry h =
        parse_param-IsCanonical name spec (drop (colon + 1) token) entry h

    parse_named-IsCanonical :
        (name : List ℕ) (colon : Option ℕ) (token : List ℕ) {op : Op F}
        → parse_named R name colon token ≡ ok op
        → IsCanonical op
    unfolding parse_named
    parse_named-IsCanonical name colon token {op} h = elim (Option-cases (find_spec name)) [
      | inl bad ↦ absurd (cc (rw (bad, parse_named) at h))
      | inr (spec, found) ↦
          parse_rest-IsCanonical name spec colon token (find_spec-IsEntry name found)
            (rw (found, parse_named) at h)
    ]

    parse_token-IsCanonical :
        (token : List ℕ) {op : Op F} → parse_token R token ≡ ok op → IsCanonical op
    unfolding parse_token
    parse_token-IsCanonical [] h = absurd (cc)
    parse_token-IsCanonical (c ∷ token) h =
        let colon : Option ℕ = find_char b':' (c ∷ token) in
        parse_named-IsCanonical (trim (before colon (c ∷ token))) colon (c ∷ token) h

    parse_loop-IsCanonical :
        (fuel : ℕ) (rest : List ℕ) (ops : OpChain F) {chain : OpChain F}
        → All IsCanonical ops
        → parse_loop R fuel rest ops ≡ ok chain
        → All IsCanonical chain
    unfolding parse_loop
    parse_loop-IsCanonical zero rest ops so_far h = absurd (cc)
    parse_loop-IsCanonical (suc fuel) rest ops {chain} so_far h =
        elim (Option-cases (find_char b',' rest)) [
          | inl last ↦
              let (op, parsed, made) =
                >>=-eq-ok (parse_token R (trim rest)) _ (rw (last, parse_loop) at h) in
              subst (All IsCanonical) (let e : ops ++ (op ∷ []) ≡ chain = cc in e)
                (All-snoc IsCanonical ops so_far (parse_token-IsCanonical (trim rest) parsed))
          | inr (comma, found) ↦
              let (op, parsed, more) =
                >>=-eq-ok (parse_token R (trim (take comma rest))) _
                  (rw (found, parse_loop) at h) in
              parse_loop-IsCanonical fuel (drop (comma + 1) rest) (ops ++ (op ∷ []))
                (All-snoc IsCanonical ops so_far
                  (parse_token-IsCanonical (trim (take comma rest)) parsed))
                more
        ]

    parse_body-IsCanonical :
        (body : List ℕ) {chain : OpChain F} → parse_body R body ≡ ok chain → All IsCanonical chain
    unfolding parse_body
    parse_body-IsCanonical [] {chain} h = let e : [] ≡ chain = cc in subst (All IsCanonical) e tt
    parse_body-IsCanonical (c ∷ rest) h =
        parse_loop-IsCanonical (suc (length (c ∷ rest))) (c ∷ rest) [] tt h

    -- Whatever the text, every op of a chain that the parser returns has a parameter quantized to
    -- hundredths and within the bounds of its op.
    pub parse_op_chain-IsCanonical :
        (text : List ℕ) {chain : OpChain F}
        → parse_op_chain R text ≡ ok chain
        → All IsCanonical chain
    unfolding parse_op_chain
    parse_op_chain-IsCanonical text h = parse_body-IsCanonical (trim text) h
