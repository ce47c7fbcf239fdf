-- ===== src/OpChain/Fuel.antt =====
-- The parser's loop runs out of text before it runs out of fuel.
use image_processing_engine.Prelude.{
  ℕ, zero, suc, ◌+◌, ◌<◌, ◌≡◌, ◌≢◌, refl, Bool, true, false, List, [], ◌∷◌, ◌++◌, Option, none,
  some, arith, length, take, drop, length-drop, Option-cases, inl, inr,
}
use image_processing_engine.OpChain.Numerics.{Floats}
use image_processing_engine.OpChain.Texts.{find_char-lt}
use image_processing_engine.OpChain.{
  OpSpec, OpChain, Result, ok, err, ◌>>=◌, find_char, find_spec, trim, before, check_value,
  check_param, quantize_param, parse_param, parse_rest, parse_named, parse_token, parse_loop,
  parse_body, parse_op_chain, out_of_fuel, empty_op, unknown_op, takes_no_param, not_a_number,
  outside_range,
}

-- Whether a result is another than that of a loop out of fuel.
unfoldable is_fuelled : {A : Type 0} → Result A → Bool
is_fuelled (err out_of_fuel) = false
is_fuelled r = true

module _ (R : Floats) where
  open R use {F}

  check_value_fuelled :
      (name : List ℕ) (spec : OpSpec) (value : F)
      → is_fuelled (check_value R name spec value) ≡ true
  unfolding is_fuelled check_value
  check_value_fuelled name spec value = ground arith

  parse_param_fuelled :
      (name : List ℕ) (spec : OpSpec) (text : List ℕ)
      → is_fuelled (parse_param R name spec text) ≡ true
  unfolding is_fuelled parse_param check_param
  parse_param_fuelled name spec text =
      let value_fuelled : (raw : F) → is_fuelled (check_param R name spec raw) ≡ true =
        λ raw. check_value_fuelled name spec (quantize_param R raw) in
      ground (arith, value_fuelled)

  parse_rest_fuelled :
      (name : List ℕ) (spec : OpSpec) (colon : Option ℕ) (token : List ℕ)
      → is_fuelled (parse_rest R name spec colon token) ≡ true
  unfolding is_fuelled parse_rest
  parse_rest_fuelled name spec none token = refl
  parse_rest_fuelled name spec (some colon) token =
      parse_param_fuelled name spec (drop (colon + 1) token)

  parse_named_fuelled :
      (name : List ℕ) (colon : Option ℕ) (token : List ℕ)
      → is_fuelled (parse_named R name colon token) ≡ true
  unfolding is_fuelled parse_named
  parse_named_fuelled name colon token =
      let rest_fuelled : (spec : OpSpec) → is_fuelled (parse_rest R name spec colon token) ≡ true =
        λ spec. parse_rest_fuelled name spec colon token in
      elim (Option-cases (find_spec name)) [
        | inl e ↦ rw (e, parse_named) refl
        | inr (spec, e) ↦ rw (e, parse_named) (rest_fuelled spec)
      ]

  parse_token_fuelled : (token : List ℕ) → is_fuelled (parse_token R token) ≡ true
  unfolding is_fuelled parse_token
  parse_token_fuelled [] = refl
  parse_token_fuelled (c ∷ token) =
      parse_named_fuelled (trim (before (find_char b':' (c ∷ token)) (c ∷ token)))
        (find_char b':' (c ∷ token)) (c ∷ token)

  >>=_fuelled :
      {A B : Type 0} (r : Result A) (f : A → Result B)
      → is_fuelled r ≡ true
      → ((a : A) → is_fuelled (f a) ≡ true)
      → is_fuelled (r >>= f) ≡ true
  unfolding is_fuelled
  >>=_fuelled (ok a) f h k = k a
  >>=_fuelled (err out_of_fuel) f h k = absurd (cc)
  >>=_fuelled (err empty_op) f h k = refl
  >>=_fuelled (err (unknown_op _)) f h k = refl
  >>=_fuelled (err (takes_no_param _)) f h k = refl
  >>=_fuelled (err (not_a_number _ _)) f h k = refl
  >>=_fuelled (err (outside_range _ _ _ _)) f h k = refl

  parse_loop_fuelled :
      (fuel : ℕ) (rest : List ℕ) (ops : OpChain F)
      → length rest < fuel
      → is_fuelled (parse_loop R fuel rest ops) ≡ true
  unfolding parse_loop
  parse_loop_fuelled zero rest ops h = absurd (omega arith)
  parse_loop_fuelled (suc fuel) rest ops h = elim (Option-cases (find_char b',' rest)) [
    | inl e ↦
        rw (e, parse_loop)
          (>>=_fuelled (parse_token R (trim rest)) (λ op. ok (ops ++ (op ∷ [])))
            (parse_token_fuelled (trim rest)) (λ op. unfold is_fuelled in refl))
    | inr (comma, e) ↦
        rw (e, parse_loop)
          (>>=_fuelled (parse_token R (trim (take comma rest)))
            (λ op. parse_loop R fuel (drop (comma + 1) rest) (ops ++ (op ∷ [])))
            (parse_token_fuelled (trim (take comma rest)))
            (λ op.
              parse_loop_fuelled fuel (drop (comma + 1) rest) (ops ++ (op ∷ []))
                (omega (arith, find_char-lt b',' rest comma e, length-drop (comma + 1) rest))))
  ]

  parse_body_fuelled : (body : List ℕ) → is_fuelled (parse_body R body) ≡ true
  unfolding parse_body
  parse_body_fuelled [] = unfold is_fuelled in refl
  parse_body_fuelled (c ∷ rest) =
      parse_loop_fuelled (suc (length (c ∷ rest))) (c ∷ rest) [] (omega arith)

  -- The parser ends on every text: its loop never runs out of the fuel that it is given.
  pub parse_op_chain_total : (text : List ℕ) → parse_op_chain R text ≢ err out_of_fuel
  unfolding is_fuelled parse_op_chain
  parse_op_chain_total text e =
      let fuelled : is_fuelled (parse_op_chain R text) ≡ true = parse_body_fuelled (trim text) in
      absurd (cc)
