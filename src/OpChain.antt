-- ===== src/OpChain.antt =====
-- include/imgjit/core/op_chain.h and src/core/op_chain.cpp: the op table, the parser of op chains and
-- the canonical text. Texts are lists of byte values; `float` and its operations are a parameter.
pub mod Table
pub mod Decimal
pub mod Numerics
pub mod Hundredths
pub mod Params
pub mod Texts
pub mod Bounds
pub mod RoundTrip
pub mod Canonical
pub mod Fuel
mod Tests
use mathlib.Core.List.{reverse}
use image_processing_engine.Prelude.{
  ℕ, zero, suc, ◌+◌, ◌-◌, ◌*◌, ◌/◌, ◌%◌, Bool, true, false, ◌&&◌, ◌||◌, not, List, [], ◌∷◌, ◌++◌,
  Option, none, some, ltb, ◌==◌, if◌then◌else◌, length, take, drop,
}
use image_processing_engine.Prelude.Integers.{ℤ, pos, negsuc, nat_abs, is_negative}
use image_processing_engine.Prelude.Ascii.{codes, eq_text}
pub use Table.*
use Numerics.{Floats}

-- Why `parse_op_chain` returned nullopt: its error texts, with what they are made of.
pub data ParseError : Type 0 where
  empty_op : ParseError
  unknown_op : List ℕ → ParseError
  takes_no_param : List ℕ → ParseError
  not_a_number : List ℕ → List ℕ → ParseError
  outside_range : List ℕ → List ℕ → List ℕ → List ℕ → ParseError
  -- No outcome of the source: the model's loop ran out of fuel.
  out_of_fuel : ParseError

-- What a step of the parser returns: the error that ends the parse, or a value to go on with.
pub data Result {ℓ} (Value : Type ℓ) : Type ℓ where
  err : ParseError → Result Value
  ok : Value → Result Value

infixl 5 ◌>>=◌
abbrev pub ◌>>=◌ {ℓ κ} :
    {Found : Type ℓ} {Made : Type κ} → Result Found → (Found → Result Made) → Result Made
err reason >>= next = err reason
ok found >>= next = next found

abbrev pub is_space : ℕ → Bool
is_space c = c == b' ' || c == 9 || c == 13 || c == 10

unfoldable pub trim_front : List ℕ → List ℕ
trim_front [] = []
trim_front (c ∷ text) = if is_space c then trim_front text else c ∷ text

-- The loop over the back runs on the reversed text.
unfoldable pub trim : List ℕ → List ℕ
unfolding trim_front
trim text = reverse (trim_front (reverse (trim_front text)))

-- `text.find(c)`
unfoldable pub find_char : ℕ → List ℕ → Option ℕ
find_char c [] = none
find_char c (x ∷ text) =
    let rest : Option ℕ = elim (find_char c text) [ none ↦ none | some n ↦ some (suc n) ] in
    if x == c then some 0 else rest

-- `text.substr(0, end)`, where npos stands for the end of the text.
abbrev pub before : Option ℕ → List ℕ → List ℕ
before none text = text
before (some n) text = take n text

unfoldable pub find_in : List OpSpec → List ℕ → Option OpSpec
find_in [] name = none
find_in (spec ∷ specs) name = if eq_text spec.name name then some spec else find_in specs name

unfoldable pub find_spec : List ℕ → Option OpSpec
unfolding find_in
find_spec name = find_in op_specs name

-- `std::to_string` of a number below 10 ^ fuel.
unfoldable pub to_digits : ℕ → ℕ → List ℕ → List ℕ
to_digits zero n out = out
to_digits (suc fuel) n out =
    let more = to_digits fuel (n / 10) ((n % 10 + b'0') ∷ out) in
    if n / 10 == 0 then (n % 10 + b'0') ∷ out else more

unfoldable pub to_string : ℕ → List ℕ
unfolding to_digits
to_string n = to_digits (suc n) n []

-- `format_param` from the scaled value on.
unfoldable pub format_scaled : ℤ → List ℕ
unfolding to_string
format_scaled scaled =
    let magnitude = nat_abs scaled in
    let text =
      (if is_negative scaled then codes "-" else [])
      ++ (to_string (magnitude / 100) ++ (codes "." ++ to_string (magnitude / 10 % 10))) in
    if magnitude % 10 == 0 then text else text ++ to_string (magnitude % 10)

-- The numbers of a range error's text, which an option carries no further.
abbrev range_error : List ℕ → ℤ → OpSpec → ParseError
range_error name scaled spec =
    outside_range name (format_scaled scaled) (format_scaled spec.min_param)
      (format_scaled spec.max_param)

module _ (R : Floats) where
  open R use {F, strtof, is_finite, hundredths, of_hundredths, less}

  -- `quantize_param`
  unfoldable pub quantize_param : F → F
  quantize_param value = of_hundredths (hundredths value)

  -- `format_param`
  unfoldable pub format_param : F → List ℕ
  unfolding format_scaled
  format_param value = format_scaled (hundredths value)

  abbrev whole_token : List ℕ → F × ℕ → Option F
  whole_token text (value, consumed) =
      if not (consumed == length text) || not (is_finite value) then none else some value

  abbrev is_empty : List ℕ → Bool
  is_empty [] = true
  is_empty (c ∷ text) = false

  unfoldable pub parse_float : List ℕ → Option F
  parse_float text = if is_empty text then none else whole_token text (strtof text)

  -- A quantized parameter, checked against the bounds of its op.
  unfoldable pub check_value : List ℕ → OpSpec → F → Result (Op F)
  check_value name spec value =
      if less value (of_hundredths spec.min_param) || less (of_hundredths spec.max_param) value
      then err (range_error name (hundredths value) spec)
      else ok (record { kind = spec.kind; param = value })

  unfoldable pub check_param : List ℕ → OpSpec → F → Result (Op F)
  unfolding quantize_param check_value
  check_param name spec raw = check_value name spec (quantize_param raw)

  -- What stands behind the colon of a token.
  unfoldable pub parse_param : List ℕ → OpSpec → List ℕ → Result (Op F)
  unfolding parse_float check_param trim
  parse_param name spec text =
      if not spec.takes_param then err (takes_no_param name) else elim (parse_float (trim text)) [
        | none ↦ err (not_a_number name (trim text))
        | some raw ↦ check_param name spec raw
      ]

  -- The parameter of a token whose name is known: the default, if there is no colon.
  unfoldable pub parse_rest : List ℕ → OpSpec → Option ℕ → List ℕ → Result (Op F)
  unfolding parse_param
  parse_rest name spec none token =
      ok (record { kind = spec.kind; param = of_hundredths spec.default_param })
  parse_rest name spec (some colon) token = parse_param name spec (drop (colon + 1) token)

  -- The op of that name, and the rest of its token.
  unfoldable pub parse_named : List ℕ → Option ℕ → List ℕ → Result (Op F)
  unfolding parse_rest find_spec
  parse_named name colon token = elim (find_spec name) [
    | none ↦ err (unknown_op name)
    | some spec ↦ parse_rest name spec colon token
  ]

  -- One round of the loop, from the trimmed token on.
  unfoldable pub parse_token : List ℕ → Result (Op F)
  unfolding parse_named find_char trim
  parse_token token =
      if is_empty token
      then err empty_op
      else let colon = find_char b':' token in parse_named (trim (before colon token)) colon token

  -- The loop on what lies behind `position`; each round but the last passes a comma.
  unfoldable pub parse_loop : ℕ → List ℕ → OpChain F → Result (OpChain F)
  unfolding parse_token find_char trim
  parse_loop zero rest ops = err out_of_fuel
  parse_loop (suc fuel) rest ops = elim (find_char b',' rest) [
    | none ↦ parse_token (trim rest) >>= λ op. ok (ops ++ (op ∷ []))
    | some comma ↦ parse_token (trim (take comma rest)) >>= λ op.
        parse_loop fuel (drop (comma + 1) rest) (ops ++ (op ∷ []))
  ]

  -- Every round but the last takes a byte at least, so the length and one more rounds are enough.
  unfoldable pub parse_body : List ℕ → Result (OpChain F)
  unfolding parse_loop
  parse_body [] = ok []
  parse_body (c ∷ rest) = parse_loop (suc (length (c ∷ rest))) (c ∷ rest) []

  unfoldable pub parse_op_chain : List ℕ → Result (OpChain F)
  unfolding parse_body trim
  parse_op_chain text = parse_body (trim text)

  -- The text of one op, without the comma.
  unfoldable pub op_text : Op F → List ℕ
  unfolding format_param
  op_text op =
      let spec = op_spec op.kind in
      spec.name ++ (if spec.takes_param then b':' ∷ format_param op.param else [])

  unfoldable pub canonical_loop : OpChain F → List ℕ → List ℕ
  unfolding op_text
  canonical_loop [] text = text
  canonical_loop (op ∷ ops) text =
      canonical_loop ops ((if is_empty text then text else text ++ (b',' ∷ [])) ++ op_text op)

  unfoldable pub canonical_string : OpChain F → List ℕ
  unfolding canonical_loop
  canonical_string chain = canonical_loop chain []
