-- ===== src/OpChain/RoundTrip.antt =====
-- Parsing the token that `canonical_string` prints for an op with a parameter.
use image_processing_engine.Prelude.{
  ℕ, ◌≤◌, ◌≡◌, refl, ap, ◌∙◌, Bool, true, false, ◌&&◌, not, List, [], ◌∷◌, ◌++◌, some, arith, ◌==◌,
  length,
}
use image_processing_engine.Prelude.Integers.{ℤ, nat_abs, ltb_ℤ}
use image_processing_engine.OpChain.Numerics.{Floats, FloatLaws, widest}
use image_processing_engine.OpChain.Params.{
  all_plain, non_empty, decimal-format_scaled, format_scaled_plain,
}
use image_processing_engine.OpChain.Texts.{all_of, trim_lem}
use image_processing_engine.OpChain.Bounds.{in_bounds_small, spec_range}
use image_processing_engine.OpChain.{
  OpKind, OpSpec, op_spec, ok, is_space, format_scaled, trim, parse_float, quantize_param,
  check_value, check_param, parse_param, parse_token,
}

all_plain-all_of : (s : List ℕ) → all_plain s ≡ true → all_of (λ c. not (is_space c)) s ≡ true
all_plain-all_of [] h = refl
all_plain-all_of (c ∷ s) h = ground (arith, all_plain-all_of s)

-- A character that can stand in a token: no white space and no comma.
abbrev pub in_token : ℕ → Bool
in_token c = not (is_space c) && not (c == b',')

pub all_plain-in_token : (s : List ℕ) → all_plain s ≡ true → all_of in_token s ≡ true
all_plain-in_token [] h = refl
all_plain-in_token (c ∷ s) h = ground (arith, all_plain-in_token s)

module _ (R : Floats) (laws : FloatLaws R) where
  open R use {F, hundredths, of_hundredths, less}

  parse_float_lem :
      (text : List ℕ) (v : F)
      → non_empty text ≡ true
      → R.strtof text ≡ (v, length text)
      → R.is_finite v ≡ true
      → parse_float R text ≡ some v
  unfolding parse_float
  parse_float_lem [] v full e finite = absurd (cc)
  parse_float_lem (c ∷ text) v full e finite = rw e (rw finite (ground arith))

  -- A printed parameter is read back as the parameter.
  parse_float-format_scaled :
      (n : ℤ) → nat_abs n ≤ widest → parse_float R (trim (format_scaled n)) ≡ some (of_hundredths n)
  parse_float-format_scaled n h =
      let (plain, full) = format_scaled_plain n h in
      rw (trim_lem (format_scaled n) (all_plain-all_of (format_scaled n) plain)) (
        parse_float_lem (format_scaled n) (of_hundredths n) full
          (laws.strtof_decimal (format_scaled n) n (decimal-format_scaled n h) h)
          (laws.finite_in_range n h))

  quantized :
      (name : List ℕ) (spec : OpSpec) (n : ℤ)
      → hundredths (of_hundredths n) ≡ n
      → check_param R name spec (of_hundredths n) ≡ check_value R name spec (of_hundredths n)
  unfolding quantize_param check_param
  quantized name spec n e = ap (λ m. check_value R name spec (of_hundredths m)) e

  check_value_lem :
      (name : List ℕ) (spec : OpSpec) (value : F)
      → less value (of_hundredths spec.min_param) ≡ false
      → less (of_hundredths spec.max_param) value ≡ false
      → check_value R name spec value ≡ ok (record { kind = spec.kind; param = value })
  unfolding check_value
  check_value_lem name spec value lo hi = ground arith

  check_param_lem :
      (kind : OpKind) (name : List ℕ) (n : ℤ)
      → ltb_ℤ n (op_spec kind).min_param ≡ false
      → ltb_ℤ (op_spec kind).max_param n ≡ false
      → check_param R name (op_spec kind) (of_hundredths n)
        ≡ ok (record { kind = (op_spec kind).kind; param = of_hundredths n })
  check_param_lem kind name n lo hi =
      let small : nat_abs n ≤ widest = in_bounds_small kind n lo hi in
      quantized name (op_spec kind) n (laws.hundredths_exact n small)
      ∙ check_value_lem name (op_spec kind) (of_hundredths n)
          (laws.less_below n (op_spec kind).min_param (spec_range kind).0 ∙ lo)
          (laws.less_above n (op_spec kind).max_param (spec_range kind).1 ∙ hi)

  pub parse_param-format_scaled :
      (kind : OpKind) (name : List ℕ) (n : ℤ)
      → (op_spec kind).takes_param ≡ true
      → ltb_ℤ n (op_spec kind).min_param ≡ false
      → ltb_ℤ (op_spec kind).max_param n ≡ false
      → parse_param R name (op_spec kind) (format_scaled n)
        ≡ ok (record { kind = (op_spec kind).kind; param = of_hundredths n })
  unfolding parse_param
  parse_param-format_scaled kind name n takes lo hi =
      let small : nat_abs n ≤ widest = in_bounds_small kind n lo hi in
      rw (takes, parse_param, parse_float-format_scaled n small) (check_param_lem kind name n lo hi)

  pub token_of_param :
      (kind : OpKind) (t : List ℕ)
      → (op_spec kind).takes_param ≡ true
      → parse_token R ((op_spec kind).name ++ (b':' ∷ t))
        ≡ parse_param R (op_spec kind).name (op_spec kind) t
  unfolding parse_token
  token_of_param OpKind.brightness t takes = refl
  token_of_param OpKind.threshold t takes = refl
  token_of_param OpKind.gaussian t takes = refl
  token_of_param _ t takes = absurd (cc)
