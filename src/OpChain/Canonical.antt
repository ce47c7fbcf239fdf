-- ===== src/OpChain/Canonical.antt =====
-- The canonical text as its tokens, and that the parser gives back the chain that it was printed of.
use mathlib.Core.List.{append_assoc, append-nil}
use image_processing_engine.Prelude.{
  ℕ, zero, suc, ◌+◌, ◌≤◌, ◌<◌, ◌≡◌, refl, sym, ap, ◌∙◌, true, false, not, List, [], ◌∷◌, ◌++◌, none,
  some, arith, ◌==◌, if◌then◌else◌, length, take, drop, length-append,
}
use image_processing_engine.Prelude.Integers.{ℤ, pos, negsuc, nat_abs, ltb_ℤ}
use image_processing_engine.Prelude.Predicates.{All}
use image_processing_engine.OpChain.Numerics.{Floats, FloatLaws, widest}
use image_processing_engine.OpChain.Params.{format_scaled_plain, non_empty}
use image_processing_engine.OpChain.Texts.{
  all_of, all_of-append, trim_lem, find_char-none, find_char-append, take-length, drop-length,
}
use image_processing_engine.OpChain.Bounds.{
  IsCanonical, in_bounds_small, parse_op_chain-IsCanonical,
}
use image_processing_engine.OpChain.RoundTrip.{
  in_token, all_plain-in_token, token_of_param, parse_param-format_scaled,
}
use image_processing_engine.OpChain.{
  OpKind, Op, OpChain, op_spec, ok, is_space, format_scaled, format_param, find_char, trim,
  parse_token, parse_loop, parse_body, parse_op_chain, op_text, canonical_loop, canonical_string,
}

-- The token of a kind and a number of hundredths.
abbrev token : OpKind → ℤ → List ℕ
token kind n =
    (op_spec kind).name ++ (if (op_spec kind).takes_param then b':' ∷ format_scaled n else [])

token-in_token :
    (kind : OpKind) (n : ℤ) → nat_abs n ≤ widest → all_of in_token (token kind n) ≡ true
token-in_token OpKind.brightness n h =
    all_plain-in_token (format_scaled n) (format_scaled_plain n h).0
token-in_token OpKind.threshold n h =
    all_plain-in_token (format_scaled n) (format_scaled_plain n h).0
token-in_token OpKind.gaussian n h =
    all_plain-in_token (format_scaled n) (format_scaled_plain n h).0
token-in_token _ n h = refl

only_zero : (n : ℤ) → ltb_ℤ n (pos 0) ≡ false → ltb_ℤ (pos 0) n ≡ false → n ≡ pos 0
only_zero (pos n) lo hi = ground arith
only_zero (negsuc n) lo hi = ground arith

in_token_no_space :
    (s : List ℕ) → all_of in_token s ≡ true → all_of (λ c. not (is_space c)) s ≡ true
in_token_no_space [] h = refl
in_token_no_space (c ∷ s) h = ground (arith, in_token_no_space s)

in_token_no_comma : (s : List ℕ) → all_of in_token s ≡ true → all_of (λ c. not (c == b',')) s ≡ true
in_token_no_comma [] h = refl
in_token_no_comma (c ∷ s) h = ground (arith, in_token_no_comma s)

non_empty-append : (s t : List ℕ) → non_empty s ≡ true → non_empty (s ++ t) ≡ true
non_empty-append [] t h = absurd (cc)
non_empty-append (c ∷ s) t h = refl

module _ (R : Floats) (laws : FloatLaws R) where
  open R use {F, hundredths, of_hundredths}

  parse_token-token :
      (kind : OpKind) (n : ℤ)
      → ltb_ℤ n (op_spec kind).min_param ≡ false
      → ltb_ℤ (op_spec kind).max_param n ≡ false
      → parse_token R (token kind n) ≡ ok (record { kind = kind; param = of_hundredths n })
  unfolding parse_token
  parse_token-token OpKind.brightness n lo hi =
      token_of_param R laws OpKind.brightness (format_scaled n) refl
      ∙ parse_param-format_scaled R laws OpKind.brightness _ n refl lo hi
  parse_token-token OpKind.threshold n lo hi =
      token_of_param R laws OpKind.threshold (format_scaled n) refl
      ∙ parse_param-format_scaled R laws OpKind.threshold _ n refl lo hi
  parse_token-token OpKind.gaussian n lo hi =
      token_of_param R laws OpKind.gaussian (format_scaled n) refl
      ∙ parse_param-format_scaled R laws OpKind.gaussian _ n refl lo hi
  parse_token-token kind n lo hi =
      ap (λ m. ok (record { kind = kind; param = of_hundredths m })) (sym (only_zero n lo hi))

  op_text-token : (op : Op F) (c : IsCanonical R op) → op_text R op ≡ token op.kind c.scaled
  unfolding op_text format_param
  op_text-token op c =
      let small : nat_abs c.scaled ≤ widest = in_bounds_small op.kind c.scaled c.above c.below in
      ap
        (λ m.
          (op_spec op.kind).name
          ++ (if (op_spec op.kind).takes_param then b':' ∷ format_scaled m else []))
        (ap hundredths c.quantized ∙ laws.hundredths_exact c.scaled small)

  op_text-in_token : (op : Op F) → IsCanonical R op → all_of in_token (op_text R op) ≡ true
  op_text-in_token op c =
      rw (op_text-token op c)
        (token-in_token op.kind c.scaled (in_bounds_small op.kind c.scaled c.above c.below))

  parse_token-op_text : (op : Op F) → IsCanonical R op → parse_token R (op_text R op) ≡ ok op
  parse_token-op_text op c =
      ap (parse_token R) (op_text-token op c)
      ∙ parse_token-token op.kind c.scaled c.above c.below
      ∙ ap (λ v. ok (record op { param = v })) (sym c.quantized)

  -- The ops behind the first, each with the comma before it.
  abbrev tail_text : OpChain F → List ℕ
  tail_text [] = []
  tail_text (op ∷ ops) = b',' ∷ (op_text R op ++ tail_text ops)

  op_text-non_empty : (op : Op F) → non_empty (op_text R op) ≡ true
  unfolding op_text
  op_text-non_empty op = name_first op.kind _
    where
      name_first : (kind : OpKind) (t : List ℕ) → non_empty ((op_spec kind).name ++ t) ≡ true
      name_first OpKind.grayscale t = refl
      name_first _ t = refl

  canonical_loop-tail_text :
      (ops : OpChain F) (text : List ℕ)
      → non_empty text ≡ true
      → canonical_loop R ops text ≡ text ++ tail_text ops
  unfolding canonical_loop
  canonical_loop-tail_text [] text h = sym (append-nil text)
  canonical_loop-tail_text (op ∷ ops) [] h = absurd (cc)
  canonical_loop-tail_text (op ∷ ops) (x ∷ text) h =
      canonical_loop-tail_text ops ((x ∷ text ++ (b',' ∷ [])) ++ op_text R op) refl
      ∙ ap (λ r. x ∷ r)
          (append_assoc (text ++ (b',' ∷ [])) (op_text R op) (tail_text ops)
            ∙ append_assoc text (b',' ∷ []) (op_text R op ++ tail_text ops))

  canonical_string-cons :
      (op : Op F) (ops : OpChain F) → canonical_string R (op ∷ ops) ≡ op_text R op ++ tail_text ops
  unfolding canonical_string canonical_loop
  canonical_string-cons op ops = canonical_loop-tail_text ops (op_text R op) (op_text-non_empty op)

  length-tail_text : (ops : OpChain F) → length ops ≤ length (tail_text ops)
  length-tail_text [] = omega arith
  length-tail_text (op ∷ ops) =
      omega (arith, length-append (op_text R op) (tail_text ops), length-tail_text ops)

  tail_text_no_space :
      (ops : OpChain F)
      → All (IsCanonical R) ops
      → all_of (λ c. not (is_space c)) (tail_text ops) ≡ true
  tail_text_no_space [] cs = refl
  tail_text_no_space (op ∷ ops) (c, cs) =
      all_of-append _ (op_text R op) (tail_text ops)
        (in_token_no_space (op_text R op) (op_text-in_token op c)) (tail_text_no_space ops cs)

  last_round :
      (fuel : ℕ) (rest : List ℕ) (acc : OpChain F) (op : Op F)
      → find_char b',' rest ≡ none
      → parse_token R (trim rest) ≡ ok op
      → parse_loop R (suc fuel) rest acc ≡ ok (acc ++ (op ∷ []))
  unfolding parse_loop
  last_round fuel rest acc op e p = rw (e, parse_loop) (rw p)

  next_round :
      (fuel comma : ℕ) (rest : List ℕ) (acc : OpChain F) (op : Op F)
      → find_char b',' rest ≡ some comma
      → parse_token R (trim (take comma rest)) ≡ ok op
      → parse_loop R (suc fuel) rest acc
        ≡ parse_loop R fuel (drop (comma + 1) rest) (acc ++ (op ∷ []))
  unfolding parse_loop
  next_round fuel comma rest acc op e p = rw (e, parse_loop) (rw p)

  trimmed : (op : Op F) → IsCanonical R op → parse_token R (trim (op_text R op)) ≡ ok op
  trimmed op c =
      ap (parse_token R)
        (trim_lem (op_text R op) (in_token_no_space (op_text R op) (op_text-in_token op c)))
      ∙ parse_token-op_text op c

  -- The parser's loop on the canonical text, with a round for each op.
  parse_loop-op_text :
      (fuel : ℕ) (op : Op F) (ops acc : OpChain F)
      → length ops < fuel
      → IsCanonical R op
      → All (IsCanonical R) ops
      → parse_loop R fuel (op_text R op ++ tail_text ops) acc ≡ ok (acc ++ (op ∷ ops))
  parse_loop-op_text zero op ops acc h c cs = absurd (omega arith)
  parse_loop-op_text (suc fuel) op [] acc h c cs = rw (append-nil (op_text R op)) (
      last_round fuel (op_text R op) acc op
        (find_char-none b',' (op_text R op)
          (in_token_no_comma (op_text R op) (op_text-in_token op c)))
        (trimmed op c))
  parse_loop-op_text (suc fuel) op (next ∷ ops) acc h c (d, cs) =
      let text = op_text R op in
      let rest = op_text R next ++ tail_text ops in
      let next_index : length text + 1 ≡ suc (length text) = omega arith in
      next_round fuel (length text) (text ++ (b',' ∷ rest)) acc op
        (find_char-append b',' text rest (in_token_no_comma text (op_text-in_token op c)))
        (ap (λ s. parse_token R (trim s)) (take-length text (b',' ∷ rest)) ∙ trimmed op c)
      ∙ ap (λ s. parse_loop R fuel s (acc ++ (op ∷ [])))
          (ap (λ n. drop n (text ++ (b',' ∷ rest))) next_index ∙ drop-length text b',' rest)
      ∙ parse_loop-op_text fuel next ops (acc ++ (op ∷ [])) (omega arith) d cs
      ∙ ap ok (append_assoc acc (op ∷ []) (next ∷ ops))

  parse_body-loop :
      (body : List ℕ)
      → non_empty body ≡ true
      → parse_body R body ≡ parse_loop R (suc (length body)) body []
  unfolding parse_body
  parse_body-loop [] h = absurd (cc)
  parse_body-loop (c ∷ body) h = refl

  parse_op_chain_lem :
      (body : List ℕ)
      → all_of (λ x. not (is_space x)) body ≡ true
      → non_empty body ≡ true
      → parse_op_chain R body ≡ parse_loop R (suc (length body)) body []
  unfolding parse_op_chain
  parse_op_chain_lem body plain full =
      ap (parse_body R) (trim_lem body plain) ∙ parse_body-loop body full

  -- The parser reads the canonical text of a chain of canonical ops as that chain, the ops in their
  -- order, with every parameter and with the defaults of ops without one.
  pub parse_op_chain-canonical_string :
      (chain : OpChain F)
      → All (IsCanonical R) chain
      → parse_op_chain R (canonical_string R chain) ≡ ok chain
  parse_op_chain-canonical_string [] cs = unfold parse_op_chain canonical_string in refl
  parse_op_chain-canonical_string (op ∷ ops) (c, cs) =
      let body = op_text R op ++ tail_text ops in
      let no_space : all_of (λ x. not (is_space x)) body ≡ true =
        all_of-append _ (op_text R op) (tail_text ops)
          (in_token_no_space (op_text R op) (op_text-in_token op c)) (tail_text_no_space ops cs) in
      let rounds : length ops < suc (length body) =
        omega (arith, length-append (op_text R op) (tail_text ops), length-tail_text ops) in
      ap (parse_op_chain R) (canonical_string-cons op ops)
      ∙ parse_op_chain_lem body no_space
          (non_empty-append (op_text R op) (tail_text ops) (op_text-non_empty op))
      ∙ parse_loop-op_text (suc (length body)) op ops [] rounds c cs

  -- A chain that the parser returns is what it returns on the chain's canonical text too: the text
  -- keeps all that the parse found.
  pub canonical_string-parse_op_chain :
      (text : List ℕ) (chain : OpChain F)
      → parse_op_chain R text ≡ ok chain
      → parse_op_chain R (canonical_string R chain) ≡ ok chain
  canonical_string-parse_op_chain text chain e =
      parse_op_chain-canonical_string chain (parse_op_chain-IsCanonical R laws text e)
