-- ===== src/OpChain/Tests.antt =====
-- Witnesses of the op chain's theorems, with numbers of hundredths for the floats.
use image_processing_engine.Prelude.{ℕ, ◌≡◌, ◌≢◌, refl, List, [], ◌∷◌}
use image_processing_engine.Prelude.Integers.{ℤ, pos, negsuc}
use image_processing_engine.Prelude.Predicates.{All}
use image_processing_engine.Prelude.Ascii.{codes}
use image_processing_engine.OpChain.Decimal.{decimal}
use image_processing_engine.OpChain.Hundredths.{hundredths_floats, hundredths_laws}
use image_processing_engine.OpChain.Bounds.{IsCanonical, parse_op_chain-IsCanonical}
use image_processing_engine.OpChain.Canonical.{canonical_string-parse_op_chain}
use image_processing_engine.OpChain.Fuel.{parse_op_chain_total}
use image_processing_engine.OpChain.{
  OpKind, OpChain, ok, err, out_of_fuel, parse_op_chain, canonical_string,
}

abbrev blur_and_invert : OpChain ℤ
blur_and_invert =
    record { kind = OpKind.gaussian; param = pos 140 }
    ∷ record { kind = OpKind.invert; param = pos 0 }
    ∷ record { kind = OpKind.brightness; param = negsuc 4 }
    ∷ []

abbrev spaced_text : List ℕ
spaced_text = codes " gaussian:1.4 , invert,brightness:-0.05"

parses : parse_op_chain hundredths_floats spaced_text ≡ ok blur_and_invert
unfolding parse_op_chain decimal
parses = refl

parse_op_chain-IsCanonical_example : All (IsCanonical hundredths_floats) blur_and_invert
parse_op_chain-IsCanonical_example =
    parse_op_chain-IsCanonical hundredths_floats hundredths_laws spaced_text parses

canonical_string-parse_op_chain_example :
    parse_op_chain hundredths_floats (canonical_string hundredths_floats blur_and_invert)
    ≡ ok blur_and_invert
canonical_string-parse_op_chain_example =
    canonical_string-parse_op_chain hundredths_floats hundredths_laws spaced_text blur_and_invert
      parses

parse_op_chain_total_example : parse_op_chain hundredths_floats spaced_text ≢ err out_of_fuel
parse_op_chain_total_example = parse_op_chain_total hundredths_floats spaced_text
