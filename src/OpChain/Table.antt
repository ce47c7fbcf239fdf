-- ===== src/OpChain/Table.antt =====
-- include/imgjit/core/op_chain.h: the ops, their table and the chain.
use image_processing_engine.Prelude.{ℕ, Bool, true, false, List, [], ◌∷◌}
use image_processing_engine.Prelude.Integers.{ℤ, pos, negsuc}
use image_processing_engine.Prelude.Ascii.{codes}

pub data OpKind : Type 0 where
  grayscale invert brightness threshold gaussian sobel : OpKind

-- `static_cast<std::uint8_t>(kind)`
abbrev pub kind_code : OpKind → ℕ
kind_code grayscale = 0
kind_code invert = 1
kind_code brightness = 2
kind_code threshold = 3
kind_code gaussian = 4
kind_code sobel = 5

pub record Op (F : Type 0) : Type 0 where
  pub kind : OpKind
  pub param : F

abbrev pub OpChain : Type 0 → Type 0
OpChain F = List (Op F)

-- The bounds and the default are in hundredths.
pub record OpSpec : Type 0 where
  pub kind : OpKind
  pub name : List ℕ
  pub takes_param : Bool
  pub is_stencil : Bool
  pub default_param : ℤ
  pub min_param : ℤ
  pub max_param : ℤ

abbrev plain_spec : OpKind → List ℕ → Bool → OpSpec
plain_spec kind name is_stencil = record {
  kind = kind;
  name = name;
  takes_param = false;
  is_stencil = is_stencil;
  default_param = pos 0;
  min_param = pos 0;
  max_param = pos 0;
}

abbrev param_spec : OpKind → List ℕ → Bool → ℤ → ℤ → ℤ → OpSpec
param_spec kind name is_stencil default low high = record {
  kind = kind;
  name = name;
  takes_param = true;
  is_stencil = is_stencil;
  default_param = default;
  min_param = low;
  max_param = high;
}

-- `op_spec(kind)`: the entry of the table at the kind's number. The throw for a number past the
-- table is not reached, a kind being one of six.
abbrev pub op_spec : OpKind → OpSpec
op_spec grayscale = plain_spec grayscale (codes "grayscale") false
op_spec invert = plain_spec invert (codes "invert") false
op_spec brightness = param_spec brightness (codes "brightness") false (pos 0) (negsuc 99) (pos 100)
op_spec threshold = param_spec threshold (codes "threshold") false (pos 50) (pos 0) (pos 100)
op_spec gaussian = param_spec gaussian (codes "gaussian") true (pos 100) (pos 10) (pos 400)
op_spec sobel = plain_spec sobel (codes "sobel") true

-- kOpSpecs, in the order of the enumeration.
abbrev pub op_specs : List OpSpec
op_specs =
    op_spec grayscale
    ∷ op_spec invert
    ∷ op_spec brightness
    ∷ op_spec threshold
    ∷ op_spec gaussian
    ∷ op_spec sobel
    ∷ []
