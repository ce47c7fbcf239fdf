-- ===== src/ServerTool/Tests.antt =====
-- A witness of the theorem on accepted command lines, and lines that `main` refuses.
use image_processing_engine.Prelude.{◌≡◌, refl, true, List, [], ◌∷◌, ◌^◌, ◌-◌, none, some, ℕ}
use image_processing_engine.Prelude.Ascii.{codes}
use image_processing_engine.Prelude.Integers.{pos}
use image_processing_engine.OpChain.{OpKind, parse_op_chain}
use image_processing_engine.OpChain.Decimal.{decimal}
use image_processing_engine.OpChain.Hundredths.{hundredths_floats, hundredths_laws}
use image_processing_engine.KernelKey.{TileVariant}
use image_processing_engine.Image.Channels.{is_supported_channel_count}
use image_processing_engine.Codegen.{is_supported_tile, is_supported_constants}
use image_processing_engine.ServerTool.{Options, defaults, configure, atoi, to_unsigned, rfind}
use image_processing_engine.ServerTool.Accepted.{IsUsable, configure-IsUsable}

abbrev tiled_line : List (List ℕ)
tiled_line =
    codes "--backend"
    ∷ codes "cuda"
    ∷ codes "--tile"
    ∷ codes "16"
    ∷ codes "--prewarm"
    ∷ codes "sobel@4"
    ∷ codes "--port"
    ∷ codes "9000"
    ∷ []

abbrev tiled_options : Options hundredths_floats
tiled_options = record (defaults hundredths_floats) {
  config = record (defaults hundredths_floats).config { port = 9000 };
  backend_name = codes "cuda";
  prewarm =
      record { chain = record { kind = OpKind.sobel; param = pos 0 } ∷ []; channels = pos 4 } ∷ [];
  tile = TileVariant.tiled;
  tile_size = pos 16;
}

tiled_line_read : configure hundredths_floats true tiled_line ≡ some tiled_options
unfolding configure parse_op_chain decimal rfind atoi is_supported_channel_count is_supported_tile
    is_supported_constants to_unsigned
tiled_line_read = refl

configure-IsUsable_example : IsUsable hundredths_floats hundredths_laws true tiled_options
configure-IsUsable_example =
    configure-IsUsable hundredths_floats hundredths_laws true tiled_line tiled_line_read

-- A tile needs the CUDA backend, and an option its value.
tile_on_cpu : configure hundredths_floats true (codes "--tile" ∷ codes "16" ∷ []) ≡ none
unfolding configure
tile_on_cpu = refl

no_value : configure hundredths_floats true (codes "--port" ∷ []) ≡ none
unfolding configure
no_value = refl

-- A negative count of streams wraps to one that is not zero.
negative_streams :
    configure hundredths_floats true (codes "--streams" ∷ codes "-1" ∷ [])
    ≡ some (record (defaults hundredths_floats) { stream_count = 2 ^ 64 - 1 })
unfolding configure to_unsigned atoi is_supported_tile is_supported_constants
negative_streams = refl
