-- ===== src/ServerTool.antt =====
-- tools/imgjit-server.cpp, the server's command line: from the arguments to the configuration of
-- the server and of its backend, or to a usage error. A text is a list of bytes.
pub mod Accepted
mod Tests
use image_processing_engine.Prelude.{
  ℕ, suc, ◌+◌, ◌-◌, ◌*◌, ◌%◌, ◌^◌, Bool, true, false, ◌&&◌, ◌||◌, not, List, [], ◌∷◌, ◌++◌, Option,
  none, some, ◌==◌, leb, if◌then◌else◌, take, drop,
}
use image_processing_engine.Prelude.Ascii.{codes, eq_text}
use image_processing_engine.Prelude.Integers.{ℤ, pos, negsuc, sub_ℕ}
use image_processing_engine.OpChain.Numerics.{Floats}
use image_processing_engine.OpChain.{OpChain, Result, ok, err, parse_op_chain}
use image_processing_engine.KernelKey.{TileVariant, ConstantsMode}
use image_processing_engine.Codegen.{is_supported_tile, is_supported_constants}
use image_processing_engine.CudaBackend.Operations.{has_channels}
use image_processing_engine.Server.Lifecycle.{ServerConfig}

-- `std::atoi` and `std::atol`: spaces, a sign, and digits up to what is none. Beyond the range of an
-- int the source is undefined, and the model goes on with the number.
unfoldable pub read_digits : ℕ → List ℕ → ℕ
read_digits n [] = n
read_digits n (c ∷ text) =
    let more = read_digits (n * 10 + (c - b'0')) text in
    if leb b'0' c && leb c b'9' then more else n

unfoldable pub read_signed : List ℕ → ℤ
unfolding read_digits
read_signed [] = pos 0
read_signed (c ∷ text) =
    if c == b'-'
    then sub_ℕ 0 (read_digits 0 text)
    else pos (if c == b'+' then read_digits 0 text else read_digits 0 (c ∷ text))

unfoldable pub atoi : List ℕ → ℤ
unfolding read_signed
atoi [] = pos 0
atoi (c ∷ text) =
    let more = atoi text in
    if c == b' ' || (leb 9 c && leb c 13) then more else read_signed (c ∷ text)

-- `static_cast` of an integer to an unsigned type of `width` bits.
unfoldable pub to_unsigned : ℕ → ℤ → ℕ
to_unsigned width (pos n) = n % 2 ^ width
to_unsigned width (negsuc n) = 2 ^ width - 1 - n % 2 ^ width

-- `text.rfind(c)`
unfoldable pub rfind : ℕ → List ℕ → Option ℕ
rfind c [] = none
rfind c (x ∷ text) = elim (rfind c text) [
  | some n ↦ some (suc n)
  | none ↦ if x == c then some 0 else none
]

-- The options that take a value.
pub data Flag : Type 0 where
  port backend streams tile constants prewarm slots slots_per_conn max_payload queue output_dir :
      Flag

unfoldable pub flag_of : List ℕ → Option Flag
flag_of argument =
    if eq_text argument (codes "--port")
    then some Flag.port
    else if eq_text argument (codes "--backend")
    then some Flag.backend
    else if eq_text argument (codes "--streams")
    then some Flag.streams
    else if eq_text argument (codes "--tile")
    then some Flag.tile
    else if eq_text argument (codes "--constants")
    then some Flag.constants
    else if eq_text argument (codes "--prewarm")
    then some Flag.prewarm
    else if eq_text argument (codes "--slots")
    then some Flag.slots
    else if eq_text argument (codes "--slots-per-conn")
    then some Flag.slots_per_conn
    else if eq_text argument (codes "--max-payload")
    then some Flag.max_payload
    else if eq_text argument (codes "--queue")
    then some Flag.queue
    else if eq_text argument (codes "--output-dir")
    then some Flag.output_dir
    else none

abbrev pub is_naive : TileVariant → Bool
is_naive TileVariant.naive = true
is_naive TileVariant.tiled = false

abbrev pub is_baked : ConstantsMode → Bool
is_baked ConstantsMode.baked = true
is_baked ConstantsMode.parameterized = false

module _ (R : Floats) where
  open R use {F}

  pub record PrewarmEntry : Type 0 where
    pub chain : OpChain F
    pub channels : ℤ

  -- What `main` keeps in its variables.
  pub record Options : Type 0 where
    pub config : ServerConfig
    pub backend_name : List ℕ
    pub prewarm : List PrewarmEntry
    pub stream_count : ℕ
    pub tile : TileVariant
    pub tile_size : ℤ
    pub constants : ConstantsMode

  abbrev pub defaults : Options
  defaults = record {
    config = record {
      port = 0;
      output_dir = codes ".";
      num_slots = 8;
      max_payload_bytes = 8 * 1024 * 1024;
      slots_per_connection = 2;
      queue_capacity = 16;
      backlog = 16;
    };
    backend_name = codes "cpu";
    prewarm = [];
    stream_count = 4;
    tile = TileVariant.naive;
    tile_size = pos 0;
    constants = ConstantsMode.baked;
  }

  unfoldable pub entry_of : Result (OpChain F) → ℤ → Option PrewarmEntry
  entry_of (ok chain) channels = some (record { chain = chain; channels = channels })
  entry_of (err e) channels = none

  unfoldable pub parse_prewarm : List ℕ → Option PrewarmEntry
  unfolding entry_of
  parse_prewarm argument = elim (rfind b'@' argument) [
    | none ↦ entry_of (parse_op_chain R argument) (pos 3)
    | some at ↦
        let channels = atoi (drop (suc at) argument) in
        if has_channels channels
        then entry_of (parse_op_chain R (take at argument)) channels
        else none
  ]

  unfoldable pub warm : Option PrewarmEntry → Options → Option Options
  warm none o = none
  warm (some entry) o = some (record o { prewarm = o.prewarm ++ (entry ∷ []) })

  -- The body of an option's branch.
  unfoldable pub set_option : Flag → List ℕ → Options → Option Options
  unfolding parse_prewarm warm
  set_option Flag.port value o =
      some (record o { config = record o.config { port = to_unsigned 16 (atoi value) } })
  set_option Flag.backend value o = some (record o { backend_name = value })
  set_option Flag.streams value o = some (record o { stream_count = to_unsigned 64 (atoi value) })
  set_option Flag.tile value o =
      let naive = eq_text value (codes "naive") in
      some (record o {
        tile = if naive then TileVariant.naive else TileVariant.tiled;
        tile_size = if naive then pos 0 else atoi value;
      })
  set_option Flag.constants value o =
      if eq_text value (codes "baked")
      then some (record o { constants = ConstantsMode.baked })
      else if eq_text value (codes "parameterized")
      then some (record o { constants = ConstantsMode.parameterized })
      else none
  set_option Flag.prewarm value o = warm (parse_prewarm value) o
  set_option Flag.slots value o =
      some (record o { config = record o.config { num_slots = to_unsigned 64 (atoi value) } })
  set_option Flag.slots_per_conn value o =
      some (record o {
        config = record o.config { slots_per_connection = to_unsigned 64 (atoi value) };
      })
  set_option Flag.max_payload value o =
      some
        (record o { config = record o.config { max_payload_bytes = to_unsigned 32 (atoi value) } })
  set_option Flag.queue value o =
      some (record o { config = record o.config { queue_capacity = to_unsigned 64 (atoi value) } })
  set_option Flag.output_dir value o =
      some (record o { config = record o.config { output_dir = value } })

  -- The loop over the arguments; `none` is the exit with status 2.
  unfoldable pub parse_arguments : List (List ℕ) → Options → Option Options
  unfolding set_option flag_of
  parse_arguments [] o = some o
  parse_arguments (argument ∷ []) o = none
  parse_arguments (argument ∷ value ∷ rest) o = elim (flag_of argument) [
    | none ↦ none
    | some flag ↦ elim (set_option flag value o) [
      | none ↦ none
      | some changed ↦ parse_arguments rest changed
    ]
  ]

  abbrev pub is_empty : List PrewarmEntry → Bool
  is_empty [] = true
  is_empty (entry ∷ rest) = false

  -- The checks after the loop, in a build with the CUDA backend or without it.
  unfoldable pub passes : Bool → Options → Bool
  passes enabled o =
      let on_cuda = eq_text o.backend_name (codes "cuda") in
      (eq_text o.backend_name (codes "cpu") || on_cuda)
      && (enabled || not on_cuda)
      && (is_empty o.prewarm || on_cuda)
      && not (o.stream_count == 0)
      && (is_naive o.tile || on_cuda)
      && (is_baked o.constants || on_cuda)
      && (not enabled
          || (is_supported_tile o.tile o.tile_size && is_supported_constants o.constants o.tile))

  -- `main` up to the factory.
  unfoldable pub configure : Bool → List (List ℕ) → Option Options
  unfolding parse_arguments passes
  configure enabled arguments = elim (parse_arguments arguments defaults) [
    | none ↦ none
    | some o ↦ if passes enabled o then some o else none
  ]
