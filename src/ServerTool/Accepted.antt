-- ===== src/ServerTool/Accepted.antt =====
-- What holds of a command line that the server's `main` accepts.
use image_processing_engine.Prelude.{
  ℕ, suc, ◌^◌, ◌<◌, ◌≡◌, ◌≢◌, refl, sym, Bool, true, false, ◌&&◌, ◌||◌, not, List, [], ◌∷◌, Option,
  none, some, if◌then◌else◌, if-cases, Option-cases, inl, inr, arith, take, drop,
}
use image_processing_engine.Prelude.Ascii.{codes, eq_text}
use image_processing_engine.Prelude.Integers.{ℤ, pos, negsuc}
use image_processing_engine.Prelude.Predicates.{All, All-snoc}
use image_processing_engine.Image.Channels.{is_supported_channel_count}
use image_processing_engine.OpChain.Numerics.{Floats, FloatLaws}
use image_processing_engine.OpChain.{OpChain, Result, ok, err, parse_op_chain}
use image_processing_engine.OpChain.Bounds.{IsCanonical, parse_op_chain-IsCanonical}
use image_processing_engine.KernelKey.{TileVariant, ConstantsMode}
use image_processing_engine.CudaBackend.{CudaBackend}
use image_processing_engine.CudaBackend.Operations.{World, init, has_channels}
use image_processing_engine.ServerTool.{
  Flag, flag_of, to_unsigned, atoi, rfind, PrewarmEntry, Options, defaults, entry_of, parse_prewarm,
  warm, set_option, parse_arguments, is_naive, is_baked, is_empty, passes, configure,
}

to_unsigned-lt : (z : ℤ) → (to_unsigned 16 z < 2 ^ 16) × (to_unsigned 32 z < 2 ^ 32)
unfolding to_unsigned
to_unsigned-lt (pos n) = omega arith
to_unsigned-lt (negsuc n) = omega arith

three : has_channels (pos 3) ≡ true
unfolding is_supported_channel_count
three = refl

is_naive-eq : (tile : TileVariant) → is_naive tile ≡ true → tile ≡ TileVariant.naive
is_naive-eq TileVariant.naive e = refl
is_naive-eq TileVariant.tiled e = absurd (cc)

is_baked-eq :
    (constants : ConstantsMode) → is_baked constants ≡ true → constants ≡ ConstantsMode.baked
is_baked-eq ConstantsMode.baked e = refl
is_baked-eq ConstantsMode.parameterized e = absurd (cc)

-- The checks after the loop, read apart.
checks :
    (cpu cuda enabled cold no_streams naive baked supported : Bool)
    → ((cpu || cuda)
        && (enabled || not cuda)
        && (cold || cuda)
        && not no_streams
        && (naive || cuda)
        && (baked || cuda)
        && (not enabled || supported))
      ≡ true
    → (no_streams ≡ false)
      × (enabled ≡ true → supported ≡ true)
      × (enabled ≡ false → cuda ≡ false)
      × (cuda ≡ false → (cpu ≡ true) × (cold ≡ true) × (naive ≡ true) × (baked ≡ true))
checks cpu cuda enabled cold no_streams naive baked supported e = ground arith

module _ (R : Floats) (laws : FloatLaws R) where
  -- A chain to compile ahead: each op within its bounds, for a count of channels that images have.
  pub record IsWarm (entry : PrewarmEntry R) : Type 0 where
    pub canonical : All (IsCanonical R) entry.chain
    pub supported : has_channels entry.channels ≡ true

  record IsParsed (o : Options R) : Type 0 where
    port_fits : o.config.port < 2 ^ 16
    payload_fits : o.config.max_payload_bytes < 2 ^ 32
    warms : All IsWarm o.prewarm

  -- What a server needs that was configured.
  pub record IsUsable (enabled : Bool) (o : Options R) : Type 0 where
    pub port_fits : o.config.port < 2 ^ 16
    pub payload_fits : o.config.max_payload_bytes < 2 ^ 32
    pub warms : All IsWarm o.prewarm
    pub some_streams : o.stream_count ≢ 0
    pub makes_backend :
        enabled ≡ true
        → (world : World R)
        → (b : CudaBackend R) × (init world o.stream_count o.tile o.tile_size o.constants ≡ some b)
    pub built : enabled ≡ false → eq_text o.backend_name (codes "cuda") ≡ false
    pub on_cpu :
        eq_text o.backend_name (codes "cuda") ≡ false
        → (eq_text o.backend_name (codes "cpu") ≡ true)
          × (o.prewarm ≡ [])
          × (o.tile ≡ TileVariant.naive)
          × (o.constants ≡ ConstantsMode.baked)

  entry_of-IsWarm :
      (text : List ℕ) (channels : ℤ) (parsed : Result (OpChain R.F)) {entry : PrewarmEntry R}
      → parse_op_chain R text ≡ parsed
      → has_channels channels ≡ true
      → entry_of R parsed channels ≡ some entry
      → IsWarm entry
  unfolding entry_of
  entry_of-IsWarm text channels (ok chain) {entry} p c e =
      let made : entry ≡ record { chain = chain; channels = channels } = cc in
      rw made (record { canonical = parse_op_chain-IsCanonical R laws text p; supported = c })
  entry_of-IsWarm text channels (err why) p c e = absurd (cc)

  parse_prewarm-IsWarm :
      (argument : List ℕ) {entry : PrewarmEntry R}
      → parse_prewarm R argument ≡ some entry
      → IsWarm entry
  unfolding parse_prewarm
  parse_prewarm-IsWarm argument {entry} e = elim (Option-cases (rfind b'@' argument)) [
    | inl plain ↦ entry_of-IsWarm argument (pos 3) _ refl three (rw (plain, parse_prewarm) at e)
    | inr (at, found) ↦
        let split =
          if-cases (has_channels (atoi (drop (suc at) argument)))
            (rw (found, parse_prewarm) at e) in
        elim split [
          | inl (supported, made) ↦ entry_of-IsWarm (take at argument) _ _ refl supported made
          | inr (bad, made) ↦ absurd (cc)
        ]
  ]

  -- What a step of the loop leaves, where it goes on.
  record Keeps (result : Option (Options R)) : Type 0 where
    holds : (o : Options R) → result ≡ some o → IsParsed o

  kept : {o : Options R} → IsParsed o → Keeps (some o)
  kept {o} v = record { holds = λ p e. let same : p ≡ o = cc in rw same v }

  stops : Keeps none
  stops = record { holds = λ p e. absurd (cc) }

  if-Keeps :
      (test : Bool) {x y : Option (Options R)} → Keeps x → Keeps y → Keeps (if test then x else y)
  if-Keeps true a b = a
  if-Keeps false a b = b

  warm-Keeps :
      (argument : List ℕ) (entry : Option (PrewarmEntry R)) (o : Options R)
      → parse_prewarm R argument ≡ entry
      → IsParsed o
      → Keeps (warm R entry o)
  unfolding warm
  warm-Keeps argument none o e v = stops
  warm-Keeps argument (some entry) o e v = kept (record {
    port_fits = v.port_fits;
    payload_fits = v.payload_fits;
    warms = All-snoc IsWarm o.prewarm v.warms (parse_prewarm-IsWarm argument e);
  })

  set_option-Keeps :
      (flag : Flag) (value : List ℕ) (o : Options R)
      → IsParsed o
      → Keeps (set_option R flag value o)
  unfolding set_option
  set_option-Keeps Flag.port value o v = kept (record {
    port_fits = (to_unsigned-lt (atoi value)).0;
    payload_fits = v.payload_fits;
    warms = v.warms;
  })
  set_option-Keeps Flag.backend value o v =
      kept (record { port_fits = v.port_fits; payload_fits = v.payload_fits; warms = v.warms })
  set_option-Keeps Flag.streams value o v =
      kept (record { port_fits = v.port_fits; payload_fits = v.payload_fits; warms = v.warms })
  set_option-Keeps Flag.tile value o v =
      kept (record { port_fits = v.port_fits; payload_fits = v.payload_fits; warms = v.warms })
  set_option-Keeps Flag.slots value o v =
      kept (record { port_fits = v.port_fits; payload_fits = v.payload_fits; warms = v.warms })
  set_option-Keeps Flag.slots_per_conn value o v =
      kept (record { port_fits = v.port_fits; payload_fits = v.payload_fits; warms = v.warms })
  set_option-Keeps Flag.max_payload value o v = kept (record {
    port_fits = v.port_fits;
    payload_fits = (to_unsigned-lt (atoi value)).1;
    warms = v.warms;
  })
  set_option-Keeps Flag.queue value o v =
      kept (record { port_fits = v.port_fits; payload_fits = v.payload_fits; warms = v.warms })
  set_option-Keeps Flag.output_dir value o v =
      kept (record { port_fits = v.port_fits; payload_fits = v.payload_fits; warms = v.warms })
  set_option-Keeps Flag.prewarm value o v = warm-Keeps value _ o refl v
  set_option-Keeps Flag.constants value o v =
      let baked : Keeps (some (record o { constants = ConstantsMode.baked })) =
        kept (record { port_fits = v.port_fits; payload_fits = v.payload_fits; warms = v.warms }) in
      let parameterized : Keeps (some (record o { constants = ConstantsMode.parameterized })) =
        kept (record { port_fits = v.port_fits; payload_fits = v.payload_fits; warms = v.warms }) in
      if-Keeps (eq_text value (codes "baked")) baked
        (if-Keeps (eq_text value (codes "parameterized")) parameterized stops)

  parse_arguments-Keeps :
      (arguments : List (List ℕ)) (o : Options R)
      → IsParsed o
      → Keeps (parse_arguments R arguments o)
  unfolding parse_arguments
  parse_arguments-Keeps [] o v = kept v
  parse_arguments-Keeps (argument ∷ []) o v = stops
  parse_arguments-Keeps (argument ∷ value ∷ rest) o v = elim (Option-cases (flag_of argument)) [
    | inl unknown ↦ rw (unknown, parse_arguments) stops
    | inr (flag, known) ↦ elim (Option-cases (set_option R flag value o)) [
      | inl bad ↦ rw (known, bad, parse_arguments) stops
      | inr (changed, set) ↦
          rw (known, set, parse_arguments)
            (parse_arguments-Keeps rest changed
              ((set_option-Keeps flag value o v).holds changed set))
    ]
  ]

  defaults-IsParsed : IsParsed (defaults R)
  defaults-IsParsed = record { port_fits = omega arith; payload_fits = omega arith; warms = tt }

  is_empty-eq : (entries : List (PrewarmEntry R)) → is_empty R entries ≡ true → entries ≡ []
  is_empty-eq [] e = refl
  is_empty-eq (entry ∷ rest) e = absurd (cc)

  passes-IsUsable :
      (enabled : Bool) (o : Options R) → passes R enabled o ≡ true → IsParsed o → IsUsable enabled o
  unfolding passes init
  passes-IsUsable enabled o e v =
      let (streams, supported, built, on_cpu) = checks _ _ _ _ _ _ _ _ e in
      record {
        port_fits = v.port_fits;
        payload_fits = v.payload_fits;
        warms = v.warms;
        some_streams = λ z. ground arith;
        makes_backend = λ on world. let given = supported on in rw given (_, refl);
        built = built;
        on_cpu = λ cpu.
            let (named, cold, naive, baked) = on_cpu cpu in
            (
              named,
              is_empty-eq o.prewarm cold,
              is_naive-eq o.tile naive,
              is_baked-eq o.constants baked,
            );
      }

  -- For a build with the CUDA backend or without it, and any arguments: if `main` accepts them, the
  -- port fits in 16 bits and the payload's bound in 32, every chain to compile ahead is canonical and
  -- for 1, 3 or 4 channels, there is a stream at least, and the constructor of the CUDA backend, where
  -- it is built, does not refuse what it is given. A build without it gets the CPU backend, and a
  -- server on the CPU has no chain to compile ahead, no tile and baked constants.
  pub configure-IsUsable :
      (enabled : Bool) (arguments : List (List ℕ)) {o : Options R}
      → configure R enabled arguments ≡ some o
      → IsUsable enabled o
  unfolding configure
  configure-IsUsable enabled arguments {o} e =
      elim (Option-cases (parse_arguments R arguments (defaults R))) [
        | inl bad ↦ absurd (cc (rw (bad, configure) at e))
        | inr (parsed, read) ↦
            elim (if-cases (passes R enabled parsed) (rw (read, configure) at e)) [
              | inl (good, made) ↦
                  let same : parsed ≡ o = cc in
                  let v =
                    (parse_arguments-Keeps arguments (defaults R) defaults-IsParsed).holds parsed
                      read in
                  rw (sym same) (passes-IsUsable enabled parsed good v)
              | inr (bad, made) ↦ absurd (cc)
            ]
      ]
