-- ===== src/CudaBackend/Commands.antt =====
-- src/backend/cuda/cuda_backend.cpp, the middle of `launch`: the commands that one frame puts on its
-- stream, and what a device makes of them that runs a stream's commands in their order. What a
-- compiled kernel does with its arguments and the bytes of its source buffer is a parameter.
use image_processing_engine.Prelude.{
  ℕ, ◌+◌, ◌-◌, ◌*◌, ◌/◌, ◌%◌, ◌^◌, ◌<◌, ◌≤◌, ◌≡◌, refl, ap, ◌∙◌, List, [], ◌∷◌, ◌++◌, none, some,
  arith, get_elem?, take, replicate, length,
}
use image_processing_engine.Prelude.Integers.{pos}
use image_processing_engine.OpChain.{OpKind, Op, OpChain}
use image_processing_engine.CpuOps.FloatOps.{Arithmetic}
use image_processing_engine.CpuOps.{gaussian_radius, gaussian_weights_1d}

-- Blocks along one axis, in unsigned int.
unfoldable pub grid_dim : ℕ → ℕ → ℕ
grid_dim extent block = (extent + block + (2 ^ 32 - 1)) % 2 ^ 32 / block

-- Of a stage of the generated program: the block edge, and the ops whose parameters it takes.
pub record GeneratedStage : Type 0 where
  pub block_dim : ℕ
  pub param_ops : List ℕ

abbrev pub max_gaussian_taps : ℕ
max_gaussian_taps = 25

-- The device pair of a stream.
pub data Buffer : Type 0 where
  front back : Buffer

abbrev pub other : Buffer → Buffer
other front = back
other back = front

pub data Event : Type 0 where
  kernels_begin kernels_end done : Event

-- What a stage takes for one op: a radius with its weights, or a number.
pub data Argument (F : Type 0) : Type 0 where
  taps : ℕ → List F → Argument F
  scalar : F → Argument F

-- A kernel launch names its stage, source, destination, grid and block.
pub data Command (F : Type 0) : Type 0 where
  copy_in : Buffer → List ℕ → Command F
  record_event : Event → Command F
  launch_kernel : ℕ → Buffer → Buffer → ℕ → ℕ → ℕ → List (Argument F) → Command F
  copy_out : Buffer → ℕ → Command F

module _ {F : Type 0} (A : Arithmetic F) where
  -- The weights in an array of 25 floats, which is zero behind them.
  unfoldable pub tap_array : List F → List F
  tap_array weights = weights ++ replicate (max_gaussian_taps - length weights) (A.of_int (pos 0))

  unfoldable pub argument_of : Op F → Argument F
  unfolding tap_array
  argument_of op = elim op.kind [
    | OpKind.gaussian ↦
        taps (gaussian_radius A op.param) (tap_array (gaussian_weights_1d A op.param))
    | _ ↦ scalar op.param
  ]

  -- An index beyond the chain is undefined in the source program; its argument is left out here.
  unfoldable pub stage_arguments : OpChain F → List ℕ → List (Argument F)
  unfolding argument_of
  stage_arguments chain [] = []
  stage_arguments chain (p ∷ param_ops) =
      let rest = stage_arguments chain param_ops in
      elim (get_elem? chain p) [ none ↦ rest | some op ↦ argument_of op ∷ rest ]

  -- The launches from stage `s` on, and the buffer that `source` names behind the loop.
  unfoldable pub stage_commands :
      OpChain F → ℕ → ℕ → ℕ → List GeneratedStage → Buffer → List (Command F) × Buffer
  unfolding stage_arguments grid_dim
  stage_commands chain width height s [] source = ([], source)
  stage_commands chain width height s (stage ∷ stages) source =
      let rest = stage_commands chain width height (s + 1) stages (other source) in
      (
        launch_kernel s source (other source) (grid_dim width stage.block_dim)
              (grid_dim height stage.block_dim) stage.block_dim
              (stage_arguments chain stage.param_ops)
            ∷ rest.0,
        rest.1,
      )

  -- All that a frame puts on its stream: `bytes` is the size of its input and its output.
  unfoldable pub frame_commands :
      OpChain F → ℕ → ℕ → List GeneratedStage → List ℕ → ℕ → List (Command F)
  unfolding stage_commands
  frame_commands chain width height stages input bytes =
      let launches = stage_commands chain width height 0 stages front in
      copy_in front (take bytes input)
      ∷ record_event kernels_begin
      ∷ (launches.0
          ++ (record_event kernels_end ∷ copy_out launches.1 bytes ∷ record_event done ∷ []))

-- The memory that a frame's commands touch.
pub record Device : Type 0 where
  pub front_bytes : List ℕ
  pub back_bytes : List ℕ
  pub staging : List ℕ

abbrev pub read : Device → Buffer → List ℕ
read d front = d.front_bytes
read d back = d.back_bytes

abbrev pub write : Device → Buffer → List ℕ → Device
write d front bytes = record d { front_bytes = bytes }
write d back bytes = record d { back_bytes = bytes }

module _ {F : Type 0} (kernel : ℕ → List (Argument F) → List ℕ → List ℕ) where
  abbrev pub run_command : Device → Command F → Device
  run_command d (copy_in buffer bytes) = write d buffer bytes
  run_command d (record_event event) = d
  run_command d (launch_kernel s source destination x y block arguments) =
      write d destination (kernel s arguments (read d source))
  run_command d (copy_out buffer bytes) = record d { staging = take bytes (read d buffer) }

  unfoldable pub run_commands : Device → List (Command F) → Device
  run_commands d [] = d
  run_commands d (command ∷ commands) = run_commands (run_command d command) commands

  run_commands-append :
      (d : Device) (front_part back_part : List (Command F))
      → run_commands d (front_part ++ back_part)
        ≡ run_commands (run_commands d front_part) back_part
  unfolding run_commands
  run_commands-append d [] back_part = refl
  run_commands-append d (c ∷ front_part) back_part =
      run_commands-append (run_command d c) front_part back_part

  read-write-same :
      (d : Device) (buffer : Buffer) (bytes : List ℕ) → read (write d buffer bytes) buffer ≡ bytes
  read-write-same d front bytes = refl
  read-write-same d back bytes = refl

  module _ (A : Arithmetic F) (chain : OpChain F) (width height : ℕ) where
    -- The stages from `s` on, one after the other.
    abbrev pub run_stages : ℕ → List GeneratedStage → List ℕ → List ℕ
    run_stages s [] bytes = bytes
    run_stages s (stage ∷ stages) bytes =
        run_stages (s + 1) stages (kernel s (stage_arguments A chain stage.param_ops) bytes)

    stage_commands-run :
        (s : ℕ) (stages : List GeneratedStage) (source : Buffer) (d : Device)
        → read
            (run_commands d (stage_commands A chain width height s stages source).0)
            (stage_commands A chain width height s stages source).1
          ≡ run_stages s stages (read d source)
    unfolding stage_commands run_commands
    stage_commands-run s [] source d = refl
    stage_commands-run s (stage ∷ stages) source d =
        stage_commands-run (s + 1) stages (other source) _
        ∙ ap (run_stages (s + 1) stages) (read-write-same d (other source) _)

    -- Whatever the device pair held before: when a frame's commands have run, its staging buffer
    -- holds what the stages make of the input, each reading what the one before it wrote, so the
    -- swap of the buffers is right for chains of any length and the copy takes the last result.
    pub frame_commands-staging :
        (stages : List GeneratedStage) (input : List ℕ) (bytes : ℕ) (d : Device)
        → (run_commands d (frame_commands A chain width height stages input bytes)).staging
          ≡ take bytes (run_stages 0 stages (take bytes input))
    unfolding frame_commands run_commands
    frame_commands-staging stages input bytes d =
        let launches = stage_commands A chain width height 0 stages front in
        let loaded : Device = record d { front_bytes = take bytes input } in
        ap (λ (e : Device). e.staging)
          (run_commands-append loaded launches.0
            (record_event kernels_end ∷ copy_out launches.1 bytes ∷ record_event done ∷ []))
        ∙ ap (take bytes) (stage_commands-run 0 stages front loaded)

-- The grid of blocks covers an axis, and its last block is not beyond it.
pub grid_dim-covers :
    (extent block : ℕ)
    → 0 < extent
    → extent < 2 ^ 31
    → 0 < block
    → block ≤ 1024
    → (extent ≤ grid_dim extent block * block) × ((grid_dim extent block - 1) * block < extent)
unfolding grid_dim
grid_dim-covers extent block some_pixels small some_threads few =
    let sum : (extent + block + (2 ^ 32 - 1)) % 2 ^ 32 ≡ extent + block - 1 = omega arith in
    rw sum (grind arith)
