-- ===== src/CudaBackend/Operations.antt =====
-- src/backend/cuda/cuda_backend.cpp: the member functions that the worker calls, with `launch` and
-- `claim_stream`. `kernel` is what the compiled stages of a chain do with bytes.
use image_processing_engine.Prelude.{
  ℕ, zero, suc, ◌+◌, ◌-◌, ◌*◌, ◌%◌, ◌^◌, max, Bool, true, false, ◌&&◌, ◌||◌, List, [], ◌∷◌, ◌++◌,
  Option, none, some, ltb, ◌==◌, if◌then◌else◌, set,
}
use image_processing_engine.Prelude.Predicates.{count_if}
use image_processing_engine.Prelude.Integers.{ℤ, pos, negsuc, nat_abs}
use image_processing_engine.Image.{Image, from_bytes}
use image_processing_engine.Image.Channels.{is_supported_channel_count}
use image_processing_engine.OpChain.{OpChain}
use image_processing_engine.OpChain.Numerics.{Floats}
use image_processing_engine.CpuOps.FloatOps.{Arithmetic}
use image_processing_engine.KernelKey.{KernelKey, TileVariant, ConstantsMode}
use image_processing_engine.KernelCache.{KernelCache, get}
use image_processing_engine.Codegen.{is_supported_tile, is_supported_constants}
use image_processing_engine.CpuBackend.{FrameJob, Completion}
use image_processing_engine.CudaBackend.Commands.{
  GeneratedStage, Argument, Command, Device, run_commands, frame_commands,
}
use image_processing_engine.CudaBackend.{
  Failure, nvrtc_error, cuda_error, other_error, synchronize, other_call, Driver, StreamSlot,
  CudaBackend, Attempt, returned, threw,
}
use image_processing_engine.CudaBackend.Streams.{
  fail_job, called, is_success, made_completion, retire_ready_streams, build_stream_slots,
  has_value, recover,
}

abbrev pub Compiled : Type 0
Compiled = List GeneratedStage

-- What the backend is built upon and does not implement. `why` is what a compilation that fails
-- throws.
pub record World (R : Floats) : Type 0 where
  pub driver : Driver
  pub compile : KernelKey R.F → Option Compiled
  pub why : KernelKey R.F → Failure
  pub arithmetic : Arithmetic R.F
  pub kernel : Compiled → ℕ → List (Argument R.F) → List ℕ → List ℕ

abbrev pub is_positive : ℤ → Bool
is_positive (pos n) = ltb 0 n
is_positive (negsuc n) = false

abbrev pub has_channels : ℤ → Bool
has_channels (pos n) = is_supported_channel_count n
has_channels (negsuc n) = false

-- The first slot that is not busy, from index `i` on.
unfoldable pub first_idle : ℕ → List StreamSlot → Option ℕ
first_idle i [] = none
first_idle i (slot ∷ rest) =
    let more = first_idle (i + 1) rest in if slot.busy then more else some i

-- The slot of the least submit order, one that is not busy counting as the oldest possible.
abbrev pub age : StreamSlot → ℕ
age slot = if slot.busy then slot.submit_order else 2 ^ 64 - 1

unfoldable pub oldest : ℕ → ℕ → ℕ → List StreamSlot → ℕ
oldest i best least [] = best
oldest i best least (slot ∷ rest) =
    let younger = ltb (age slot) least in
    oldest (i + 1) (if younger then i else best) (if younger then age slot else least) rest

-- `claim_stream` returns an index, throws, or goes on waiting.
pub data Claimed (R : Floats) : Type 0 where
  claimed : ℕ → CudaBackend R → Claimed R
  no_stream : Failure → CudaBackend R → Claimed R
  spins : Claimed R

-- What `launch` comes to.
pub data Launch (R : Floats) : Type 0 where
  launched : CudaBackend R → Launch R
  refused : Failure → CudaBackend R → Launch R
  waits : Launch R

abbrev pub busy_count : List StreamSlot → ℕ
busy_count = count_if (λ slot. slot.busy)

module _ {R : Floats} (world : World R) where
  open world use {driver, compile, why, arithmetic, kernel}

  abbrev pub stalled : CudaBackend R → CudaBackend R
  stalled b = record (called b) { submit_stalls = (b.submit_stalls + 1) % 2 ^ 64 }

  abbrev pub after_sweep : Attempt R → (CudaBackend R → Claimed R) → Claimed R
  after_sweep (returned b) more = more b
  after_sweep (threw failure b) more = no_stream failure b

  -- The loop on fuel: how many waits.
  unfoldable pub claim_stream : ℕ → CudaBackend R → Claimed R
  unfolding first_idle oldest retire_ready_streams
  claim_stream zero b = spins
  claim_stream (suc fuel) b = elim (first_idle 0 b.streams) [
    | some i ↦ claimed i b
    | none ↦
        if is_success (driver b.calls (synchronize (oldest 0 0 (2 ^ 64 - 1) b.streams)))
        then after_sweep (retire_ready_streams driver (stalled b)) (λ c. claim_stream fuel c)
        else no_stream cuda_error (stalled b)
  ]

  -- Whether all the commands could be queued, and the number of calls.
  unfoldable pub issue : ℕ → List (Command R.F) → Bool × ℕ
  issue calls [] = (true, calls)
  issue calls (command ∷ commands) =
      let more = issue (calls + 1) commands in
      if is_success (driver calls other_call) then more else (false, calls + 1)

  unfoldable pub key_for : CudaBackend R → OpChain R.F → ℤ → KernelKey R.F
  key_for b chain channels = record {
    chain = chain;
    channels = channels;
    tile = b.tile;
    tile_size = b.tile_size;
    constants = b.constants;
  }

  abbrev pub row_bytes : FrameJob R.F → ℕ
  row_bytes job = nat_abs job.width * nat_abs job.channels

  abbrev pub blank : Device
  blank = record { front_bytes = []; back_bytes = []; staging = [] }

  abbrev pub busy_slot : FrameJob R.F → ℕ → ℕ → List ℕ → StreamSlot
  busy_slot job handle order staging = record {
    busy = true;
    handle = handle;
    submit_order = order;
    width = job.width;
    height = job.height;
    channels = job.channels;
    staging = staging;
  }

  -- The end of `launch`: the slot is marked, and the occupancy sampled.
  unfoldable pub mark_busy : CudaBackend R → ℕ → StreamSlot → CudaBackend R
  mark_busy b i slot =
      let streams = set b.streams i slot in
      record b {
        streams = streams;
        next_submit_order = (b.next_submit_order + 1) % 2 ^ 64;
        frames_submitted = (b.frames_submitted + 1) % 2 ^ 64;
        occupancy_sum = b.occupancy_sum + busy_count streams;
        occupancy_samples = (b.occupancy_samples + 1) % 2 ^ 64;
        max_in_flight = max b.max_in_flight (busy_count streams);
      }

  -- The commands on the claimed stream. Where one throws, the slot stays idle.
  unfoldable pub enqueue_frame : CudaBackend R → FrameJob R.F → ℕ → List ℕ → Compiled → ℕ → Launch R
  unfolding frame_commands run_commands issue mark_busy
  enqueue_frame b job handle input compiled i =
      let bytes = row_bytes job * nat_abs job.height in
      let commands =
        frame_commands arithmetic job.chain (nat_abs job.width) (nat_abs job.height) compiled input
          bytes in
      let issued = issue b.calls commands in
      let staging = (run_commands (kernel compiled) blank commands).staging in
      let counted : CudaBackend R = record b { calls = issued.1 } in
      if issued.0
      then launched (mark_busy counted i (busy_slot job handle b.next_submit_order staging))
      else refused cuda_error counted

  unfoldable pub after_stream : Claimed R → FrameJob R.F → ℕ → List ℕ → Compiled → Launch R
  unfolding enqueue_frame
  after_stream (claimed i b) job handle input compiled = enqueue_frame b job handle input compiled i
  after_stream (no_stream failure b) job handle input compiled = refused failure b
  after_stream spins job handle input compiled = waits

  abbrev pub is_empty : List StreamSlot → Bool
  is_empty [] = true
  is_empty (slot ∷ rest) = false

  -- The kernel's lookup is done; `fuel` bounds the waits for a stream.
  unfoldable pub after_kernel :
      ℕ
      → CudaBackend R
      → FrameJob R.F
      → ℕ
      → List ℕ
      → Option (Compiled × KernelCache R Compiled)
      → Launch R
  unfolding after_stream claim_stream
  after_kernel fuel b job handle input none = refused (why (key_for b job.chain job.channels)) b
  after_kernel fuel b job handle input (some (compiled, cache)) =
      if is_empty b.streams || ltb b.slot_bytes (row_bytes job * nat_abs job.height)
      then refused other_error (record b { cache = cache })
      else after_stream (claim_stream fuel (record b { cache = cache })) job handle input compiled

  -- An empty chain is completed at once.
  unfoldable pub complete_inline : CudaBackend R → ℕ → Option Image → Launch R
  complete_inline b handle none = refused other_error b
  complete_inline b handle (some image) = launched (record b {
    completed = b.completed ++ (made_completion handle image ∷ []);
    frames_submitted = (b.frames_submitted + 1) % 2 ^ 64;
  })

  unfoldable pub run_input : ℕ → CudaBackend R → FrameJob R.F → ℕ → List ℕ → OpChain R.F → Launch R
  unfolding after_kernel get key_for complete_inline from_bytes
  run_input fuel b job handle input [] =
      complete_inline b handle (from_bytes job.width job.height job.channels input job.stride)
  run_input fuel b job handle input (op ∷ ops) =
      after_kernel fuel b job handle input
        (get R compile b.cache (key_for b job.chain job.channels))

  abbrev pub is_packed : FrameJob R.F → Bool
  is_packed job =
      is_positive job.width
      && is_positive job.height
      && has_channels job.channels
      && job.stride == row_bytes job

  unfoldable pub launch : ℕ → CudaBackend R → FrameJob R.F → ℕ → Launch R
  unfolding run_input is_supported_channel_count
  launch fuel b job handle = elim job.input [
    | none ↦ refused other_error b
    | some input ↦
        if b.context && is_packed job
        then run_input fuel b job handle input job.chain
        else refused other_error b
  ]

  -- The handlers of `submit`: only an error of the driver costs the context.
  unfoldable pub settle : ℕ → Launch R → Option (CudaBackend R)
  unfolding fail_job recover
  settle handle (launched b) = some b
  settle handle (refused nvrtc_error b) = some (fail_job b handle)
  settle handle (refused cuda_error b) = some (recover driver (fail_job b handle))
  settle handle (refused other_error b) = some (fail_job b handle)
  settle handle waits = none

  -- The backend after the call, whose handle is `next_handle` before it; `none` if it still waits.
  unfoldable pub submit : ℕ → CudaBackend R → FrameJob R.F → Option (CudaBackend R)
  unfolding settle launch
  submit fuel b job =
      settle b.next_handle
        (launch fuel (record b { next_handle = (b.next_handle + 1) % 2 ^ 64 }) job b.next_handle)

  abbrev pub given : CudaBackend R → List Completion × CudaBackend R
  given b = (b.completed, record b { completed = [] })

  -- `none` is an exception that is not the driver's, which leaves the function.
  unfoldable pub poll_completions : CudaBackend R → Option (List Completion × CudaBackend R)
  unfolding retire_ready_streams recover
  poll_completions b = elim (retire_ready_streams driver b) [
    | returned c ↦ some (given c)
    | threw failure c ↦ elim failure [
      | cuda_error ↦ some (given (recover driver c))
      | nvrtc_error ↦ none
      | other_error ↦ none
    ]
  ]

  -- Slots are allocated once; the registration of the pages is a driver call.
  unfoldable pub allocate_slots : CudaBackend R → ℕ → ℕ → Attempt R
  unfolding build_stream_slots
  allocate_slots b count bytes =
      if has_value b.host_slots || count == 0 || bytes == 0
      then threw other_error b
      else if is_success (driver b.calls other_call)
      then build_stream_slots driver
          (record (called b) { host_slots = some (count * bytes % 2 ^ 64); slot_bytes = bytes })
      else threw cuda_error (called b)

  -- A chain is compiled ahead; an empty one needs no kernel.
  unfoldable pub prewarm : CudaBackend R → OpChain R.F → ℤ → Attempt R
  unfolding get key_for
  prewarm b [] channels = returned b
  prewarm b (op ∷ ops) channels = elim (get R compile b.cache (key_for b (op ∷ ops) channels)) [
    | none ↦ threw (why (key_for b (op ∷ ops) channels)) b
    | some (compiled, cache) ↦ returned (record b { cache = cache })
  ]

  -- The constructor, once the context is there; `none` is the invalid_argument.
  unfoldable pub init : ℕ → TileVariant → ℤ → ConstantsMode → Option (CudaBackend R)
  unfolding is_supported_tile is_supported_constants
  init stream_count tile tile_size constants =
      if is_supported_tile tile tile_size && is_supported_constants constants tile
      then some (record {
        context = true;
        cache = record { entries = []; compile_count = 0 };
        host_slots = none;
        streams = [];
        completed = [];
        stream_count = if stream_count == 0 then 1 else stream_count;
        tile = tile;
        tile_size = tile_size;
        constants = constants;
        slot_bytes = 0;
        next_handle = 1;
        next_submit_order = 1;
        frames_submitted = 0;
        submit_stalls = 0;
        max_in_flight = 0;
        context_recreations = 0;
        occupancy_sum = 0;
        occupancy_samples = 0;
        kernel_samples = 0;
        calls = 1;
      })
      else none
