-- ===== src/CudaBackend/Tests.antt =====
-- Witnesses of the CUDA backend's theorems: two streams, a driver whose sixth call fails, and a job
-- whose commands meet that failure, so that the context is recreated.
use image_processing_engine.Prelude.{
  ℕ, ◌+◌, ◌*◌, ◌/◌, ◌≡◌, refl, arith, true, List, [], ◌∷◌, none, some, ◌==◌, if◌then◌else◌, map,
}
use image_processing_engine.Prelude.Integers.{ℤ, pos, nat_abs, ltb_ℤ}
use image_processing_engine.OpChain.{OpKind, OpChain}
use image_processing_engine.OpChain.Numerics.{Floats}
use image_processing_engine.CpuOps.FloatOps.{Arithmetic}
use image_processing_engine.KernelKey.{TileVariant, ConstantsMode}
use image_processing_engine.CpuBackend.{FrameJob}
use image_processing_engine.CudaBackend.{
  CudaBackend, success, failure, Driver, nvrtc_error, idle_slot,
}
use image_processing_engine.CudaBackend.Streams.{failed_completion}
use image_processing_engine.CudaBackend.Commands.{
  GeneratedStage, Argument, Device, run_commands, frame_commands, frame_commands-staging,
}
use image_processing_engine.CudaBackend.Operations.{World, init, allocate_slots, submit}
use image_processing_engine.CudaBackend.Handles.{
  Traced, submits, begun, after, IsConserved, Run-IsConserved,
}

abbrev whole_floats : Floats
whole_floats = record {
  F = ℤ;
  strtof = λ text. (pos 0, 0);
  is_finite = λ n. true;
  hundredths = λ n. n;
  of_hundredths = λ n. n;
  less = ltb_ℤ;
}

abbrev whole_arithmetic : Arithmetic ℤ
whole_arithmetic = record {
  of_int = λ n. n;
  of_thousandths = λ n. pos (n / 1000);
  add = λ a b. pos (nat_abs a + nat_abs b);
  mul = λ a b. pos (nat_abs a * nat_abs b);
  div = λ a b. pos (nat_abs a / nat_abs b);
  neg = λ a. a;
  sqrt = λ a. a;
  exp = λ a. a;
  less = ltb_ℤ;
  at_least = λ a b. ltb_ℤ b a;
  ceil = λ a. a;
  lround = λ a. a;
}

abbrev one_stage : List GeneratedStage
one_stage = record { block_dim = 16; param_ops = [] } ∷ []

-- Every stage adds 1 to each byte.
abbrev counting : ℕ → List (Argument ℤ) → List ℕ → List ℕ
counting s arguments bytes = map (λ b. b + 1) bytes

abbrev fails_once : Driver
fails_once n call = if n == 5 then failure else success

abbrev world : World whole_floats
world = record {
  driver = fails_once;
  compile = λ key. some one_stage;
  why = λ key. nvrtc_error;
  arithmetic = whole_arithmetic;
  kernel = λ compiled. counting;
}

abbrev invert : OpChain ℤ
invert = record { kind = OpKind.invert; param = pos 0 } ∷ []

abbrev gray_job : FrameJob ℤ
gray_job = record {
  input = some (200 ∷ []);
  width = pos 1;
  height = pos 1;
  channels = pos 1;
  stride = 1;
  chain = invert;
}

abbrev new_backend : CudaBackend whole_floats
new_backend = record {
  context = true;
  cache = record { entries = []; compile_count = 0 };
  host_slots = none;
  streams = [];
  completed = [];
  stream_count = 2;
  tile = TileVariant.naive;
  tile_size = pos 0;
  constants = ConstantsMode.baked;
  slot_bytes = 0;
  next_handle = 1;
  next_submit_order = 1;
  frames_submitted = 0;
  submit_stalls = 0;
  max_in_flight = 0;
  context_recreations = 0;
  occupancy_sum = 0;
  occupancy_samples = 0;
  kernel_samples = 0;
  calls = 1;
}

abbrev ready : CudaBackend whole_floats
ready = record new_backend {
  host_slots = some 8;
  slot_bytes = 4;
  streams = idle_slot (pos 0) ∷ idle_slot (pos 0) ∷ [];
  calls = 4;
}

-- The job's second command fails, and everything is built anew.
abbrev recovered : CudaBackend whole_floats
recovered = record ready {
  cache = record { entries = []; compile_count = 1 };
  completed = failed_completion 1 ∷ [];
  next_handle = 2;
  context_recreations = 1;
  calls = 10;
}

abbrev one_job : Traced whole_floats
one_job = record { backend = recovered; issued = 1; delivered = [] }

Run-IsConserved_example : IsConserved world one_job
unfolding init allocate_slots submit
Run-IsConserved_example =
    Run-IsConserved world 2 TileVariant.naive (pos 0) ConstantsMode.baked 2 4 {a = new_backend}
      {b = ready} refl refl (after begun (submits 3 gray_job refl)) (omega arith)

abbrev two_stages : List GeneratedStage
two_stages =
    record { block_dim = 16; param_ops = [] } ∷ record { block_dim = 16; param_ops = [] } ∷ []

abbrev old_device : Device
old_device = record { front_bytes = 9 ∷ []; back_bytes = 8 ∷ []; staging = 7 ∷ [] }

frame_commands-staging_example :
    (run_commands counting old_device
      (frame_commands whole_arithmetic invert 1 1 two_stages (200 ∷ []) 1)).staging
    ≡ 202 ∷ []
frame_commands-staging_example =
    frame_commands-staging counting whole_arithmetic invert 1 1 two_stages (200 ∷ []) 1 old_device
