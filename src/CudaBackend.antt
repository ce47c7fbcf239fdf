-- ===== src/CudaBackend.antt =====
-- src/backend/cuda/cuda_backend.h and cuda_backend.cpp: the backend with streams. The CUDA driver is
-- a parameter that answers each call, by its number and what it is about; a `CU_CHECK` throws unless
-- the answer is success. The compiler behind the kernel cache is a parameter too, with what it throws.
-- The sums of milliseconds are left out.
pub mod Commands
pub mod Streams
pub mod Operations
pub mod Kept
pub mod Claims
pub mod Launches
pub mod Handles
mod Tests
use image_processing_engine.Prelude.{
  ℕ, zero, suc, ◌+◌, ◌*◌, ◌%◌, ◌^◌, max, Bool, true, false, ◌&&◌, ◌||◌, not, List, [], ◌∷◌, ◌++◌,
  Option, none, some, ltb, ◌==◌, if◌then◌else◌, length, set, get_elem?,
}
use image_processing_engine.Prelude.Integers.{ℤ}
use image_processing_engine.OpChain.Numerics.{Floats}
use image_processing_engine.KernelKey.{TileVariant, ConstantsMode}
use image_processing_engine.KernelCache.{KernelCache}
use image_processing_engine.CpuBackend.{JobStatus, Completion}
use Commands.{GeneratedStage}

-- The exceptions that `submit` and `poll_completions` tell apart.
pub data Failure : Type 0 where
  nvrtc_error cuda_error other_error : Failure

-- A driver call's result, and what it is about: an event of a stream, or anything else.
pub data Answer : Type 0 where
  success not_ready failure : Answer

pub data Call : Type 0 where
  query synchronize elapsed : ℕ → Call
  other_call : Call

abbrev pub Driver : Type 0
Driver = ℕ → Call → Answer

-- A stream with its buffers. `staging` is what the staging buffer holds once `done` is complete.
pub record StreamSlot : Type 0 where
  pub busy : Bool
  pub handle : ℕ
  pub submit_order : ℕ
  pub width : ℤ
  pub height : ℤ
  pub channels : ℤ
  pub staging : List ℕ

abbrev pub idle_slot : ℤ → StreamSlot
idle_slot zero_size = record {
  busy = false;
  handle = 0;
  submit_order = 0;
  width = zero_size;
  height = zero_size;
  channels = zero_size;
  staging = [];
}

-- `context` is whether there is one, `host_slots` the size of the registered buffer, and `calls` how
-- many driver calls have been made.
pub record CudaBackend (R : Floats) : Type 0 where
  pub context : Bool
  pub cache : KernelCache R (List GeneratedStage)
  pub host_slots : Option ℕ
  pub streams : List StreamSlot
  pub completed : List Completion
  pub stream_count : ℕ
  pub tile : TileVariant
  pub tile_size : ℤ
  pub constants : ConstantsMode
  pub slot_bytes : ℕ
  pub next_handle : ℕ
  pub next_submit_order : ℕ
  pub frames_submitted : ℕ
  pub submit_stalls : ℕ
  pub max_in_flight : ℕ
  pub context_recreations : ℕ
  pub occupancy_sum : ℕ
  pub occupancy_samples : ℕ
  pub kernel_samples : ℕ
  pub calls : ℕ

-- A function that returned, or threw, with the backend as it is then.
pub data Attempt (R : Floats) : Type 0 where
  returned : CudaBackend R → Attempt R
  threw : Failure → CudaBackend R → Attempt R
