-- ===== src/CpuBackend.antt =====
-- include/imgjit/backend/backend.h, include/imgjit/backend/cpu/cpu_backend.h and
-- src/backend/cpu/cpu_backend.cpp: the backend that runs a job inside `submit`.
pub mod Outcomes
pub mod Handles
mod Tests
use image_processing_engine.Prelude.{
  ℕ, zero, suc, ◌+◌, ◌*◌, ◌%◌, ◌^◌, Bool, true, false, List, [], ◌∷◌, ◌++◌, Option, none, some,
  replicate,
}
use image_processing_engine.Prelude.Integers.{ℤ}
use image_processing_engine.Image.{Image, no_image, from_bytes}
use image_processing_engine.OpChain.{OpChain}
use image_processing_engine.CpuOps.FloatOps.{Arithmetic}
use image_processing_engine.CpuOps.{apply_chain}

-- `input` is the bytes behind the pointer, `none` the null pointer.
pub record FrameJob (F : Type 0) : Type 0 where
  pub input : Option (List ℕ)
  pub width : ℤ
  pub height : ℤ
  pub channels : ℤ
  pub stride : ℕ
  pub chain : OpChain F

pub data JobStatus : Type 0 where
  ok error : JobStatus

-- Which exception's text `error` is; `no_error` is the empty text, and `device_text` what the CUDA backend
-- reports.
pub data ErrorText : Type 0 where
  no_error no_input bad_frame device_text : ErrorText

pub record Completion : Type 0 where
  pub handle : ℕ
  pub status : JobStatus
  pub output : Image
  pub error_text : ErrorText

pub record CpuBackend : Type 0 where
  pub slots : List ℕ
  pub completed : List Completion
  pub next_handle : ℕ

abbrev pub init : CpuBackend
init = record { slots = []; completed = []; next_handle = 1 }

abbrev grown : CpuBackend → List ℕ → ℕ → Option CpuBackend
grown backend [] size = some (record backend { slots = replicate size 0 })
grown backend (slot ∷ slots) size = none

-- `none` is the logic_error of a second allocation. The size is a size_t product.
unfoldable pub allocate_slots : CpuBackend → ℕ → ℕ → Option CpuBackend
allocate_slots backend count bytes = grown backend backend.slots (count * bytes % 2 ^ 64)

-- What `submit` puts behind what is completed so far.
abbrev succeeded : ℕ → Image → Completion
succeeded handle output = record {
  handle = handle;
  status = ok;
  output = output;
  error_text = no_error;
}

abbrev failed : ℕ → ErrorText → Completion
failed handle text = record {
  handle = handle;
  status = error;
  output = no_image;
  error_text = text;
}

abbrev finished : ℕ → Option Image → Completion
finished handle none = failed handle bad_frame
finished handle (some output) = succeeded handle output

module _ {F : Type 0} (A : Arithmetic F) where
  -- The image that the job's bytes make, run through its chain; `none` where either throws.
  unfoldable pub run_frame : FrameJob F → List ℕ → Option Image
  unfolding from_bytes apply_chain
  run_frame job bytes = elim (from_bytes job.width job.height job.channels bytes job.stride) [
    | none ↦ none
    | some input ↦ apply_chain A input job.chain
  ]

  -- The try block, from which no exception escapes.
  unfoldable pub run_job : ℕ → FrameJob F → Completion
  unfolding run_frame
  run_job handle job = elim job.input [
    | none ↦ failed handle no_input
    | some bytes ↦ finished handle (run_frame job bytes)
  ]

  -- The handle and the backend after the call; the counter is a uint64_t.
  unfoldable pub submit : CpuBackend → FrameJob F → ℕ × CpuBackend
  unfolding run_job
  submit backend job = (
    backend.next_handle,
    record backend {
      completed = backend.completed ++ (run_job backend.next_handle job ∷ []);
      next_handle = (backend.next_handle + 1) % 2 ^ 64;
    },
  )

unfoldable pub poll_completions : CpuBackend → List Completion × CpuBackend
poll_completions backend = (backend.completed, record backend { completed = [] })
