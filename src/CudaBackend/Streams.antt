-- ===== src/CudaBackend/Streams.antt =====
-- src/backend/cuda/cuda_backend.cpp: the stream slots: building, retiring and claiming them, and the
-- recreation of the context.
use image_processing_engine.Prelude.{
  ℕ, zero, suc, ◌+◌, ◌*◌, ◌%◌, ◌^◌, Bool, true, false, List, [], ◌∷◌, ◌++◌, Option, none, some,
  ◌==◌, if◌then◌else◌, length,
}
use image_processing_engine.Prelude.Integers.{pos, nat_abs}
use image_processing_engine.Image.{Image, no_image, from_bytes}
use image_processing_engine.OpChain.Numerics.{Floats}
use image_processing_engine.KernelCache.{clear}
use image_processing_engine.CpuBackend.{Completion, ok, error, no_error, device_text}
use image_processing_engine.CudaBackend.{
  Failure, cuda_error, other_error, Answer, success, not_ready, failure, query, elapsed, other_call,
  Driver, StreamSlot, idle_slot, CudaBackend, Attempt, returned, threw,
}

abbrev pub failed_completion : ℕ → Completion
failed_completion handle = record {
  handle = handle;
  status = error;
  output = no_image;
  error_text = device_text;
}

abbrev pub made_completion : ℕ → Image → Completion
made_completion handle output = record {
  handle = handle;
  status = ok;
  output = output;
  error_text = no_error;
}

module _ {R : Floats} where
  unfoldable pub fail_job : CudaBackend R → ℕ → CudaBackend R
  fail_job b handle = record b { completed = b.completed ++ (failed_completion handle ∷ []) }

  -- The driver call is counted.
  abbrev pub called : CudaBackend R → CudaBackend R
  called b = record b { calls = b.calls + 1 }

-- What `CU_CHECK` lets through.
abbrev pub is_success : Answer → Bool
is_success success = true
is_success not_ready = false
is_success failure = false

-- The image that a slot's staging buffer makes.
unfoldable pub output_of : StreamSlot → Option Image
unfolding from_bytes
output_of slot =
    from_bytes slot.width slot.height slot.channels slot.staging
      (nat_abs slot.width * nat_abs slot.channels)

-- The first step of a recreation: every frame in flight is reported.
unfoldable pub report_lost : List StreamSlot → List Completion
report_lost [] = []
report_lost (slot ∷ rest) =
    let more = report_lost rest in if slot.busy then failed_completion slot.handle ∷ more else more

abbrev pub has_value : Option ℕ → Bool
has_value none = false
has_value (some bytes) = true

module _ {R : Floats} where
  abbrev pub torn_down : CudaBackend R → CudaBackend R
  torn_down b = record b {
    completed = b.completed ++ report_lost b.streams;
    streams = [];
    cache = clear R b.cache;
    context = false;
    context_recreations = (b.context_recreations + 1) % 2 ^ 64;
  }

  abbrev pub caught : Attempt R → CudaBackend R
  caught (returned b) = b
  caught (threw why b) = b

module _ (driver : Driver) {R : Floats} where
  -- One busy slot of the sweep, with the rest of the sweep and what to do where a call throws.
  unfoldable pub retire_image :
      StreamSlot
      → CudaBackend R
      → (StreamSlot → CudaBackend R → Attempt R)
      → (Failure → CudaBackend R → Attempt R)
      → Option Image
      → Attempt R
  retire_image slot b next stop none = stop other_error b
  retire_image slot b next stop (some image) =
      next (record slot { busy = false })
        (record b { completed = b.completed ++ (made_completion slot.handle image ∷ []) })

  unfoldable pub retire_done :
      ℕ
      → StreamSlot
      → CudaBackend R
      → (StreamSlot → CudaBackend R → Attempt R)
      → (Failure → CudaBackend R → Attempt R)
      → Attempt R
  unfolding retire_image output_of
  retire_done i slot b next stop =
      if is_success (driver b.calls (elapsed i))
      then retire_image slot (record (called b) { kernel_samples = b.kernel_samples + 1 }) next stop
          (output_of slot)
      else stop cuda_error (called b)

  unfoldable pub retire_slot :
      ℕ
      → StreamSlot
      → CudaBackend R
      → (StreamSlot → CudaBackend R → Attempt R)
      → (Failure → CudaBackend R → Attempt R)
      → Attempt R
  unfolding retire_done
  retire_slot i slot b next stop = elim (driver b.calls (query i)) [
    | success ↦ retire_done i slot (called b) next stop
    | not_ready ↦ next slot (called b)
    | failure ↦ stop cuda_error (called b)
  ]

  -- The sweep: `swept` are the slots that it has passed.
  unfoldable pub sweep : List StreamSlot → List StreamSlot → CudaBackend R → Attempt R
  unfolding retire_slot
  sweep swept [] b = returned (record b { streams = swept })
  sweep swept (slot ∷ rest) b =
      let next = λ (s : StreamSlot) (c : CudaBackend R). sweep (swept ++ (s ∷ [])) rest c in
      if slot.busy
      then retire_slot (length swept) slot b next
          (λ why c. threw why (record c { streams = swept ++ (slot ∷ rest) }))
      else next slot b

  unfoldable pub retire_ready_streams : CudaBackend R → Attempt R
  unfolding sweep
  retire_ready_streams b = sweep [] b.streams b

  -- Slots made so far; each is one answer here, though it takes several calls.
  unfoldable pub build_loop : ℕ → CudaBackend R → Attempt R
  build_loop zero b = returned b
  build_loop (suc left) b =
      let built = record (called b) { streams = b.streams ++ (idle_slot (pos 0) ∷ []) } in
      let more = build_loop left built in
      if is_success (driver b.calls other_call) then more else threw cuda_error (called b)

  unfoldable pub build_stream_slots : CudaBackend R → Attempt R
  unfolding build_loop
  build_stream_slots b =
      if b.slot_bytes == 0
      then returned (record b { streams = [] })
      else build_loop b.stream_count (record b { streams = [] })

  -- The host slots are registered again, if there are any, and the streams built.
  unfoldable pub rebuild : CudaBackend R → Attempt R
  unfolding build_stream_slots
  rebuild b =
      if has_value b.host_slots
      then (if is_success (driver b.calls other_call)
          then build_stream_slots (called b)
          else threw cuda_error (called b))
      else build_stream_slots b

  unfoldable pub recreate_context : CudaBackend R → Attempt R
  unfolding report_lost rebuild clear
  recreate_context b =
      let down = torn_down b in
      if is_success (driver down.calls other_call)
      then rebuild (record (called down) { context = true })
      else threw cuda_error (called down)

  -- Whether the rebuild succeeded or threw.
  unfoldable pub recover : CudaBackend R → CudaBackend R
  unfolding recreate_context
  recover b = caught (recreate_context b)
