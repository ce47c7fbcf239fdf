-- ===== src/CudaBackend/Handles.antt =====
-- The handles of the CUDA backend over any run of its calls: every submitted job is completed once,
-- also across driver errors and recreations of the context.
use image_processing_engine.Prelude.{
  ℕ, ◌+◌, ◌-◌, ◌*◌, ◌%◌, ◌^◌, ◌<◌, ◌≤◌, ◌≡◌, refl, ap, ◌∙◌, inl, inr, Option-cases, ◌&&◌, List, [],
  ◌∷◌, ◌++◌, some, arith, ltb, ◌==◌, if◌then◌else◌,
}
use image_processing_engine.Prelude.Predicates.{count_if-append}
use image_processing_engine.Prelude.Integers.{ℤ}
use image_processing_engine.OpChain.Numerics.{Floats}
use image_processing_engine.OpChain.{OpChain}
use image_processing_engine.KernelCache.{get}
use image_processing_engine.KernelKey.{TileVariant, ConstantsMode}
use image_processing_engine.CpuBackend.{FrameJob, Completion}
use image_processing_engine.CudaBackend.{CudaBackend, returned}
use image_processing_engine.CudaBackend.Streams.{
  called, caught, recreate_context, build_stream_slots,
}
use image_processing_engine.CudaBackend.Operations.{
  World, init, submit, poll_completions, allocate_slots, prewarm, key_for,
}
use image_processing_engine.CudaBackend.Kept.{
  reported, running, Holds, recreate_context-Keeps, caught-Holds, build_stream_slots-Keeps,
}
use image_processing_engine.CudaBackend.Launches.{submit-Holds, poll_completions-Holds}

-- A backend with how many jobs were submitted and the completions that were given out.
pub record Traced (R : Floats) : Type 0 where
  pub backend : CudaBackend R
  pub issued : ℕ
  pub delivered : List Completion

abbrev pub start : {R : Floats} → CudaBackend R → Traced R
start b = record { backend = b; issued = 0; delivered = [] }

module _ {R : Floats} (world : World R) where
  open world use {driver, compile}

  -- One call by the worker's thread, or a recreation that was asked for, whether it succeeded or not.
  pub data Step (s : Traced R) : Traced R → Type 0 where
    submits :
        (fuel : ℕ) (job : FrameJob R.F) {b : CudaBackend R}
        → submit world fuel s.backend job ≡ some b
        → Step s (record s { backend = b; issued = s.issued + 1 })
    polls :
        (completions : List Completion) {b : CudaBackend R}
        → poll_completions world s.backend ≡ some (completions, b)
        → Step s (record s { backend = b; delivered = s.delivered ++ completions })
    recreates : Step s (record s { backend = caught (recreate_context driver s.backend) })
    prewarms :
        (chain : OpChain R.F) (channels : ℤ)
        → Step s (record s { backend = caught (prewarm world s.backend chain channels) })

  pub data Run (s : Traced R) : Traced R → Type 0 where
    begun : Run s s
    after : {t u : Traced R} → Run s t → Step t u → Run s u

  -- Each handle from 1 to the number of submits stands for one job, which was given out, waits to be,
  -- or is on a stream, and no other handle stands for any; the next handle is a new one.
  pub record IsConserved (s : Traced R) : Type 0 where
    pub once :
        (h : ℕ)
        → reported h s.delivered + (reported h s.backend.completed + running h s.backend.streams)
          ≡ (if ltb 0 h && ltb h (s.issued + 1) then 1 else 0)
    pub next : s.backend.next_handle ≡ s.issued + 1

  Step-issued : {s t : Traced R} → Step s t → s.issued ≤ t.issued
  Step-issued (submits fuel job e) = omega arith
  Step-issued (polls completions e) = omega arith
  Step-issued recreates = omega arith
  Step-issued (prewarms chain channels) = omega arith

  built_Holds :
      (h : ℕ) (a b : CudaBackend R)
      → a.completed ≡ []
      → a.next_handle ≡ 1
      → build_stream_slots driver a ≡ returned b
      → Holds h 0 1 b
  built_Holds h a b none_yet first e =
      rw e at (build_stream_slots-Keeps driver h 0 1 a (ap (reported h) none_yet) first)

  -- A kernel that is compiled ahead concerns no job.
  prewarm-same :
      (b : CudaBackend R) (chain : OpChain R.F) (channels : ℤ)
      → ((caught (prewarm world b chain channels)).completed ≡ b.completed)
        × ((caught (prewarm world b chain channels)).streams ≡ b.streams)
        × ((caught (prewarm world b chain channels)).next_handle ≡ b.next_handle)
  unfolding prewarm
  prewarm-same b [] channels = (refl, refl, refl)
  prewarm-same b (op ∷ ops) channels =
      elim (Option-cases (get R compile b.cache (key_for world b (op ∷ ops) channels))) [
        | inl threw ↦ ground arith
        | inr (found, e) ↦ ground arith
      ]

  Step-IsConserved :
      {s t : Traced R} → t.issued < 2 ^ 64 - 1 → IsConserved s → Step s t → IsConserved t
  Step-IsConserved {s} small a (submits fuel job {b} e) =
      let made = λ (h : ℕ). submit-Holds world h _ fuel s.backend b job refl e in
      record {
        once = λ h. ground (arith, a.once h, (made h).jobs, a.next);
        next = omega (arith, (made 0).counter, a.next, small);
      }
  Step-IsConserved {s} small a (polls completions {b} e) =
      let made = λ (h : ℕ).
        poll_completions-Holds world h _ s.backend.next_handle s.backend b completions
          (record { jobs = refl; counter = refl }) e in
      record {
        once = λ h. omega (
          arith,
          a.once h,
          (made h).0,
          count_if-append (λ (c : Completion). c.handle == h) s.delivered completions,
        );
        next = (made 0).1 ∙ a.next;
      }
  Step-IsConserved {s} small a recreates =
      let made = λ (h : ℕ).
        caught-Holds driver h _ s.backend.next_handle (recreate_context driver s.backend) (
          recreate_context-Keeps driver h _ s.backend.next_handle s.backend
            (record { jobs = refl; counter = refl })) in
      record {
        once = λ h. omega (arith, a.once h, (made h).jobs);
        next = (made 0).counter ∙ a.next;
      }
  Step-IsConserved {s} small a (prewarms chain channels) =
      let (completed, streams, next) = prewarm-same s.backend chain channels in
      record {
        once = λ h. omega (arith, a.once h, ap (reported h) completed, ap (running h) streams);
        next = next ∙ a.next;
      }

  -- Over every run of submits, polls, prewarms and recreations from a backend with its slots
  -- allocated, with fewer than 2 ^ 64 - 1 jobs, and whatever the driver answers: the handles count up
  -- from 1, and each of them stands for exactly one job, which was given out by a poll, waits for the
  -- next, or is on a stream. So no job is lost or reported twice, also where a call of the driver
  -- failed and the context was recreated.
  pub Run-IsConserved :
      (stream_count : ℕ) (variant : TileVariant) (tile_size : ℤ) (constants : ConstantsMode)
      (count bytes : ℕ) {a b : CudaBackend R}
      → init world stream_count variant tile_size constants ≡ some a
      → allocate_slots world a count bytes ≡ returned b
      → {s : Traced R} → Run (start b) s
      → s.issued < 2 ^ 64 - 1
      → IsConserved s
  unfolding init allocate_slots
  Run-IsConserved stream_count variant tile_size constants count bytes {a} {b} made allocated begun
        small =
      let none_yet : a.completed ≡ [] = ground arith in
      let first : a.next_handle ≡ 1 = ground arith in
      let built : build_stream_slots driver
            (record (called a) { host_slots = some (count * bytes % 2 ^ 64); slot_bytes = bytes })
          ≡ returned b =
        ground arith in
      let k = λ (h : ℕ).
        built_Holds h
          (record (called a) { host_slots = some (count * bytes % 2 ^ 64); slot_bytes = bytes }) b
          none_yet first built in
      record { once = λ h. ground (arith, (k h).jobs); next = (k 0).counter }
  Run-IsConserved stream_count variant tile_size constants count bytes made allocated
        (after {t} r step) small =
      Step-IsConserved small
        (Run-IsConserved stream_count variant tile_size constants count bytes made allocated r
          (omega (arith, Step-issued step, small)))
        step
