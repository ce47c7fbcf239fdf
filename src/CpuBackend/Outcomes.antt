-- ===== src/CpuBackend/Outcomes.antt =====
-- What a submitted job comes to: the chain's output, or an error that leaves the backend alive.
use image_processing_engine.Prelude.{
  ℕ, ◌≡◌, refl, sym, ◌∙◌, ◌↔◌, ◌⊎◌, inl, inr, List, none, some, Option-cases,
}
use image_processing_engine.Image.{Image, no_image, from_bytes}
use image_processing_engine.Image.Copy.{from_bytes-IsImage}
use image_processing_engine.CpuOps.FloatOps.{Arithmetic}
use image_processing_engine.CpuOps.{apply_chain}
use image_processing_engine.CpuOps.Chains.{KeepsAlpha, apply_chain-KeepsAlpha}
use image_processing_engine.CpuBackend.{FrameJob, run_frame, run_job, ok, error}

module _ {F : Type 0} (A : Arithmetic F) where
  run_frame_image :
      (job : FrameJob F) (bytes : List ℕ) (input : Image)
      → from_bytes job.width job.height job.channels bytes job.stride ≡ some input
      → run_frame A job bytes ≡ apply_chain A input job.chain
  unfolding run_frame
  run_frame_image job bytes input e = rw (e, run_frame) refl

  run_frame_refused :
      (job : FrameJob F) (bytes : List ℕ)
      → from_bytes job.width job.height job.channels bytes job.stride ≡ none
      → run_frame A job bytes ≡ none
  unfolding run_frame
  run_frame_refused job bytes e = rw (e, run_frame) refl

  -- A job whose bytes make an image completes with status ok under its handle, and its output is what
  -- the chain makes of that image, with the image's shape and alpha.
  pub run_job-ok :
      (handle : ℕ) (job : FrameJob F) (bytes : List ℕ) (input : Image)
      → job.input ≡ some bytes
      → from_bytes job.width job.height job.channels bytes job.stride ≡ some input
      → ((run_job A handle job).handle ≡ handle)
        × ((run_job A handle job).status ≡ ok)
        × (apply_chain A input job.chain ≡ some (run_job A handle job).output)
        × KeepsAlpha input (run_job A handle job).output
  unfolding run_job
  run_job-ok handle job bytes input given made =
      let (output, ran, keeps) =
        apply_chain-KeepsAlpha A input job.chain
          (from_bytes-IsImage job.width job.height job.channels bytes job.stride made) in
      let result = run_frame_image job bytes input made ∙ ran in
      rw (given, run_job) (rw result (refl, refl, ran, keeps))

  -- A job completes under its handle, and with an error exactly when it has no input or `from_bytes`
  -- refuses its dimensions or stride: no chain fails on an image. A job that does not complete with
  -- status ok has status error and the empty image for its output.
  pub run_job-error :
      (handle : ℕ) (job : FrameJob F)
      → (((run_job A handle job).status ≡ error) ↔ (
          (job.input ≡ none)
          ⊎ ((bytes : List ℕ) × (job.input ≡ some bytes)
              × (from_bytes job.width job.height job.channels bytes job.stride ≡ none))))
        × ((run_job A handle job).handle ≡ handle)
        × (((run_job A handle job).status ≡ ok)
            ⊎ (((run_job A handle job).status ≡ error)
                × ((run_job A handle job).output ≡ no_image)))
  unfolding run_job
  run_job-error handle job = ((failing, failed_job), ending.0, ending.1)
    where
      failing :
          (run_job A handle job).status ≡ error
          → (job.input ≡ none)
            ⊎ ((bytes : List ℕ) × (job.input ≡ some bytes)
                × (from_bytes job.width job.height job.channels bytes job.stride ≡ none))
      failing e = elim (Option-cases job.input) [
        | inl absent ↦ inl absent
        | inr (bytes, given) ↦
            elim (Option-cases (from_bytes job.width job.height job.channels bytes job.stride)) [
              | inl refused ↦ inr (bytes, given, refused)
              | inr (input, made) ↦
                  let fine = (run_job-ok handle job bytes input given made).1 in
                  let clash : ok ≡ error = sym fine ∙ e in absurd (cc)
            ]
      ]

      failed_job :
          (job.input ≡ none)
            ⊎ ((bytes : List ℕ) × (job.input ≡ some bytes)
                × (from_bytes job.width job.height job.channels bytes job.stride ≡ none))
          → (run_job A handle job).status ≡ error
      failed_job (inl absent) = rw (absent, run_job) refl
      failed_job (inr (bytes, given, refused)) =
          rw (given, run_job) (rw (run_frame_refused job bytes refused) refl)

      ending :
          ((run_job A handle job).handle ≡ handle)
          × (((run_job A handle job).status ≡ ok)
              ⊎ (((run_job A handle job).status ≡ error)
                  × ((run_job A handle job).output ≡ no_image)))
      ending = elim (Option-cases job.input) [
        | inl absent ↦ rw (absent, run_job) (refl, inr (refl, refl))
        | inr (bytes, given) ↦ elim (Option-cases (run_frame A job bytes)) [
          | inl bad ↦ rw (given, run_job) (rw bad (refl, inr (refl, refl)))
          | inr (output, made) ↦ rw (given, run_job) (rw made (refl, inl refl))
        ]
      ]
