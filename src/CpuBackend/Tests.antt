-- ===== src/CpuBackend/Tests.antt =====
-- Witnesses of the CPU backend's theorems on a job of one gray pixel and on a job without input.
use image_processing_engine.Prelude.{
  ℕ, ◌+◌, ◌*◌, ◌/◌, ◌≡◌, ◌↔◌, ◌⊎◌, refl, arith, List, [], ◌∷◌, none, some, ltb, leb,
}
use image_processing_engine.Prelude.Integers.{pos, negsuc}
use image_processing_engine.Image.{Image, no_image, init, copy_rows, copy_to, from_bytes}
use image_processing_engine.OpChain.{OpKind}
use image_processing_engine.CpuOps.FloatOps.{Arithmetic}
use image_processing_engine.CpuOps.Chains.{KeepsAlpha}
use image_processing_engine.CpuOps.{apply_chain}
use image_processing_engine.CpuBackend.{FrameJob, ok, error, run_job, submit, poll_completions}
use image_processing_engine.CpuBackend.Outcomes.{run_job-ok, run_job-error}
use image_processing_engine.CpuBackend.Handles.{
  Traced, start, submits, polls, begun, after, IsAccounted, Run-IsAccounted,
}

abbrev whole_numbers : Arithmetic ℕ
whole_numbers = record {
  of_int = λ n. elim n [ pos k ↦ k | negsuc k ↦ 0 ];
  of_thousandths = λ n. n / 1000;
  add = λ a b. a + b;
  mul = λ a b. a * b;
  div = λ a b. a / b;
  neg = λ a. a;
  sqrt = λ a. a;
  exp = λ a. a;
  less = ltb;
  at_least = λ a b. leb b a;
  ceil = λ a. pos a;
  lround = λ a. pos a;
}

abbrev gray_job : FrameJob ℕ
gray_job = record {
  input = some (200 ∷ []);
  width = pos 1;
  height = pos 1;
  channels = pos 1;
  stride = 1;
  chain = record { kind = OpKind.invert; param = 0 } ∷ [];
}

abbrev gray_pixel : Image
gray_pixel = record { width = 1; height = 1; channels = 1; stride = 1; pixels = 200 ∷ [] }

gray_read : from_bytes (pos 1) (pos 1) (pos 1) (200 ∷ []) 1 ≡ some gray_pixel
unfolding from_bytes init copy_rows copy_to
gray_read = refl

run_job-ok_example :
    ((run_job whole_numbers 1 gray_job).handle ≡ 1)
    × ((run_job whole_numbers 1 gray_job).status ≡ ok)
    × (apply_chain whole_numbers gray_pixel gray_job.chain
        ≡ some (run_job whole_numbers 1 gray_job).output)
    × KeepsAlpha gray_pixel (run_job whole_numbers 1 gray_job).output
run_job-ok_example = run_job-ok whole_numbers 1 gray_job (200 ∷ []) gray_pixel refl gray_read

abbrev empty_job : FrameJob ℕ
empty_job = record gray_job { input = none }

run_job-error_example :
    (((run_job whole_numbers 1 empty_job).status ≡ error) ↔ (
      (empty_job.input ≡ none)
      ⊎ ((bytes : List ℕ) × (empty_job.input ≡ some bytes)
          × (from_bytes empty_job.width empty_job.height empty_job.channels bytes empty_job.stride
              ≡ none))))
    × ((run_job whole_numbers 1 empty_job).handle ≡ 1)
    × (((run_job whole_numbers 1 empty_job).status ≡ ok)
        ⊎ (((run_job whole_numbers 1 empty_job).status ≡ error)
            × ((run_job whole_numbers 1 empty_job).output ≡ no_image)))
run_job-error_example = run_job-error whole_numbers 1 empty_job

abbrev submitted : Traced
submitted = record start {
  backend = (submit whole_numbers start.backend gray_job).1;
  issued = (submit whole_numbers start.backend gray_job).0 ∷ [];
}

abbrev polled : Traced
polled = record submitted {
  backend = (poll_completions submitted.backend).1;
  delivered = (poll_completions submitted.backend).0;
}

Run-IsAccounted_example : IsAccounted whole_numbers polled
Run-IsAccounted_example =
    Run-IsAccounted whole_numbers (after (after begun (submits gray_job)) polls) (omega arith)
