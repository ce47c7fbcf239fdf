-- ===== src/CudaBackend/Launches.antt =====
-- A job through `submit` and `poll_completions`: `launch` puts it on one idle stream or completes it,
-- and where anything throws before that, it is reported as failed.
use mathlib.Core.Path.{subst}
use image_processing_engine.Prelude.{
  ℕ, zero, suc, ◌+◌, ◌*◌, ◌%◌, ◌^◌, ◌≡◌, refl, sym, ap, ◌∙◌, Bool, true, false, ◌&&◌, ◌||◌, List,
  [], ◌∷◌, Option, none, some, arith, ltb, ◌==◌, if◌then◌else◌, set,
}
use image_processing_engine.Prelude.Predicates.{count_if-append}
use image_processing_engine.Prelude.Integers.{nat_abs}
use image_processing_engine.Image.{Image, from_bytes}
use image_processing_engine.OpChain.{OpChain}
use image_processing_engine.OpChain.Numerics.{Floats}
use image_processing_engine.KernelCache.{KernelCache, get}
use image_processing_engine.CpuBackend.{FrameJob, Completion}
use image_processing_engine.CudaBackend.Commands.{frame_commands}
use image_processing_engine.CudaBackend.{
  nvrtc_error, cuda_error, other_error, StreamSlot, CudaBackend, Attempt, returned, threw,
}
use image_processing_engine.CudaBackend.Streams.{
  fail_job, made_completion, retire_ready_streams, recover,
}
use image_processing_engine.CudaBackend.Operations.{
  Compiled, World, Claimed, claimed, no_stream, spins, Launch, launched, refused, waits,
  claim_stream, mark_busy, enqueue_frame, after_stream, after_kernel, complete_inline, run_input,
  launch, settle, submit, poll_completions, issue, row_bytes, is_packed, is_empty, key_for,
  busy_slot, given,
}
use image_processing_engine.CudaBackend.Kept.{
  reported, is_running, running, Holds, Keeps, fail_job-Holds, retire_ready_streams-Keeps,
  recover-Holds,
}
use image_processing_engine.CudaBackend.Claims.{IsIdleAt, KeepsClaimed, claim_stream-Keeps}

running-set :
    (h : ℕ) (streams : List StreamSlot) (i : ℕ) (slot : StreamSlot)
    → IsIdleAt i streams
    → running h (set streams i slot) ≡ running h streams + (if is_running h slot then 1 else 0)
running-set h [] i slot (old, at_i, idle) = absurd (cc)
running-set h (x ∷ xs) zero slot (old, at_i, idle) =
    let same : x ≡ old = cc in
    let free : x.busy ≡ false = ap (λ (s : StreamSlot). s.busy) same ∙ idle in ground arith
running-set h (x ∷ xs) (suc i) slot at = omega (arith, running-set h xs i slot at)

moved :
    {R : Floats} {h n next : ℕ} {b c : CudaBackend R} → b ≡ c → Holds h n next b → Holds h n next c
moved {h = h} {n = n} {next = next} e k = subst (λ d. Holds h n next d) e k

module _ {R : Floats} (world : World R) (h n next : ℕ) where
  open world use {driver, compile, why, arithmetic}

  -- What the functions below `launch` keep while the job has no slot, and where it has.
  abbrev KeepsLaunch : ℕ → Launch R → Type 0
  KeepsLaunch handle (launched b) = Holds h (n + (if handle == h then 1 else 0)) next b
  KeepsLaunch handle (refused failure b) = Holds h n next b
  KeepsLaunch handle waits = Unit {0}

  KeepsLaunch-if :
      (handle : ℕ) (t : Bool) (p q : Launch R)
      → KeepsLaunch handle p
      → KeepsLaunch handle q
      → KeepsLaunch handle (if t then p else q)
  KeepsLaunch-if handle true p q yes_case no_case = yes_case
  KeepsLaunch-if handle false p q yes_case no_case = no_case

  mark_busy-Holds :
      (b : CudaBackend R) (job : FrameJob R.F) (handle order : ℕ) (staging : List ℕ) (i : ℕ)
      → Holds h n next b
      → IsIdleAt i b.streams
      → Holds h
          (n + (if handle == h then 1 else 0))
          next
          (mark_busy world b i (busy_slot world job handle order staging))
  unfolding mark_busy
  mark_busy-Holds b job handle order staging i k idle = record {
    jobs =
        omega (
          arith,
          k.jobs,
          running-set h b.streams i (busy_slot world job handle order staging) idle,
        );
    counter = k.counter;
  }

  enqueue_frame-Keeps :
      (b : CudaBackend R) (job : FrameJob R.F) (handle : ℕ) (input : List ℕ) (compiled : Compiled)
      (i : ℕ)
      → Holds h n next b
      → IsIdleAt i b.streams
      → KeepsLaunch handle (enqueue_frame world b job handle input compiled i)
  unfolding enqueue_frame
  enqueue_frame-Keeps b job handle input compiled i k idle =
      KeepsLaunch-if handle
        (issue world b.calls (
          frame_commands arithmetic job.chain (nat_abs job.width) (nat_abs job.height) compiled
            input (row_bytes world job * nat_abs job.height))).0
        _ _
        (mark_busy-Holds _ job handle _ _ i (record { jobs = k.jobs; counter = k.counter }) idle)
        (record { jobs = k.jobs; counter = k.counter })

  after_stream-Keeps :
      (c : Claimed R) (job : FrameJob R.F) (handle : ℕ) (input : List ℕ) (compiled : Compiled)
      → KeepsClaimed world h n next c
      → KeepsLaunch handle (after_stream world c job handle input compiled)
  unfolding after_stream
  after_stream-Keeps (claimed i b) job handle input compiled (k, idle) =
      enqueue_frame-Keeps b job handle input compiled i k idle
  after_stream-Keeps (no_stream failure b) job handle input compiled k = k
  after_stream-Keeps spins job handle input compiled k = tt

  after_kernel-Keeps :
      (fuel : ℕ) (b : CudaBackend R) (job : FrameJob R.F) (handle : ℕ) (input : List ℕ)
      (found : Option (Compiled × KernelCache R Compiled))
      → Holds h n next b
      → KeepsLaunch handle (after_kernel world fuel b job handle input found)
  unfolding after_kernel
  after_kernel-Keeps fuel b job handle input none k = k
  after_kernel-Keeps fuel b job handle input (some (compiled, cache)) k =
      let stored : Holds h n next (record b { cache = cache }) = record {
        jobs = k.jobs;
        counter = k.counter;
      } in
      KeepsLaunch-if handle
        (is_empty world b.streams || ltb b.slot_bytes (row_bytes world job * nat_abs job.height)) _
        _ stored
        (after_stream-Keeps (claim_stream world fuel (record b { cache = cache })) job handle input
          compiled (claim_stream-Keeps world h n next fuel (record b { cache = cache }) stored))

  complete_inline-Keeps :
      (b : CudaBackend R) (handle : ℕ) (made : Option Image)
      → Holds h n next b
      → KeepsLaunch handle (complete_inline world b handle made)
  unfolding complete_inline
  complete_inline-Keeps b handle none k = k
  complete_inline-Keeps b handle (some image) k = record {
    jobs = omega (
      arith,
      k.jobs,
      count_if-append (λ (c : Completion). c.handle == h) b.completed
          (made_completion handle image ∷ []),
    );
    counter = k.counter;
  }

  run_input-Keeps :
      (fuel : ℕ) (b : CudaBackend R) (job : FrameJob R.F) (handle : ℕ) (input : List ℕ)
      (chain : OpChain R.F)
      → Holds h n next b
      → KeepsLaunch handle (run_input world fuel b job handle input chain)
  unfolding run_input
  run_input-Keeps fuel b job handle input [] k =
      complete_inline-Keeps b handle (from_bytes job.width job.height job.channels input job.stride)
        k
  run_input-Keeps fuel b job handle input (op ∷ ops) k =
      after_kernel-Keeps fuel b job handle input
        (get R compile b.cache (key_for world b job.chain job.channels)) k

  input-Keeps :
      (fuel : ℕ) (b : CudaBackend R) (job : FrameJob R.F) (handle : ℕ) (input : Option (List ℕ))
      → Holds h n next b
      → KeepsLaunch handle (elim input [
        | none ↦ refused other_error b
        | some bytes ↦
            if b.context && is_packed world job
            then run_input world fuel b job handle bytes job.chain
            else refused other_error b
      ])
  input-Keeps fuel b job handle none k = k
  input-Keeps fuel b job handle (some bytes) k =
      KeepsLaunch-if handle (b.context && is_packed world job) _ _
        (run_input-Keeps fuel b job handle bytes job.chain k) k

  launch-Keeps :
      (fuel : ℕ) (b : CudaBackend R) (job : FrameJob R.F) (handle : ℕ)
      → Holds h n next b
      → KeepsLaunch handle (launch world fuel b job handle)
  unfolding launch
  launch-Keeps fuel b job handle k = input-Keeps fuel b job handle job.input k

  settle-Holds :
      (handle : ℕ) (l : Launch R) (c : CudaBackend R)
      → KeepsLaunch handle l
      → settle world handle l ≡ some c
      → Holds h (n + (if handle == h then 1 else 0)) next c
  unfolding settle
  settle-Holds handle (launched b) c k e = let same : b ≡ c = cc in moved same k
  settle-Holds handle (refused nvrtc_error b) c k e =
      let same : fail_job b handle ≡ c = cc in moved same (fail_job-Holds h n next b handle k)
  settle-Holds handle (refused cuda_error b) c k e =
      let same : recover driver (fail_job b handle) ≡ c = cc in
      moved same (
        recover-Holds driver h (n + (if handle == h then 1 else 0)) next (fail_job b handle)
          (fail_job-Holds h n next b handle k))
  settle-Holds handle (refused other_error b) c k e =
      let same : fail_job b handle ≡ c = cc in moved same (fail_job-Holds h n next b handle k)
  settle-Holds handle waits c k e = absurd (cc)

  -- What `poll_completions` gives out, and what it leaves.
  given-Holds :
      (b c : CudaBackend R) (cs : List Completion)
      → Holds h n next b
      → some (given world b) ≡ some (cs, c)
      → (reported h cs + (reported h c.completed + running h c.streams) ≡ n)
        × (c.next_handle ≡ next)
  given-Holds b c cs k e =
      let out : b.completed ≡ cs = cc in
      let rest : record b { completed = [] } ≡ c = cc in
      (
        omega (
          arith,
          k.jobs,
          ap (reported h) out,
          ap (λ (d : CudaBackend R). reported h d.completed + running h d.streams) rest,
        ),
        sym (ap (λ (d : CudaBackend R). d.next_handle) rest) ∙ k.counter,
      )

  polled-Holds :
      (a : Attempt R) (cs : List Completion) (c : CudaBackend R)
      → Keeps h n next a
      → (elim a [
        | returned b ↦ some (given world b)
        | threw failure b ↦ elim failure [
          | cuda_error ↦ some (given world (recover driver b))
          | nvrtc_error ↦ none
          | other_error ↦ none
        ]
      ])
        ≡ some (cs, c)
      → (reported h cs + (reported h c.completed + running h c.streams) ≡ n)
        × (c.next_handle ≡ next)
  polled-Holds (returned b) cs c k e = given-Holds b c cs k e
  polled-Holds (threw cuda_error b) cs c k e =
      given-Holds (recover driver b) c cs (recover-Holds driver h n next b k) e
  polled-Holds (threw nvrtc_error b) cs c k e = absurd (cc)
  polled-Holds (threw other_error b) cs c k e = absurd (cc)

  pub poll_completions-Holds :
      (b c : CudaBackend R) (cs : List Completion)
      → Holds h n next b
      → poll_completions world b ≡ some (cs, c)
      → (reported h cs + (reported h c.completed + running h c.streams) ≡ n)
        × (c.next_handle ≡ next)
  unfolding poll_completions
  poll_completions-Holds b c cs k e =
      polled-Holds (retire_ready_streams driver b) cs c
        (retire_ready_streams-Keeps driver h n next b k) e

-- A submit that returns has made one job more with the handle that it gives.
pub submit-Holds :
    {R : Floats} (world : World R) (h n : ℕ) (fuel : ℕ) (b c : CudaBackend R) (job : FrameJob R.F)
    → reported h b.completed + running h b.streams ≡ n
    → submit world fuel b job ≡ some c
    → Holds h (n + (if b.next_handle == h then 1 else 0)) ((b.next_handle + 1) % 2 ^ 64) c
unfolding submit
submit-Holds world h n fuel b c job k e =
    let next = (b.next_handle + 1) % 2 ^ 64 in
    settle-Holds world h n next b.next_handle
      (launch world fuel (record b { next_handle = next }) job b.next_handle) c
      (launch-Keeps world h n next fuel (record b { next_handle = next }) job b.next_handle
        (record { jobs = k; counter = refl }))
      e
