-- ===== src/Server/Worker/Rounds.antt =====
-- The worker's loop over the CPU backend: each round answers the frame that it takes.
use image_processing_engine.Prelude.{ℕ, ◌+◌, ◌%◌, ◌^◌, ◌≡◌, [], ◌∷◌, some, arith, if◌then◌else◌}
use image_processing_engine.CpuOps.FloatOps.{Arithmetic}
use image_processing_engine.SlotPool.{SlotPool, slot, release}
use image_processing_engine.BoundedQueue.{BoundedQueue, popped, pop}
use image_processing_engine.CpuBackend
use image_processing_engine.CpuBackend.{CpuBackend, Completion, run_job, poll_completions}
use image_processing_engine.Server.{answer_job}
use image_processing_engine.Server.Worker.{
  QueuedFrame, Worker, Backend, at_connection, entry_of, job_of, response_for, is_ok, find, erase,
  emplace, submit, enter, retire, retire_job, retire_all, collect, next, round, after_take,
}

-- The CPU backend as the server sees it: its `submit` throws nothing.
abbrev pub cpu_backend : {F : Type 0} → Arithmetic F → Backend F
cpu_backend A = record {
  State = CpuBackend;
  submit_job = λ backend job.
      (some (CpuBackend.submit A backend job).0, (CpuBackend.submit A backend job).1);
  poll = poll_completions;
}

-- No job is in the table and the backend has no completion to give.
pub record IsIdle (w : Worker CpuBackend) : Type 0 where
  pub no_jobs : w.in_flight ≡ []
  pub no_completions : w.backend.completed ≡ []

module _ {F : Type 0} (A : Arithmetic F) (w : Worker CpuBackend) (frame : QueuedFrame F) where
  -- What the job of a frame comes to, at the address of its slot.
  abbrev pub completion_of : ℕ → Completion
  completion_of address = run_job A w.backend.next_handle (job_of frame (w.memory address))

  -- The worker with the job in its table, and that with the job answered.
  abbrev pub with_job : ℕ → Worker CpuBackend
  with_job address = record w {
    backend = record w.backend {
      completed = completion_of address ∷ [];
      next_handle = (w.backend.next_handle + 1) % 2 ^ 64;
    };
    in_flight = (w.backend.next_handle, entry_of frame) ∷ [];
  }

  abbrev pub polled : ℕ → Worker CpuBackend
  polled address = record (with_job address) {
    backend = record (with_job address).backend { completed = [] };
  }

  abbrev pub with_answer : ℕ → SlotPool → Worker CpuBackend
  with_answer address slots = record w {
    slots = slots;
    backend = record w.backend {
      completed = [];
      next_handle = (w.backend.next_handle + 1) % 2 ^ 64;
    };
    in_flight = [];
    connections =
        at_connection frame.connection
          (answer_job (response_for (entry_of frame) (completion_of address))) w.connections;
    frames_completed =
        (w.frames_completed + (if is_ok (completion_of address).status then 1 else 0)) % 2 ^ 64;
    frames_failed =
        (w.frames_failed + (if is_ok (completion_of address).status then 0 else 1)) % 2 ^ 64;
  }

  run_job-handle : (address : ℕ) → (completion_of address).handle ≡ w.backend.next_handle
  unfolding run_job
  run_job-handle address = ground arith

  submit-cpu :
      (address : ℕ)
      → IsIdle w
      → slot w.slots frame.slot ≡ some address
      → submit (cpu_backend A) w frame ≡ some (with_job address)
  unfolding submit enter emplace find CpuBackend.submit
  submit-cpu address idle found = ground (arith, idle.no_jobs, idle.no_completions)

  retire-cpu :
      (address : ℕ) {slots : SlotPool}
      → release w.slots frame.slot ≡ some slots
      → retire (polled address) (completion_of address) ≡ some (with_answer address slots)
  unfolding retire retire_job find erase
  retire-cpu address back = ground (arith, run_job-handle address)

  -- The state that a round ends in that takes a frame.
  pub round-next :
      (address : ℕ) (queue rest : BoundedQueue (QueuedFrame F)) {slots : SlotPool}
      → IsIdle w
      → pop queue ≡ popped frame rest
      → slot w.slots frame.slot ≡ some address
      → release w.slots frame.slot ≡ some slots
      → round (cpu_backend A) w queue ≡ next (with_answer address slots) rest
  unfolding round after_take collect retire_all poll_completions
  round-next address queue rest idle taken found back =
      ground (arith, submit-cpu address idle found, retire-cpu address back, idle.no_jobs)
