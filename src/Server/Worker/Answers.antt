-- ===== src/Server/Worker/Answers.antt =====
-- What `submit` and `retire` make of a job: it is in the table, or its slot is given back and its
-- connection has one answer more.
use image_processing_engine.Prelude.{ℕ, ◌≡◌, ◌⊎◌, inl, inr, none, some, arith, Option-cases}
use image_processing_engine.SlotPool.{slot, release}
use image_processing_engine.CpuBackend.{Completion}
use image_processing_engine.Server.{Response, answer_job}
use image_processing_engine.Server.Worker.{
  QueuedFrame, InFlight, Worker, Backend, at_connection, entry_of, job_of, refusal, response_for,
  find, erase, emplace, submit, enter, refuse, retire, retire_job,
}

module _ {S : Type 0} where
  -- From `w` to `v` the job of `entry` has been answered by `response`: its slot is released, and its
  -- connection, and no other, has the response and one job less.
  pub record IsAnswered (w v : Worker S) (entry : InFlight) (response : Response) : Type 0 where
    pub released : release w.slots entry.slot ≡ some v.slots
    pub answered :
        v.connections ≡ at_connection entry.connection (answer_job response) w.connections

  retire_job-IsAnswered :
      (w v : Worker S) (completion : Completion) (job : InFlight)
      → retire_job w completion job ≡ some v
      → IsAnswered w v job (response_for job completion)
        × (v.in_flight ≡ erase completion.handle w.in_flight)
  unfolding retire_job
  retire_job-IsAnswered w v completion job e = elim (Option-cases (release w.slots job.slot)) [
    | inl bad ↦ absurd (cc (rw (bad, retire_job) at e))
    | inr (slots, back) ↦
        (record { released = ground arith; answered = ground arith }, ground arith)
  ]

  -- A completion whose handle is in the table answers its job and takes the entry out; any other
  -- changes nothing.
  pub retire_cases :
      (w v : Worker S) (completion : Completion)
      → retire w completion ≡ some v
      → ((find completion.handle w.in_flight ≡ none) × (v ≡ w))
        ⊎ ((job : InFlight) × (find completion.handle w.in_flight ≡ some job)
            × IsAnswered w v job (response_for job completion)
            × (v.in_flight ≡ erase completion.handle w.in_flight))
  unfolding retire
  retire_cases w v completion e = elim (Option-cases (find completion.handle w.in_flight)) [
    | inl unknown ↦ inl (unknown, cc (rw (unknown, retire) at e))
    | inr (job, known) ↦
        let (done, out) = retire_job-IsAnswered w v completion job (rw (known, retire) at e) in
        inr (job, known, done, out)
  ]

module _ {F : Type 0} (B : Backend F) where
  open B use {State, submit_job}

  -- A frame that is submitted is in the table under its handle, or it is answered by a refusal.
  pub submit_cases :
      (w v : Worker State) (frame : QueuedFrame F)
      → submit B w frame ≡ some v
      → ((address handle : ℕ) × ((submit_job w.backend (job_of frame (w.memory address))).0
            ≡ some handle)
          × (v.slots ≡ w.slots)
          × (v.connections ≡ w.connections)
          × (v.in_flight ≡ emplace handle (entry_of frame) w.in_flight))
        ⊎ (IsAnswered w v (entry_of frame) (refusal frame) × (v.in_flight ≡ w.in_flight))
  unfolding submit enter refuse
  submit_cases w v frame e = elim (Option-cases (slot w.slots frame.slot)) [
    | inl bad ↦ absurd (cc (rw (bad, submit) at e))
    | inr (address, found) ↦
        let answer = (submit_job w.backend (job_of frame (w.memory address))).0 in
        elim (Option-cases answer) [
          | inl threw ↦ ground arith
          | inr (handle, given) ↦
              inl (address, handle, given, ground arith, ground arith, ground arith)
        ]
  ]
