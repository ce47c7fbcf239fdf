-- ===== src/Server/Worker/Replies.antt =====
-- What the worker sends back for a frame that it takes, over the CPU backend.
use image_processing_engine.Prelude.{
  ℕ, ◌+◌, ◌*◌, ◌%◌, ◌^◌, ◌≡◌, ◌≢◌, ◌⊎◌, inl, inr, refl, List, none, some, arith, get_elem?,
  get_elem?-set_self, Option-cases, false,
}
use image_processing_engine.Prelude.Integers.{nat_abs}
use image_processing_engine.Image.{Image, no_image, from_bytes}
use image_processing_engine.Protocol.{Status, flag_echo, flag_server_write}
use image_processing_engine.CpuOps.FloatOps.{Arithmetic}
use image_processing_engine.CpuOps.{apply_chain}
use image_processing_engine.SlotPool.{SlotPool, no_owner, slot, release}
use image_processing_engine.SlotPool.Ledger.{get_elem?-lt}
use image_processing_engine.SlotPool.Invariant.{IsValid}
use image_processing_engine.SlotPool.Release.{release-IsValid, release_cases, release_throws}
use image_processing_engine.BoundedQueue.{BoundedQueue, popped, pop}
use image_processing_engine.CpuBackend.{CpuBackend, Completion, JobStatus, ok, error}
use image_processing_engine.CpuBackend.Outcomes.{run_job-ok, run_job-error}
use image_processing_engine.Server.{Response, answer_job}
use image_processing_engine.Server.Worker.{
  QueuedFrame, Worker, at_connection, has_flag, entry_of, job_of, response_for, next, round,
}
use image_processing_engine.Server.Worker.Rounds.{
  cpu_backend, IsIdle, completion_of, with_answer, round-next,
}

module _ {F : Type 0} (A : Arithmetic F) (frame : QueuedFrame F) where
  -- The frame's bytes make an image, and the answer has what the chain makes of it, ...
  pub record IsServed (bytes : List ℕ) (response : Response) : Type 0 where
    pub input : Image
    pub made :
        from_bytes frame.width frame.height frame.channels bytes
          (nat_abs frame.width * nat_abs frame.channels % 2 ^ 64)
        ≡ some input
    pub good : response.status ≡ Status.ok
    pub output : apply_chain A input frame.chain ≡ some response.image
    pub saves : response.write_file ≡ has_flag frame.flags flag_server_write

  -- ... or they make none, and the answer is an error without an image.
  pub record IsFailed (bytes : List ℕ) (response : Response) : Type 0 where
    pub refused :
        from_bytes frame.width frame.height frame.channels bytes
          (nat_abs frame.width * nat_abs frame.channels % 2 ^ 64)
        ≡ none
    pub bad : response.status ≡ Status.internal_error
    pub no_output : response.image ≡ no_image
    pub saves_nothing : response.write_file ≡ false

  -- The worker `v` has answered the frame that `w` took, with this response.
  pub record IsAnswered (w v : Worker CpuBackend) (response : Response) : Type 0 where
    pub own_number : response.seq_num ≡ frame.seq_num
    pub echoes : response.echo ≡ has_flag frame.flags flag_echo
    pub outcome :
        (address : ℕ) × (slot w.slots frame.slot ≡ some address)
        × ((IsServed (w.memory address) response
              × (v.frames_completed ≡ (w.frames_completed + 1) % 2 ^ 64))
            ⊎ (IsFailed (w.memory address) response
                × (v.frames_failed ≡ (w.frames_failed + 1) % 2 ^ 64)))
    pub sent : v.connections ≡ at_connection frame.connection (answer_job response) w.connections
    pub freed : get_elem? v.slots.owner_of frame.slot ≡ some no_owner
    pub valid : IsValid v.slots
    pub idle : IsIdle v

  response-numbered :
      (completion : Completion)
      → ((response_for (entry_of frame) completion).seq_num ≡ frame.seq_num)
        × ((response_for (entry_of frame) completion).echo ≡ has_flag frame.flags flag_echo)
  unfolding response_for
  response-numbered completion = by_status completion.status
    where
      by_status :
          (status : JobStatus)
          → ((response_for (entry_of frame) (record completion { status = status })).seq_num
              ≡ frame.seq_num)
            × ((response_for (entry_of frame) (record completion { status = status })).echo
                ≡ has_flag frame.flags flag_echo)
      by_status ok = (refl, refl)
      by_status error = (refl, refl)

  response-IsServed :
      (completion : Completion) (bytes : List ℕ) (input : Image)
      → from_bytes frame.width frame.height frame.channels bytes
          (nat_abs frame.width * nat_abs frame.channels % 2 ^ 64)
        ≡ some input
      → completion.status ≡ ok
      → apply_chain A input frame.chain ≡ some completion.output
      → IsServed bytes (response_for (entry_of frame) completion)
  unfolding response_for
  response-IsServed completion bytes input made status ran =
      let same : response_for (entry_of frame) completion ≡ record {
        seq_num = frame.seq_num;
        status = Status.ok;
        echo = has_flag frame.flags flag_echo;
        write_file = has_flag frame.flags flag_server_write;
        image = completion.output;
      } =
        rw (status, response_for) refl in
      rw same (record { input = input; made = made; good = refl; output = ran; saves = refl })

  response-IsFailed :
      (completion : Completion) (bytes : List ℕ)
      → from_bytes frame.width frame.height frame.channels bytes
          (nat_abs frame.width * nat_abs frame.channels % 2 ^ 64)
        ≡ none
      → completion.status ≡ error
      → IsFailed bytes (response_for (entry_of frame) completion)
  unfolding response_for
  response-IsFailed completion bytes refused status =
      let same : response_for (entry_of frame) completion ≡ record {
        seq_num = frame.seq_num;
        status = Status.internal_error;
        echo = has_flag frame.flags flag_echo;
        write_file = false;
        image = no_image;
      } =
        rw (status, response_for) refl in
      rw same (record { refused = refused; bad = refl; no_output = refl; saves_nothing = refl })

  response-outcome :
      (w : Worker CpuBackend) (address : ℕ) (slots : SlotPool)
      → (IsServed
            (w.memory address)
            (response_for (entry_of frame) (completion_of A w frame address))
          × ((with_answer A w frame address slots).frames_completed
              ≡ (w.frames_completed + 1) % 2 ^ 64))
        ⊎ (IsFailed
              (w.memory address)
              (response_for (entry_of frame) (completion_of A w frame address))
            × ((with_answer A w frame address slots).frames_failed
                ≡ (w.frames_failed + 1) % 2 ^ 64))
  unfolding job_of
  response-outcome w address slots =
      let bytes = w.memory address in
      let completion = completion_of A w frame address in
      elim (Option-cases (
        from_bytes frame.width frame.height frame.channels bytes
          (nat_abs frame.width * nat_abs frame.channels % 2 ^ 64))) [
            | inl refused ↦
                let failures = run_job-error A w.backend.next_handle (job_of frame bytes) in
                let status : completion.status ≡ error =
                  failures.0.1 (inr (bytes, refl, refused)) in
                inr (response-IsFailed completion bytes refused status, rw status refl)
            | inr (input, made) ↦
                let (handle, status, ran, alpha) =
                  run_job-ok A w.backend.next_handle (job_of frame bytes) bytes input refl made in
                inl (response-IsServed completion bytes input made status ran, rw status refl)
          ]

-- A slot that has an owner has an address and can be given back.
slot-claimed :
    (p : SlotPool) (i owner : ℕ)
    → IsValid p
    → get_elem? p.owner_of i ≡ some owner
    → owner ≢ no_owner
    → ((address : ℕ) × (slot p i ≡ some address))
      × ((q : SlotPool) × (release p i ≡ some q)
          × IsValid q
          × (get_elem? q.owner_of i ≡ some no_owner))
unfolding slot
slot-claimed p i owner v mine real =
    let found : (address : ℕ) × (slot p i ≡ some address) =
      (p.base + i * p.bytes, ground (arith, get_elem?-lt p.owner_of i owner mine, v.sized)) in
    elim (Option-cases (release p i)) [
      | inl stuck ↦ elim ((release_throws i v).0 stuck) [
        | inl out ↦ absurd (cc)
        | inr idle ↦ absurd (ground arith)
      ]
      | inr (q, back) ↦
          let (o, at_o, real_o, made) = release_cases p i back in
          (
            found,
            (
              q,
              back,
              release-IsValid i v back,
              rw made (get_elem?-set_self p.owner_of i no_owner (get_elem?-lt p.owner_of i o at_o)),
            ),
          )
    ]

module _ {F : Type 0} (A : Arithmetic F) (w : Worker CpuBackend) (frame : QueuedFrame F) where
  -- On an idle worker over the CPU backend, with a valid pool in which the frame's slot has an owner,
  -- a round that takes the frame goes on and answers it under the frame's number and with its echo
  -- flag. If the bytes in the slot make an image, the answer has status ok and what the chain makes
  -- of that image, and is to be saved if the frame asks for it; if not, it is an internal error
  -- without an image that is not to be saved; the frame is counted as completed or failed. The answer goes to the
  -- connection that sent the frame and to no other, the slot has no owner then, the pool is valid, and
  -- the worker is idle again.
  pub round-IsAnswered :
      (queue rest : BoundedQueue (QueuedFrame F)) (owner : ℕ)
      → IsIdle w
      → IsValid w.slots
      → get_elem? w.slots.owner_of frame.slot ≡ some owner
      → owner ≢ no_owner
      → pop queue ≡ popped frame rest
      → (v : Worker CpuBackend) × (response : Response) × (round (cpu_backend A) w queue
          ≡ next v rest)
        × IsAnswered A frame w v response
  round-IsAnswered queue rest owner idle valid mine real taken =
      let ((address, found), (slots, back, still, free)) =
        slot-claimed w.slots frame.slot owner valid mine real in
      let (number, echo) = response-numbered A frame (completion_of A w frame address) in
      (
        with_answer A w frame address slots,
        response_for (entry_of frame) (completion_of A w frame address),
        round-next A w frame address queue rest idle taken found back,
        record {
          own_number = number;
          echoes = echo;
          outcome = (address, found, response-outcome A frame w address slots);
          sent = refl;
          freed = free;
          valid = still;
          idle = record { no_jobs = refl; no_completions = refl };
        },
      )
