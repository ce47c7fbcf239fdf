-- ===== src/Server/Reader/Turns.antt =====
-- The ways in which a turn of the reader goes on to the next one.
use image_processing_engine.Prelude.{
  ℕ, ◌≡◌, ◌≢◌, inl, inr, refl, sym, ap, ◌∙◌, List, some, take, drop, Option-cases, ◌==◌,
  if◌then◌else◌,
}
use image_processing_engine.OpChain.{OpChain}
use image_processing_engine.Protocol.{Status, Disposition, RequestHeader, disposition_for}
use image_processing_engine.SlotPool.{granted, claim, slot, release}
use image_processing_engine.BoundedQueue.{BoundedQueue, Push, pushed, rejected, push}
use image_processing_engine.Socket
use image_processing_engine.Socket.{IoResult, Reading, returned, blocked, read_exact, drain_exactly}
use image_processing_engine.Socket.Exact.{read_exact-HasRead}
use image_processing_engine.Server.{answer, job_submitted}
use image_processing_engine.Server.Worker.{QueuedFrame}
use image_processing_engine.Server.Reader.{
  Session, again, error_response, after_drain, after_answer, give_back, frame_of, after_push,
  enqueue_frame, overwrite, stored, payload_of, receive_payload,
}

module _ {F : Type 0} where
  -- An error response was queued, under a status that leaves the connection open.
  pub record IsRefused (s t : Session F) (header : RequestHeader) (status : Status) : Type 0 where
    pub kept_open : disposition_for status ≢ Disposition.close
    pub answered : t.connection ≡ answer (error_response header.seq_num status) s.connection
    pub same_slots : t.slots ≡ s.slots
    pub same_memory : t.memory ≡ s.memory
    pub same_queue : t.queue ≡ s.queue

  after_drain-again :
      (s t : Session F) (reading : Reading)
      → after_drain s reading ≡ again t
      → (buffer : List ℕ) × (rest : Socket.Connection) × (reading
          ≡ returned IoResult.ok buffer rest)
        × (t ≡ record s { socket = rest })
  unfolding after_drain
  after_drain-again s t (returned IoResult.ok buffer rest) e = (buffer, rest, refl, cc)
  after_drain-again s t (returned IoResult.eof buffer rest) e = absurd (cc)
  after_drain-again s t (returned IoResult.error buffer rest) e = absurd (cc)
  after_drain-again s t (blocked buffer) e = absurd (cc)

  pub after_answer-again :
      (s t : Session F) (unread : ℕ) (d : Disposition)
      → after_answer s unread d ≡ again t
      → (d ≢ Disposition.close)
        × ((buffer : List ℕ) × (rest : Socket.Connection) × (drain_exactly s.socket unread
              ≡ returned IoResult.ok buffer rest)
            × (t ≡ record s { socket = rest }))
  unfolding after_answer
  after_answer-again s t unread Disposition.close e = absurd (cc)
  after_answer-again s t unread Disposition.drain e =
      (λ h. cc, after_drain-again s t (drain_exactly s.socket unread) e)
  after_answer-again s t unread Disposition.continue e =
      (λ h. cc, after_drain-again s t (drain_exactly s.socket unread) e)

  give_back-ne-again : (s t : Session F) (i : ℕ) → give_back s i ≢ again t
  unfolding give_back
  give_back-ne-again s t i e = elim (Option-cases (release s.slots i)) [
    | inl owned ↦ cc (rw (owned, give_back) at e)
    | inr (slots, back) ↦ cc (rw (back, give_back) at e)
  ]

  after_push-again :
      (s t : Session F) (i : ℕ) (p : Push (QueuedFrame F))
      → after_push s i p ≡ again t
      → (queue : BoundedQueue (QueuedFrame F)) × (p ≡ pushed queue)
        × (t ≡ record s { queue = queue })
  unfolding after_push
  after_push-again s t i (pushed queue) e = (queue, refl, cc)
  after_push-again s t i rejected e = absurd (give_back-ne-again _ t i e)
  after_push-again s t i Push.waiting e = absurd (cc)

  -- A job was made of the frame: its slot was claimed for the connection, the payload stands at the
  -- slot's address, the job is counted, and the frame was pushed, with the header's fields.
  pub record IsQueued (s t : Session F) (header : RequestHeader) (chain : OpChain F)
      (payload : List ℕ) (i address : ℕ) : Type 0 where
    pub claimed : claim s.slots s.connection.id ≡ granted i t.slots
    pub at_slot : slot t.slots i ≡ some address
    pub filled :
        t.memory ≡ (λ k. if k == address then overwrite payload (s.memory k) else s.memory k)
    pub counted : t.connection ≡ job_submitted s.connection
    pub put : push (frame_of s header chain i) s.queue ≡ pushed t.queue

  payload_of-again :
      (s t : Session F) (header : RequestHeader) (chain : OpChain F) (i address : ℕ)
      (reading : Reading)
      → payload_of s header chain i address reading ≡ again t
      → (buffer : List ℕ) × (rest : Socket.Connection) × (reading
          ≡ returned IoResult.ok buffer rest)
        × ((queue : BoundedQueue (QueuedFrame F)) × (push (frame_of s header chain i) s.queue
              ≡ pushed queue)
            × (t ≡ record (stored s address buffer rest) {
              connection = job_submitted s.connection;
              queue = queue;
            }))
  unfolding payload_of enqueue_frame job_submitted
  payload_of-again s t header chain i address (returned IoResult.ok buffer rest) e = (
    buffer,
    rest,
    refl,
    after_push-again
        (record (stored s address buffer rest) { connection = job_submitted s.connection }) t i
        (push (frame_of s header chain i) s.queue) e,
  )
  payload_of-again s t header chain i address (returned IoResult.eof buffer rest) e =
      absurd (give_back-ne-again _ t i e)
  payload_of-again s t header chain i address (returned IoResult.error buffer rest) e =
      absurd (give_back-ne-again _ t i e)
  payload_of-again s t header chain i address (blocked buffer) e = absurd (cc)

  -- The socket has no part in what is claimed and queued.
  pub receive_payload-again :
      (s t : Session F) (header : RequestHeader) (chain : OpChain F) (i : ℕ)
      → receive_payload s header chain i ≡ again t
      → (address : ℕ) × (slot s.slots i ≡ some address)
        × (t.slots ≡ s.slots)
        × (t.memory ≡ (λ k.
            if k == address
            then overwrite (take header.payload_len s.socket.stream) (s.memory k)
            else s.memory k))
        × (t.connection ≡ job_submitted s.connection)
        × (push (frame_of s header chain i) s.queue ≡ pushed t.queue)
        × (t.socket.stream ≡ drop header.payload_len s.socket.stream)
  unfolding receive_payload
  receive_payload-again s t header chain i e = elim (Option-cases (slot s.slots i)) [
    | inl out ↦ absurd (cc (rw (out, receive_payload) at e))
    | inr (address, found) ↦
        let (buffer, rest, read, (queue, put, made)) =
          payload_of-again s t header chain i address (read_exact s.socket header.payload_len)
            (rw (found, receive_payload) at e) in
        let r = read_exact-HasRead s.socket header.payload_len buffer rest read in
        (
          address,
          found,
          ap (λ (u : Session F). u.slots) made,
          ap (λ (u : Session F). u.memory) made
              ∙ ap (λ l. λ k. if k == address then overwrite l (s.memory k) else s.memory k) r.read,
          ap (λ (u : Session F). u.connection) made,
          put ∙ ap (λ (u : Session F). pushed u.queue) (sym made),
          ap (λ (u : Session F). u.socket.stream) made ∙ r.left,
        )
  ]
