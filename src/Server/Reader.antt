-- ===== src/Server/Reader.antt =====
-- src/net/server.cpp: one turn of the reader's loop, from the header of a frame to the worker's queue.
-- The socket is that of Socket. A turn in which a claim or a push would wait ends as parked; the turn
-- that goes on once another thread has woken it is not modelled here.
pub mod Requests
pub mod Turns
pub mod InStep
mod Tests
use image_processing_engine.Prelude.{
  ℕ, ◌+◌, Bool, true, false, List, [], ◌∷◌, ◌++◌, Option, none, some, ◌==◌, if◌then◌else◌, length,
  drop,
}
use image_processing_engine.Prelude.Integers.{pos}
use image_processing_engine.Image.{no_image, int_of_u32}
use image_processing_engine.OpChain.{OpChain, Result, ok, err, parse_op_chain}
use image_processing_engine.OpChain.Numerics.{Floats}
use image_processing_engine.Protocol.{
  Status, Disposition, RequestHeader, Limits, request_header_bytes, decode_request_header,
  validate_request_header, disposition_for,
}
use image_processing_engine.SlotPool.{
  SlotPool, Claim, granted, refused, waiting, fault, claim, slot, release,
}
use image_processing_engine.BoundedQueue.{BoundedQueue, Push, pushed, rejected, push}
use image_processing_engine.Socket
use image_processing_engine.Socket.{IoResult, Reading, returned, blocked, read_exact, drain_exactly}
use image_processing_engine.Server.{
  Response, Connection, answer, job_submitted, job_retired, reader_finished,
}
use image_processing_engine.Server.Worker.{QueuedFrame}

-- A connection, its socket, and what its reader shares with the other threads. `memory` holds the
-- bytes at a slot's address.
pub record Session (F : Type 0) : Type 0 where
  pub connection : Connection
  pub socket : Socket.Connection
  pub slots : SlotPool
  pub memory : ℕ → List ℕ
  pub queue : BoundedQueue (QueuedFrame F)

-- A turn ends in the next one, in the end of the loop, or in a call that waits: in `recv`, in `claim`
-- or in the queue's `push`. `crashed` is an exception that leaves the thread.
pub data Turn (F : Type 0) : Type 0 where
  again : Session F → Turn F
  left : Session F → Turn F
  parked : Turn F
  crashed : Turn F

-- What arrived up to the payload: nothing more, a frame to be answered with an error, with its number
-- and what is unread of it, or a frame to be run.
pub data Request (F : Type 0) : Type 0 where
  gone : Request F
  stuck : Request F
  bad : ℕ → Status → ℕ → Socket.Connection → Request F
  good : RequestHeader → OpChain F → Socket.Connection → Request F

-- The answer to a frame that the reader does not accept.
abbrev pub error_response : ℕ → Status → Response
error_response seq status = record {
  seq_num = seq;
  status = status;
  echo = false;
  write_file = false;
  image = no_image;
}

module _ (R : Floats) where
  open R use {F}

  abbrev pub parsed : RequestHeader → Socket.Connection → Result (OpChain F) → Request F
  parsed header socket (ok chain) = good header chain socket
  parsed header socket (err reason) = bad header.seq_num Status.bad_chain header.payload_len socket

  -- The chain's bytes have been read, if they could be.
  unfoldable pub chain_of : RequestHeader → Reading → Request F
  chain_of header (returned IoResult.ok buffer socket) =
      parsed header socket (parse_op_chain R buffer)
  chain_of header (returned IoResult.eof buffer socket) = gone
  chain_of header (returned IoResult.error buffer socket) = gone
  chain_of header (blocked buffer) = stuck

  -- What follows the validation. The lengths are summed in uint64_t, where they fit.
  unfoldable pub body_of : RequestHeader → Socket.Connection → Status → Request F
  unfolding chain_of read_exact
  body_of header socket Status.ok = chain_of header (read_exact socket header.chain_len)
  body_of header socket status =
      bad header.seq_num status (header.chain_len + header.payload_len) socket

  abbrev pub decoded : Limits → Socket.Connection → Option RequestHeader → Request F
  decoded limits socket none = gone
  decoded limits socket (some header) =
      body_of header socket (validate_request_header header limits)

  unfoldable pub header_of : Limits → Reading → Request F
  unfolding body_of decode_request_header validate_request_header
  header_of limits (returned IoResult.ok buffer socket) =
      decoded limits socket (decode_request_header buffer)
  header_of limits (returned IoResult.eof buffer socket) = gone
  header_of limits (returned IoResult.error buffer socket) = gone
  header_of limits (blocked buffer) = stuck

  unfoldable pub receive_request : Limits → Socket.Connection → Request F
  unfolding header_of read_exact
  receive_request limits socket = header_of limits (read_exact socket request_header_bytes)

-- The bytes that arrived replace the first ones at the slot's address.
abbrev pub overwrite : List ℕ → List ℕ → List ℕ
overwrite buffer old = buffer ++ drop (length buffer) old

module _ {F : Type 0} where
  unfoldable pub after_drain : Session F → Reading → Turn F
  after_drain session (returned IoResult.ok buffer socket) =
      again (record session { socket = socket })
  after_drain session (returned IoResult.eof buffer socket) =
      left (record session { socket = socket })
  after_drain session (returned IoResult.error buffer socket) =
      left (record session { socket = socket })
  after_drain session (blocked buffer) = parked

  -- The drain is skipped where the connection ends.
  unfoldable pub after_answer : Session F → ℕ → Disposition → Turn F
  unfolding after_drain drain_exactly
  after_answer session unread Disposition.close = left session
  after_answer session unread Disposition.drain =
      after_drain session (drain_exactly session.socket unread)
  after_answer session unread Disposition.continue =
      after_drain session (drain_exactly session.socket unread)

  -- The error response is queued first.
  unfoldable pub refuse_frame : Session F → ℕ → Status → ℕ → Turn F
  unfolding after_answer answer disposition_for
  refuse_frame session seq status unread =
      after_answer
        (record session { connection = answer (error_response seq status) session.connection })
        unread (disposition_for status)

  -- The slot goes back and the reader ends.
  unfoldable pub give_back : Session F → ℕ → Turn F
  give_back session i = elim (release session.slots i) [
    | none ↦ crashed
    | some slots ↦ left (record session { slots = slots })
  ]

  abbrev pub frame_of : Session F → RequestHeader → OpChain F → ℕ → QueuedFrame F
  frame_of session header chain i = record {
    connection = session.connection.id;
    seq_num = header.seq_num;
    flags = header.flags;
    slot = i;
    width = int_of_u32 header.width;
    height = int_of_u32 header.height;
    channels = pos header.channels;
    chain = chain;
  }

  unfoldable pub after_push : Session F → ℕ → Push (QueuedFrame F) → Turn F
  unfolding give_back job_retired
  after_push session i (pushed queue) = again (record session { queue = queue })
  after_push session i rejected =
      give_back (record session { connection = job_retired session.connection }) i
  after_push session i Push.waiting = parked

  -- The job is counted before it is pushed.
  unfoldable pub enqueue_frame : Session F → RequestHeader → OpChain F → ℕ → Turn F
  unfolding after_push job_submitted push
  enqueue_frame session header chain i =
      after_push (record session { connection = job_submitted session.connection }) i
        (push (frame_of session header chain i) session.queue)

  abbrev pub stored : Session F → ℕ → List ℕ → Socket.Connection → Session F
  stored session address buffer socket = record session {
    socket = socket;
    memory = λ k. if k == address then overwrite buffer (session.memory k) else session.memory k;
  }

  -- What follows the read of the payload into slot `i`.
  unfoldable pub payload_of : Session F → RequestHeader → OpChain F → ℕ → ℕ → Reading → Turn F
  unfolding enqueue_frame give_back
  payload_of session header chain i address (returned IoResult.ok buffer socket) =
      enqueue_frame (stored session address buffer socket) header chain i
  payload_of session header chain i address (returned IoResult.eof buffer socket) =
      give_back (stored session address buffer socket) i
  payload_of session header chain i address (returned IoResult.error buffer socket) =
      give_back (stored session address buffer socket) i
  payload_of session header chain i address (blocked buffer) = parked

  unfoldable pub receive_payload : Session F → RequestHeader → OpChain F → ℕ → Turn F
  unfolding payload_of read_exact
  receive_payload session header chain i = elim (slot session.slots i) [
    | none ↦ crashed
    | some address ↦
        payload_of session header chain i address (read_exact session.socket header.payload_len)
  ]

  -- What follows the call of `claim`.
  unfoldable pub after_claim : Session F → RequestHeader → OpChain F → Claim → Turn F
  unfolding receive_payload
  after_claim session header chain (granted i slots) =
      receive_payload (record session { slots = slots }) header chain i
  after_claim session header chain (refused slots) = left (record session { slots = slots })
  after_claim session header chain (waiting slots) = parked
  after_claim session header chain fault = crashed

  unfoldable pub after_request : Session F → Request F → Turn F
  unfolding refuse_frame after_claim claim
  after_request session gone = left session
  after_request session stuck = parked
  after_request session (bad seq status unread socket) =
      refuse_frame (record session { socket = socket }) seq status unread
  after_request session (good header chain socket) =
      after_claim (record session { socket = socket }) header chain
        (claim session.slots session.connection.id)

module _ (R : Floats) where
  open R use {F}

  -- The body of the loop.
  unfoldable pub read_frame : Limits → Session F → Turn F
  unfolding receive_request after_request
  read_frame limits session = after_request session (receive_request R limits session.socket)
