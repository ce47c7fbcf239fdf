-- ===== src/Server.antt =====
-- src/net/server.cpp: a connection's queue of responses, its count of jobs, and what the reader and
-- the writer thread make of one header and of one response. A member function under a mutex is one
-- step. A `Connection` has no socket here: what the transfers do is in Socket.
pub mod Delivery
pub mod Frames
pub mod Worker
pub mod System
pub mod Reader
pub mod Writer
pub mod Lifecycle
mod Tests
use image_processing_engine.Prelude.{
  ℕ, zero, suc, ◌+◌, ◌-◌, ◌%◌, ◌^◌, Bool, true, false, ◌&&◌, not, List, [], ◌∷◌, ◌++◌, Option, none,
  some, ltb, ◌==◌, if◌then◌else◌, bit_and,
}
use image_processing_engine.Image.{Image, no_image, byte_count}
use image_processing_engine.Protocol.{
  Status, RequestHeader, ResponseHeader, Limits, Disposition, disposition_for,
  validate_request_header, magic_number, version_number,
}

pub record Response : Type 0 where
  pub seq_num : ℕ
  pub status : Status
  pub echo : Bool
  pub write_file : Bool
  pub image : Image

-- The head of `items` is the front.
pub record Outbox : Type 0 where
  pub items : List Response
  pub closed : Bool

-- A closed outbox drops what is pushed.
unfoldable pub push_response : Response → Outbox → Outbox
push_response response outbox =
    if outbox.closed then outbox else record outbox { items = outbox.items ++ (response ∷ []) }

-- `pop` returned true with a response, returned false, or waits.
pub data Taken : Type 0 where
  taken : Response → Outbox → Taken
  ended waiting : Taken

unfoldable pub take_front : Outbox → List Response → Taken
take_front outbox [] = if outbox.closed then ended else waiting
take_front outbox (response ∷ items) = taken response (record outbox { items = items })

unfoldable pub pop_response : Outbox → Taken
unfolding take_front
pop_response outbox = take_front outbox outbox.items

unfoldable pub close_outbox : Outbox → Outbox
close_outbox outbox = record outbox { closed = true }

pub record Connection : Type 0 where
  pub id : ℕ
  pub outbox : Outbox
  pub outstanding : ℕ
  pub reader_done : Bool

-- The constructor.
abbrev pub connect : ℕ → Connection
connect id = record {
  id = id;
  outbox = record { items = []; closed = false };
  outstanding = 0;
  reader_done = false;
}

unfoldable pub close_outbox_if_done : Connection → Connection
unfolding close_outbox
close_outbox_if_done connection =
    if connection.reader_done && connection.outstanding == 0
    then record connection { outbox = close_outbox connection.outbox }
    else connection

-- The count is a size_t.
unfoldable pub job_submitted : Connection → Connection
job_submitted connection = record connection { outstanding = (connection.outstanding + 1) % 2 ^ 64 }

unfoldable pub job_retired : Connection → Connection
unfolding close_outbox_if_done
job_retired connection =
    close_outbox_if_done
      (record connection { outstanding = (connection.outstanding + (2 ^ 64 - 1)) % 2 ^ 64 })

unfoldable pub reader_finished : Connection → Connection
unfolding close_outbox_if_done
reader_finished connection = close_outbox_if_done (record connection { reader_done = true })

-- `connection->outbox.push(response)`
unfoldable pub answer : Response → Connection → Connection
unfolding push_response
answer response connection = record connection { outbox = push_response response connection.outbox }

-- The end of `retire`: the response is queued before the job is counted off.
unfoldable pub answer_job : Response → Connection → Connection
unfolding answer job_retired
answer_job response connection = job_retired (answer response connection)

-- What the reader does with a header and, where it reads one, the parse of the chain.
pub data Reaction : Type 0 where
  -- Claim a slot, read the payload into it and queue the frame.
  accept : Reaction
  -- Queue an error response and drain so many bytes.
  drain_after : Status → ℕ → Reaction
  -- Queue an error response and stop.
  stop_after : Status → Reaction

-- `unread` as it stands when the error is found.
unfoldable pub react : Status → ℕ → Reaction
unfolding disposition_for
react Status.ok unread = accept
react status unread = elim (disposition_for status) [
  | Disposition.close ↦ stop_after status
  | _ ↦ drain_after status unread
]

-- What follows the validation. `parsed` is whether the chain's bytes, which are read only behind a
-- valid header, are a chain.
unfoldable pub reaction_to : Status → RequestHeader → Bool → Reaction
unfolding react
reaction_to Status.ok header parsed =
    if parsed then accept else react Status.bad_chain header.payload_len
reaction_to status header parsed = react status (header.chain_len + header.payload_len)

unfoldable pub reader_reaction : RequestHeader → Limits → Bool → Reaction
unfolding reaction_to validate_request_header
reader_reaction header limits parsed =
    reaction_to (validate_request_header header limits) header parsed

abbrev pub is_ok : Status → Bool
is_ok Status.ok = true
is_ok _ = false

-- The header that `writer_loop` sends for a response, once the response's file is written or its
-- status changed because that failed. The payload follows if its length is not 0.
unfoldable pub response_header : Response → ResponseHeader
unfolding byte_count
response_header response =
    if is_ok response.status
    then record {
      magic = magic_number;
      version = version_number;
      status = response.status;
      seq_num = response.seq_num;
      width = response.image.width % 2 ^ 32;
      height = response.image.height % 2 ^ 32;
      channels = response.image.channels % 2 ^ 8;
      payload_len = if response.echo then byte_count response.image % 2 ^ 32 else 0;
    }
    else record {
      magic = magic_number;
      version = version_number;
      status = response.status;
      seq_num = response.seq_num;
      width = 0;
      height = 0;
      channels = 0;
      payload_len = 0;
    }
