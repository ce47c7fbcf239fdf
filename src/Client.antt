-- ===== src/Client.antt =====
-- include/imgjit/net/client.h and src/net/client.cpp: what the client sends, what it accepts, and the
-- map of frames that wait for a response. Whether the transfers go through is an argument: they are
-- the loops of Socket. The time stamps of the map's entries are left out.
pub mod Matching
mod Tests
use image_processing_engine.Prelude.{
  ℕ, zero, suc, ◌+◌, ◌*◌, ◌%◌, ◌^◌, max, Bool, true, false, ◌&&◌, ◌||◌, not, List, [], ◌∷◌, Option,
  none, some, ltb, ◌==◌, if◌then◌else◌, length,
}
use image_processing_engine.Prelude.Integers.{pos}
use image_processing_engine.Image.{Image, init, int_of_u32, byte_count}
use image_processing_engine.Protocol.{
  RequestHeader, ResponseHeader, magic_number, version_number, max_payload_bytes,
  decode_response_header,
}

pub record PendingFrame : Type 0 where
  pub seq_num : ℕ
  pub chain : List ℕ
  pub width : ℕ
  pub height : ℕ
  pub channels : ℕ
  pub flags : ℕ

pub record Client : Type 0 where
  pub next_seq_num : ℕ
  pub pending : List (ℕ × PendingFrame)

unfoldable pub find_pending : ℕ → List (ℕ × PendingFrame) → Option PendingFrame
find_pending seq [] = none
find_pending seq ((key, frame) ∷ pending) =
    if key == seq then some frame else find_pending seq pending

unfoldable pub erase_pending : ℕ → List (ℕ × PendingFrame) → List (ℕ × PendingFrame)
erase_pending seq [] = []
erase_pending seq ((key, frame) ∷ pending) =
    let rest = erase_pending seq pending in if key == seq then pending else (key, frame) ∷ rest

-- `pending_.emplace`: a key that is there already keeps its frame.
unfoldable pub emplace : PendingFrame → List (ℕ × PendingFrame) → List (ℕ × PendingFrame)
unfolding find_pending
emplace frame pending = elim (find_pending frame.seq_num pending) [
  | some found ↦ pending
  | none ↦ (frame.seq_num, frame) ∷ pending
]

-- The header of the next frame; the fields are cast to their widths.
unfoldable pub request_header : Client → Image → List ℕ → ℕ → RequestHeader
unfolding byte_count
request_header client image chain flags = record {
  magic = magic_number;
  version = version_number;
  flags = flags;
  seq_num = client.next_seq_num;
  width = image.width % 2 ^ 32;
  height = image.height % 2 ^ 32;
  channels = image.channels % 2 ^ 8;
  payload_len = byte_count image % 2 ^ 32;
  chain_len = length chain % 2 ^ 16;
}

-- A frame that went out, with its number, or the runtime_error of a transfer that failed, behind
-- which the number is used up.
pub data Sent : Type 0 where
  sent : ℕ → Client → Sent
  failed : Client → Sent

abbrev pub frame_of : Client → Image → List ℕ → ℕ → PendingFrame
frame_of client image chain flags = record {
  seq_num = client.next_seq_num;
  chain = chain;
  width = image.width;
  height = image.height;
  channels = image.channels;
  flags = flags;
}

-- `written` is whether the three writes gave `ok`.
unfoldable pub send : Client → Image → List ℕ → ℕ → Bool → Sent
unfolding emplace
send client image chain flags written =
    let next = (client.next_seq_num + 1) % 2 ^ 32 in
    if not written
    then failed (record client { next_seq_num = next })
    else sent client.next_seq_num (record {
      next_seq_num = next;
      pending = emplace (frame_of client image chain flags) client.pending;
    })

-- The frame that `send_raw` records, as the header describes it, whatever was sent.
unfoldable pub send_raw : Client → RequestHeader → List ℕ → Bool → Option Client
unfolding emplace
send_raw client header chain written =
    if not written
    then none
    else some (record {
      next_seq_num = max client.next_seq_num ((header.seq_num + 1) % 2 ^ 32);
      pending =
          emplace
            (record {
              seq_num = header.seq_num;
              chain = chain;
              width = header.width;
              height = header.height;
              channels = header.channels;
              flags = header.flags;
            })
            client.pending;
    })

-- The checks of a response with a payload; the product is a uint64_t.
unfoldable pub is_payload_sound : ResponseHeader → Bool
is_payload_sound header =
    (header.width * header.height % 2 ^ 64 * header.channels % 2 ^ 64 == header.payload_len)
    && not (ltb max_payload_bytes header.payload_len)

-- Whether the constructor of the response's image takes its dimensions, which are cast to `int`.
unfoldable pub is_image_made : ResponseHeader → Bool
unfolding init int_of_u32
is_image_made header =
    elim (init (int_of_u32 header.width) (int_of_u32 header.height) (pos header.channels)) [
      | none ↦ false
      | some image ↦ true
    ]

-- A response with the request that it answers, if that is one of the client's.
pub data Received : Type 0 where
  received : ResponseHeader → Option PendingFrame → Client → Received
  connection_closed bad_magic bad_payload bad_image : Received

-- The end of `receive`.
unfoldable pub match_request : Client → ResponseHeader → Received
unfolding find_pending erase_pending
match_request client header = elim (find_pending header.seq_num client.pending) [
  | none ↦ received header none client
  | some frame ↦
      received header (some frame)
        (record client { pending = erase_pending header.seq_num client.pending })
]

-- `payload_read` is whether the payload's bytes arrive; they are read only if there are any.
unfoldable pub receive_header : Client → ResponseHeader → Bool → Received
unfolding is_payload_sound is_image_made match_request
receive_header client header payload_read =
    if not (header.magic == magic_number)
    then bad_magic
    else if header.payload_len == 0
    then match_request client header
    else if not (is_payload_sound header)
    then bad_payload
    else if not (is_image_made header)
    then bad_image
    else if not payload_read
    then connection_closed
    else match_request client header

-- `header_bytes` is what the read of the header gives, `none` where that fails.
unfoldable pub receive : Client → Option (List ℕ) → Bool → Received
unfolding receive_header decode_response_header
receive client none payload_read = connection_closed
receive client (some header_bytes) payload_read = elim (decode_response_header header_bytes) [
  | none ↦ bad_magic
  | some header ↦ receive_header client header payload_read
]
