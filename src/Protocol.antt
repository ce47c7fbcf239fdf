-- ===== src/Protocol.antt =====
-- include/imgjit/net/protocol.h and src/net/protocol.cpp: the wire format. A byte is a number
-- below 256, a buffer a list of bytes; reading through `bytes + k` reads at index k. The frame
-- structs are records of numbers whose ranges `IsWide` states.
pub mod Bytes
pub mod RoundTrip
pub mod Validate
mod Tests
use image_processing_engine.Prelude.{
  ℕ, ◌+◌, ◌*◌, ◌/◌, ◌%◌, ◌^◌, ◌≤◌, ◌<◌, bit_and, bit_or, Bool, ◌||◌, not, List, [], ◌∷◌, ◌++◌,
  Option, none, some, ltb, ◌==◌, if◌then◌else◌, length, get_or, drop,
}
use image_processing_engine.Prelude.Ascii.{codes}
use image_processing_engine.Image.Channels.{is_supported_channel_count}

abbrev pub magic_number : ℕ
magic_number = 0xdeadbeef

abbrev pub version_number : ℕ
version_number = 1

abbrev pub request_header_bytes : ℕ
request_header_bytes = 25

abbrev pub response_header_bytes : ℕ
response_header_bytes = 23

-- 64U * 1024U * 1024U
abbrev pub max_payload_bytes : ℕ
max_payload_bytes = 64 * 1024 * 1024

abbrev pub max_chain_len : ℕ
max_chain_len = 256

abbrev pub flag_echo : ℕ
flag_echo = 1

abbrev pub flag_server_write : ℕ
flag_server_write = 2

-- `raw n` is a value that `static_cast<Status>` makes of a byte above 6.
pub data Status : Type 0 where
  ok bad_magic unsupported_version payload_too_large bad_chain length_mismatch internal_error :
      Status
  raw : ℕ → Status

pub data Disposition : Type 0 where
  continue drain close : Disposition

pub record RequestHeader : Type 0 where
  pub magic : ℕ
  pub version : ℕ
  pub flags : ℕ
  pub seq_num : ℕ
  pub width : ℕ
  pub height : ℕ
  pub channels : ℕ
  pub payload_len : ℕ
  pub chain_len : ℕ

pub record ResponseHeader : Type 0 where
  pub magic : ℕ
  pub version : ℕ
  pub status : Status
  pub seq_num : ℕ
  pub width : ℕ
  pub height : ℕ
  pub channels : ℕ
  pub payload_len : ℕ

pub record Limits : Type 0 where
  pub max_payload : ℕ
  pub max_chain : ℕ

-- `value & 0xFFU` after `value >> shift`, which is a division by 2 ^ shift.
abbrev byte_at : ℕ → ℕ → ℕ
byte_at value shift = bit_and (value / 2 ^ shift) 0xff

unfoldable pub put_u8 : ℕ → List ℕ
put_u8 value = value ∷ []

unfoldable pub put_u16 : ℕ → List ℕ
put_u16 value = bit_and value 0xff ∷ byte_at value 8 ∷ []

unfoldable pub put_u32 : ℕ → List ℕ
put_u32 value = bit_and value 0xff ∷ byte_at value 8 ∷ byte_at value 16 ∷ byte_at value 24 ∷ []

-- `in[i]` through a pointer; the callers keep `i` inside the buffer.
unfoldable pub get_u8 : List ℕ → ℕ
get_u8 bytes = get_or bytes 0 0

-- A shift of one byte by 8 stays below 2 ^ 16, so neither cast drops a bit.
unfoldable pub get_u16 : List ℕ → ℕ
unfolding get_u8
get_u16 bytes = bit_or (get_u8 bytes) (get_u8 (drop 1 bytes) * 2 ^ 8)

unfoldable pub get_u32 : List ℕ → ℕ
unfolding get_u8
get_u32 bytes =
    bit_or
      (bit_or (bit_or (get_u8 bytes) (get_u8 (drop 1 bytes) * 2 ^ 8))
        (get_u8 (drop 2 bytes) * 2 ^ 16))
      (get_u8 (drop 3 bytes) * 2 ^ 24)

unfoldable pub disposition_for : Status → Disposition
disposition_for Status.ok = continue
disposition_for internal_error = continue
disposition_for bad_chain = drain
disposition_for length_mismatch = drain
disposition_for bad_magic = close
disposition_for unsupported_version = close
disposition_for payload_too_large = close
disposition_for (raw n) = close

abbrev pub status_message : Status → List ℕ
status_message Status.ok = codes "ok"
status_message bad_magic = codes "bad magic"
status_message unsupported_version = codes "unsupported version"
status_message payload_too_large = codes "payload exceeds the configured maximum"
status_message bad_chain = codes "op chain too long or malformed"
status_message length_mismatch = codes "payload length does not match width * height * channels"
status_message internal_error = codes "internal error"
status_message (raw n) = codes "unknown status"

-- `static_cast<std::uint8_t>(status)`
unfoldable pub status_code : Status → ℕ
status_code Status.ok = 0
status_code bad_magic = 1
status_code unsupported_version = 2
status_code payload_too_large = 3
status_code bad_chain = 4
status_code length_mismatch = 5
status_code internal_error = 6
status_code (raw n) = n

-- `static_cast<Status>(byte)`
unfoldable pub status_of_code : ℕ → Status
status_of_code n =
    if n == 0
    then Status.ok
    else if n == 1
    then bad_magic
    else if n == 2
    then unsupported_version
    else if n == 3
    then payload_too_large
    else if n == 4
    then bad_chain
    else if n == 5
    then length_mismatch
    else if n == 6
    then internal_error
    else raw n

-- The fields are written in the order of their offsets, each behind the one before.
unfoldable pub encode_request_header : RequestHeader → List ℕ
unfolding put_u8 put_u16 put_u32
encode_request_header h =
    put_u32 h.magic
    ++ (put_u8 h.version
        ++ (put_u8 h.flags
            ++ (put_u32 h.seq_num
                ++ (put_u32 h.width
                    ++ (put_u32 h.height
                        ++ (put_u8 h.channels
                            ++ (put_u32 h.payload_len ++ put_u16 h.chain_len)))))))

unfoldable pub encode_response_header : ResponseHeader → List ℕ
unfolding put_u8 put_u32 status_code
encode_response_header h =
    put_u32 h.magic
    ++ (put_u8 h.version
        ++ (put_u8 (status_code h.status)
            ++ (put_u32 h.seq_num
                ++ (put_u32 h.width
                    ++ (put_u32 h.height ++ (put_u8 h.channels ++ put_u32 h.payload_len))))))

-- A null pointer is not modelled: the two callers pass the address of a local array.
unfoldable pub decode_request_header : List ℕ → Option RequestHeader
unfolding get_u8 get_u16 get_u32
decode_request_header bytes =
    if length bytes == request_header_bytes
    then some (record {
      magic = get_u32 bytes;
      version = get_u8 (drop 4 bytes);
      flags = get_u8 (drop 5 bytes);
      seq_num = get_u32 (drop 6 bytes);
      width = get_u32 (drop 10 bytes);
      height = get_u32 (drop 14 bytes);
      channels = get_u8 (drop 18 bytes);
      payload_len = get_u32 (drop 19 bytes);
      chain_len = get_u16 (drop 23 bytes);
    })
    else none

unfoldable pub decode_response_header : List ℕ → Option ResponseHeader
unfolding get_u8 get_u32 status_of_code
decode_response_header bytes =
    if length bytes == response_header_bytes
    then some (record {
      magic = get_u32 bytes;
      version = get_u8 (drop 4 bytes);
      status = status_of_code (get_u8 (drop 5 bytes));
      seq_num = get_u32 (drop 6 bytes);
      width = get_u32 (drop 10 bytes);
      height = get_u32 (drop 14 bytes);
      channels = get_u8 (drop 18 bytes);
      payload_len = get_u32 (drop 19 bytes);
    })
    else none

-- The product is a uint64_t product, as in the source.
unfoldable pub validate_request_header : RequestHeader → Limits → Status
validate_request_header h limits =
    if not (h.magic == magic_number)
    then bad_magic
    else if not (h.version == version_number)
    then unsupported_version
    else if ltb limits.max_payload h.payload_len
    then payload_too_large
    else if ltb limits.max_chain h.chain_len
    then bad_chain
    else if not (is_supported_channel_count h.channels) || h.width == 0 || h.height == 0
    then length_mismatch
    else if not (h.width * h.height % 2 ^ 64 * h.channels % 2 ^ 64 == h.payload_len)
    then length_mismatch
    else Status.ok

-- Every field fits the integer type that the struct gives it.
pub record IsWide (h : RequestHeader) : Type 0 where
  pub magic_fits : h.magic < 2 ^ 32
  pub version_fits : h.version < 2 ^ 8
  pub flags_fit : h.flags < 2 ^ 8
  pub seq_num_fits : h.seq_num < 2 ^ 32
  pub width_fits : h.width < 2 ^ 32
  pub height_fits : h.height < 2 ^ 32
  pub channels_fit : h.channels < 2 ^ 8
  pub payload_len_fits : h.payload_len < 2 ^ 32
  pub chain_len_fits : h.chain_len < 2 ^ 16

-- A status is one that the enumeration names, or a byte above them.
abbrev pub IsStatus : Status → Type 0
IsStatus (raw n) = (7 ≤ n) × (n < 2 ^ 8)
IsStatus _ = Unit {0}

pub record IsWideResponse (h : ResponseHeader) : Type 0 where
  pub magic_fits : h.magic < 2 ^ 32
  pub version_fits : h.version < 2 ^ 8
  pub status_known : IsStatus h.status
  pub seq_num_fits : h.seq_num < 2 ^ 32
  pub width_fits : h.width < 2 ^ 32
  pub height_fits : h.height < 2 ^ 32
  pub channels_fit : h.channels < 2 ^ 8
  pub payload_len_fits : h.payload_len < 2 ^ 32
