-- ===== src/Protocol/Tests.antt =====
-- Witnesses of the protocol's theorems on concrete headers.
use image_processing_engine.Prelude.{◌*◌, ◌+◌, ◌^◌, ◌≡◌, ◌↔◌, refl, arith, some}
use image_processing_engine.Protocol.{
  RequestHeader, ResponseHeader, Limits, Status, magic_number, version_number,
  encode_request_header, decode_request_header, encode_response_header, decode_response_header,
  validate_request_header, max_payload_bytes, max_chain_len,
}
use image_processing_engine.Protocol.RoundTrip.{
  decode_request_header-encode_request_header, decode_response_header-encode_response_header,
}
use image_processing_engine.Protocol.Validate.{IsFrame, validate_request_header_iff, validate_wraps}

abbrev small_request : RequestHeader
small_request = record {
  magic = magic_number;
  version = version_number;
  flags = 1;
  seq_num = 70000;
  width = 640;
  height = 300;
  channels = 3;
  payload_len = 576000;
  chain_len = 12;
}

abbrev wide_limits : Limits
wide_limits = record { max_payload = max_payload_bytes; max_chain = max_chain_len }

-- Both dimensions 2 ^ 31, with an empty payload.
abbrev wrapping_request : RequestHeader
wrapping_request = record small_request {
  width = 2 ^ 31;
  height = 2 ^ 31;
  channels = 4;
  payload_len = 0;
}

abbrev small_response : ResponseHeader
small_response = record {
  magic = magic_number;
  version = version_number;
  status = Status.ok;
  seq_num = 70000;
  width = 640;
  height = 300;
  channels = 3;
  payload_len = 576000;
}

decode_request_header-encode_request_header_example :
    decode_request_header (encode_request_header small_request) ≡ some small_request
decode_request_header-encode_request_header_example =
    decode_request_header-encode_request_header small_request (record {
      magic_fits = omega arith;
      version_fits = omega arith;
      flags_fit = omega arith;
      seq_num_fits = omega arith;
      width_fits = omega arith;
      height_fits = omega arith;
      channels_fit = omega arith;
      payload_len_fits = omega arith;
      chain_len_fits = omega arith;
    })

decode_response_header-encode_response_header_example :
    decode_response_header (encode_response_header small_response) ≡ some small_response
decode_response_header-encode_response_header_example =
    decode_response_header-encode_response_header small_response (record {
      magic_fits = omega arith;
      version_fits = omega arith;
      status_known = tt;
      seq_num_fits = omega arith;
      width_fits = omega arith;
      height_fits = omega arith;
      channels_fit = omega arith;
      payload_len_fits = omega arith;
    })

validate_request_header_iff_example :
    (validate_request_header small_request wide_limits ≡ Status.ok)
    ↔ IsFrame small_request wide_limits
validate_request_header_iff_example =
    validate_request_header_iff small_request wide_limits (omega arith) (omega arith)

validate_wraps_example :
    (validate_request_header wrapping_request wide_limits ≡ Status.ok)
    × (wrapping_request.width * wrapping_request.height * wrapping_request.channels
        ≡ 2 ^ 64 + wrapping_request.payload_len)
validate_wraps_example =
    validate_wraps wrapping_request wide_limits 0 refl refl (omega arith) (omega arith) refl
      (omega arith) (omega arith) (omega arith)
