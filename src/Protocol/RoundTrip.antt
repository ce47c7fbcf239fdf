-- ===== src/Protocol/RoundTrip.antt =====
-- Decoding what was encoded, for both frame headers.
use image_processing_engine.Prelude.{◌≡◌, refl, [], some, arith}
use image_processing_engine.Protocol.{
  RequestHeader, ResponseHeader, Status, raw, IsWide, IsWideResponse, IsStatus, status_code,
  status_of_code, encode_request_header, encode_response_header, decode_request_header,
  decode_response_header,
}
use image_processing_engine.Protocol.Bytes.{get_u16-put_u16, get_u32-put_u32}

-- Every request header whose fields fit their types decodes to itself from the bytes it encodes to.
pub decode_request_header-encode_request_header :
    (h : RequestHeader) → IsWide h → decode_request_header (encode_request_header h) ≡ some h
unfolding decode_request_header encode_request_header
decode_request_header-encode_request_header h v = λ i. some (record h {
  magic = get_u32-put_u32 h.magic [] v.magic_fits i;
  seq_num = get_u32-put_u32 h.seq_num [] v.seq_num_fits i;
  width = get_u32-put_u32 h.width [] v.width_fits i;
  height = get_u32-put_u32 h.height [] v.height_fits i;
  payload_len = get_u32-put_u32 h.payload_len [] v.payload_len_fits i;
  chain_len = get_u16-put_u16 h.chain_len [] v.chain_len_fits i;
})

-- The code of a status leads back to it.
status_of_code-status_code : (s : Status) → IsStatus s → status_of_code (status_code s) ≡ s
unfolding status_of_code status_code
status_of_code-status_code Status.ok h = refl
status_of_code-status_code (raw n) h = ground arith
status_of_code-status_code _ h = refl

-- Every response header whose fields fit their types, the status being a named one or a byte above
-- 6, decodes to itself from the bytes it encodes to.
pub decode_response_header-encode_response_header :
    (h : ResponseHeader)
    → IsWideResponse h
    → decode_response_header (encode_response_header h) ≡ some h
unfolding decode_response_header encode_response_header
decode_response_header-encode_response_header h v = λ i. some (record h {
  magic = get_u32-put_u32 h.magic [] v.magic_fits i;
  status = status_of_code-status_code h.status v.status_known i;
  seq_num = get_u32-put_u32 h.seq_num [] v.seq_num_fits i;
  width = get_u32-put_u32 h.width [] v.width_fits i;
  height = get_u32-put_u32 h.height [] v.height_fits i;
  payload_len = get_u32-put_u32 h.payload_len [] v.payload_len_fits i;
})
