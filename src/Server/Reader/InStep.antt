-- ===== src/Server/Reader/InStep.antt =====
-- A reader that goes on stands at the next frame, and has made one answer or one job of the last.
use image_processing_engine.Prelude.{ℕ, ◌+◌, ◌≡◌, ◌⊎◌, some, take, drop}
use image_processing_engine.OpChain.{OpChain, ok, parse_op_chain}
use image_processing_engine.OpChain.Numerics.{Floats}
use image_processing_engine.Protocol.{
  Status, RequestHeader, Limits, request_header_bytes, decode_request_header,
  validate_request_header,
}
use image_processing_engine.Socket
use image_processing_engine.Server.Reader.{Session}
use image_processing_engine.Server.Reader.Turns.{IsRefused, IsQueued}

module _ (R : Floats) (limits : Limits) (s t : Session R.F) where
  -- What a turn that goes on has made of the frame with this header.
  abbrev pub IsHandled : RequestHeader → Type 0
  IsHandled header =
      ((status : Status) × IsRefused s t header status)
      ⊎ ((chain : OpChain R.F) × (i : ℕ) × (address : ℕ) × (validate_request_header header limits
            ≡ Status.ok)
          × (parse_op_chain R (take header.chain_len (drop request_header_bytes s.socket.stream))
              ≡ ok chain)
          × IsQueued s t header chain
              (take header.payload_len
                (drop (request_header_bytes + header.chain_len) s.socket.stream))
              i address)

  -- The reader has read the first header of its stream and stands behind that frame.
  pub record IsInStep (header : RequestHeader) : Type 0 where
    pub first : decode_request_header (take request_header_bytes s.socket.stream) ≡ some header
    pub behind :
        t.socket.stream
        ≡ drop (request_header_bytes + header.chain_len + header.payload_len) s.socket.stream
    pub handled : IsHandled header
