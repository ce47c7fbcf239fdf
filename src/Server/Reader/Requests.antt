-- ===== src/Server/Reader/Requests.antt =====
-- What the reader has at hand once it has read a header and, behind a valid one, the chain.
use image_processing_engine.Prelude.{
  ℕ, ◌+◌, ◌≡◌, refl, sym, ap, ◌∙◌, List, Option, none, some, arith, take, drop,
}
use image_processing_engine.OpChain.{OpChain, Result, ok, err, parse_op_chain}
use image_processing_engine.OpChain.Numerics.{Floats}
use image_processing_engine.Protocol.{
  Status, RequestHeader, Limits, request_header_bytes, decode_request_header,
  validate_request_header,
}
use image_processing_engine.Socket
use image_processing_engine.Socket.{IoResult, Reading, returned, blocked, read_exact, drain_exactly}
use image_processing_engine.Socket.Exact.{read_exact-HasRead, drop-drop}
use image_processing_engine.Server.Reader.{
  parsed, decoded, Request, gone, stuck, bad, good, chain_of, body_of, header_of, receive_request,
}

module _ (R : Floats) (limits : Limits) (stream : List ℕ) where
  open R use {F}

  -- The header is the stream's first, it is not valid, or what follows it is not a chain, and behind
  -- what is unread the next frame begins.
  pub record IsBad (seq : ℕ) (status : Status) (unread : ℕ) (rest : Socket.Connection)
      (header : RequestHeader) : Type 0 where
    pub first : decode_request_header (take request_header_bytes stream) ≡ some header
    pub number : seq ≡ header.seq_num
    pub behind :
        drop unread rest.stream
        ≡ drop (request_header_bytes + header.chain_len + header.payload_len) stream

  -- The header is the stream's first, it is valid, and the bytes behind it are the chain.
  pub record IsGood (header : RequestHeader) (chain : OpChain F) (rest : Socket.Connection)
      : Type 0 where
    pub first : decode_request_header (take request_header_bytes stream) ≡ some header
    pub valid : validate_request_header header limits ≡ Status.ok
    pub text :
        parse_op_chain R (take header.chain_len (drop request_header_bytes stream)) ≡ ok chain
    pub behind : rest.stream ≡ drop (request_header_bytes + header.chain_len) stream

  abbrev pub Fits : Request F → Type 0
  Fits gone = Unit {0}
  Fits stuck = Unit {0}
  Fits (bad seq status unread rest) = (header : RequestHeader) × IsBad seq status unread rest header
  Fits (good header chain rest) = IsGood header chain rest

  module _ (header : RequestHeader) (mid : Socket.Connection)
      (first : decode_request_header (take request_header_bytes stream) ≡ some header)
      (left_over : mid.stream ≡ drop request_header_bytes stream) where
    parsed-Fits :
        (rest : Socket.Connection) (result : Result (OpChain F))
        → validate_request_header header limits ≡ Status.ok
        → parse_op_chain R (take header.chain_len (drop request_header_bytes stream)) ≡ result
        → rest.stream ≡ drop header.chain_len mid.stream
        → Fits (parsed R header rest result)
    parsed-Fits rest (ok chain) valid text e = record {
      first = first;
      valid = valid;
      text = text;
      behind =
          e
          ∙ ap (drop header.chain_len) left_over
          ∙ drop-drop request_header_bytes header.chain_len stream;
    }
    parsed-Fits rest (err reason) valid text e = (
      header,
      record {
        first = first;
        number = refl;
        behind =
            ap (λ l. drop header.payload_len l)
              (e
                ∙ ap (drop header.chain_len) left_over
                ∙ drop-drop request_header_bytes header.chain_len stream)
            ∙ drop-drop (request_header_bytes + header.chain_len) header.payload_len stream;
      },
    )

    chain_of-Fits :
        (reading : Reading)
        → read_exact mid header.chain_len ≡ reading
        → validate_request_header header limits ≡ Status.ok
        → Fits (chain_of R header reading)
    unfolding chain_of
    chain_of-Fits (returned IoResult.ok buffer rest) e valid =
        let r = read_exact-HasRead mid header.chain_len buffer rest e in
        parsed-Fits rest (parse_op_chain R buffer) valid
          (ap (λ l. parse_op_chain R (take header.chain_len l)) (sym left_over)
            ∙ ap (parse_op_chain R) (sym r.read))
          r.left
    chain_of-Fits (returned IoResult.eof buffer rest) e valid = tt
    chain_of-Fits (returned IoResult.error buffer rest) e valid = tt
    chain_of-Fits (blocked buffer) e valid = tt

    bad-Fits :
        (status : Status)
        → Fits (bad header.seq_num status (header.chain_len + header.payload_len) mid)
    bad-Fits status = (
      header,
      record {
        first = first;
        number = refl;
        behind =
            ap (λ l. drop (header.chain_len + header.payload_len) l) left_over
            ∙ drop-drop request_header_bytes (header.chain_len + header.payload_len) stream
            ∙ ap (λ k. drop k stream) (omega arith);
      },
    )

    body_of-Fits :
        (status : Status)
        → validate_request_header header limits ≡ status
        → Fits (body_of R header mid status)
    unfolding body_of
    body_of-Fits Status.ok valid = chain_of-Fits (read_exact mid header.chain_len) refl valid
    body_of-Fits Status.bad_magic e = bad-Fits Status.bad_magic
    body_of-Fits Status.unsupported_version e = bad-Fits Status.unsupported_version
    body_of-Fits Status.payload_too_large e = bad-Fits Status.payload_too_large
    body_of-Fits Status.bad_chain e = bad-Fits Status.bad_chain
    body_of-Fits Status.length_mismatch e = bad-Fits Status.length_mismatch
    body_of-Fits Status.internal_error e = bad-Fits Status.internal_error
    body_of-Fits (Status.raw n) e = bad-Fits (Status.raw n)

  decoded-Fits :
      (mid : Socket.Connection) (found : Option RequestHeader)
      → decode_request_header (take request_header_bytes stream) ≡ found
      → mid.stream ≡ drop request_header_bytes stream
      → Fits (decoded R limits mid found)
  decoded-Fits mid none first left_over = tt
  decoded-Fits mid (some header) first left_over =
      body_of-Fits header mid first left_over (validate_request_header header limits) refl

module _ (R : Floats) (limits : Limits) (socket : Socket.Connection) where
  header_of-Fits :
      (reading : Reading)
      → read_exact socket request_header_bytes ≡ reading
      → Fits R limits socket.stream (header_of R limits reading)
  unfolding header_of
  header_of-Fits (returned IoResult.ok buffer mid) e =
      let r = read_exact-HasRead socket request_header_bytes buffer mid e in
      decoded-Fits R limits socket.stream mid (decode_request_header buffer)
        (ap decode_request_header (sym r.read)) r.left
  header_of-Fits (returned IoResult.eof buffer mid) e = tt
  header_of-Fits (returned IoResult.error buffer mid) e = tt
  header_of-Fits (blocked buffer) e = tt

  pub receive_request-Fits : Fits R limits socket.stream (receive_request R limits socket)
  unfolding receive_request
  receive_request-Fits = header_of-Fits (read_exact socket request_header_bytes) refl
