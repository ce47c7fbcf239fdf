-- ===== src/Server/Writer/Wire.antt =====
-- What goes out on the wire and into files, over a run of the writer's loop.
use image_processing_engine.Prelude.{
  ℕ, ◌≡◌, Bool, true, false, ◌&&◌, List, [], ◌∷◌, ◌++◌, take, if◌then◌else◌,
}
use image_processing_engine.Image.{Image}
use image_processing_engine.Protocol.{encode_response_header}
use image_processing_engine.Server.{Response, response_header}
use image_processing_engine.Server.Writer.{Writer, Progress, on, stuck, wants_file, path_of, settle}

-- The frame of a response: its header and so many bytes of its pixels.
abbrev pub frame_bytes : Response → List ℕ
frame_bytes response =
    encode_response_header (response_header response)
    ++ take (response_header response).payload_len response.image.pixels

-- What a transfer did: it sent the whole buffer or the socket is dead, and no file is touched.
abbrev pub HasSent : List ℕ → Writer → Progress → Type 0
HasSent buffer w stuck = Unit {0}
HasSent buffer w (on v) = (v.files ≡ w.files) × (v.socket_alive ≡ true → v.wire ≡ w.wire ++ buffer)

module _ (save : List ℕ → Image → Bool) (output_dir : List ℕ) (id : ℕ) where
  -- The files that a list of responses leaves, and the bytes of their frames.
  abbrev pub file_of : Response → List (List ℕ × Image)
  file_of response =
      if wants_file save output_dir id response
        && save (path_of save output_dir id response) response.image
      then (path_of save output_dir id response, response.image) ∷ []
      else []

  abbrev pub files_of : List Response → List (List ℕ × Image)
  files_of [] = []
  files_of (response ∷ rest) = file_of response ++ files_of rest

  abbrev pub bytes_of : List Response → List ℕ
  bytes_of [] = []
  bytes_of (response ∷ rest) = frame_bytes (settle save output_dir id response) ++ bytes_of rest

  -- The writer after its loop over these responses.
  pub record IsWritten (w v : Writer) (responses : List Response) : Type 0 where
    pub saved : v.files ≡ w.files ++ files_of responses
    pub whole : v.socket_alive ≡ true → v.wire ≡ w.wire ++ bytes_of responses
    pub dead : w.socket_alive ≡ false → (v.wire ≡ w.wire) × (v.socket_alive ≡ false)
