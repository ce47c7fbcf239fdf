-- ===== src/Server/Writer.antt =====
-- src/net/server.cpp: the writer's loop. Whether `save_png` writes a path is a parameter, and so are
-- the answers of `send`. The loop runs on the responses that it takes from the outbox until `pop`
-- returns false, in their order.
pub mod Wire
mod Tests
use image_processing_engine.Prelude.{
  ℕ, zero, suc, ◌+◌, ◌/◌, ◌%◌, Bool, true, false, ◌&&◌, List, [], ◌∷◌, ◌++◌, ltb, ◌==◌,
  if◌then◌else◌, take,
}
use image_processing_engine.Prelude.Ascii.{codes}
use image_processing_engine.Image.{Image}
use image_processing_engine.OpChain.{to_string}
use image_processing_engine.Protocol.{Status, ResponseHeader, encode_response_header}
use image_processing_engine.Socket.{IoResult, Event, Writing, write_exact}
use image_processing_engine.Server.{Response, is_ok, response_header}

-- The name of a result's file is made by the server alone.
unfoldable pub file_path : List ℕ → ℕ → ℕ → List ℕ
unfolding to_string
file_path output_dir id seq =
    output_dir ++ (codes "/frame_" ++ (to_string id ++ (b'_' ∷ (to_string seq ++ codes ".png"))))

-- What the loop keeps: whether the socket is alive, the answers left for `send`, the bytes that went
-- out, and the files that were written with their images.
pub record Writer : Type 0 where
  pub socket_alive : Bool
  pub events : List Event
  pub wire : List ℕ
  pub files : List (List ℕ × Image)

-- A send may wait for ever.
pub data Progress : Type 0 where
  on : Writer → Progress
  stuck : Progress

-- The writer after a transfer: one that failed shuts the socket down.
unfoldable pub after_write : Writer → Writing → Progress
after_write w (Writing.returned IoResult.ok sent events) =
    on (record w { events = events; wire = w.wire ++ sent })
after_write w (Writing.returned IoResult.eof sent events) =
    on (record w { events = events; wire = w.wire ++ sent; socket_alive = false })
after_write w (Writing.returned IoResult.error sent events) =
    on (record w { events = events; wire = w.wire ++ sent; socket_alive = false })
after_write w (Writing.blocked sent) = stuck

-- The pixels follow a header that went out, if it announces any.
unfoldable pub send_pixels : Response → ResponseHeader → Progress → Progress
unfolding after_write write_exact
send_pixels response header stuck = stuck
send_pixels response header (on w) =
    if w.socket_alive && ltb 0 header.payload_len
    then after_write w (write_exact (take header.payload_len response.image.pixels) w.events)
    else on w

unfoldable pub send_response : Writer → Response → Progress
unfolding send_pixels after_write write_exact encode_response_header response_header
send_response w response =
    let header = response_header response in
    send_pixels response header
      (after_write w (write_exact (encode_response_header header) w.events))

module _ (save : List ℕ → Image → Bool) (output_dir : List ℕ) (id : ℕ) where
  abbrev pub wants_file : Response → Bool
  wants_file response = response.write_file && is_ok response.status

  abbrev pub path_of : Response → List ℕ
  path_of response = file_path output_dir id response.seq_num

  -- The response as it is once its file is written, or could not be.
  unfoldable pub settle : Response → Response
  settle response =
      if wants_file response
      then (if save (path_of response) response.image
          then response
          else record response { status = Status.internal_error })
      else response

  unfoldable pub save_file : Writer → Response → Writer
  unfolding file_path
  save_file w response =
      if wants_file response && save (path_of response) response.image
      then record w { files = w.files ++ ((path_of response, response.image) ∷ []) }
      else w

  -- The body of the loop. With a dead socket it only drains the outbox, files included.
  unfoldable pub write_response : Writer → Response → Progress
  unfolding settle save_file send_response
  write_response w response =
      if w.socket_alive
      then send_response (save_file w response) (settle response)
      else on (save_file w response)

  abbrev pub then_write : Progress → (Writer → Progress) → Progress
  then_write stuck more = stuck
  then_write (on w) more = more w

  unfoldable pub writer_loop : Writer → List Response → Progress
  unfolding write_response
  writer_loop w [] = on w
  writer_loop w (response ∷ rest) =
      then_write (write_response w response) (λ next. writer_loop next rest)
