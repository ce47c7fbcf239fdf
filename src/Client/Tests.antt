-- ===== src/Client/Tests.antt =====
-- Witnesses of the client's theorems: a frame, its echo, and the header of the echo.
use image_processing_engine.Prelude.{
  ◌≡◌, refl, arith, true, false, [], ◌∷◌, none, some, inl, inr, ◌⊎◌,
}
use image_processing_engine.Image.{Image, init, int_of_u32, byte_count}
use image_processing_engine.Image.Channels.{is_supported_channel_count}
use image_processing_engine.Image.Pixels.{IsImage}
use image_processing_engine.Protocol.{
  Status, ResponseHeader, magic_number, version_number, encode_response_header,
}
use image_processing_engine.Server.{Response, response_header}
use image_processing_engine.Client.{
  Client, PendingFrame, erase_pending, send, sent, emplace, find_pending, frame_of, receive,
  received, is_payload_sound, is_image_made,
}
use image_processing_engine.Client.Matching.{receive-send, is_payload_sound-response_header}

abbrev new_client : Client
new_client = record { next_seq_num = 1; pending = [] }

abbrev dot : Image
dot = record { width = 1; height = 1; channels = 1; stride = 1; pixels = 7 ∷ [] }

abbrev waiting_client : Client
waiting_client = record { next_seq_num = 2; pending = (1, frame_of new_client dot [] 1) ∷ [] }

dot_sent : send new_client dot [] 1 true ≡ sent 1 waiting_client
unfolding send emplace find_pending
dot_sent = refl

abbrev echo_header : ResponseHeader
echo_header = record {
  magic = magic_number;
  version = version_number;
  status = Status.ok;
  seq_num = 1;
  width = 1;
  height = 1;
  channels = 1;
  payload_len = 1;
}

sound_echo : is_payload_sound echo_header ≡ true
unfolding is_payload_sound
sound_echo = refl

made_echo : is_image_made echo_header ≡ true
unfolding is_image_made init int_of_u32 is_supported_channel_count
made_echo = refl

receive-send_example :
    ((find_pending 1 new_client.pending ≡ none)
      × (receive waiting_client (some (encode_response_header echo_header)) true
          ≡ received echo_header
              (some (frame_of new_client dot [] 1))
              (record waiting_client { pending = new_client.pending })))
    ⊎ ((old : PendingFrame) × (find_pending 1 new_client.pending ≡ some old)
        × (receive waiting_client (some (encode_response_header echo_header)) true
            ≡ received echo_header
                (some old)
                (record waiting_client { pending = erase_pending 1 new_client.pending })))
receive-send_example =
    receive-send new_client waiting_client dot [] 1 1 echo_header true dot_sent
      (record {
        magic_fits = omega arith;
        version_fits = omega arith;
        status_known = tt;
        seq_num_fits = omega arith;
        width_fits = omega arith;
        height_fits = omega arith;
        channels_fit = omega arith;
        payload_len_fits = omega arith;
      })
      refl refl (inr (sound_echo, made_echo, refl))

dot-IsImage : IsImage dot
dot-IsImage = record {
  width_positive = omega arith;
  height_positive = omega arith;
  channels_supported = inl refl;
  packed = refl;
  filled = refl;
}

abbrev echo_response : Response
echo_response = record {
  seq_num = 1;
  status = Status.ok;
  echo = true;
  write_file = false;
  image = dot;
}

is_payload_sound-response_header_example :
    ((true ≡ false) → (response_header echo_response).payload_len ≡ 0)
    × ((true ≡ true)
        → ((response_header echo_response).payload_len ≡ byte_count dot)
          × (is_payload_sound (response_header echo_response) ≡ true))
unfolding byte_count
is_payload_sound-response_header_example =
    is_payload_sound-response_header echo_response refl dot-IsImage (omega arith)
