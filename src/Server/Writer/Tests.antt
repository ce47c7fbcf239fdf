-- ===== src/Server/Writer/Tests.antt =====
-- A witness of the writer's theorem: two responses, of which the first wants a file.
use image_processing_engine.Prelude.{ℕ, Bool, true, false, List, [], ◌∷◌}
use image_processing_engine.Prelude.Ascii.{codes}
use image_processing_engine.Image.{Image, no_image}
use image_processing_engine.Protocol.{Status}
use image_processing_engine.Socket.{transferred}
use image_processing_engine.Server.{Response}
use image_processing_engine.Server.Writer.{Writer}
use image_processing_engine.Server.Writer.Wire.{bytes_of}

abbrev gray_pixel : Image
gray_pixel = record { width = 1; height = 1; channels = 1; stride = 1; pixels = 55 ∷ [] }

abbrev echoed : Response
echoed = record {
  seq_num = 3;
  status = Status.ok;
  echo = true;
  write_file = true;
  image = gray_pixel;
}

abbrev failed : Response
failed = record {
  seq_num = 4;
  status = Status.internal_error;
  echo = true;
  write_file = false;
  image = no_image;
}

abbrev saves : List ℕ → Image → Bool
saves path image = true

abbrev fresh : Writer
fresh = record {
  socket_alive = true;
  events = transferred 10 ∷ transferred 90 ∷ transferred 1 ∷ transferred 90 ∷ [];
  wire = [];
  files = [];
}

abbrev done : Writer
done = record {
  socket_alive = true;
  events = [];
  wire = bytes_of saves (codes "out") 7 (echoed ∷ failed ∷ []);
  files = (codes "out/frame_7_3.png", gray_pixel) ∷ [];
}
