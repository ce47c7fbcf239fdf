-- ===== src/Server/Tests.antt =====
-- A witness of the theorem on delivery: one job on a connection.
use image_processing_engine.Prelude.{refl, arith, false, [], ◌∷◌}
use image_processing_engine.Image.{no_image}
use image_processing_engine.Protocol.{Status}
use image_processing_engine.Server.{
  Response, connect, job_submitted, answer_job, reader_finished, close_outbox_if_done,
}
use image_processing_engine.Server.Delivery.{
  Traced, submits, finishes, retires, begun, after, IsDelivered, Run-IsDelivered,
}

abbrev done : Response
done = record {
  seq_num = 9;
  status = Status.ok;
  echo = false;
  write_file = false;
  image = no_image;
}

-- A frame is submitted, the reader ends, and the worker answers.
abbrev answered_late : Traced
answered_late = record {
  connection = answer_job done (reader_finished (job_submitted (connect 3)));
  answers = done ∷ [];
  written = [];
}

Run-IsDelivered_example : IsDelivered answered_late
unfolding job_submitted reader_finished close_outbox_if_done
Run-IsDelivered_example = Run-IsDelivered 3 (
    after (after (after begun (submits refl (omega arith))) (finishes refl))
      (retires done (omega arith)))
