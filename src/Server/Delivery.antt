-- ===== src/Server/Delivery.antt =====
-- Every answer of a connection reaches its writer, over any interleaving of the reader, the worker
-- and the writer.
use mathlib.Core.List.{append_assoc}
use image_processing_engine.Prelude.{
  ℕ, ◌+◌, ◌-◌, ◌%◌, ◌^◌, ◌<◌, ◌≡◌, refl, sym, ap, ◌∙◌, true, false, ◌&&◌, List, [], ◌∷◌, ◌++◌,
  arith, ◌==◌,
}
use image_processing_engine.Server.{
  Response, Outbox, push_response, taken, take_front, pop_response, close_outbox, Connection,
  connect, close_outbox_if_done, job_submitted, job_retired, reader_finished, answer, answer_job,
}

-- A connection with the answers that were given and those that the writer took, oldest first.
pub record Traced : Type 0 where
  pub connection : Connection
  pub answers : List Response
  pub written : List Response

abbrev pub start : ℕ → Traced
start id = record { connection = connect id; answers = []; written = [] }

-- One step of a thread. The reader's own are taken before it has finished; the worker retires a job
-- that was submitted.
pub data Step (s : Traced) : Traced → Type 0 where
  -- The reader hands a frame to the worker.
  submits :
      s.connection.reader_done ≡ false
      → s.connection.outstanding < 2 ^ 64 - 1
      → Step s (record s { connection = job_submitted s.connection })
  -- The reader takes it back, the job queue being closed.
  withdraws :
      s.connection.reader_done ≡ false
      → 0 < s.connection.outstanding
      → Step s (record s { connection = job_retired s.connection })
  -- The reader answers a bad frame.
  refuses :
      (response : Response)
      → s.connection.reader_done ≡ false
      → Step s (record s {
        connection = answer response s.connection;
        answers = s.answers ++ (response ∷ []);
      })
  -- The worker answers a job.
  retires :
      (response : Response)
      → 0 < s.connection.outstanding
      → Step s (record s {
        connection = answer_job response s.connection;
        answers = s.answers ++ (response ∷ []);
      })
  -- The reader's thread ends, once.
  finishes :
      s.connection.reader_done ≡ false
      → Step s (record s { connection = reader_finished s.connection })
  -- The writer takes a response.
  writes :
      (response : Response) {outbox : Outbox}
      → pop_response s.connection.outbox ≡ taken response outbox
      → Step s (record s {
        connection = record s.connection { outbox = outbox };
        written = s.written ++ (response ∷ []);
      })

pub data Run (s : Traced) : Traced → Type 0 where
  begun : Run s s
  after : {t u : Traced} → Run s t → Step t u → Run s u

-- Nothing is dropped, and the outbox is closed exactly when the reader has finished and no job is
-- outstanding.
pub record IsDelivered (s : Traced) : Type 0 where
  pub in_order : s.answers ≡ s.written ++ s.connection.outbox.items
  pub closed_when_done :
      s.connection.outbox.closed ≡ (s.connection.reader_done && s.connection.outstanding == 0)
  pub counted : s.connection.outstanding < 2 ^ 64

close_outbox_if_done_lem :
    (c : Connection)
    → c.outbox.closed ≡ false
    → ((close_outbox_if_done c).outbox.items ≡ c.outbox.items)
      × ((close_outbox_if_done c).outbox.closed ≡ (c.reader_done && c.outstanding == 0))
      × ((close_outbox_if_done c).outstanding ≡ c.outstanding)
      × ((close_outbox_if_done c).reader_done ≡ c.reader_done)
unfolding close_outbox_if_done close_outbox
close_outbox_if_done_lem c up = ground arith

take_front-items :
    (outbox : Outbox) (items : List Response) (response : Response) (rest : Outbox)
    → take_front outbox items ≡ taken response rest
    → (items ≡ response ∷ rest.items) × (rest.closed ≡ outbox.closed)
unfolding take_front
take_front-items outbox [] response rest e = ground arith
take_front-items outbox (x ∷ items) response rest e = ground arith

push_response-items :
    (response : Response) (outbox : Outbox)
    → outbox.closed ≡ false
    → ((push_response response outbox).items ≡ outbox.items ++ (response ∷ []))
      × ((push_response response outbox).closed ≡ false)
unfolding push_response
push_response-items response outbox up = ground arith

answered :
    (s : Traced) (response : Response) (items : List Response)
    → s.answers ≡ s.written ++ s.connection.outbox.items
    → items ≡ s.connection.outbox.items ++ (response ∷ [])
    → s.answers ++ (response ∷ []) ≡ s.written ++ items
answered s response items e made =
    ap (λ l. l ++ (response ∷ [])) e
    ∙ append_assoc s.written s.connection.outbox.items (response ∷ [])
    ∙ ap (λ l. s.written ++ l) (sym made)

-- A connection that is still open, once it has been closed if that is due.
close_outbox_if_done-IsDelivered :
    (c : Connection) (answers written : List Response)
    → c.outbox.closed ≡ false
    → c.outstanding < 2 ^ 64
    → answers ≡ written ++ c.outbox.items
    → IsDelivered
        (record { connection = close_outbox_if_done c; answers = answers; written = written })
close_outbox_if_done-IsDelivered c answers written up small e =
    let (items, closed, count, done) = close_outbox_if_done_lem c up in
    record {
      in_order = e ∙ ap (λ l. written ++ l) (sym items);
      closed_when_done = rw (count, done) closed;
      counted = omega (arith, count, small);
    }

Step-IsDelivered : {s t : Traced} → IsDelivered s → Step s t → IsDelivered t
unfolding job_submitted job_retired reader_finished answer answer_job pop_response
Step-IsDelivered {s} d (submits reading room) = record {
  in_order = d.in_order;
  closed_when_done = d.closed_when_done ∙ ground arith;
  counted = omega arith;
}
Step-IsDelivered {s} d (withdraws reading some_job) =
    close_outbox_if_done-IsDelivered
      (record s.connection { outstanding = (s.connection.outstanding + (2 ^ 64 - 1)) % 2 ^ 64 })
      s.answers s.written (d.closed_when_done ∙ ground arith) (omega arith) d.in_order
Step-IsDelivered {s} d (refuses response reading) =
    let up : s.connection.outbox.closed ≡ false = d.closed_when_done ∙ ground arith in
    let (made, still_up) = push_response-items response s.connection.outbox up in
    record {
      in_order =
          answered s response (push_response response s.connection.outbox).items d.in_order made;
      closed_when_done = still_up ∙ sym (sym d.closed_when_done ∙ up);
      counted = d.counted;
    }
Step-IsDelivered {s} d (retires response some_job) =
    let up : s.connection.outbox.closed ≡ false = d.closed_when_done ∙ ground arith in
    let (made, still_up) = push_response-items response s.connection.outbox up in
    close_outbox_if_done-IsDelivered
      (record s.connection {
        outbox = push_response response s.connection.outbox;
        outstanding = (s.connection.outstanding + (2 ^ 64 - 1)) % 2 ^ 64;
      })
      (s.answers ++ (response ∷ [])) s.written still_up (omega arith)
      (answered s response (push_response response s.connection.outbox).items d.in_order made)
Step-IsDelivered {s} d (finishes reading) =
    close_outbox_if_done-IsDelivered (record s.connection { reader_done = true }) s.answers
      s.written (d.closed_when_done ∙ ground arith) d.counted d.in_order
Step-IsDelivered {s} d (writes response {outbox = rest} e) =
    let (front, same) =
      take_front-items s.connection.outbox s.connection.outbox.items response rest e in
    record {
      in_order =
          d.in_order
          ∙ ap (λ l. s.written ++ l) front
          ∙ sym (append_assoc s.written (response ∷ []) rest.items);
      closed_when_done = same ∙ d.closed_when_done;
      counted = d.counted;
    }

-- Over every interleaving of a connection's reader, the worker and the writer: the responses that the
-- writer took and then those still queued are exactly the answers given, in their order, so no answer
-- is dropped although a closed outbox drops what is pushed; and the outbox is closed exactly when the
-- reader has finished and every submitted job has been retired.
pub Run-IsDelivered : (id : ℕ) {s : Traced} → Run (start id) s → IsDelivered s
Run-IsDelivered id begun = record {
  in_order = refl;
  closed_when_done = refl;
  counted = omega arith;
}
Run-IsDelivered id (after r step) = Step-IsDelivered (Run-IsDelivered id r) step
