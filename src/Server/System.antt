-- ===== src/Server/System.antt =====
-- src/net/server.cpp: the reader threads and the worker thread on what they share, over any
-- interleaving. A reader's local variables `slot` and `frame` are in the lists `claimed` and
-- `offered`: a slot that it fills, and a frame that it has counted and has yet to push.
pub mod Slots
pub mod Jobs
pub mod Safety
pub mod NoThrow
pub mod Drain
mod Tests
use image_processing_engine.Prelude.{
  ℕ, ◌+◌, ◌-◌, ◌^◌, ◌<◌, ◌≡◌, ◌≢◌, ◌⊎◌, List, [], ◌∷◌, ◌++◌, none, some,
}
use image_processing_engine.SlotPool.{
  SlotPool, no_owner, granted, waiting, claim, resume, release, close,
}
use image_processing_engine.BoundedQueue
use image_processing_engine.BoundedQueue.{
  BoundedQueue, pushed, rejected, popped, push, pop, try_pop,
}
use image_processing_engine.CpuBackend.{Completion}
use image_processing_engine.Server.{connect, job_submitted, job_retired, reader_finished}
use image_processing_engine.Server.Worker.{
  QueuedFrame, Worker, Backend, at_connection, find, job_of, submit, retire,
}

pub record System (F S : Type 0) : Type 0 where
  pub worker : Worker S
  pub queue : BoundedQueue (QueuedFrame F)
  pub claimed : List ℕ
  pub offered : List (QueuedFrame F)

-- The server once its worker has signalled that it is ready: an empty queue and no jobs.
abbrev pub start : {F S : Type 0} → (ℕ → List ℕ) → S → SlotPool → ℕ → System F S
start memory backend slots capacity = record {
  worker = record {
    connections = connect;
    slots = slots;
    memory = memory;
    backend = backend;
    in_flight = [];
    frames_completed = 0;
    frames_failed = 0;
  };
  queue = BoundedQueue.init capacity;
  claimed = [];
  offered = [];
}

module _ {F : Type 0} (B : Backend F) where
  open B use {State, submit_job}

  -- The backend gives a job no handle that is still in the table.
  abbrev pub IsFresh : Worker State → QueuedFrame F → Type 0
  IsFresh w frame =
      (address handle : ℕ)
      → (submit_job w.backend (job_of frame (w.memory address))).0 ≡ some handle
      → find handle w.in_flight ≡ none

  -- One step of a thread.
  pub data Step (s : System F State) : System F State → Type 0 where
    -- A reader, for the connection `id`, claims a slot, at once or after a wait.
    claims :
        (id i : ℕ) {slots : SlotPool}
        → id ≢ no_owner
        → (claim s.worker.slots id ≡ granted i slots) ⊎ (resume s.worker.slots id ≡ granted i slots)
        → Step s (record s { worker = record s.worker { slots = slots }; claimed = i ∷ s.claimed })
    waits :
        (id : ℕ) {slots : SlotPool}
        → id ≢ no_owner
        → claim s.worker.slots id ≡ waiting slots
        → Step s (record s { worker = record s.worker { slots = slots } })
    -- It receives bytes into its slot.
    fills :
        (memory : ℕ → List ℕ) → Step s (record s { worker = record s.worker { memory = memory } })
    -- It gives the slot back, the payload having failed to arrive or the queue being closed.
    abandons :
        (before after : List ℕ) (i : ℕ) {slots : SlotPool}
        → s.claimed ≡ before ++ (i ∷ after)
        → release s.worker.slots i ≡ some slots
        → Step s
            (record s { worker = record s.worker { slots = slots }; claimed = before ++ after })
    -- It counts the job of its connection.
    offers :
        (before after : List ℕ) (frame : QueuedFrame F)
        → s.claimed ≡ before ++ (frame.slot ∷ after)
        → (s.worker.connections frame.connection).outstanding < 2 ^ 64 - 1
        → Step s (record s {
          worker = record s.worker {
            connections = at_connection frame.connection job_submitted s.worker.connections;
          };
          claimed = before ++ after;
          offered = frame ∷ s.offered;
        })
    pushes :
        (before after : List (QueuedFrame F)) (frame : QueuedFrame F)
        {queue : BoundedQueue (QueuedFrame F)}
        → s.offered ≡ before ++ (frame ∷ after)
        → push frame s.queue ≡ pushed queue
        → Step s (record s { queue = queue; offered = before ++ after })
    -- The queue is closed: it takes the job off the count again.
    withdraws :
        (before after : List (QueuedFrame F)) (frame : QueuedFrame F)
        → s.offered ≡ before ++ (frame ∷ after)
        → push frame s.queue ≡ rejected
        → Step s (record s {
          worker = record s.worker {
            connections = at_connection frame.connection job_retired s.worker.connections;
          };
          claimed = frame.slot ∷ s.claimed;
          offered = before ++ after;
        })
    finishes :
        (id : ℕ)
        → Step s (record s {
          worker = record s.worker {
            connections = at_connection id reader_finished s.worker.connections;
          };
        })
    -- The worker takes a frame and submits it. Unless the backend throws, this reaches no other
    -- thread than by the queue.
    takes :
        (frame : QueuedFrame F) {queue : BoundedQueue (QueuedFrame F)} {worker : Worker State}
        → (pop s.queue ≡ popped frame queue) ⊎ (try_pop s.queue ≡ popped frame queue)
        → IsFresh s.worker frame
        → submit B s.worker frame ≡ some worker
        → Step s (record s { worker = worker; queue = queue })
    polls : (backend : State) → Step s (record s { worker = record s.worker { backend = backend } })
    retires :
        (completion : Completion) {worker : Worker State}
        → retire s.worker completion ≡ some worker
        → Step s (record s { worker = worker })
    -- `stop` closes the pool and, later, the queue.
    closes_pool : Step s (record s { worker = record s.worker { slots = close s.worker.slots } })
    closes_queue : Step s (record s { queue = BoundedQueue.close s.queue })

  pub data Reach (s : System F State) : System F State → Type 0 where
    begun : Reach s s
    after : {t u : System F State} → Reach s t → Step t u → Reach s u
