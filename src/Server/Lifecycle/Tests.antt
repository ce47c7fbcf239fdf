-- ===== src/Server/Lifecycle/Tests.antt =====
-- Witnesses of the theorems on starting and stopping: a server of two slots, with a worker whose
-- slots lie at address 4096, and one connection that comes and ends.
use image_processing_engine.Prelude.{ℕ, ◌≡◌, refl, arith, true, false, [], ◌∷◌, some}
use image_processing_engine.Prelude.Integers.{pos}
use image_processing_engine.SlotPool
use image_processing_engine.SlotPool.{SlotPool}
use image_processing_engine.BoundedQueue
use image_processing_engine.BoundedQueue.{rejected}
use image_processing_engine.Server.Worker.{QueuedFrame}
use image_processing_engine.Server.Lifecycle.{
  ServerConfig, Impl, makes, World, started, create, await_worker, open_listener, make_slots, start,
  reap_finished, accept_round, finish_connection, begin_stop, end_stop,
}
use image_processing_engine.Server.Lifecycle.Started.{Ends, start-Ends}
use image_processing_engine.Server.Lifecycle.Numbered.{
  Reach, here, onward, starts, accepts, finishes, idles, IsNumbered, Reach-IsNumbered, state_of,
}
use image_processing_engine.Server.Lifecycle.Restart.{start-end_stop}

abbrev two_slots : ServerConfig
two_slots = record {
  port = 0;
  output_dir = [];
  num_slots = 2;
  max_payload_bytes = 64;
  slots_per_connection = 1;
  queue_capacity = 16;
  backlog = 16;
}

abbrev at_hand : World
at_hand = record { directories = true; listens = true; factory = makes (some 4096) }

abbrev made_server : Impl ℕ
made_server = create two_slots

abbrev running_server : Impl ℕ
running_server = state_of (start made_server at_hand)

start-Ends_example : Ends two_slots at_hand (start (create {F = ℕ} two_slots) at_hand)
start-Ends_example = start-Ends ℕ two_slots at_hand

abbrev two_connections : Impl ℕ
two_connections = accept_round (accept_round running_server true) true

abbrev first_ended : Impl ℕ
first_ended = record two_connections {
  connections = finish_connection 1 two_connections.connections;
}

after_connections : Reach made_server (accept_round first_ended false)
unfolding start open_listener await_worker make_slots create SlotPool.init accept_round
    BoundedQueue.init
after_connections =
    let started = onward here (starts at_hand) in
    let came = onward (onward started (accepts (omega arith))) (accepts (omega arith)) in
    onward (onward came (finishes 1)) idles

Reach-IsNumbered_example : IsNumbered (accept_round first_ended false)
Reach-IsNumbered_example = Reach-IsNumbered two_slots after_connections

second_left :
    (accept_round first_ended false).connections ≡ record { id = 2; finished = false } ∷ []
unfolding start open_listener await_worker make_slots create SlotPool.init accept_round
    BoundedQueue.init reap_finished finish_connection
second_left = refl

abbrev stopped_server : Impl ℕ
stopped_server = record (begin_stop running_server) {
  connections = [];
  queue = BoundedQueue.close (begin_stop running_server).queue;
}

abbrev gray_frame : QueuedFrame ℕ
gray_frame = record {
  connection = 1;
  seq_num = 1;
  flags = 1;
  slot = 0;
  width = pos 1;
  height = pos 1;
  channels = pos 1;
  chain = [];
}

stopped : end_stop (begin_stop running_server) ≡ some stopped_server
unfolding start open_listener await_worker make_slots create SlotPool.init begin_stop end_stop
    BoundedQueue.init
stopped = refl

started_again : start stopped_server at_hand ≡ started (state_of (start stopped_server at_hand))
unfolding start open_listener await_worker make_slots create SlotPool.init begin_stop
    BoundedQueue.init
started_again = refl

start-end_stop_example :
    ((state_of (start stopped_server at_hand)).running ≡ true)
    × (BoundedQueue.push gray_frame (state_of (start stopped_server at_hand)).queue ≡ rejected)
start-end_stop_example =
    start-end_stop (begin_stop running_server) stopped_server
      (state_of (start stopped_server at_hand)) at_hand gray_frame stopped started_again
