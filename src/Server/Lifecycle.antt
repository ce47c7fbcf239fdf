-- ===== src/Server/Lifecycle.antt =====
-- include/imgjit/net/server.h and src/net/server.cpp: starting the server, and its list of
-- connections. What the backend's factory, the listener and the file system answer is a parameter.
pub mod Started
pub mod Numbered
pub mod Restart
mod Tests
use image_processing_engine.Prelude.{
  ℕ, ◌+◌, ◌%◌, ◌^◌, Bool, true, false, ◌||◌, List, [], ◌∷◌, ◌++◌, Option, none, some, ◌==◌,
  if◌then◌else◌,
}
use image_processing_engine.Protocol.{Limits, max_chain_len}
use image_processing_engine.SlotPool
use image_processing_engine.SlotPool.{SlotPool}
use image_processing_engine.BoundedQueue
use image_processing_engine.BoundedQueue.{BoundedQueue}
use image_processing_engine.Server.Worker.{QueuedFrame}

pub record ServerConfig : Type 0 where
  pub port : ℕ
  pub output_dir : List ℕ
  pub num_slots : ℕ
  pub max_payload_bytes : ℕ
  pub slots_per_connection : ℕ
  pub queue_capacity : ℕ
  pub backlog : ℕ

-- A connection in the list, with its flag `finished`.
pub record ConnectionRecord : Type 0 where
  pub id : ℕ
  pub finished : Bool

pub record Impl (F : Type 0) : Type 0 where
  pub config : ServerConfig
  pub limits : Limits
  pub listening : Bool
  pub running : Bool
  pub slots : Option SlotPool
  pub queue : BoundedQueue (QueuedFrame F)
  pub connections : List ConnectionRecord
  pub next_connection_id : ℕ
  pub connections_accepted : ℕ

-- What the factory does: it throws, returns nothing, or makes a backend, whose allocation of the
-- slots throws or gives an address.
pub data Factory : Type 0 where
  throws nothing : Factory
  makes : Option ℕ → Factory

-- The other answers that `start` depends on: whether the output directory could be made and whether
-- the port could be listened on.
pub record World : Type 0 where
  pub directories : Bool
  pub listens : Bool
  pub factory : Factory

-- How `start` ends; an exception leaves the server as it is then.
pub data Start (F : Type 0) : Type 0 where
  started : Impl F → Start F
  failed : Impl F → Start F

-- `Impl::Impl`
unfoldable pub create : {F : Type 0} → ServerConfig → Impl F
unfolding BoundedQueue.init
create config = record {
  config = config;
  limits = record { max_payload = config.max_payload_bytes; max_chain = max_chain_len };
  listening = false;
  running = false;
  slots = none;
  queue = BoundedQueue.init config.queue_capacity;
  connections = [];
  next_connection_id = 1;
  connections_accepted = 0;
}

-- `worker_main` up to `ready`: the pool over the slots that the backend allocated, `none` where the
-- promise is given an exception.
unfoldable pub make_slots : ServerConfig → Factory → Option SlotPool
unfolding SlotPool.init
make_slots config throws = none
make_slots config nothing = none
make_slots config (makes none) = none
make_slots config (makes (some base)) =
    SlotPool.init base config.num_slots config.max_payload_bytes config.slots_per_connection

-- A pool that could not be made leaves none behind, while a backend that failed leaves the pool of
-- before.
unfoldable pub slots_after_failure : Factory → Option SlotPool → Option SlotPool
slots_after_failure (makes (some base)) slots = none
slots_after_failure (makes none) slots = slots
slots_after_failure throws slots = slots
slots_after_failure nothing slots = slots

abbrev pub is_named : List ℕ → Bool
is_named [] = false
is_named (c ∷ rest) = true

-- The finished connections are joined and leave the list.
unfoldable pub reap_finished : List ConnectionRecord → List ConnectionRecord
reap_finished [] = []
reap_finished (connection ∷ rest) =
    let kept = reap_finished rest in if connection.finished then kept else connection ∷ kept

-- The end of `connection_main`.
unfoldable pub finish_connection : ℕ → List ConnectionRecord → List ConnectionRecord
finish_connection id [] = []
finish_connection id (connection ∷ rest) =
    (if connection.id == id then record connection { finished = true } else connection)
    ∷ finish_connection id rest

abbrev pub all_finished : List ConnectionRecord → Bool
all_finished [] = true
all_finished (connection ∷ rest) = if connection.finished then all_finished rest else false

module _ {F : Type 0} where
  -- What `ready_future.get()` decides, given the pool that the worker made.
  unfoldable pub await_worker : Impl F → Factory → Option SlotPool → Start F
  unfolding BoundedQueue.close slots_after_failure
  await_worker s factory none = failed (record s {
    slots = slots_after_failure factory s.slots;
    queue = BoundedQueue.close s.queue;
    listening = false;
  })
  await_worker s factory (some slots) = started (record s { slots = some slots; running = true })

  unfoldable pub open_listener : Impl F → World → Start F
  unfolding await_worker make_slots
  open_listener s world =
      if world.listens
      then await_worker (record s { listening = true }) world.factory
          (make_slots s.config world.factory)
      else failed s

  unfoldable pub start : Impl F → World → Start F
  unfolding open_listener
  start s world =
      if s.running || s.config.num_slots == 0 || s.config.max_payload_bytes == 0
      then failed s
      else if is_named s.config.output_dir
      then (if world.directories then open_listener s world else failed s)
      else open_listener s world

  -- A round of the acceptor: `accepted` is whether a connection came in within the timeout.
  unfoldable pub accept_round : Impl F → Bool → Impl F
  unfolding reap_finished
  accept_round s false = record s { connections = reap_finished s.connections }
  accept_round s true = record s {
    next_connection_id = (s.next_connection_id + 1) % 2 ^ 64;
    connections_accepted = (s.connections_accepted + 1) % 2 ^ 64;
    connections =
        reap_finished s.connections
        ++ (record { id = s.next_connection_id; finished = false } ∷ []);
  }

  -- The first half of `stop`, up to the joins: the readers are woken by the pool and their sockets.
  unfoldable pub begin_stop : Impl F → Impl F
  unfolding SlotPool.close
  begin_stop s =
      if s.running
      then record s {
        running = false;
        listening = false;
        slots = elim s.slots [ none ↦ none | some slots ↦ some (SlotPool.close slots) ];
      }
      else s

  -- The second half: `none` while a connection's thread is yet to be joined.
  unfoldable pub end_stop : Impl F → Option (Impl F)
  unfolding BoundedQueue.close
  end_stop s =
      if all_finished s.connections
      then some (record s { connections = []; queue = BoundedQueue.close s.queue })
      else none
