-- ===== src/Server/Worker.antt =====
-- src/net/server.cpp: the worker's in-flight table and its functions `submit`, `retire` and
-- `worker_loop`. A connection is known by its id, which stands for the shared pointer to it. The
-- backend is a parameter with the two calls that the loop makes.
pub mod Table
pub mod Answers
pub mod Rounds
pub mod Replies
use image_processing_engine.Prelude.{
  ℕ, zero, suc, ◌+◌, ◌*◌, ◌%◌, ◌^◌, Bool, true, false, not, List, [], ◌∷◌, Option, none, some, ◌==◌,
  if◌then◌else◌, bit_and,
}
use image_processing_engine.Prelude.Integers.{ℤ, nat_abs}
use image_processing_engine.Image.{no_image}
use image_processing_engine.OpChain.{OpChain}
use image_processing_engine.Protocol.{Status, flag_echo, flag_server_write}
use image_processing_engine.SlotPool.{SlotPool, slot, release}
use image_processing_engine.BoundedQueue.{
  BoundedQueue, Pop, popped, finished, pop, try_pop, pop_from, try_pop_from,
}
use image_processing_engine.CpuBackend.{FrameJob, JobStatus, Completion}
use image_processing_engine.Server.{Response, Connection, answer_job}

pub record QueuedFrame (F : Type 0) : Type 0 where
  pub connection : ℕ
  pub seq_num : ℕ
  pub flags : ℕ
  pub slot : ℕ
  pub width : ℤ
  pub height : ℤ
  pub channels : ℤ
  pub chain : OpChain F

pub record InFlight : Type 0 where
  pub connection : ℕ
  pub seq_num : ℕ
  pub flags : ℕ
  pub slot : ℕ

-- `unordered_map<JobHandle, InFlight>`: at most one entry for a handle.
abbrev pub Table : Type 0
Table = List (ℕ × InFlight)

unfoldable pub find : ℕ → Table → Option InFlight
find handle [] = none
find handle ((key, entry) ∷ table) = if key == handle then some entry else find handle table

unfoldable pub erase : ℕ → Table → Table
erase handle [] = []
erase handle ((key, entry) ∷ table) =
    let rest = erase handle table in if key == handle then table else (key, entry) ∷ rest

-- A handle that is there already keeps its entry.
unfoldable pub emplace : ℕ → InFlight → Table → Table
unfolding find
emplace handle entry table = elim (find handle table) [
  | some found ↦ table
  | none ↦ (handle, entry) ∷ table
]

-- What the worker calls of `IBackend`. A submit answers with the job's handle, or throws.
pub record Backend (F : Type 0) : Type 1 where
  pub State : Type 0
  pub submit_job : State → FrameJob F → Option ℕ × State
  pub poll : State → List Completion × State

-- What the worker's functions read and write. `memory` holds the bytes at a slot's address.
pub record Worker (S : Type 0) : Type 0 where
  pub connections : ℕ → Connection
  pub slots : SlotPool
  pub memory : ℕ → List ℕ
  pub backend : S
  pub in_flight : Table
  pub frames_completed : ℕ
  pub frames_failed : ℕ

-- A connection changes through its pointer.
abbrev pub at_connection : ℕ → (Connection → Connection) → (ℕ → Connection) → ℕ → Connection
at_connection id change connections k = if k == id then change (connections k) else connections k

abbrev pub has_flag : ℕ → ℕ → Bool
has_flag flags flag = not (bit_and flags flag == 0)

abbrev pub entry_of : {F : Type 0} → QueuedFrame F → InFlight
entry_of frame = record {
  connection = frame.connection;
  seq_num = frame.seq_num;
  flags = frame.flags;
  slot = frame.slot;
}

-- `input` is the bytes in the frame's slot. The stride is a size_t product of non-negative ints.
unfoldable pub job_of : {F : Type 0} → QueuedFrame F → List ℕ → FrameJob F
job_of frame bytes = record {
  input = some bytes;
  width = frame.width;
  height = frame.height;
  channels = frame.channels;
  stride = nat_abs frame.width * nat_abs frame.channels % 2 ^ 64;
  chain = frame.chain;
}

-- The answer where the backend threw.
abbrev pub refusal : {F : Type 0} → QueuedFrame F → Response
refusal frame = record {
  seq_num = frame.seq_num;
  status = Status.internal_error;
  echo = has_flag frame.flags flag_echo;
  write_file = false;
  image = no_image;
}

abbrev pub is_ok : JobStatus → Bool
is_ok JobStatus.ok = true
is_ok JobStatus.error = false

unfoldable pub response_for : InFlight → Completion → Response
response_for job completion =
    if is_ok completion.status
    then record {
      seq_num = job.seq_num;
      status = Status.ok;
      echo = has_flag job.flags flag_echo;
      write_file = has_flag job.flags flag_server_write;
      image = completion.output;
    }
    else record {
      seq_num = job.seq_num;
      status = Status.internal_error;
      echo = has_flag job.flags flag_echo;
      write_file = false;
      image = no_image;
    }

-- `none` is an exception that leaves the worker's thread: of `slots->slot` or `slots->release`.
module _ {S : Type 0} where
  unfoldable pub retire_job : Worker S → Completion → InFlight → Option (Worker S)
  unfolding response_for answer_job
  retire_job w completion job = elim (release w.slots job.slot) [
    | none ↦ none
    | some slots ↦ some (record w {
      slots = slots;
      in_flight = erase completion.handle w.in_flight;
      connections =
          at_connection job.connection (answer_job (response_for job completion)) w.connections;
      frames_completed = (w.frames_completed + (if is_ok completion.status then 1 else 0)) % 2 ^ 64;
      frames_failed = (w.frames_failed + (if is_ok completion.status then 0 else 1)) % 2 ^ 64;
    })
  ]

  -- A handle that is not in the table is passed over.
  unfoldable pub retire : Worker S → Completion → Option (Worker S)
  unfolding retire_job
  retire w completion = elim (find completion.handle w.in_flight) [
    | none ↦ some w
    | some job ↦ retire_job w completion job
  ]

  unfoldable pub retire_all : Worker S → List Completion → Option (Worker S)
  unfolding retire
  retire_all w [] = some w
  retire_all w (completion ∷ rest) = elim (retire w completion) [
    | none ↦ none
    | some next ↦ retire_all next rest
  ]

module _ {F : Type 0} {S : Type 0} where
  -- The catch block of `submit`. As in `retire_job` the release, the push into the outbox and the
  -- count of the job, each under a mutex of its own, are one step here.
  unfoldable pub refuse : Worker S → QueuedFrame F → Option (Worker S)
  unfolding answer_job
  refuse w frame = elim (release w.slots frame.slot) [
    | none ↦ none
    | some slots ↦ some (record w {
      slots = slots;
      connections = at_connection frame.connection (answer_job (refusal frame)) w.connections;
      frames_failed = (w.frames_failed + 1) % 2 ^ 64;
    })
  ]

  -- What follows the backend's answer.
  unfoldable pub enter : Worker S → QueuedFrame F → Option ℕ → Option (Worker S)
  unfolding refuse emplace
  enter w frame (some handle) =
      some (record w { in_flight = emplace handle (entry_of frame) w.in_flight })
  enter w frame none = refuse w frame

module _ {F : Type 0} (B : Backend F) where
  open B use {State, submit_job, poll}

  unfoldable pub submit : Worker State → QueuedFrame F → Option (Worker State)
  unfolding enter job_of
  submit w frame = elim (slot w.slots frame.slot) [
    | none ↦ none
    | some address ↦
        let answer = submit_job w.backend (job_of frame (w.memory address)) in
        enter (record w { backend = answer.1 }) frame answer.0
  ]

  -- What a round of the loop has come to: the next round, the end of the loop, a thread parked in
  -- the queue's `pop`, or an exception that leaves the thread.
  pub data Round : Type 0 where
    next : Worker State → BoundedQueue (QueuedFrame F) → Round
    ended : Worker State → Round
    parked : Round
    crashed : Round

  abbrev resumed : BoundedQueue (QueuedFrame F) → Option (Worker State) → Round
  resumed queue none = crashed
  resumed queue (some w) = next w queue

  -- The completions of one poll.
  unfoldable pub collect : Worker State → BoundedQueue (QueuedFrame F) → Round
  unfolding retire_all
  collect w queue =
      let polled = poll w.backend in
      resumed queue (retire_all (record w { backend = polled.1 }) polled.0)

  abbrev submitted : BoundedQueue (QueuedFrame F) → Option (Worker State) → Round
  submitted queue none = crashed
  submitted queue (some w) = collect w queue

  abbrev is_idle : Table → Bool
  is_idle [] = true
  is_idle (entry ∷ table) = false

  -- What follows the call on the queue.
  unfoldable pub after_take :
      Bool → Worker State → BoundedQueue (QueuedFrame F) → Pop (QueuedFrame F) → Round
  unfolding submit collect
  after_take idle w queue (popped frame rest) = submitted rest (submit w frame)
  after_take true w queue finished = ended w
  after_take false w queue finished = collect w queue
  after_take idle w queue Pop.waiting = parked

  -- The body of the loop; its sleep only passes time.
  unfoldable pub round : Worker State → BoundedQueue (QueuedFrame F) → Round
  unfolding after_take pop try_pop
  round w queue =
      if is_idle w.in_flight
      then after_take true w queue (pop queue)
      else after_take false w queue (try_pop queue)

  -- How `worker_loop` ends within so many rounds.
  pub data Ending : Type 0 where
    returned : Worker State → Ending
    waits fails runs_on : Ending

  unfoldable pub worker_loop : ℕ → Worker State → BoundedQueue (QueuedFrame F) → Ending
  unfolding round
  worker_loop zero w queue = runs_on
  worker_loop (suc fuel) w queue = elim (round w queue) [
    | next later rest ↦ worker_loop fuel later rest
    | ended last ↦ returned last
    | parked ↦ waits
    | crashed ↦ fails
  ]
