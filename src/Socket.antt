-- ===== src/Socket.antt =====
-- include/imgjit/net/socket.h and src/net/socket.cpp: the loops over recv and send that transfer an
-- exact number of bytes. The system calls are a parameter: what each call answers is the next element
-- of a sequence of events, and the bytes that arrive are the connection's stream. A call that has no
-- event left blocks.
pub mod Exact
pub mod Draining
pub mod Sending
mod Tests
use image_processing_engine.Prelude.{
  ℕ, zero, suc, ◌+◌, ◌-◌, min, Bool, true, false, List, [], ◌∷◌, ◌++◌, length, take, drop,
}

pub data IoResult : Type 0 where
  ok eof error : IoResult

-- What `recv` or `send` answers: a number of bytes, of which the call takes no more than it is asked
-- for, EINTR, or another error.
pub data Event : Type 0 where
  transferred : ℕ → Event
  interrupted failed : Event

-- The connection as the reader sees it: the calls' answers and the bytes that have yet to be read.
pub record Connection : Type 0 where
  pub events : List Event
  pub stream : List ℕ

-- A result with the bytes that were read and the connection behind them, or a call that blocks.
pub data Reading : Type 0 where
  returned : IoResult → List ℕ → Connection → Reading
  blocked : List ℕ → Reading

-- The loop of `read_exact`: `remaining` bytes to go, and `buffer` what is written so far.
-- That no event announces more bytes than the stream still holds is up to who makes the connection.
unfoldable pub read_loop : ℕ → List Event → List ℕ → List ℕ → Reading
read_loop zero events stream buffer =
    returned ok buffer (record { events = events; stream = stream })
read_loop (suc remaining) [] stream buffer = blocked buffer
read_loop (suc remaining) (transferred zero ∷ events) stream buffer =
    returned eof buffer (record { events = events; stream = stream })
read_loop (suc remaining) (transferred (suc n) ∷ events) stream buffer =
    let received = min (suc n) (suc remaining) in
    read_loop (suc remaining - received) events (drop received stream)
      (buffer ++ take received stream)
read_loop (suc remaining) (interrupted ∷ events) stream buffer =
    read_loop (suc remaining) events stream buffer
read_loop (suc remaining) (failed ∷ events) stream buffer =
    returned error buffer (record { events = events; stream = stream })

unfoldable pub read_exact : Connection → ℕ → Reading
unfolding read_loop
read_exact connection bytes = read_loop bytes connection.events connection.stream []

-- A result with the bytes that went out and the answers left, or a call that blocks.
pub data Writing : Type 0 where
  returned : IoResult → List ℕ → List Event → Writing
  blocked : List ℕ → Writing

-- The loop of `write_exact` on the bytes that are left at the cursor; `sent` has gone out. An answer
-- of 0 bytes goes round again.
unfoldable pub write_loop : List ℕ → List Event → List ℕ → Writing
write_loop [] events sent = Writing.returned ok sent events
write_loop (b ∷ rest) [] sent = Writing.blocked sent
write_loop (b ∷ rest) (transferred n ∷ events) sent =
    write_loop (drop n (b ∷ rest)) events (sent ++ take n (b ∷ rest))
write_loop (b ∷ rest) (interrupted ∷ events) sent = write_loop (b ∷ rest) events sent
write_loop (b ∷ rest) (failed ∷ events) sent = Writing.returned error sent events

unfoldable pub write_exact : List ℕ → List Event → Writing
unfolding write_loop
write_exact buffer events = write_loop buffer events []

-- The size of `scratch`.
abbrev scratch_bytes : ℕ
scratch_bytes = 4096

-- What follows a chunk: the next round, or the chunk's own result. What stands in the scratch buffer
-- is dropped.
abbrev pub after_chunk : Reading → (Connection → Reading) → Reading
after_chunk (returned ok buffer connection) round = round connection
after_chunk (returned eof buffer connection) round = returned eof [] connection
after_chunk (returned error buffer connection) round = returned error [] connection
after_chunk (blocked buffer) round = blocked []

-- The loop of `drain_exactly` on fuel, for which `bytes` is enough: a round takes a byte at least.
unfoldable pub drain_loop : ℕ → ℕ → Connection → Reading
unfolding read_exact
drain_loop fuel zero connection = returned ok [] connection
drain_loop zero (suc bytes) connection = blocked []
drain_loop (suc fuel) (suc bytes) connection =
    let chunk = min (suc bytes) scratch_bytes in
    after_chunk (read_exact connection chunk) (λ rest. drain_loop fuel (suc bytes - chunk) rest)

unfoldable pub drain_exactly : Connection → ℕ → Reading
unfolding drain_loop
drain_exactly connection bytes = drain_loop bytes bytes connection
