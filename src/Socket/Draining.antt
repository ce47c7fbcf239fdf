-- ===== src/Socket/Draining.antt =====
-- The drain: what it discards, and that its fuel is enough.
use image_processing_engine.Prelude.{
  ℕ, zero, suc, ◌+◌, ◌-◌, ◌≤◌, ◌≡◌, refl, sym, ap, ◌∙◌, min, List, arith, drop,
}
use image_processing_engine.Socket.{
  ok, eof, error, Connection, Reading, returned, blocked, read_exact, after_chunk, drain_loop,
  drain_exactly,
}
use image_processing_engine.Socket.Exact.{drop-drop, read_exact-HasRead}

after_chunk-ok :
    (chunk : Reading) (round : Connection → Reading) (buffer : List ℕ) (rest : Connection)
    → after_chunk chunk round ≡ returned ok buffer rest
    → (filled : List ℕ) × (between : Connection) × (chunk ≡ returned ok filled between)
      × (round between ≡ returned ok buffer rest)
after_chunk-ok (returned ok filled between) round buffer rest e = (filled, between, refl, e)
after_chunk-ok (returned eof filled between) round buffer rest e = absurd (cc)
after_chunk-ok (returned error filled between) round buffer rest e = absurd (cc)
after_chunk-ok (blocked filled) round buffer rest e = absurd (cc)

drain_loop_lem :
    (fuel bytes : ℕ) (connection : Connection) (buffer : List ℕ) (rest : Connection)
    → drain_loop fuel bytes connection ≡ returned ok buffer rest
    → rest.stream ≡ drop bytes connection.stream
unfolding drain_loop
drain_loop_lem fuel zero connection buffer rest e =
    let same : connection ≡ rest = cc in ap (λ (c : Connection). c.stream) (sym same)
drain_loop_lem zero (suc bytes) connection buffer rest e = absurd (cc)
drain_loop_lem (suc fuel) (suc bytes) connection buffer rest e =
    let chunk = min (suc bytes) 4096 in
    let (filled, between, first, others) =
      after_chunk-ok (read_exact connection chunk) (λ c. drain_loop fuel (suc bytes - chunk) c)
        buffer rest e in
    let total : chunk + (suc bytes - chunk) ≡ suc bytes = omega arith in
    drain_loop_lem fuel (suc bytes - chunk) between buffer rest others
    ∙ ap (drop (suc bytes - chunk)) (read_exact-HasRead connection chunk filled between first).left
    ∙ drop-drop chunk (suc bytes - chunk) connection.stream
    ∙ ap (λ k. drop k connection.stream) total

-- A drain that returns `ok` has discarded exactly so many bytes, so the next read begins at the byte
-- behind them: the connection is back in step.
pub drain_exactly_lem :
    (connection : Connection) (bytes : ℕ) (buffer : List ℕ) (rest : Connection)
    → drain_exactly connection bytes ≡ returned ok buffer rest
    → rest.stream ≡ drop bytes connection.stream
unfolding drain_exactly
drain_exactly_lem connection bytes buffer rest e =
    drain_loop_lem bytes bytes connection buffer rest e

after_chunk_same :
    (chunk : Reading) (round other : Connection → Reading)
    → ((c : Connection) → round c ≡ other c)
    → after_chunk chunk round ≡ after_chunk chunk other
after_chunk_same (returned ok filled between) round other same = same between
after_chunk_same (returned eof filled between) round other same = refl
after_chunk_same (returned error filled between) round other same = refl
after_chunk_same (blocked filled) round other same = refl

-- The drain's loop comes to the same with any fuel from the number of bytes on, so it never stops for
-- want of fuel.
pub drain_loop_fuel :
    (fuel more bytes : ℕ) (connection : Connection)
    → bytes ≤ fuel
    → bytes ≤ more
    → drain_loop fuel bytes connection ≡ drain_loop more bytes connection
unfolding drain_loop
drain_loop_fuel fuel more zero connection h k = refl
drain_loop_fuel zero more (suc bytes) connection h k = absurd (omega arith)
drain_loop_fuel (suc fuel) zero (suc bytes) connection h k = absurd (omega arith)
drain_loop_fuel (suc fuel) (suc more) (suc bytes) connection h k =
    let chunk = min (suc bytes) 4096 in
    after_chunk_same (read_exact connection chunk) (λ c. drain_loop fuel (suc bytes - chunk) c)
      (λ c. drain_loop more (suc bytes - chunk) c)
      (λ c. drain_loop_fuel fuel more (suc bytes - chunk) c (omega arith) (omega arith))
