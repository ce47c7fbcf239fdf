-- ===== src/Socket/Tests.antt =====
-- Witnesses of the transfers' theorems on short and interrupted calls.
use image_processing_engine.Prelude.{ℕ, ◌≡◌, refl, arith, List, [], ◌∷◌}
use image_processing_engine.Socket.{
  ok, transferred, interrupted, Connection, returned, read_loop, read_exact, Writing, write_loop,
  write_exact, drain_loop, drain_exactly,
}
use image_processing_engine.Socket.Exact.{HasRead, read_exact-HasRead, read_exact_supplied}

abbrev split_connection : Connection
split_connection = record {
  events = transferred 1 ∷ interrupted ∷ transferred 9 ∷ [];
  stream = 5 ∷ 6 ∷ 7 ∷ 8 ∷ [];
}

abbrev behind : Connection
behind = record { events = []; stream = 8 ∷ [] }

three_read : read_exact split_connection 3 ≡ returned ok (5 ∷ 6 ∷ 7 ∷ []) behind
unfolding read_exact read_loop
three_read = refl

three_drained : drain_exactly split_connection 3 ≡ returned ok [] behind
unfolding drain_exactly drain_loop read_exact read_loop
three_drained = refl

abbrev three_bytes : List ℕ
three_bytes = 1 ∷ 2 ∷ 3 ∷ []

three_written : write_exact three_bytes split_connection.events ≡ Writing.returned ok three_bytes []
unfolding write_exact write_loop
three_written = refl

read_exact-HasRead_example : HasRead 3 split_connection.stream [] (5 ∷ 6 ∷ 7 ∷ []) behind
read_exact-HasRead_example =
    read_exact-HasRead split_connection 3 (5 ∷ 6 ∷ 7 ∷ []) behind three_read

read_exact_supplied_example :
    (buffer : List ℕ) × (rest : Connection) × (read_exact split_connection 3
      ≡ returned ok buffer rest)
read_exact_supplied_example = read_exact_supplied split_connection 3 (omega arith)
