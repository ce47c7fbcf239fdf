-- ===== src/Socket/Sending.antt =====
-- The exact write: what it sends however the calls split it.
use mathlib.Core.List.{append_assoc, append-nil}
use image_processing_engine.Prelude.{
  ℕ, ◌≡◌, sym, ap, ◌∙◌, List, [], ◌∷◌, ◌++◌, take, drop, take-append-drop,
}
use image_processing_engine.Socket.{
  ok, Event, transferred, interrupted, failed, Writing, write_loop, write_exact,
}

write_loop_lem :
    (left : List ℕ) (events : List Event) (before sent : List ℕ) (rest : List Event)
    → write_loop left events before ≡ Writing.returned ok sent rest
    → sent ≡ before ++ left
unfolding write_loop
write_loop_lem [] events before sent rest e =
    let same : before ≡ sent = cc in sym same ∙ sym (append-nil before)
write_loop_lem (b ∷ left) [] before sent rest e = absurd (cc)
write_loop_lem (b ∷ left) (transferred n ∷ events) before sent rest e =
    write_loop_lem (drop n (b ∷ left)) events (before ++ take n (b ∷ left)) sent rest e
    ∙ append_assoc before (take n (b ∷ left)) (drop n (b ∷ left))
    ∙ ap (λ l. before ++ l) (take-append-drop n (b ∷ left))
write_loop_lem (b ∷ left) (interrupted ∷ events) before sent rest e =
    write_loop_lem (b ∷ left) events before sent rest e
write_loop_lem (b ∷ left) (failed ∷ events) before sent rest e = absurd (cc)

-- A write that returns `ok` has put the whole buffer on the wire, in order and once, however the calls
-- split it.
pub write_exact_lem :
    (buffer : List ℕ) (events : List Event) (sent : List ℕ) (rest : List Event)
    → write_exact buffer events ≡ Writing.returned ok sent rest
    → sent ≡ buffer
unfolding write_exact
write_exact_lem buffer events sent rest e = write_loop_lem buffer events [] sent rest e
