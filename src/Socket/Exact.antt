-- ===== src/Socket/Exact.antt =====
-- The exact read: what it reads however the calls split it, and that it gets there.
use mathlib.Core.List.{append_assoc, append-nil}
use image_processing_engine.Prelude.{
  ℕ, zero, suc, ◌+◌, ◌-◌, ◌≤◌, ◌≡◌, refl, sym, ap, ◌∙◌, min, List, [], ◌∷◌, ◌++◌, arith, take, drop,
}
use image_processing_engine.Socket.{
  ok, Event, transferred, interrupted, failed, Connection, returned, read_loop, read_exact,
}

pub drop-drop : (m n : ℕ) (xs : List ℕ) → drop n (drop m xs) ≡ drop (m + n) xs
drop-drop zero n xs = let same : 0 + n ≡ n = omega arith in ap (λ k. drop k xs) (sym same)
drop-drop (suc m) zero [] = ap (λ k. drop k []) (let e : suc (m + 0) ≡ suc m + 0 = omega arith in e)
drop-drop (suc m) (suc n) [] =
    ap (λ k. drop k []) (let e : suc (m + suc n) ≡ suc m + suc n = omega arith in e)
drop-drop (suc m) n (x ∷ xs) =
    let next : suc (m + n) ≡ suc m + n = omega arith in
    drop-drop m n xs ∙ ap (λ k. drop k (x ∷ xs)) next

take-take : (m n : ℕ) (xs : List ℕ) → take m xs ++ take n (drop m xs) ≡ take (m + n) xs
take-take zero n xs = let same : n ≡ 0 + n = omega arith in ap (λ k. take k xs) same
take-take (suc m) zero [] = ap (λ k. take k []) (let e : suc (m + 0) ≡ suc m + 0 = omega arith in e)
take-take (suc m) (suc n) [] =
    ap (λ k. take k []) (let e : suc (m + suc n) ≡ suc m + suc n = omega arith in e)
take-take (suc m) n (x ∷ xs) =
    let next : suc (m + n) ≡ suc m + n = omega arith in
    ap (λ r. x ∷ r) (take-take m n xs) ∙ ap (λ k. take k (x ∷ xs)) next

-- The bytes that the first answers let through, up to an end or an error; an answer of 0 is the end.
abbrev pub supply : List Event → ℕ
supply [] = 0
supply (transferred zero ∷ events) = 0
supply (transferred (suc n) ∷ events) = suc n + supply events
supply (interrupted ∷ events) = supply events
supply (failed ∷ events) = 0

-- What a read that gave `ok` did.
pub record HasRead (bytes : ℕ) (stream before buffer : List ℕ) (rest : Connection) : Type 0 where
  pub read : buffer ≡ before ++ take bytes stream
  pub left : rest.stream ≡ drop bytes stream

read_loop-HasRead :
    (bytes : ℕ) (events : List Event) (stream before buffer : List ℕ) (rest : Connection)
    → read_loop bytes events stream before ≡ returned ok buffer rest
    → HasRead bytes stream before buffer rest
unfolding read_loop
read_loop-HasRead zero events stream before buffer rest e =
    let buffers : before ≡ buffer = cc in
    let streams : stream ≡ rest.stream = cc in
    record { read = sym buffers ∙ sym (append-nil before); left = sym streams }
read_loop-HasRead (suc bytes) [] stream before buffer rest e = absurd (cc)
read_loop-HasRead (suc bytes) (transferred zero ∷ events) stream before buffer rest e = absurd (cc)
read_loop-HasRead (suc bytes) (transferred (suc n) ∷ events) stream before buffer rest e =
    let received = min (suc n) (suc bytes) in
    let total : received + (suc bytes - received) ≡ suc bytes = omega arith in
    let more =
      read_loop-HasRead (suc bytes - received) events (drop received stream)
        (before ++ take received stream) buffer rest e in
    record {
      read =
          more.read
          ∙ append_assoc before (take received stream)
              (take (suc bytes - received) (drop received stream))
          ∙ ap (λ l. before ++ l) (take-take received (suc bytes - received) stream)
          ∙ ap (λ k. before ++ take k stream) total;
      left =
          more.left
          ∙ drop-drop received (suc bytes - received) stream
          ∙ ap (λ k. drop k stream) total;
    }
read_loop-HasRead (suc bytes) (interrupted ∷ events) stream before buffer rest e =
    read_loop-HasRead (suc bytes) events stream before buffer rest e
read_loop-HasRead (suc bytes) (failed ∷ events) stream before buffer rest e = absurd (cc)

-- A read of a number of bytes that returns `ok` has read exactly the next so many bytes of the stream
-- and left the others, however the calls split them and whichever were interrupted.
pub read_exact-HasRead :
    (connection : Connection) (bytes : ℕ) (buffer : List ℕ) (rest : Connection)
    → read_exact connection bytes ≡ returned ok buffer rest
    → HasRead bytes connection.stream [] buffer rest
unfolding read_exact
read_exact-HasRead connection bytes buffer rest e =
    read_loop-HasRead bytes connection.events connection.stream [] buffer rest e

read_loop_supplied :
    (bytes : ℕ) (events : List Event) (stream before : List ℕ)
    → bytes ≤ supply events
    → (buffer : List ℕ) × (rest : Connection) × (read_loop bytes events stream before
        ≡ returned ok buffer rest)
unfolding read_loop
read_loop_supplied zero events stream before h =
    (before, record { events = events; stream = stream }, refl)
read_loop_supplied (suc bytes) [] stream before h = absurd (omega arith)
read_loop_supplied (suc bytes) (transferred zero ∷ events) stream before h = absurd (omega arith)
read_loop_supplied (suc bytes) (transferred (suc n) ∷ events) stream before h =
    read_loop_supplied (suc bytes - min (suc n) (suc bytes)) events _ _ (omega arith)
read_loop_supplied (suc bytes) (interrupted ∷ events) stream before h =
    read_loop_supplied (suc bytes) events stream before h
read_loop_supplied (suc bytes) (failed ∷ events) stream before h = absurd (omega arith)

-- Where the calls before an end of the stream or an error bring at least so many bytes, short reads
-- and interruptions included, the read returns `ok`: it does not stop early or block.
pub read_exact_supplied :
    (connection : Connection) (bytes : ℕ)
    → bytes ≤ supply connection.events
    → (buffer : List ℕ) × (rest : Connection) × (read_exact connection bytes
        ≡ returned ok buffer rest)
unfolding read_exact
read_exact_supplied connection bytes h =
    read_loop_supplied bytes connection.events connection.stream [] h
