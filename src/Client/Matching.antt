-- ===== src/Client/Matching.antt =====
-- A response finds the request that it answers, and the server's echo passes the client's checks.
use image_processing_engine.Prelude.{
  ℕ, ◌+◌, ◌*◌, ◌%◌, ◌^◌, ◌≤◌, ◌<◌, ◌≡◌, refl, sym, ap, ◌∙◌, Bool, true, false, ◌&&◌, not, List,
  none, some, arith, ltb, ◌==◌, if◌then◌else◌, inl, inr, ◌⊎◌, Option-cases,
}
use image_processing_engine.Image.{Image, byte_count}
use image_processing_engine.Image.Pixels.{IsImage}
use image_processing_engine.Protocol.{
  Status, ResponseHeader, magic_number, encode_response_header, IsWideResponse, max_payload_bytes,
}
use image_processing_engine.Protocol.RoundTrip.{decode_response_header-encode_response_header}
use image_processing_engine.Server.{Response, response_header, is_ok}
use image_processing_engine.Client.{
  Client, PendingFrame, find_pending, erase_pending, emplace, send, sent, frame_of, receive,
  receive_header, received, match_request, is_payload_sound, is_image_made,
}

emplaced :
    (frame : PendingFrame) (pending : List (ℕ × PendingFrame))
    → find_pending frame.seq_num pending ≡ none
    → (find_pending frame.seq_num (emplace frame pending) ≡ some frame)
      × (erase_pending frame.seq_num (emplace frame pending) ≡ pending)
unfolding emplace find_pending erase_pending
emplaced frame pending e = rw (e, emplace) (ground arith, ground arith)

receive-decoded :
    (client : Client) (header : ResponseHeader) (payload_read : Bool)
    → IsWideResponse header
    → receive client (some (encode_response_header header)) payload_read
      ≡ receive_header client header payload_read
unfolding receive
receive-decoded client header payload_read w =
    rw (decode_response_header-encode_response_header header w, receive) refl

receive_header-matched :
    (client : Client) (header : ResponseHeader) (payload_read : Bool)
    → header.magic ≡ magic_number
    → (header.payload_len ≡ 0)
      ⊎ ((is_payload_sound header ≡ true) × (is_image_made header ≡ true) × (payload_read ≡ true))
    → receive_header client header payload_read ≡ match_request client header
unfolding receive_header
receive_header-matched client header payload_read m (inl empty) = ground arith
receive_header-matched client header payload_read m (inr (sound, fits, read)) = ground arith

matched :
    (client : Client) (header : ResponseHeader) (frame : PendingFrame)
    → find_pending header.seq_num client.pending ≡ some frame
    → match_request client header
      ≡ received header
          (some frame)
          (record client { pending = erase_pending header.seq_num client.pending })
unfolding match_request
matched client header frame e = rw (e, match_request) refl

kept :
    (frame old : PendingFrame) (pending : List (ℕ × PendingFrame))
    → find_pending frame.seq_num pending ≡ some old
    → emplace frame pending ≡ pending
unfolding emplace
kept frame old pending e = rw (e, emplace) refl

-- A response under a pending number is matched with the frame of that number.
answered :
    (client : Client) (header : ResponseHeader) (payload_read : Bool) (seq : ℕ)
    (waiting : PendingFrame)
    → IsWideResponse header
    → header.magic ≡ magic_number
    → (header.payload_len ≡ 0)
      ⊎ ((is_payload_sound header ≡ true) × (is_image_made header ≡ true) × (payload_read ≡ true))
    → header.seq_num ≡ seq
    → find_pending seq client.pending ≡ some waiting
    → receive client (some (encode_response_header header)) payload_read
      ≡ received header
          (some waiting)
          (record client { pending = erase_pending seq client.pending })
answered client header payload_read seq waiting w m p s found =
    receive-decoded client header payload_read w
    ∙ receive_header-matched client header payload_read m p
    ∙ matched client header waiting (ap (λ k. find_pending k client.pending) s ∙ found)
    ∙ ap
        (λ k.
          received header (some waiting)
            (record client { pending = erase_pending k client.pending }))
        s

-- What is pending after a send.
send-pending :
    (client next : Client) (image : Image) (chain : List ℕ) (flags seq : ℕ)
    → send client image chain flags true ≡ sent seq next
    → (client.next_seq_num ≡ seq)
      × (next.pending ≡ emplace (frame_of client image chain flags) client.pending)
unfolding send
send-pending client next image chain flags seq e =
    let made : record {
      next_seq_num = (client.next_seq_num + 1) % 2 ^ 32;
      pending = emplace (frame_of client image chain flags) client.pending;
    }
        ≡ next =
      cc in
    (cc, ap (λ (c : Client). c.pending) (sym made))

-- Suppose that a frame was just sent and that a response comes whose fields fit their widths, with the
-- frame's number, the right magic, and either no payload or a sound one that makes an image and
-- arrives. If the number was not pending before the send, the response is matched with that very
-- frame's request, which is then no longer pending, while the other pending frames are as before the
-- send. If it was, the response is matched with the older request of that number, whose entry alone
-- leaves what was pending before the send.
pub receive-send :
    (client next : Client) (image : Image) (chain : List ℕ) (flags seq : ℕ)
    (header : ResponseHeader) (payload_read : Bool)
    → send client image chain flags true ≡ sent seq next
    → IsWideResponse header
    → header.magic ≡ magic_number
    → header.seq_num ≡ seq
    → (header.payload_len ≡ 0)
      ⊎ ((is_payload_sound header ≡ true) × (is_image_made header ≡ true) × (payload_read ≡ true))
    → ((find_pending seq client.pending ≡ none)
        × (receive next (some (encode_response_header header)) payload_read
            ≡ received header
                (some (frame_of client image chain flags))
                (record next { pending = client.pending })))
      ⊎ ((old : PendingFrame) × (find_pending seq client.pending ≡ some old)
          × (receive next (some (encode_response_header header)) payload_read
              ≡ received header
                  (some old)
                  (record next { pending = erase_pending seq client.pending })))
receive-send client next image chain flags seq header payload_read e w m s p =
    let frame = frame_of client image chain flags in
    let (number, pending) = send-pending client next image chain flags seq e in
    elim (Option-cases (find_pending frame.seq_num client.pending)) [
      | inl fresh ↦
          let (found, erased) = emplaced frame client.pending fresh in
          let there =
            ap (λ k. find_pending k (emplace frame client.pending)) (sym number) ∙ found in
          let gone =
            ap (λ k. erase_pending k (emplace frame client.pending)) (sym number) ∙ erased in
          inl (
            ap (λ k. find_pending k client.pending) (sym number) ∙ fresh,
            answered next header payload_read seq frame w m p s
                  (ap (find_pending seq) pending ∙ there)
                ∙ ap (λ l. received header (some frame) (record next { pending = l }))
                    (ap (erase_pending seq) pending ∙ gone),
          )
      | inr (old, found) ↦
          let same = pending ∙ kept frame old client.pending found in
          let before = ap (λ k. find_pending k client.pending) (sym number) ∙ found in
          inr (
            old,
            before,
            rw (sym same) (
                answered next header payload_read seq old w m p s
                  (ap (find_pending seq) same ∙ before)),
          )
    ]

volume_factors :
    (w c h : ℕ) → 0 < w → 0 < c → 0 < h → (w ≤ w * c * h) × (c ≤ w * c * h) × (h ≤ w * c * h)
volume_factors w c h p q r = (grind arith, grind arith, grind arith)

same_product : (w c h : ℕ) → w * h * c ≡ w * c * h
same_product w c h = grind arith

le_mul : (n c : ℕ) → 0 < c → n ≤ n * c
le_mul n c p = grind arith

low_bits : (n m : ℕ) → n < m → n % m ≡ n
low_bits n m h = grind arith

passes_check :
    (w h c p : ℕ)
    → 0 < c
    → w * h * c ≡ p
    → p ≤ max_payload_bytes
    → ((w * h % 2 ^ 64 * c % 2 ^ 64 == p) && not (ltb max_payload_bytes p)) ≡ true
passes_check w h c p pos e small =
    let area : w * h < 2 ^ 64 = omega (arith, le_mul (w * h) c pos, e, small) in
    let volume : w * h * c < 2 ^ 64 = omega (arith, e, small) in
    rw (low_bits (w * h) (2 ^ 64) area, low_bits (w * h * c) (2 ^ 64) volume) (ground arith)

pick : {A : Type 0} (test : Bool) (a b : A) → test ≡ true → (if test then a else b) ≡ a
pick test a b t = ground arith

response_header-ok :
    (response : Response)
    → response.status ≡ Status.ok
    → ((response_header response).width ≡ response.image.width % 2 ^ 32)
      × ((response_header response).height ≡ response.image.height % 2 ^ 32)
      × ((response_header response).channels ≡ response.image.channels % 2 ^ 8)
      × ((response_header response).payload_len
          ≡ (if response.echo then byte_count response.image % 2 ^ 32 else 0))
unfolding response_header
response_header-ok response good =
    let t : is_ok response.status ≡ true = ap is_ok good in
    let e = pick (is_ok response.status) _ _ t in
    (
      ap (λ (h : ResponseHeader). h.width) e,
      ap (λ (h : ResponseHeader). h.height) e,
      ap (λ (h : ResponseHeader). h.channels) e,
      ap (λ (h : ResponseHeader). h.payload_len) e,
    )

is_payload_sound_lem :
    (header : ResponseHeader) {w h c p : ℕ}
    → header.width ≡ w
    → header.height ≡ h
    → header.channels ≡ c
    → header.payload_len ≡ p
    → is_payload_sound header
      ≡ ((w * h % 2 ^ 64 * c % 2 ^ 64 == p) && not (ltb max_payload_bytes p))
unfolding is_payload_sound
is_payload_sound_lem header ws hs cs ps =
    λ i. ((ws i) * (hs i) % 2 ^ 64 * (cs i) % 2 ^ 64 == ps i) && not (ltb max_payload_bytes (ps i))

-- The header that the server's writer sends for an image of at most the largest payload passes the
-- client's check: with an echo its payload length is the product of its dimensions, and without one
-- it is 0.
pub is_payload_sound-response_header :
    (response : Response)
    → response.status ≡ Status.ok
    → IsImage response.image
    → byte_count response.image ≤ max_payload_bytes
    → ((response.echo ≡ false) → (response_header response).payload_len ≡ 0)
      × ((response.echo ≡ true)
          → ((response_header response).payload_len ≡ byte_count response.image)
            × (is_payload_sound (response_header response) ≡ true))
unfolding byte_count
is_payload_sound-response_header response good v small =
    let ch : 0 < response.image.channels = positive v.channels_supported in
    let size : byte_count response.image
        ≡ response.image.width * response.image.channels * response.image.height =
      v.filled ∙ ap (λ k. k * response.image.height) v.packed in
    let (w_le, c_le, h_le) =
      volume_factors response.image.width response.image.channels response.image.height
        v.width_positive ch v.height_positive in
    let ws : response.image.width % 2 ^ 32 ≡ response.image.width =
      low_bits response.image.width (2 ^ 32) (omega arith) in
    let hs : response.image.height % 2 ^ 32 ≡ response.image.height =
      low_bits response.image.height (2 ^ 32) (omega arith) in
    let cs : response.image.channels % 2 ^ 8 ≡ response.image.channels = few v.channels_supported in
    let bytes : byte_count response.image % 2 ^ 32 ≡ byte_count response.image =
      low_bits (byte_count response.image) (2 ^ 32) (omega arith) in
    let (we, he, ce, pe) = response_header-ok response good in
    let check =
      passes_check response.image.width response.image.height response.image.channels
        (byte_count response.image) ch
        (same_product response.image.width response.image.channels response.image.height ∙ sym size)
        small in
    (
      λ off. pe ∙ rw off refl,
      λ on.
          let length_sent : (response_header response).payload_len ≡ byte_count response.image =
            pe ∙ rw on bytes in
          (
            length_sent,
            is_payload_sound_lem (response_header response) (we ∙ ws) (he ∙ hs) (ce ∙ cs)
                  length_sent
                ∙ check,
          ),
    )
  where
    positive : {c : ℕ} → (c ≡ 1) ⊎ (c ≡ 3) ⊎ (c ≡ 4) → 0 < c
    positive s = ground arith

    few : {c : ℕ} → (c ≡ 1) ⊎ (c ≡ 3) ⊎ (c ≡ 4) → c % 2 ^ 8 ≡ c
    few s = ground arith
