-- ===== src/Protocol/Validate.antt =====
-- What `validate_request_header` accepts, and what each answer lets the server rely on.
use image_processing_engine.Prelude.{ℕ, ◌+◌, ◌*◌, ◌%◌, ◌^◌, ◌≤◌, ◌<◌, ◌≡◌, ◌≢◌, ◌⊎◌, ◌↔◌, arith}
use image_processing_engine.Image.Channels.{is_supported_channel_count}
use image_processing_engine.Protocol.{
  RequestHeader, Limits, Status, close, magic_number, version_number, disposition_for,
  validate_request_header,
}

-- What a frame must satisfy by docs/PROTOCOL.md, over the true product of its dimensions.
pub record IsFrame (h : RequestHeader) (limits : Limits) : Type 0 where
  pub magic_right : h.magic ≡ magic_number
  pub version_right : h.version ≡ version_number
  pub payload_bounded : h.payload_len ≤ limits.max_payload
  pub chain_bounded : h.chain_len ≤ limits.max_chain
  pub channels_supported : (h.channels ≡ 1) ⊎ (h.channels ≡ 3) ⊎ (h.channels ≡ 4)
  pub width_positive : 0 < h.width
  pub height_positive : 0 < h.height
  pub lengths_match : h.width * h.height * h.channels ≡ h.payload_len

area_bound : (w h : ℕ) → w < 2 ^ 31 → h < 2 ^ 31 → w * h < 2 ^ 62
area_bound w h p q = grind arith

volume_bound : (a c : ℕ) → a < 2 ^ 62 → c ≤ 4 → a * c < 2 ^ 64
volume_bound a c p q = grind arith

-- With both dimensions in the range of an `int` the uint64_t product does not wrap.
product_exact :
    (w h c : ℕ) → w < 2 ^ 31 → h < 2 ^ 31 → c ≤ 4 → w * h % 2 ^ 64 * c % 2 ^ 64 ≡ w * h * c
product_exact w h c p q r =
    rw (same (w * h) (area_bound w h p q)) (low (volume_bound _ c (area_bound w h p q) r))
  where
    same : (a : ℕ) → a < 2 ^ 62 → a % 2 ^ 64 ≡ a
    same a lt = omega arith

    low : {a : ℕ} → a < 2 ^ 64 → a % 2 ^ 64 ≡ a
    low lt = omega arith

-- A request whose width and height are below 2 ^ 31 is accepted exactly when it is a frame of the
-- protocol: right magic and version, payload and chain within the limits, 1, 3 or 4 channels, no
-- dimension 0, and a payload length equal to the true width * height * channels.
pub validate_request_header_iff :
    (h : RequestHeader) (limits : Limits)
    → h.width < 2 ^ 31
    → h.height < 2 ^ 31
    → (validate_request_header h limits ≡ Status.ok) ↔ IsFrame h limits
unfolding validate_request_header is_supported_channel_count
validate_request_header_iff h limits p q = (
  λ e. ground (arith, product_exact h.width h.height h.channels p q),
  λ f. ground (arith, product_exact h.width h.height h.channels p q),
)

-- Whatever the answer, unless the connection is then closed the payload length is within the limit,
-- so what is drained or read into a slot is bounded by it; and an answer that lets the frame through
-- bounds the chain length too.
pub validate_bounds_lengths :
    (h : RequestHeader) (limits : Limits)
    → ((disposition_for (validate_request_header h limits) ≢ close)
        → h.payload_len ≤ limits.max_payload)
      × ((validate_request_header h limits ≡ Status.ok) → h.chain_len ≤ limits.max_chain)
unfolding validate_request_header disposition_for
validate_bounds_lengths h limits = (ground arith, ground arith)

-- The check in uint64_t can be passed by a lie: a header with width * height of 2 ^ 62 + k and
-- 4 channels is accepted with the payload length 4 * k, if that is within the limits, though
-- its dimensions ask for 2 ^ 64 bytes more.
pub validate_wraps :
    (h : RequestHeader) (limits : Limits) (k : ℕ)
    → h.magic ≡ magic_number
    → h.version ≡ version_number
    → h.chain_len ≤ limits.max_chain
    → h.payload_len ≤ limits.max_payload
    → h.channels ≡ 4
    → h.width * h.height ≡ 2 ^ 62 + k
    → h.payload_len ≡ 4 * k
    → k < 2 ^ 61
    → (validate_request_header h limits ≡ Status.ok)
      × (h.width * h.height * h.channels ≡ 2 ^ 64 + h.payload_len)
unfolding validate_request_header is_supported_channel_count
validate_wraps h limits k m v c p ch area len small = (ground arith, ground arith)
