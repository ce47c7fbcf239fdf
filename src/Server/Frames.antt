-- ===== src/Server/Frames.antt =====
-- The reader's reaction to a header keeps the connection in step, and the writer's header is honest.
use image_processing_engine.Prelude.{
  ℕ, ◌+◌, ◌≤◌, ◌≡◌, ◌≢◌, ◌↔◌, refl, Bool, true, false, arith, if◌then◌else◌,
}
use image_processing_engine.Protocol.{
  Status, RequestHeader, Limits, Disposition, disposition_for, validate_request_header,
}
use mathlib.Core.Path.{subst}
use image_processing_engine.Protocol.Validate.{validate_bounds_lengths}
use image_processing_engine.Server.{accept, drain_after, react, reaction_to, reader_reaction}

abbrev pub is_accepted : Status → Bool
is_accepted Status.ok = true
is_accepted _ = false

reaction_to-accept :
    (status : Status) (header : RequestHeader) (parsed : Bool)
    → (reaction_to status header parsed ≡ accept) ↔ ((status ≡ Status.ok) × (parsed ≡ true))
unfolding reaction_to react disposition_for
reaction_to-accept Status.ok header true = (λ e. (refl, refl), λ h. refl)
reaction_to-accept Status.ok header false = (λ e. absurd (cc), λ h. absurd (cc))
reaction_to-accept Status.bad_magic header parsed = (λ e. absurd (cc), λ h. absurd (cc))
reaction_to-accept Status.unsupported_version header parsed = (λ e. absurd (cc), λ h. absurd (cc))
reaction_to-accept Status.payload_too_large header parsed = (λ e. absurd (cc), λ h. absurd (cc))
reaction_to-accept Status.bad_chain header parsed = (λ e. absurd (cc), λ h. absurd (cc))
reaction_to-accept Status.length_mismatch header parsed = (λ e. absurd (cc), λ h. absurd (cc))
reaction_to-accept Status.internal_error header parsed = (λ e. absurd (cc), λ h. absurd (cc))
reaction_to-accept (Status.raw n) header parsed = (λ e. absurd (cc), λ h. absurd (cc))

reaction_to-drain_after :
    (v : Status) (header : RequestHeader) (parsed : Bool) (status : Status) (bytes : ℕ)
    → reaction_to v header parsed ≡ drain_after status bytes
    → (disposition_for v ≢ Disposition.close)
      × (disposition_for status ≢ Disposition.close)
      × (bytes ≡ header.payload_len + (if is_accepted v then 0 else header.chain_len))
unfolding reaction_to react disposition_for
reaction_to-drain_after Status.ok header true status bytes e = absurd (cc)
reaction_to-drain_after Status.ok header false status bytes e =
    let same : Status.bad_chain ≡ status = cc in
    let count : header.payload_len ≡ bytes = cc in
    (λ d. cc, subst (λ s. disposition_for s ≢ Disposition.close) same (λ d. cc), omega arith)
reaction_to-drain_after Status.bad_magic header parsed status bytes e = absurd (cc)
reaction_to-drain_after Status.unsupported_version header parsed status bytes e = absurd (cc)
reaction_to-drain_after Status.payload_too_large header parsed status bytes e = absurd (cc)
reaction_to-drain_after Status.bad_chain header parsed status bytes e =
    let same : Status.bad_chain ≡ status = cc in
    let count : header.chain_len + header.payload_len ≡ bytes = cc in
    (
      λ d. cc,
      subst (λ s. disposition_for s ≢ Disposition.close) same (λ d. cc),
      omega (arith, count),
    )
reaction_to-drain_after Status.length_mismatch header parsed status bytes e =
    let same : Status.length_mismatch ≡ status = cc in
    let count : header.chain_len + header.payload_len ≡ bytes = cc in
    (
      λ d. cc,
      subst (λ s. disposition_for s ≢ Disposition.close) same (λ d. cc),
      omega (arith, count),
    )
reaction_to-drain_after Status.internal_error header parsed status bytes e =
    let same : Status.internal_error ≡ status = cc in
    let count : header.chain_len + header.payload_len ≡ bytes = cc in
    (
      λ d. cc,
      subst (λ s. disposition_for s ≢ Disposition.close) same (λ d. cc),
      omega (arith, count),
    )
reaction_to-drain_after (Status.raw n) header parsed status bytes e = absurd (cc)

-- The reader accepts a frame exactly when its header is valid and its chain parses. Where it answers
-- an error and drains, the status is not one that closes the connection, the payload is within the
-- limit, and it drains the payload and, unless the header was valid and the chain is already read,
-- the chain: what the client still sends of that frame.
pub reader_reaction_cases :
    (header : RequestHeader) (limits : Limits) (parsed : Bool)
    → ((reader_reaction header limits parsed ≡ accept)
        ↔ ((validate_request_header header limits ≡ Status.ok) × (parsed ≡ true)))
      × ((status : Status) (bytes : ℕ)
          → reader_reaction header limits parsed ≡ drain_after status bytes
          → (header.payload_len ≤ limits.max_payload)
            × (disposition_for status ≢ Disposition.close)
            × (bytes
                ≡ header.payload_len
                  + (if is_accepted (validate_request_header header limits)
                      then 0
                      else header.chain_len)))
unfolding reader_reaction
reader_reaction_cases header limits parsed = (
  reaction_to-accept (validate_request_header header limits) header parsed,
  λ status bytes e.
      let (kept, other, count) =
        reaction_to-drain_after (validate_request_header header limits) header parsed status bytes
          e in
      ((validate_bounds_lengths header limits).0 kept, other, count),
)
