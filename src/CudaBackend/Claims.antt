-- ===== src/CudaBackend/Claims.antt =====
-- What `claim_stream` keeps: the stream that it returns is there and idle.
use mathlib.Core.Path.{subst}
use image_processing_engine.Prelude.{
  ℕ, zero, suc, ◌+◌, ◌-◌, ◌^◌, ◌≡◌, refl, Bool, true, false, List, [], ◌∷◌, Option, none, some,
  arith, if◌then◌else◌, get_elem?, inl, inr, if-cases,
}
use image_processing_engine.OpChain.Numerics.{Floats}
use image_processing_engine.CudaBackend.{
  synchronize, StreamSlot, CudaBackend, Attempt, returned, threw,
}
use image_processing_engine.CudaBackend.Streams.{is_success, retire_ready_streams}
use image_processing_engine.CudaBackend.Operations.{
  World, Claimed, claimed, no_stream, spins, first_idle, oldest, stalled, after_sweep, claim_stream,
}
use image_processing_engine.CudaBackend.Kept.{Holds, Keeps, retire_ready_streams-Keeps}

-- The slot at the index is there and idle.
abbrev pub IsIdleAt : ℕ → List StreamSlot → Type 0
IsIdleAt i streams = (slot : StreamSlot) × (get_elem? streams i ≡ some slot) × (slot.busy ≡ false)

first_idle-IsIdleAt :
    (base i : ℕ) (streams : List StreamSlot)
    → first_idle base streams ≡ some i
    → (k : ℕ) × (i ≡ base + k) × IsIdleAt k streams
unfolding first_idle
first_idle-IsIdleAt base i [] e = absurd (cc)
first_idle-IsIdleAt base i (slot ∷ rest) e = elim (if-cases slot.busy e) [
  | inl (busy, later) ↦
      let (k, same, idle) = first_idle-IsIdleAt (base + 1) i rest later in
      (suc k, omega (arith, same), idle)
  | inr (idle, here) ↦ let same : base ≡ i = cc in (0, omega (arith, same), (slot, refl, idle))
]

-- A slot that was idle has one job more once it is set to a busy one.
module _ {R : Floats} (world : World R) (h n next : ℕ) where
  open world use {driver, compile, why, arithmetic}

  -- While it looks for a stream nothing is lost.
  abbrev pub KeepsClaimed : Claimed R → Type 0
  KeepsClaimed (claimed i b) = Holds h n next b × IsIdleAt i b.streams
  KeepsClaimed (no_stream failure b) = Holds h n next b
  KeepsClaimed spins = Unit {0}

  KeepsClaimed-if :
      (t : Bool) (p q : Claimed R)
      → KeepsClaimed p
      → KeepsClaimed q
      → KeepsClaimed (if t then p else q)
  KeepsClaimed-if true p q yes_case no_case = yes_case
  KeepsClaimed-if false p q yes_case no_case = no_case

  after_sweep-Keeps :
      (a : Attempt R) (more : CudaBackend R → Claimed R)
      → Keeps h n next a
      → ((c : CudaBackend R) → Holds h n next c → KeepsClaimed (more c))
      → KeepsClaimed (after_sweep world a more)
  after_sweep-Keeps (returned c) more kept go = go c kept
  after_sweep-Keeps (threw why c) more kept go = kept

  found-Keeps :
      (b : CudaBackend R) (found : Option ℕ) (stall : Claimed R)
      → first_idle 0 b.streams ≡ found
      → Holds h n next b
      → KeepsClaimed stall
      → KeepsClaimed (elim found [ some i ↦ claimed i b | none ↦ stall ])
  found-Keeps b (some i) stall e k kept =
      let (j, same, idle) = first_idle-IsIdleAt 0 i b.streams e in
      (k, subst (λ m. IsIdleAt m b.streams) (omega (arith, same)) idle)
  found-Keeps b none stall e k kept = kept

  pub claim_stream-Keeps :
      (fuel : ℕ) (b : CudaBackend R) → Holds h n next b → KeepsClaimed (claim_stream world fuel b)
  unfolding claim_stream
  claim_stream-Keeps zero b k = tt
  claim_stream-Keeps (suc fuel) b k =
      let counted : Holds h n next (stalled world b) = record {
        jobs = k.jobs;
        counter = k.counter;
      } in
      found-Keeps b (first_idle 0 b.streams) _ refl k (
        KeepsClaimed-if
          (is_success (driver b.calls (synchronize (oldest 0 0 (2 ^ 64 - 1) b.streams)))) _ _
          (after_sweep-Keeps (retire_ready_streams driver (stalled world b))
            (λ c. claim_stream world fuel c)
            (retire_ready_streams-Keeps driver h n next (stalled world b) counted)
            (λ c kept. claim_stream-Keeps fuel c kept))
          counted)
