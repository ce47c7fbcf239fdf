-- ===== src/Server/System/NoThrow.antt =====
-- The pool's exceptions never come up in the server: every slot that a thread names or gives back is a
-- claimed one.
use image_processing_engine.Prelude.{
  ℕ, ◌+◌, ◌*◌, ◌<◌, ◌≡◌, ◌≢◌, ◌⊎◌, inl, inr, List, ◌∷◌, ◌++◌, none, some, arith, ◌==◌, get_elem?,
  Option-cases,
}
use image_processing_engine.Prelude.Predicates.{count_if-middle}
use image_processing_engine.SlotPool
use image_processing_engine.SlotPool.{SlotPool, no_owner, slot, release}
use image_processing_engine.SlotPool.Ledger.{get_elem?-lt}
use image_processing_engine.SlotPool.Invariant.{IsValid}
use image_processing_engine.BoundedQueue.{BoundedQueue, popped, pop, try_pop}
use image_processing_engine.CpuBackend.{Completion}
use image_processing_engine.Server.Worker.{
  QueuedFrame, Backend, find, job_of, submit, enter, refuse, retire, retire_job,
}
use image_processing_engine.Server.Worker.Table.{tally-erase}
use image_processing_engine.Server.System.{System, start, Reach}
use image_processing_engine.Server.System.Slots.{owned, owned-release}
use image_processing_engine.Server.System.Jobs.{IsSafe, pop-frames}
use image_processing_engine.Server.System.Safety.{Reach-IsSafe}

pub owned-slot :
    {p : SlotPool} (i : ℕ) → IsValid p → 0 < owned p i → (address : ℕ) × (slot p i ≡ some address)
unfolding slot
owned-slot {p} i v h = elim (Option-cases (get_elem? p.owner_of i)) [
  | inl out ↦ absurd (omega (arith, rw out at h))
  | inr (o, at_o) ↦
      (p.base + i * p.bytes, ground (arith, get_elem?-lt p.owner_of i o at_o, v.sized))
]

retire-ne-none :
    {F S : Type 0} (s : System F S) (completion : Completion)
    → IsSafe s
    → retire s.worker completion ≢ none
unfolding retire
retire-ne-none s completion b e = elim (Option-cases (find completion.handle s.worker.in_flight)) [
  | inl unknown ↦ cc (rw (unknown, retire) at e)
  | inr (job, known) ↦
      let counted =
        tally-erase (λ e. e.slot == job.slot) completion.handle s.worker.in_flight job known in
      let (slots, back) =
        owned-release job.slot b.valid (ground (arith, b.held job.slot, counted)) in
      cc (rw (back, retire_job) at (rw (known, retire) at e))
]

module _ {F : Type 0} (B : Backend F) where
  open B use {State, submit_job}

  submit-ne-none :
      (s : System F State) (frame : QueuedFrame F) (queue : BoundedQueue (QueuedFrame F))
      → IsSafe s
      → (pop s.queue ≡ popped frame queue) ⊎ (try_pop s.queue ≡ popped frame queue)
      → submit B s.worker frame ≢ none
  unfolding submit
  submit-ne-none s frame queue b e bad =
      let mine : 0 < owned s.worker.slots frame.slot =
        ground (
          arith,
          b.held frame.slot,
          pop-frames (λ e. e.slot == frame.slot) frame s.queue queue e,
        ) in
      let (address, found) = owned-slot frame.slot b.valid mine in
      let (slots, back) = owned-release frame.slot b.valid mine in
      let entered = rw (found, submit) at bad in
      elim (Option-cases (submit_job s.worker.backend (job_of frame (s.worker.memory address))).0) [
        | inl threw ↦ cc (rw (back, refuse) at (rw (threw, enter) at entered))
        | inr (handle, given) ↦ cc (rw (given, enter) at entered)
      ]

  module _ (memory : ℕ → List ℕ) (backend : State) (base count bytes cap capacity : ℕ)
      {slots : SlotPool} (made : SlotPool.init base count bytes cap ≡ some slots) where
    -- Over every interleaving no exception of the pool leaves a thread: the worker can retire any
    -- completion and submit any frame that it takes from the queue, and a reader can give back any
    -- slot that it fills.
    pub Reach-NoThrow :
        {s : System F State}
        → Reach B (start memory backend slots capacity) s
        → ((completion : Completion) → retire s.worker completion ≢ none)
          × ((frame : QueuedFrame F) (queue : BoundedQueue (QueuedFrame F))
              → (pop s.queue ≡ popped frame queue) ⊎ (try_pop s.queue ≡ popped frame queue)
              → submit B s.worker frame ≢ none)
          × ((before behind : List ℕ) (i : ℕ)
              → s.claimed ≡ before ++ (i ∷ behind)
              → release s.worker.slots i ≢ none)
    Reach-NoThrow {s} r =
        let b = Reach-IsSafe B memory backend base count bytes cap capacity made r in
        (
          λ completion. retire-ne-none s completion b,
          λ frame queue e. submit-ne-none s frame queue b e,
          λ before behind i e bad.
              let counted = count_if-middle (λ x. x == i) before behind i s.claimed e in
              let (slots, back) = owned-release i b.valid (ground (arith, b.held i, counted)) in cc,
        )
