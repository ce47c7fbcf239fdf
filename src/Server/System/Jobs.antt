-- ===== src/Server/System/Jobs.antt =====
-- The jobs of the server: frames in a reader's hands, in the queue and in the worker's table, counted
-- by a test.
use image_processing_engine.Prelude.{
  ℕ, ◌+◌, ◌≡◌, ◌⊎◌, Bool, List, [], ◌∷◌, ◌++◌, arith, ◌==◌, if◌then◌else◌, ap, ◌∙◌,
}
use image_processing_engine.Prelude.Predicates.{count_if, count_if-append}
use image_processing_engine.SlotPool.Invariant.{IsValid}
use image_processing_engine.SlotPool.{SlotPool}
use image_processing_engine.BoundedQueue.{
  BoundedQueue, pushed, popped, push, pop, try_pop, pop_from, try_pop_from,
}
use image_processing_engine.Server.{Connection}
use image_processing_engine.Server.Worker.{QueuedFrame, InFlight, entry_of}
use image_processing_engine.Server.Worker.Table.{tally}
use image_processing_engine.Server.System.{System}
use image_processing_engine.Server.System.Slots.{IsHeld}

module _ {F : Type 0} where
  abbrev pub frames : (InFlight → Bool) → List (QueuedFrame F) → ℕ
  frames p = count_if (λ frame. p (entry_of frame))

  -- The jobs that pass a test: in a reader's hands, in the queue or in the table.
  abbrev pub jobs : {S : Type 0} → System F S → (InFlight → Bool) → ℕ
  jobs s p = frames p s.offered + frames p s.queue.items + tally p s.worker.in_flight

abbrev pub IsSafe : {F S : Type 0} → System F S → Type 0
IsSafe s = IsHeld (jobs s) s.claimed s.worker.slots s.worker.connections

module _ {F : Type 0} where
  pub push-frames :
      (p : InFlight → Bool) (frame : QueuedFrame F) (q : BoundedQueue (QueuedFrame F))
      {r : BoundedQueue (QueuedFrame F)}
      → push frame q ≡ pushed r
      → frames p r.items ≡ (if p (entry_of frame) then 1 else 0) + frames p q.items
  unfolding push
  push-frames p frame q {r} e =
      let put : r.items ≡ q.items ++ (frame ∷ []) = ground arith in
      ap (frames p) put
      ∙ omega (arith, count_if-append (λ (f : QueuedFrame F). p (entry_of f)) q.items (frame ∷ []))

  pop_from-frames :
      (p : InFlight → Bool) (frame : QueuedFrame F) (q : BoundedQueue (QueuedFrame F))
      (items : List (QueuedFrame F)) (r : BoundedQueue (QueuedFrame F))
      → (pop_from q items ≡ popped frame r) ⊎ (try_pop_from q items ≡ popped frame r)
      → frames p items ≡ (if p (entry_of frame) then 1 else 0) + frames p r.items
  unfolding pop_from try_pop_from
  pop_from-frames p frame q [] r e = ground arith
  pop_from-frames p frame q (x ∷ items) r e = ground arith

  pub pop-frames :
      (p : InFlight → Bool) (frame : QueuedFrame F) (q r : BoundedQueue (QueuedFrame F))
      → (pop q ≡ popped frame r) ⊎ (try_pop q ≡ popped frame r)
      → frames p q.items ≡ (if p (entry_of frame) then 1 else 0) + frames p r.items
  unfolding pop try_pop
  pop-frames p frame q r e = pop_from-frames p frame q q.items r e

-- A balance of the same numbers.
pub same-IsHeld :
    {jobs : (InFlight → Bool) → ℕ} (others : (InFlight → Bool) → ℕ) {claimed : List ℕ}
    {slots : SlotPool} {connections : ℕ → Connection} (next : SlotPool) (changed : ℕ → Connection)
    → IsHeld jobs claimed slots connections
    → ((p : InFlight → Bool) → others p ≡ jobs p)
    → IsValid next
    → next.owner_of ≡ slots.owner_of
    → ((id : ℕ) → (changed id).outstanding ≡ (connections id).outstanding)
    → IsHeld others claimed next changed
same-IsHeld others next changed b same v table counts = record {
  valid = v;
  held = λ i. rw table (omega (arith, b.held i, same (λ e. e.slot == i)));
  owed = λ id. omega (arith, b.owed id, same (λ e. e.connection == id), counts id);
  small = λ id. omega (arith, b.small id, counts id);
}
