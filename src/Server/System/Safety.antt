-- ===== src/Server/System/Safety.antt =====
-- No step of the server's threads makes the pool throw, and no slot is leaked or shared.
use image_processing_engine.Prelude.{
  ℕ, zero, suc, ◌≡◌, ◌⊎◌, inl, inr, refl, List, ◌++◌, some, true, arith, ◌==◌, get_elem?, replicate,
  ap, sym,
}
use image_processing_engine.Prelude.Predicates.{count_if-middle}
use image_processing_engine.SlotPool.Invariant.{waited-IsValid}
use image_processing_engine.SlotPool
use image_processing_engine.SlotPool.{SlotPool, release, claim, waiting, close, no_owner}
use image_processing_engine.BoundedQueue.{
  BoundedQueue, pushed, popped, push, pop, try_pop, pop_from, try_pop_from,
}
use image_processing_engine.BoundedQueue
use image_processing_engine.SlotPool.Grants.{claim-waiting}
use image_processing_engine.SlotPool.Steps.{close-IsValid}
use image_processing_engine.CpuBackend.{Completion}
use image_processing_engine.Server.{Connection, reader_finished}
use image_processing_engine.Server.Worker.{
  QueuedFrame, Worker, Backend, entry_of, at_connection, refusal, response_for, submit, retire,
}
use image_processing_engine.Server.Worker.Table.{tally, tally-erase, tally-emplace}
use image_processing_engine.Server.Worker.Answers.{retire_cases, submit_cases}
use image_processing_engine.Server.System.{
  System, start, Step, Reach, IsFresh, claims, waits, fills, abandons, offers, pushes, withdraws,
  finishes, takes, polls, retires, closes_pool, closes_queue, begun, after,
}
use image_processing_engine.Server.System.Slots.{
  owned_flag, close_outbox_if_done-outstanding, claimed-IsHeld, abandoned-IsHeld, offered-IsHeld,
  withdrawn-IsHeld, answered-IsHeld,
}
use image_processing_engine.Server.System.Jobs.{jobs, IsSafe, push-frames, pop-frames, same-IsHeld}

reader_finished-outstanding : (c : Connection) → (reader_finished c).outstanding ≡ c.outstanding
unfolding reader_finished
reader_finished-outstanding c = close_outbox_if_done-outstanding (record c { reader_done = true })

module _ {F : Type 0} (B : Backend F) where
  open B use {State}

  takes-IsSafe :
      (s : System F State) (frame : QueuedFrame F) (queue : BoundedQueue (QueuedFrame F))
      (w : Worker State)
      → IsSafe s
      → (pop s.queue ≡ popped frame queue) ⊎ (try_pop s.queue ≡ popped frame queue)
      → IsFresh B s.worker frame
      → submit B s.worker frame ≡ some w
      → IsSafe (record s { worker = w; queue = queue })
  takes-IsSafe s frame queue w b e fresh done = elim (submit_cases B s.worker w frame done) [
    | inl (address, handle, given, pool, links, table) ↦
        same-IsHeld (jobs (record s { worker = w; queue = queue })) w.slots w.connections b
          (λ p. omega (
            arith,
            pop-frames p frame s.queue queue e,
            ap (tally p) table,
            tally-emplace p handle (entry_of frame) s.worker.in_flight (fresh address handle given),
          ))
          (rw pool b.valid) (ap (λ (r : SlotPool). r.owner_of) pool)
          (λ id. ap (λ (c : ℕ → Connection). (c id).outstanding) links)
    | inr (given_back, table) ↦ rw given_back.answered (
        answered-IsHeld b (entry_of frame) (refusal frame)
          (jobs (record s { worker = w; queue = queue }))
          (λ p. omega (arith, pop-frames p frame s.queue queue e, ap (tally p) table))
          given_back.released)
  ]

  retires-IsSafe :
      (s : System F State) (completion : Completion) (w : Worker State)
      → IsSafe s
      → retire s.worker completion ≡ some w
      → IsSafe (record s { worker = w })
  retires-IsSafe s completion w b done = elim (retire_cases s.worker w completion done) [
    | inl (unknown, same) ↦ rw same b
    | inr (job, known, given_back, table) ↦ rw given_back.answered (
        answered-IsHeld b job (response_for job completion) (jobs (record s { worker = w }))
          (λ p. omega (
            arith,
            ap (tally p) table,
            tally-erase p completion.handle s.worker.in_flight job known,
          ))
          given_back.released)
  ]

  Step-IsSafe : {s t : System F State} → IsSafe s → Step B s t → IsSafe t
  Step-IsSafe b (claims id i real e) = claimed-IsHeld b id i real e
  Step-IsSafe {s} b (waits id {slots} real e) =
      let made = claim-waiting s.worker.slots slots id e in
      rw made (
        same-IsHeld (jobs s) _ s.worker.connections b (λ p. refl)
          (waited-IsValid s.worker.slots _ b.valid) refl (λ id. refl))
  Step-IsSafe b (fills memory) = b
  Step-IsSafe {s} b (abandons before behind i e back) =
      abandoned-IsHeld b i (before ++ behind)
        (λ k. count_if-middle (λ x. x == k) before behind i s.claimed e) back
  Step-IsSafe {s} b (offers before behind frame e room) =
      offered-IsHeld b (entry_of frame) _ (before ++ behind)
        (λ k. count_if-middle (λ x. x == k) before behind frame.slot s.claimed e) (λ p. omega arith)
        room
  Step-IsSafe {s} b (pushes before behind frame {queue} e put) =
      same-IsHeld _ s.worker.slots s.worker.connections b
        (λ p. omega (
          arith,
          push-frames p frame s.queue put,
          count_if-middle (λ (f : QueuedFrame F). p (entry_of f)) before behind frame s.offered e,
        ))
        b.valid refl (λ id. refl)
  Step-IsSafe {s} b (withdraws before behind frame e put) =
      withdrawn-IsHeld b (entry_of frame) _ (λ p. omega (
        arith,
        count_if-middle (λ (f : QueuedFrame F). p (entry_of f)) before behind frame s.offered e,
      ))
  Step-IsSafe {s} b (finishes id) =
      same-IsHeld (jobs s) s.worker.slots (at_connection id reader_finished s.worker.connections) b
        (λ p. refl) b.valid refl
        (λ k. ground (arith, reader_finished-outstanding (s.worker.connections k)))
  Step-IsSafe {s} b (takes frame e fresh done) = takes-IsSafe s frame _ _ b e fresh done
  Step-IsSafe b (polls backend) = b
  Step-IsSafe {s} b (retires completion done) = retires-IsSafe s completion _ b done
  Step-IsSafe {s} b closes_pool =
      unfold close in
      same-IsHeld (jobs s) (close s.worker.slots) s.worker.connections b (λ p. refl)
        (close-IsValid b.valid) refl (λ id. refl)
  Step-IsSafe b closes_queue = unfold BoundedQueue.close in b

replicate-unowned : (n i : ℕ) → owned_flag (get_elem? (replicate n no_owner) i) ≡ 0
replicate-unowned zero i = refl
replicate-unowned (suc n) zero = refl
replicate-unowned (suc n) (suc i) = replicate-unowned n i

module _ {F : Type 0} (B : Backend F) (memory : ℕ → List ℕ) (backend : B.State)
    (base count bytes cap capacity : ℕ) {slots : SlotPool}
    (made : SlotPool.init base count bytes cap ≡ some slots) where
  start-IsSafe : IsSafe (start {F = F} memory backend slots capacity)
  unfolding SlotPool.init BoundedQueue.init
  start-IsSafe =
      let table : slots.owner_of ≡ replicate count no_owner = ground arith in
      record {
        valid = (SlotPool.Release.init-IsValid base count bytes cap made).0;
        held = λ i. rw table (sym (replicate-unowned count i));
        owed = λ id. refl;
        small = λ id. omega arith;
      }

  -- Over every interleaving of the reader threads, the worker and `stop`, with any backend that gives
  -- no handle twice at a time: the pool marks a slot as owned exactly when one reader fills it or one
  -- job names it, be the job in a reader's hands, in the queue or in the table, so no slot is shared
  -- and none is lost; and the count of each connection is the number of its jobs.
  pub Reach-IsSafe :
      {s : System F B.State} → Reach B (start memory backend slots capacity) s → IsSafe s
  Reach-IsSafe begun = start-IsSafe
  Reach-IsSafe (after r step) = Step-IsSafe B (Reach-IsSafe r) step
