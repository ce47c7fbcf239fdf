-- ===== src/Server/System/Drain.antt =====
-- The end of the worker's loop over the CPU backend, once the queue is closed.
use image_processing_engine.Prelude.{
  ℕ, suc, ◌+◌, ◌%◌, ◌^◌, ◌<◌, ◌≡◌, refl, sym, ◌∙◌, inl, Bool, true, false, if◌then◌else◌, ap, List,
  [], ◌∷◌, some, arith, ◌==◌, length,
}
use image_processing_engine.CpuOps.FloatOps.{Arithmetic}
use image_processing_engine.SlotPool
use image_processing_engine.SlotPool.{SlotPool, slot, release}
use image_processing_engine.SlotPool.Ledger.{occurrences}
use image_processing_engine.Server.System.Safety.{Reach-IsSafe}
use image_processing_engine.BoundedQueue.{BoundedQueue, popped, pop, pop_from}
use image_processing_engine.CpuBackend.{CpuBackend}
use image_processing_engine.Server.Worker.{
  QueuedFrame, InFlight, Worker, entry_of, response_for, is_ok, round, after_take, ended, returned,
  worker_loop,
}
use image_processing_engine.Server.Worker.Rounds.{
  cpu_backend, IsIdle, completion_of, with_answer, round-next,
}
use image_processing_engine.Server.Worker.Table.{tally}
use image_processing_engine.Server.System.{System, start, Reach}
use image_processing_engine.Server.System.Slots.{IsHeld, owned, owned-release, answered-IsHeld}
use image_processing_engine.Server.System.Jobs.{frames, jobs, IsSafe, pop-frames, same-IsHeld}
use image_processing_engine.Server.System.NoThrow.{owned-slot}

pop-front :
    {F : Type 0} (queue : BoundedQueue (QueuedFrame F)) (frame : QueuedFrame F)
    (items : List (QueuedFrame F))
    → queue.items ≡ frame ∷ items
    → pop queue ≡ popped frame (record queue { items = items })
unfolding pop pop_from
pop-front queue frame items e = ground arith

one_more :
    (ok : Bool) (completed failed n : ℕ)
    → ((completed + (if ok then 1 else 0)) % 2 ^ 64 + (failed + (if ok then 0 else 1)) % 2 ^ 64 + n)
        % 2 ^ 64
      ≡ (completed + failed + suc n) % 2 ^ 64
one_more true completed failed n = omega arith
one_more false completed failed n = omega arith

module _ {F : Type 0} (A : Arithmetic F) where
  -- The worker's loop has returned: no job is left, what the readers hold is still in balance, and so
  -- many more frames are counted.
  pub record IsDrained (s : System F CpuBackend) (count : ℕ) (w : Worker CpuBackend) : Type 0 where
    pub idle : IsIdle w
    pub balanced : IsHeld (λ p. frames p s.offered) s.claimed w.slots w.connections
    pub counted :
        (w.frames_completed + w.frames_failed) % 2 ^ 64
        ≡ (s.worker.frames_completed + s.worker.frames_failed + count) % 2 ^ 64

  worker_loop-end :
      (s : System F CpuBackend)
      → IsIdle s.worker
      → s.queue.closed ≡ true
      → s.queue.items ≡ []
      → round (cpu_backend A) s.worker s.queue ≡ ended s.worker
  unfolding round after_take pop pop_from
  worker_loop-end s idle shut e = ground (arith, idle.no_jobs)

  pub worker_loop-IsDrained :
      (items : List (QueuedFrame F)) (s : System F CpuBackend)
      → IsSafe s
      → IsIdle s.worker
      → s.queue.closed ≡ true
      → s.queue.items ≡ items
      → (w : Worker CpuBackend) × (worker_loop (cpu_backend A) (suc (length items)) s.worker s.queue
          ≡ returned w)
        × IsDrained s (length items) w
  unfolding worker_loop
  worker_loop-IsDrained [] s b idle shut e = (
    s.worker,
    rw (worker_loop-end s idle shut e, worker_loop) refl,
    record {
      idle = idle;
      balanced =
          same-IsHeld (λ p. frames p s.offered) s.worker.slots s.worker.connections b
            (λ p. omega (arith, ap (frames p) e, ap (tally p) idle.no_jobs)) b.valid refl
            (λ id. refl);
      counted = omega arith;
    },
  )
  worker_loop-IsDrained (frame ∷ items) s b idle shut e =
      let rest : BoundedQueue (QueuedFrame F) = record s.queue { items = items } in
      let taken = pop-front s.queue frame items e in
      let moved = λ (p : InFlight → Bool). pop-frames p frame s.queue rest (inl taken) in
      let mine : 0 < owned s.worker.slots frame.slot =
        ground (arith, b.held frame.slot, moved (λ e. e.slot == frame.slot)) in
      let (address, found) = owned-slot frame.slot b.valid mine in
      let (slots, back) = owned-release frame.slot b.valid mine in
      let answered = with_answer A s.worker frame address slots in
      let later : System F CpuBackend = record s { worker = answered; queue = rest } in
      let safe : IsSafe later =
        answered-IsHeld b (entry_of frame)
          (response_for (entry_of frame) (completion_of A s.worker frame address)) (jobs later)
          (λ p. omega (arith, moved p, ap (tally p) idle.no_jobs)) back in
      let (w, ran, d) =
        worker_loop-IsDrained items later safe (record { no_jobs = refl; no_completions = refl })
          shut refl in
      (
        w,
        rw (round-next A s.worker frame address s.queue rest idle taken found back, worker_loop)
            ran,
        record {
          idle = d.idle;
          balanced = d.balanced;
          counted =
              d.counted
              ∙ one_more (is_ok (completion_of A s.worker frame address).status)
                  s.worker.frames_completed s.worker.frames_failed (length items);
        },
      )

  -- Over the CPU backend, once the queue is closed and no reader holds a slot or a frame any more: the
  -- loop of an idle worker returns after one round for each queued frame and a last one. Every one of
  -- those frames is then counted as completed or failed, the table is empty, every connection's count
  -- of jobs is 0, and every slot of the pool is free.
  pub worker_loop-closed :
      (memory : ℕ → List ℕ) (backend : CpuBackend) (base count bytes cap capacity : ℕ)
      {slots : SlotPool}
      → SlotPool.init base count bytes cap ≡ some slots
      → {s : System F CpuBackend} → Reach (cpu_backend A) (start memory backend slots capacity) s
      → IsIdle s.worker
      → s.queue.closed ≡ true
      → s.claimed ≡ []
      → s.offered ≡ []
      → (w : Worker CpuBackend) × (worker_loop
            (cpu_backend A)
            (length s.queue.items + 1)
            s.worker
            s.queue
          ≡ returned w)
        × ((w.frames_completed + w.frames_failed) % 2 ^ 64
            ≡ (s.worker.frames_completed + s.worker.frames_failed + length s.queue.items) % 2 ^ 64)
        × (w.in_flight ≡ [])
        × ((id : ℕ) → (w.connections id).outstanding ≡ 0)
        × ((i : ℕ) → owned w.slots i ≡ 0)
  worker_loop-closed memory backend base count bytes cap capacity made {s} r idle shut free
        none_offered =
      let b = Reach-IsSafe (cpu_backend A) memory backend base count bytes cap capacity made r in
      let (w, ran, d) = worker_loop-IsDrained s.queue.items s b idle shut refl in
      let rounds : length s.queue.items + 1 ≡ suc (length s.queue.items) = omega arith in
      (
        w,
        rw rounds ran,
        d.counted,
        d.idle.no_jobs,
        λ id. sym (d.balanced.owed id) ∙ ap (frames (λ e. e.connection == id)) none_offered,
        λ i. omega (
          arith,
          d.balanced.held i,
          ap (occurrences i) free,
          ap (frames (λ e. e.slot == i)) none_offered,
        ),
      )
