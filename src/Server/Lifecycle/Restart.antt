-- ===== src/Server/Lifecycle/Restart.antt =====
-- A server that is started again once it was stopped, or once its worker could not make a backend.
use image_processing_engine.Prelude.{
  ◌≡◌, refl, ap, Bool, true, false, ◌||◌, Option, none, some, ◌==◌, if◌then◌else◌, if-cases, inl,
  inr, [], ◌∙◌,
}
use image_processing_engine.SlotPool.{SlotPool}
use image_processing_engine.BoundedQueue
use image_processing_engine.BoundedQueue.{rejected, finished}
use image_processing_engine.Server.Worker.{QueuedFrame}
use image_processing_engine.Server.Lifecycle.{
  Impl, Factory, World, Start, started, failed, await_worker, open_listener, start, end_stop,
  all_finished, is_named,
}

-- A start that goes through leaves a running server over the queue of before.
record Restarts {F : Type 0} (s : Impl F) (end : Start F) : Type 0 where
  runs : (t : Impl F) → end ≡ started t → (t.running ≡ true) × (t.queue ≡ s.queue)

module _ {F : Type 0} where
  failed-Restarts : (s u : Impl F) → Restarts s (failed u)
  failed-Restarts s u = record { runs = λ t e. absurd (cc) }

  await_worker-Restarts :
      (s u : Impl F) (factory : Factory) (made : Option SlotPool)
      → u.queue ≡ s.queue
      → Restarts s (await_worker u factory made)
  unfolding await_worker
  await_worker-Restarts s u factory none q = failed-Restarts s _
  await_worker-Restarts s u factory (some slots) q = record {
    runs = λ t e.
        let made : t ≡ record u { slots = some slots; running = true } = cc in rw made (refl, q);
  }

  if-Restarts :
      (s : Impl F) (test : Bool) {x y : Start F}
      → Restarts s x
      → Restarts s y
      → Restarts s (if test then x else y)
  if-Restarts s true a b = a
  if-Restarts s false a b = b

  open_listener-Restarts : (s : Impl F) (world : World) → Restarts s (open_listener s world)
  unfolding open_listener
  open_listener-Restarts s world =
      if-Restarts s world.listens (await_worker-Restarts s (record s { listening = true }) _ _ refl)
        (failed-Restarts s s)

  start-Restarts : (s : Impl F) (world : World) → Restarts s (start s world)
  unfolding start
  start-Restarts s world =
      let opened = open_listener-Restarts s world in
      let same = failed-Restarts s s in
      if-Restarts s (s.running || s.config.num_slots == 0 || s.config.max_payload_bytes == 0) same (
        if-Restarts s (is_named s.config.output_dir) (if-Restarts s world.directories opened same)
          opened)

  end_stop-closed : (s t : Impl F) → end_stop s ≡ some t → t.queue.closed ≡ true
  unfolding end_stop BoundedQueue.close
  end_stop-closed s t e = elim (if-cases (all_finished s.connections) e) [
    | inl (ended, joined) ↦
        let made : t ≡ record s { connections = []; queue = BoundedQueue.close s.queue } = cc in
        rw made refl
    | inr (busy, joined) ↦ absurd (cc)
  ]

  closed-rejects :
      (queue : BoundedQueue.BoundedQueue (QueuedFrame F)) (frame : QueuedFrame F)
      → queue.closed ≡ true
      → BoundedQueue.push frame queue ≡ rejected
  unfolding BoundedQueue.push
  closed-rejects queue frame c = rw c refl

  -- When a server that was stopped is started again and the start goes through, the server runs,
  -- but its queue is still the closed one: it rejects every frame.
  pub start-end_stop :
      (s t u : Impl F) (world : World) (frame : QueuedFrame F)
      → end_stop s ≡ some t
      → start t world ≡ started u
      → (u.running ≡ true) × (BoundedQueue.push frame u.queue ≡ rejected)
  start-end_stop s t u world frame stopped again =
      let (runs, same) = (start-Restarts t world).runs u again in
      (runs, closed-rejects u.queue frame (ap (λ q. q.closed) same ∙ end_stop-closed s t stopped))
