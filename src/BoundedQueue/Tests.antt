-- ===== src/BoundedQueue/Tests.antt =====
-- Witnesses of the bounded queue's theorems on a queue of one place.
use image_processing_engine.Prelude.{ℕ, ◌≡◌, refl, [], ◌∷◌, false}
use image_processing_engine.BoundedQueue.{BoundedQueue, pushed, init, push}
use image_processing_engine.BoundedQueue.Laws.{Traced, pushes, begun, after, IsFifo, Reach-IsFifo}

abbrev one_item : BoundedQueue ℕ
one_item = record { items = 5 ∷ []; capacity = 1; high_water = 1; closed = false }

abbrev one_pushed : Traced ℕ
one_pushed = record { queue = one_item; entered = 5 ∷ []; left = [] }

one_push : push 5 (init {A = ℕ} 1) ≡ pushed one_item
unfolding push init
one_push = refl

Reach-IsFifo_example : IsFifo one_pushed
Reach-IsFifo_example = Reach-IsFifo 1 (after begun (pushes 5 one_push))
