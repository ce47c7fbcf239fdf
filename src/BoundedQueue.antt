-- ===== src/BoundedQueue.antt =====
-- include/imgjit/util/bounded_queue.h: the bounded queue between the reader threads and the worker.
-- Each member function runs under the mutex and is one atomic step; `waiting` is a caller parked on
-- a condition variable, which makes the call again when it is notified.
pub mod Laws
mod Tests
use image_processing_engine.Prelude.{
  ℕ, zero, suc, ◌+◌, max, Bool, true, false, ◌||◌, not, List, [], ◌∷◌, ◌++◌, ltb, ◌==◌,
  if◌then◌else◌, length,
}

-- The head of `items` is the queue's front.
pub record BoundedQueue {ℓ} (A : Type ℓ) : Type ℓ where
  pub items : List A
  pub capacity : ℕ
  pub high_water : ℕ
  pub closed : Bool

-- `push` returned true, returned false, or waits.
pub data Push {ℓ} (A : Type ℓ) : Type ℓ where
  pushed : BoundedQueue A → Push A
  rejected : Push A
  waiting : Push A

-- `pop` returned true with an item, returned false, or waits.
pub data Pop {ℓ} (A : Type ℓ) : Type ℓ where
  popped : A → BoundedQueue A → Pop A
  finished : Pop A
  waiting : Pop A

module _ {ℓ} {A : Type ℓ} where
  unfoldable pub init : ℕ → BoundedQueue A
  init capacity = record {
    items = [];
    capacity = if capacity == 0 then 1 else capacity;
    high_water = 0;
    closed = false;
  }

  unfoldable pub push : A → BoundedQueue A → Push A
  push value q =
      if not (q.closed || ltb (length q.items) q.capacity)
      then Push.waiting
      else if q.closed
      then rejected
      else pushed (record q {
        items = q.items ++ (value ∷ []);
        high_water = max q.high_water (length (q.items ++ (value ∷ [])));
      })

  -- What `pop` does on the items that it finds: the wait's predicate is `closed_ || !items_.empty()`.
  unfoldable pub pop_from : BoundedQueue A → List A → Pop A
  pop_from q [] = if q.closed then finished else Pop.waiting
  pop_from q (x ∷ rest) = popped x (record q { items = rest })

  unfoldable pub pop : BoundedQueue A → Pop A
  unfolding pop_from
  pop q = pop_from q q.items

  unfoldable pub try_pop_from : BoundedQueue A → List A → Pop A
  try_pop_from q [] = finished
  try_pop_from q (x ∷ rest) = popped x (record q { items = rest })

  -- `finished` here says that there was nothing to take.
  unfoldable pub try_pop : BoundedQueue A → Pop A
  unfolding try_pop_from
  try_pop q = try_pop_from q q.items

  unfoldable pub close : BoundedQueue A → BoundedQueue A
  close q = record q { closed = true }

  unfoldable pub size : BoundedQueue A → ℕ
  size q = length q.items
