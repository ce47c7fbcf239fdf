-- ===== src/BoundedQueue/Laws.antt =====
-- The bounded queue over any run of calls: bounds, order, and when a call waits.
use image_processing_engine.Prelude.{
  ℕ, ◌≤◌, ◌<◌, ◌≡◌, refl, sym, ap, ◌∙◌, ◌↔◌, ◌≢◌, true, false, List, [], ◌∷◌, ◌++◌, arith, length,
  length-append,
}
use mathlib.Core.List.{append_assoc}
use image_processing_engine.BoundedQueue.{
  BoundedQueue, Push, Pop, pushed, rejected, popped, finished, init, push, pop, pop_from, try_pop,
  try_pop_from, close,
}

-- A state with what has gone in and what has come out so far, oldest first.
pub record Traced {ℓ} (A : Type ℓ) : Type ℓ where
  pub queue : BoundedQueue A
  pub entered : List A
  pub left : List A

module _ {ℓ} {A : Type ℓ} where
  pub record IsValid (q : BoundedQueue A) : Type 0 where
    pub capacity_positive : 0 < q.capacity
    pub within : length q.items ≤ q.high_water
    pub bounded : q.high_water ≤ q.capacity

  abbrev pub start : ℕ → Traced A
  start capacity = record { queue = init capacity; entered = []; left = [] }

  -- One completed call by some thread; a call that waits changes nothing and is no step.
  pub data Step (s : Traced A) : Traced A → Type ℓ where
    pushes :
        (x : A) {q : BoundedQueue A}
        → push x s.queue ≡ pushed q
        → Step s (record s { queue = q; entered = s.entered ++ (x ∷ []) })
    pops :
        {x : A} {q : BoundedQueue A}
        → pop s.queue ≡ popped x q
        → Step s (record s { queue = q; left = s.left ++ (x ∷ []) })
    try_pops :
        {x : A} {q : BoundedQueue A}
        → try_pop s.queue ≡ popped x q
        → Step s (record s { queue = q; left = s.left ++ (x ∷ []) })
    closes : Step s (record s { queue = close s.queue })

  pub data Reach (s : Traced A) : Traced A → Type ℓ where
    begun : Reach s s
    after : {t u : Traced A} → Reach s t → Step t u → Reach s u

  -- The queue holds what went in and has not come out, in the order in which it went in, and is
  -- valid.
  pub record IsFifo (s : Traced A) : Type ℓ where
    pub in_order : s.entered ≡ s.left ++ s.queue.items
    pub valid : IsValid s.queue

  push-items :
      (x : A) (q : BoundedQueue A) {r : BoundedQueue A}
      → push x q ≡ pushed r
      → (r.items ≡ q.items ++ (x ∷ []))
        × (q.closed ≡ false)
        × (length q.items < q.capacity)
        × (r.capacity ≡ q.capacity)
  unfolding push
  push-items x q e = ground arith

  push-IsValid :
      (x : A) (q : BoundedQueue A) {r : BoundedQueue A}
      → IsValid q
      → push x q ≡ pushed r
      → IsValid r
  unfolding push
  push-IsValid x q v e = ground (arith, length-append q.items (x ∷ []))

  pop_from-items :
      (q : BoundedQueue A) (items : List A) {x : A} {r : BoundedQueue A}
      → pop_from q items ≡ popped x r
      → (items ≡ x ∷ r.items)
        × (r.capacity ≡ q.capacity)
        × (r.high_water ≡ q.high_water)
        × (r.closed ≡ q.closed)
  unfolding pop_from
  pop_from-items q [] e = ground arith
  pop_from-items q (y ∷ items) e = ground arith

  try_pop_from-pop_from :
      (q : BoundedQueue A) (items : List A) {x : A} {r : BoundedQueue A}
      → try_pop_from q items ≡ popped x r
      → pop_from q items ≡ popped x r
  unfolding pop_from try_pop_from
  try_pop_from-pop_from q [] e = ground arith
  try_pop_from-pop_from q (y ∷ items) e = e

  left_one :
      (s : Traced A) {x : A} {r : BoundedQueue A}
      → IsFifo s
      → pop_from s.queue s.queue.items ≡ popped x r
      → IsFifo (record s { queue = r; left = s.left ++ (x ∷ []) })
  left_one s {x} {r} f e =
      let (front, cap, mark, _) = pop_from-items s.queue s.queue.items e in
      record {
        in_order =
            f.in_order ∙ ap (λ l. s.left ++ l) front ∙ sym (append_assoc s.left (x ∷ []) r.items);
        valid = record {
          capacity_positive = omega (arith, f.valid.capacity_positive);
          within = omega (arith, ap length front, f.valid.within);
          bounded = omega (arith, f.valid.bounded);
        };
      }

  Step-IsFifo : {s t : Traced A} → IsFifo s → Step s t → IsFifo t
  unfolding pop try_pop close
  Step-IsFifo {s} f (pushes x {q = q} e) =
      let (back, _, _, _) = push-items x s.queue e in
      record {
        in_order =
            ap (λ l. l ++ (x ∷ [])) f.in_order
            ∙ append_assoc s.left s.queue.items (x ∷ [])
            ∙ ap (λ l. s.left ++ l) (sym back);
        valid = push-IsValid x s.queue f.valid e;
      }
  Step-IsFifo {s} f (pops e) = left_one s f e
  Step-IsFifo {s} f (try_pops e) = left_one s f (try_pop_from-pop_from s.queue s.queue.items e)
  Step-IsFifo {s} f closes = record {
    in_order = f.in_order;
    valid = record {
      capacity_positive = f.valid.capacity_positive;
      within = f.valid.within;
      bounded = f.valid.bounded;
    };
  }

  start-IsFifo : (capacity : ℕ) → IsFifo (start capacity)
  unfolding init
  start-IsFifo capacity = record { in_order = refl; valid = ground arith }

  -- Over every run of completed calls from an empty queue, by any number of producers and consumers:
  -- what came out, followed by what is queued, is what went in, in the same order, so nothing is
  -- lost, made up or overtaken, also across a close; and the length never passes the high-water
  -- mark, nor that the capacity.
  pub Reach-IsFifo : (capacity : ℕ) {s : Traced A} → Reach (start capacity) s → IsFifo s
  Reach-IsFifo capacity begun = start-IsFifo capacity
  Reach-IsFifo capacity (after r st) = Step-IsFifo (Reach-IsFifo capacity r) st

  -- On a valid queue `push` waits exactly when the queue is open and full, fails exactly when it is
  -- closed, and otherwise appends the item.
  pub push_cases :
      (x : A) (q : BoundedQueue A)
      → IsValid q
      → ((push x q ≡ Push.waiting) ↔ ((q.closed ≡ false) × (length q.items ≡ q.capacity)))
        × ((push x q ≡ rejected) ↔ (q.closed ≡ true))
        × ((r : BoundedQueue A) → push x q ≡ pushed r → r.items ≡ q.items ++ (x ∷ []))
  unfolding push
  push_cases x q v = (ground arith, ground arith, λ r e. ground arith)

  pop_from_cases :
      (q : BoundedQueue A) (items : List A)
      → ((pop_from q items ≡ Pop.waiting) ↔ ((q.closed ≡ false) × (items ≡ [])))
        × ((pop_from q items ≡ finished) ↔ ((q.closed ≡ true) × (items ≡ [])))
        × (try_pop_from q items ≢ Pop.waiting)
        × ((x : A) (r : BoundedQueue A)
            → (pop_from q items ≡ popped x r) ↔ (try_pop_from q items ≡ popped x r))
  unfolding pop_from try_pop_from
  pop_from_cases q [] = (ground arith, ground arith, λ e. cc, λ x r. ground arith)
  pop_from_cases q (y ∷ items) =
      ((λ e. cc, λ h. cc), (λ e. cc, λ h. cc), λ e. cc, λ x r. (λ e. e, λ e. e))

  -- `pop` waits exactly when the queue is open and empty, and ends exactly when it is closed and
  -- empty: a close does not discard what is queued. `try_pop` never waits, and takes what `pop`
  -- would take.
  pub pop_cases :
      (q : BoundedQueue A)
      → ((pop q ≡ Pop.waiting) ↔ ((q.closed ≡ false) × (q.items ≡ [])))
        × ((pop q ≡ finished) ↔ ((q.closed ≡ true) × (q.items ≡ [])))
        × (try_pop q ≢ Pop.waiting)
        × ((x : A) (r : BoundedQueue A) → (pop q ≡ popped x r) ↔ (try_pop q ≡ popped x r))
  unfolding pop try_pop
  pop_cases q = pop_from_cases q q.items
