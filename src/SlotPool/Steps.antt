-- ===== src/SlotPool/Steps.antt =====
-- The slot pool over a run of calls from many threads, and what each call does for its caller.
use image_processing_engine.Prelude.{ℕ, ◌≡◌, ◌≢◌, some}
use image_processing_engine.SlotPool.{
  SlotPool, no_owner, granted, waiting, init, claim, resume, release, close,
}
use image_processing_engine.SlotPool.Invariant.{IsValid, claim-IsValid, resume-IsValid}
use image_processing_engine.SlotPool.Release.{release-IsValid, init-IsValid}

-- One call by some thread, in the order in which the threads take the mutex.
pub data Step (p : SlotPool) : SlotPool → Type 0 where
  grants : {q : SlotPool} (owner i : ℕ) → owner ≢ no_owner → claim p owner ≡ granted i q → Step p q
  waits : {q : SlotPool} (owner : ℕ) → owner ≢ no_owner → claim p owner ≡ waiting q → Step p q
  wakes : {q : SlotPool} (owner i : ℕ) → owner ≢ no_owner → resume p owner ≡ granted i q → Step p q
  frees : {q : SlotPool} (i : ℕ) → release p i ≡ some q → Step p q
  closes : Step p (close p)

pub data Reach (p : SlotPool) : SlotPool → Type 0 where
  begun : Reach p p
  after : {q r : SlotPool} → Reach p q → Step q r → Reach p r

pub close-IsValid : {p : SlotPool} → IsValid p → IsValid (close p)
unfolding close
close-IsValid v = record {
  sized = v.sized;
  cap_positive = v.cap_positive;
  free_once = v.free_once;
  held_counted = v.held_counted;
  capped = v.capped;
  accounted = v.accounted;
}

Step-IsValid : {p q : SlotPool} → IsValid p → Step p q → IsValid q
Step-IsValid v (grants owner i real e) = rw e at (claim-IsValid owner v real)
Step-IsValid v (waits owner real e) = rw e at (claim-IsValid owner v real)
Step-IsValid v (wakes owner i real e) = rw e at (resume-IsValid owner v real)
Step-IsValid v (frees i e) = release-IsValid i v e
Step-IsValid v closes = close-IsValid v

Reach-IsValid : {p q : SlotPool} → IsValid p → Reach p q → IsValid q
Reach-IsValid v begun = v
Reach-IsValid v (after r s) = Step-IsValid (Reach-IsValid v r) s

-- After any run of calls by real owners from a constructed pool: the free and the claimed slots make
-- up the pool, the map counts what each owner holds, no owner holds more than the cap, and the free
-- list holds each unclaimed slot exactly once.
pub Reach-init-IsValid :
    (base count bytes cap : ℕ) {p q : SlotPool}
    → init base count bytes cap ≡ some p
    → Reach p q
    → IsValid q
Reach-init-IsValid base count bytes cap e r =
    Reach-IsValid (init-IsValid base count bytes cap e).0 r
