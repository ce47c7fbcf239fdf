-- ===== src/SlotPool/Tests.antt =====
-- Witnesses of the slot pool's theorems on a pool of two slots with at most one for each owner.
use image_processing_engine.Prelude.{◌≡◌, ◌≢◌, refl, arith, [], ◌∷◌, some, false, inl}
use image_processing_engine.SlotPool.{SlotPool, no_owner, granted, init, claim, resume, release}
use image_processing_engine.SlotPool.Ledger.{find, assign, erase}
use image_processing_engine.SlotPool.Invariant.{IsValid}
use image_processing_engine.SlotPool.Release.{init-IsValid}
use image_processing_engine.SlotPool.Steps.{grants, begun, after, Reach-init-IsValid}
use image_processing_engine.SlotPool.Grants.{resume-release}

-- No slot claimed.
abbrev two_free : SlotPool
two_free = record {
  base = 4096;
  count = 2;
  bytes = 64;
  per_owner_cap = 1;
  free_list = 0 ∷ 1 ∷ [];
  owner_of = no_owner ∷ no_owner ∷ [];
  held_by_owner = [];
  blocked_claims = 0;
  closed = false;
}

-- Slot 0 claimed by owner 7.
abbrev one_claimed : SlotPool
one_claimed = record two_free {
  free_list = 1 ∷ [];
  owner_of = 7 ∷ no_owner ∷ [];
  held_by_owner = (7, 1) ∷ [];
}

made : init 4096 2 64 1 ≡ some two_free
unfolding init
made = refl

claimed : claim two_free 7 ≡ granted 0 one_claimed
unfolding claim find assign
claimed = refl

real_owner : 7 ≢ no_owner
real_owner = λ e. omega arith

two_free-IsValid : IsValid two_free
two_free-IsValid = (init-IsValid 4096 2 64 1 made).0

one_claimed-IsValid : IsValid one_claimed
one_claimed-IsValid =
    Reach-init-IsValid 4096 2 64 1 made (after begun (grants 7 0 real_owner claimed))

Reach-init-IsValid_example : IsValid one_claimed
Reach-init-IsValid_example =
    Reach-init-IsValid 4096 2 64 1 made (after begun (grants 7 0 real_owner claimed))

freed : (q : SlotPool) × (release one_claimed 0 ≡ some q)
unfolding release find erase
freed = (_, refl)

resume-release_example : (r : SlotPool) × (resume freed.0 7 ≡ granted 0 r)
resume-release_example = resume-release 0 7 one_claimed-IsValid freed.1 refl real_owner (inl refl)
