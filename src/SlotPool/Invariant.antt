-- ===== src/SlotPool/Invariant.antt =====
-- The invariant of the slot pool, and that the constructor and every member function keep it.
use image_processing_engine.Prelude.{
  ℕ, ◌+◌, ◌≤◌, ◌<◌, ◌≡◌, refl, ◌≢◌, inl, inr, Bool, true, not, List, [], ◌∷◌, Option, none, some,
  arith, ◌==◌, if◌then◌else◌, length, set, get_elem?, length-set, Bool-cases, Option-cases, ◌∙◌,
  ◌||◌,
}
use image_processing_engine.Prelude.Predicates.{count_if-set, count_if}
use image_processing_engine.SlotPool.Ledger.{held_by, occurrences, find-assign, get_elem?-set}
use image_processing_engine.SlotPool.{
  SlotPool, no_owner, Claim, granted, refused, waiting, fault, can_claim, take_back, finish_claim,
  claim, resume, increment,
}

-- 1 for a slot that `owner_of` marks as free, 0 for any other number.
abbrev pub free_flag : Option ℕ → ℕ
free_flag none = 0
free_flag (some o) = if o == no_owner then 1 else 0

abbrev pub is_claimed : ℕ → Bool
is_claimed o = not (o == no_owner)

-- The free list holds each free slot once and nothing else, the map counts for each owner the slots
-- that are marked as its own, none above the cap, and the free and the claimed slots make up the
-- pool.
pub record IsValid (p : SlotPool) : Type 0 where
  pub sized : length p.owner_of ≡ p.count
  pub cap_positive : 0 < p.per_owner_cap
  pub free_once : (i : ℕ) → occurrences i p.free_list ≡ free_flag (get_elem? p.owner_of i)
  pub held_counted : (o : ℕ) → o ≢ no_owner → held_by o p.held_by_owner ≡ occurrences o p.owner_of
  pub capped : (o : ℕ) → o ≢ no_owner → occurrences o p.owner_of ≤ p.per_owner_cap
  pub accounted : length p.free_list + count_if is_claimed p.owner_of ≡ p.count

-- The head of a valid free list is a slot that nobody owns.
pub head_free :
    {p : SlotPool} (i : ℕ) (rest : List ℕ)
    → IsValid p
    → p.free_list ≡ i ∷ rest
    → get_elem? p.owner_of i ≡ some no_owner
head_free {p} i rest v e = ground (arith, v.free_once i, Option-cases (get_elem? p.owner_of i))

-- The pool after slot `i` went from the head of the free list to `owner`.
abbrev pub taken : SlotPool → ℕ → ℕ → List ℕ → SlotPool
taken p owner i rest = record p {
  free_list = rest;
  owner_of = set p.owner_of i owner;
  held_by_owner = increment owner p.held_by_owner;
}

module _ {p : SlotPool} (owner i : ℕ) (rest : List ℕ) (v : IsValid p) (real : owner ≢ no_owner)
    (head : p.free_list ≡ i ∷ rest) (room : held_by owner p.held_by_owner < p.per_owner_cap) where
  taken_counts :
      (o : ℕ)
      → occurrences o (set p.owner_of i owner) + (if no_owner == o then 1 else 0)
        ≡ occurrences o p.owner_of + (if owner == o then 1 else 0)
  taken_counts o = count_if-set (λ x. x == o) p.owner_of i no_owner owner (head_free i rest v head)

  taken_free_once : (k : ℕ) → occurrences k rest ≡ free_flag (get_elem? (set p.owner_of i owner) k)
  taken_free_once k = ground (
    arith,
    get_elem?-set p.owner_of i k no_owner owner (head_free i rest v head),
    head_free i rest v head,
    v.free_once k,
  )

  taken_held :
      (o : ℕ)
      → o ≢ no_owner
      → held_by o (increment owner p.held_by_owner) ≡ occurrences o (set p.owner_of i owner)
  taken_held o h = ground (
    arith,
    find-assign owner o (held_by owner p.held_by_owner + 1) p.held_by_owner,
    taken_counts o,
    v.held_counted o h,
  )

  taken_capped : (o : ℕ) → o ≢ no_owner → occurrences o (set p.owner_of i owner) ≤ p.per_owner_cap
  taken_capped o h = ground (arith, taken_counts o, v.held_counted o h, v.capped o h)

  taken_accounted : length rest + count_if is_claimed (set p.owner_of i owner) ≡ p.count
  taken_accounted = ground (
    arith,
    count_if-set is_claimed p.owner_of i no_owner owner (head_free i rest v head),
    v.accounted,
  )

  taken-IsValid : IsValid (taken p owner i rest)
  taken-IsValid = record {
    sized = length-set p.owner_of i owner ∙ v.sized;
    cap_positive = v.cap_positive;
    free_once = taken_free_once;
    held_counted = taken_held;
    capped = taken_capped;
    accounted = taken_accounted;
  }

-- A call of `claim` that ends in a pool ends in one of which `P` holds, and does not fault.
abbrev pub Ends : (SlotPool → Type 0) → Claim → Type 0
Ends P (granted i q) = P q
Ends P (refused q) = P q
Ends P (waiting q) = P q
Ends P fault = ⊥

-- A successful `can_claim` has seen a slot and room under the cap.
pub can_claim_room :
    {p : SlotPool} (owner : ℕ)
    → IsValid p
    → can_claim p owner ≡ true
    → held_by owner p.held_by_owner < p.per_owner_cap
unfolding can_claim
can_claim_room owner v h = ground (arith, v.cap_positive)

take_back-Ends :
    {p : SlotPool} (owner : ℕ) (free : List ℕ)
    → IsValid p
    → owner ≢ no_owner
    → p.free_list ≡ free
    → can_claim p owner ≡ true
    → Ends IsValid (take_back p owner free)
unfolding take_back
take_back-Ends owner [] v real e can = unfold can_claim in ground arith
take_back-Ends owner (i ∷ rest) v real e can =
    taken-IsValid owner i rest v real e (can_claim_room owner v can)

finish_claim-Ends :
    {p : SlotPool} (owner : ℕ)
    → IsValid p
    → owner ≢ no_owner
    → (p.closed || can_claim p owner) ≡ true
    → Ends IsValid (finish_claim p owner)
unfolding finish_claim
finish_claim-Ends {p} owner v real can = elim (Bool-cases p.closed) [
  | inl shut ↦ simp shut v
  | inr up ↦ simp up (take_back-Ends owner p.free_list v real refl (simp up at can))
]

pub waited-IsValid : (p : SlotPool) (n : ℕ) → IsValid p → IsValid (record p { blocked_claims = n })
waited-IsValid p n v = record {
  sized = v.sized;
  cap_positive = v.cap_positive;
  free_once = v.free_once;
  held_counted = v.held_counted;
  capped = v.capped;
  accounted = v.accounted;
}

pub claim_lem :
    (p : SlotPool) (owner : ℕ)
    → claim p owner ≡ (
        if p.closed || can_claim p owner
        then finish_claim p owner
        else waiting (record p { blocked_claims = p.blocked_claims + 1 }))
unfolding claim
claim_lem p owner = ground arith

-- From a valid pool a call of `claim` by a real owner never reads an empty free list, and whether it
-- is granted, refused or waits it leaves a valid pool: every slot is free or held by one owner, and
-- no owner holds more than the cap.
pub claim-IsValid :
    {p : SlotPool} (owner : ℕ) → IsValid p → owner ≢ no_owner → Ends IsValid (claim p owner)
claim-IsValid {p} owner v real = elim (Bool-cases (p.closed || can_claim p owner)) [
  | inl go ↦ simp (claim_lem p owner, go) (finish_claim-Ends owner v real go)
  | inr blocked ↦ simp (claim_lem p owner, blocked) (waited-IsValid p _ v)
]

-- The same of a waiter that is woken.
pub resume-IsValid :
    {p : SlotPool} (owner : ℕ) → IsValid p → owner ≢ no_owner → Ends IsValid (resume p owner)
unfolding resume
resume-IsValid {p} owner v real = elim (Bool-cases (p.closed || can_claim p owner)) [
  | inl go ↦ simp go (finish_claim-Ends owner v real go)
  | inr blocked ↦ simp blocked v
]
