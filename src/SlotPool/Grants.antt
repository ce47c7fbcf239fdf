-- ===== src/SlotPool/Grants.antt =====
-- What each call on the slot pool does for its caller, and when it makes the caller wait.
use image_processing_engine.Prelude.{
  ℕ, zero, suc, ◌+◌, ◌<◌, ◌≡◌, refl, ◌≢◌, ◌⊎◌, ◌↔◌, inl, inr, true, false, List, [], ◌∷◌, some,
  arith, ◌||◌, set, get_elem?, Bool-cases, ◌∙◌, ap, sym,
}
use image_processing_engine.SlotPool.Ledger.{held_by, occurrences, get_elem?-set, get_elem?-lt}
use image_processing_engine.SlotPool.{
  SlotPool, no_owner, granted, refused, waiting, can_claim, take_back, finish_claim, claim, resume,
  release, close,
}
use image_processing_engine.SlotPool.Invariant.{IsValid, head_free, claim_lem, taken, claim-IsValid}
use image_processing_engine.SlotPool.Release.{put, put-IsValid, put_counts, put_held, release_cases}

-- What a grant of slot `i` to an owner did to the table of owners.
pub record IsGrant (p q : SlotPool) (owner i : ℕ) : Type 0 where
  pub was_free : get_elem? p.owner_of i ≡ some no_owner
  pub in_pool : i < p.count
  pub now_owned : get_elem? q.owner_of i ≡ some owner
  pub others_kept : (k : ℕ) → k ≢ i → get_elem? q.owner_of k ≡ get_elem? p.owner_of k
  pub was_open : p.closed ≡ false
  pub head_taken : p.free_list ≡ i ∷ q.free_list
  pub table : q.owner_of ≡ set p.owner_of i owner

take_back-IsGrant :
    {p q : SlotPool} (owner i : ℕ) (free : List ℕ)
    → IsValid p
    → p.free_list ≡ free
    → p.closed ≡ false
    → take_back p owner free ≡ granted i q
    → IsGrant p q owner i
unfolding take_back
take_back-IsGrant owner i [] v e up g = absurd (cc)
take_back-IsGrant {p} {q} owner i (j ∷ rest) v e up g =
    let same : j ≡ i = cc in
    let head : p.free_list ≡ i ∷ rest = e ∙ ap (λ k. k ∷ rest) same in
    let made : q ≡ taken p owner i rest = cc in
    let old : get_elem? p.owner_of i ≡ some no_owner = head_free i rest v head in
    record {
      was_free = old;
      in_pool = omega (arith, get_elem?-lt p.owner_of i no_owner old, v.sized);
      now_owned = ground (arith, get_elem?-set p.owner_of i i no_owner owner old);
      others_kept = λ k ne. ground (arith, get_elem?-set p.owner_of i k no_owner owner old);
      was_open = up;
      head_taken = head ∙ sym (ap (λ (r : SlotPool). i ∷ r.free_list) made);
      table = ap (λ (r : SlotPool). r.owner_of) made;
    }

finish_claim-IsGrant :
    {p q : SlotPool} (owner i : ℕ)
    → IsValid p
    → finish_claim p owner ≡ granted i q
    → IsGrant p q owner i
unfolding finish_claim
finish_claim-IsGrant {p} {q} owner i v g = elim (Bool-cases p.closed) [
  | inl shut ↦ absurd (cc (simp shut at g))
  | inr up ↦ take_back-IsGrant owner i p.free_list v refl up (simp up at g)
]

-- A slot that `claim` grants was in the pool and owned by nobody, so no two holders share a slot; it
-- is then its claimant's, all other slots keep their owners, and the free list loses its head. A
-- closed pool grants nothing.
pub claim-IsGrant :
    {p q : SlotPool} (owner i : ℕ) → IsValid p → claim p owner ≡ granted i q → IsGrant p q owner i
claim-IsGrant {p} {q} owner i v g = elim (Bool-cases (p.closed || can_claim p owner)) [
  | inl go ↦ finish_claim-IsGrant owner i v (simp (claim_lem p owner, go) at g)
  | inr blocked ↦ absurd (cc (simp (claim_lem p owner, blocked) at g))
]

-- The same of a waiter that is woken.
pub resume-IsGrant :
    {p q : SlotPool} (owner i : ℕ) → IsValid p → resume p owner ≡ granted i q → IsGrant p q owner i
unfolding resume
resume-IsGrant {p} {q} owner i v g = elim (Bool-cases (p.closed || can_claim p owner)) [
  | inl go ↦ finish_claim-IsGrant owner i v (simp go at g)
  | inr blocked ↦ absurd (cc (simp blocked at g))
]

can_claim_fails :
    {p : SlotPool} (owner : ℕ)
    → IsValid p
    → owner ≢ no_owner
    → (can_claim p owner ≡ false)
      ↔ ((p.free_list ≡ []) ⊎ (occurrences owner p.owner_of ≡ p.per_owner_cap))
unfolding can_claim
can_claim_fails {p} owner v real =
    ground (arith, v.held_counted owner real, v.capped owner real, v.cap_positive)

take_back-ne-waiting :
    (p q : SlotPool) (owner : ℕ) (free : List ℕ) → take_back p owner free ≢ waiting q
unfolding take_back
take_back-ne-waiting p q owner [] e = cc
take_back-ne-waiting p q owner (i ∷ rest) e = cc

finish_claim-ne-waiting : (p q : SlotPool) (owner : ℕ) → finish_claim p owner ≢ waiting q
unfolding finish_claim
finish_claim-ne-waiting p q owner e = elim (Bool-cases p.closed) [
  | inl shut ↦ cc (simp shut at e)
  | inr up ↦ take_back-ne-waiting p q owner p.free_list (simp up at e)
]

-- A call that waits has only counted itself.
pub claim-waiting :
    (p q : SlotPool) (owner : ℕ)
    → claim p owner ≡ waiting q
    → q ≡ record p { blocked_claims = p.blocked_claims + 1 }
claim-waiting p q owner e = elim (Bool-cases (p.closed || can_claim p owner)) [
  | inl go ↦ absurd (finish_claim-ne-waiting p _ owner (simp (claim_lem p owner, go) at e))
  | inr blocked ↦ cc (simp (claim_lem p owner, blocked) at e)
]

-- `claim` waits exactly when the pool is open and either no slot is free or the owner is at its cap;
-- a wait counts one blocked claim and changes nothing else.
pub claim_waits :
    {p : SlotPool} (owner : ℕ)
    → IsValid p
    → owner ≢ no_owner
    → (claim p owner ≡ waiting (record p { blocked_claims = p.blocked_claims + 1 })) ↔ (
        (p.closed ≡ false)
        × ((p.free_list ≡ []) ⊎ (occurrences owner p.owner_of ≡ p.per_owner_cap)))
claim_waits {p} owner v real = (
  λ e. elim (Bool-cases (p.closed || can_claim p owner)) [
    | inl go ↦ absurd (finish_claim-ne-waiting p _ owner (simp (claim_lem p owner, go) at e))
    | inr blocked ↦ (ground arith, (can_claim_fails owner v real).0 (ground arith))
  ],
  λ (up, full).
      let stuck : can_claim p owner ≡ false = (can_claim_fails owner v real).1 full in
      let both : (p.closed || can_claim p owner) ≡ false = ground arith in
      claim_lem p owner ∙ simp both,
)

can_claim-put :
    {p : SlotPool} (o i owner : ℕ)
    → IsValid p
    → get_elem? p.owner_of i ≡ some o
    → o ≢ no_owner
    → owner ≢ no_owner
    → (get_elem? p.owner_of i ≡ some owner) ⊎ (occurrences owner p.owner_of < p.per_owner_cap)
    → can_claim (put p o i) owner ≡ true
can_claim-put {p} o i owner v mine owned real reason =
    let w : IsValid (put p o i) = put-IsValid o i v owned mine in
    ground (
      arith,
      (can_claim_fails owner w real).0,
      put_counts o i v owned mine owner,
      v.capped owner real,
    )

resume_now :
    (q : SlotPool) (owner : ℕ)
    → q.closed ≡ false
    → can_claim q owner ≡ true
    → resume q owner ≡ take_back q owner q.free_list
unfolding resume finish_claim
resume_now q owner up can = simp (up, can)

-- A slot that is released on an open pool can be taken by its last owner, and by any owner below the
-- cap, at once: `resume` answers such a waiter with that very slot.
pub resume-release :
    {p q : SlotPool} (i owner : ℕ)
    → IsValid p
    → release p i ≡ some q
    → p.closed ≡ false
    → owner ≢ no_owner
    → (get_elem? p.owner_of i ≡ some owner) ⊎ (occurrences owner p.owner_of < p.per_owner_cap)
    → (r : SlotPool) × (resume q owner ≡ granted i r)
unfolding take_back
resume-release {p} {q} i owner v e up real reason =
    let (o, mine, owned, made) = release_cases p i e in
    let can : can_claim (put p o i) owner ≡ true =
      can_claim-put o i owner v mine owned real reason in
    (
      taken (put p o i) owner i p.free_list,
      ap (λ r. resume r owner) made ∙ resume_now (put p o i) owner up can,
    )

-- After `close` every claim and every waiter that wakes is refused, and the pool stays as it was.
pub close_refuses :
    (p : SlotPool) (owner : ℕ)
    → (claim (close p) owner ≡ refused (close p)) × (resume (close p) owner ≡ refused (close p))
unfolding claim resume close
close_refuses p owner = (refl, refl)

pub release_owned :
    {q : SlotPool} (owner i : ℕ)
    → IsValid q
    → owner ≢ no_owner
    → get_elem? q.owner_of i ≡ some owner
    → release q i ≡ some (put q owner i)
unfolding release
release_owned {q} owner i w real mine =
    rw (mine, release) (ground (arith, get_elem?-lt q.owner_of i owner mine, w.sized))

set-set : (xs : List ℕ) (i a v : ℕ) → get_elem? xs i ≡ some a → set (set xs i v) i a ≡ xs
set-set [] i a v h = refl
set-set (x ∷ xs) zero a v h = ground arith
set-set (x ∷ xs) (suc i) a v h = ap (λ ys. x ∷ ys) (set-set xs i a v h)

-- Releasing what was just claimed puts the pool back: the same free list in the same order, the same
-- owner of every slot, and the same number held by every owner.
pub release-claim :
    {p q : SlotPool} (owner i : ℕ)
    → IsValid p
    → owner ≢ no_owner
    → claim p owner ≡ granted i q
    → (r : SlotPool) × (release q i ≡ some r)
      × (r.free_list ≡ p.free_list)
      × (r.owner_of ≡ p.owner_of)
      × ((o : ℕ) → o ≢ no_owner → held_by o r.held_by_owner ≡ held_by o p.held_by_owner)
release-claim {p} {q} owner i v real g =
    let w : IsValid q = rw g at (claim-IsValid owner v real) in
    let grant : IsGrant p q owner i = claim-IsGrant owner i v g in
    let back : (put q owner i).owner_of ≡ p.owner_of =
      rw grant.table (set-set p.owner_of i no_owner owner grant.was_free) in
    (
      put q owner i,
      release_owned owner i w real grant.now_owned,
      sym grant.head_taken,
      back,
      λ o h.
          put_held owner i w real grant.now_owned o h
          ∙ ap (occurrences o) back
          ∙ sym (v.held_counted o h),
    )
