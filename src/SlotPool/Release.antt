-- ===== src/SlotPool/Release.antt =====
-- `release` and the constructor keep the invariant of the slot pool.
use image_processing_engine.Prelude.{
  ℕ, zero, suc, ◌+◌, ◌-◌, ◌≤◌, ◌<◌, ◌≡◌, refl, ◌≢◌, ◌⊎◌, ◌↔◌, inl, inr, Bool, false, List, [], ◌∷◌,
  none, some, arith, ltb, ◌==◌, if◌then◌else◌, length, set, get_elem?, replicate, length-set,
  length-replicate, Option-cases, ◌∙◌,
}
use image_processing_engine.Prelude.Predicates.{count_if-set, count_if}
use image_processing_engine.SlotPool.Ledger.{
  find, held_by, occurrences, find-assign, find-erase, get_elem?-set, get_elem?-lt,
}
use image_processing_engine.SlotPool.{SlotPool, no_owner, fill, init, decrement, release}
use image_processing_engine.SlotPool.Invariant.{IsValid, free_flag, is_claimed}

-- The pool after slot `i` came back from `owner`.
abbrev pub put : SlotPool → ℕ → ℕ → SlotPool
put p owner i = record p {
  held_by_owner = decrement owner p.held_by_owner;
  owner_of = set p.owner_of i no_owner;
  free_list = i ∷ p.free_list;
}

module _ {p : SlotPool} (owner i : ℕ) (v : IsValid p) (real : owner ≢ no_owner)
    (mine : get_elem? p.owner_of i ≡ some owner) where
  pub put_counts :
      (o : ℕ)
      → occurrences o (set p.owner_of i no_owner) + (if owner == o then 1 else 0)
        ≡ occurrences o p.owner_of + (if no_owner == o then 1 else 0)
  put_counts o = count_if-set (λ x. x == o) p.owner_of i owner no_owner mine

  put_free_once :
      (k : ℕ)
      → occurrences k (i ∷ p.free_list) ≡ free_flag (get_elem? (set p.owner_of i no_owner) k)
  put_free_once k =
      ground (arith, get_elem?-set p.owner_of i k owner no_owner mine, mine, v.free_once k)

  pub put_held :
      (o : ℕ)
      → o ≢ no_owner
      → held_by o (decrement owner p.held_by_owner) ≡ occurrences o (set p.owner_of i no_owner)
  unfolding decrement
  put_held o h = ground (
    arith,
    find-assign owner o (held_by owner p.held_by_owner - 1) p.held_by_owner,
    find-erase owner o p.held_by_owner,
    put_counts o,
    v.held_counted o h,
  )

  put_capped : (o : ℕ) → o ≢ no_owner → occurrences o (set p.owner_of i no_owner) ≤ p.per_owner_cap
  put_capped o h = ground (arith, put_counts o, v.capped o h)

  put_accounted :
      suc (length p.free_list) + count_if is_claimed (set p.owner_of i no_owner) ≡ p.count
  put_accounted =
      ground (arith, count_if-set is_claimed p.owner_of i owner no_owner mine, v.accounted)

  pub put-IsValid : IsValid (put p owner i)
  put-IsValid = record {
    sized = length-set p.owner_of i no_owner ∙ v.sized;
    cap_positive = v.cap_positive;
    free_once = put_free_once;
    held_counted = put_held;
    capped = put_capped;
    accounted = put_accounted;
  }

-- A release that does not throw names a slot that someone owns, and gives it back.
pub release_cases :
    (p : SlotPool) {q : SlotPool} (i : ℕ)
    → release p i ≡ some q
    → (o : ℕ) × (get_elem? p.owner_of i ≡ some o) × (o ≢ no_owner) × (q ≡ put p o i)
unfolding release
release_cases p i e = elim (Option-cases (get_elem? p.owner_of i)) [
  | inl out ↦ absurd (cc (rw (out, release) at e))
  | inr (o, at_o) ↦ (o, at_o, ground arith, ground arith)
]

-- A release that does not throw leaves a valid pool.
pub release-IsValid : {p q : SlotPool} (i : ℕ) → IsValid p → release p i ≡ some q → IsValid q
release-IsValid {p} {q} i v e =
    let (o, mine, real, made) = release_cases p i e in rw made (put-IsValid o i v real mine)

-- On a valid pool `release` throws exactly when the slot is not claimed.
pub release_throws :
    {p : SlotPool} (i : ℕ)
    → IsValid p
    → (release p i ≡ none)
      ↔ ((get_elem? p.owner_of i ≡ none) ⊎ (get_elem? p.owner_of i ≡ some no_owner))
unfolding release
release_throws {p} i v = elim (Option-cases (get_elem? p.owner_of i)) [
  | inl out ↦ (λ _. inl out, λ _. rw (out, release))
  | inr (o, at_o) ↦ ground (arith, get_elem?-lt p.owner_of i o at_o, v.sized)
]

fill_counts :
    (n i : ℕ) (free : List ℕ)
    → occurrences i (fill n free) ≡ occurrences i free + (if ltb i n then 1 else 0)
unfolding fill
fill_counts zero i free = ground arith
fill_counts (suc n) i free = ground (arith, fill_counts n i (n ∷ free))

length-fill : (n : ℕ) (free : List ℕ) → length (fill n free) ≡ n + length free
unfolding fill
length-fill zero free = omega arith
length-fill (suc n) free = omega (arith, length-fill n (n ∷ free))

get_elem?-replicate : (n a i : ℕ) → get_elem? (replicate n a) i ≡ (if ltb i n then some a else none)
get_elem?-replicate zero a i = ground arith
get_elem?-replicate (suc n) a zero = ground arith
get_elem?-replicate (suc n) a (suc i) = ground (arith, get_elem?-replicate n a i)

count_if-replicate : (p : ℕ → Bool) (n a : ℕ) → p a ≡ false → count_if p (replicate n a) ≡ 0
count_if-replicate p zero a h = refl
count_if-replicate p (suc n) a h = ground (arith, count_if-replicate p n a h)

abbrev fresh : ℕ → ℕ → ℕ → ℕ → SlotPool
fresh base count bytes cap = record {
  base = base;
  count = count;
  bytes = bytes;
  per_owner_cap = cap;
  free_list = fill count [];
  owner_of = replicate count no_owner;
  held_by_owner = [];
  blocked_claims = 0;
  closed = false;
}

fresh-IsValid : (base count bytes cap : ℕ) → 0 < cap → IsValid (fresh base count bytes cap)
unfolding find
fresh-IsValid base count bytes cap h = record {
  sized = length-replicate count no_owner;
  cap_positive = h;
  free_once = λ i. ground (arith, fill_counts count i [], get_elem?-replicate count no_owner i);
  held_counted = λ o real. ground (arith, count_if-replicate (λ x. x == o) count no_owner);
  capped = λ o real. ground (arith, count_if-replicate (λ x. x == o) count no_owner);
  accounted =
      omega (arith, length-fill count [], count_if-replicate is_claimed count no_owner refl);
}

-- Where the constructor does not throw it makes a valid pool with every slot free.
pub init-IsValid :
    (base count bytes cap : ℕ) {p : SlotPool}
    → init base count bytes cap ≡ some p
    → IsValid p × (length p.free_list ≡ count)
unfolding init
init-IsValid base count bytes cap {p} e =
    let made : p ≡ fresh base count bytes (if cap == 0 then count else cap) = ground arith in
    let room : 0 < (if cap == 0 then count else cap) = ground arith in
    rw made (fresh-IsValid base count bytes _ room, omega (arith, length-fill count []))
