-- ===== src/SlotPool.antt =====
-- include/imgjit/util/slot_pool.h and src/util/slot_pool.cpp: the frame-slot free list. Each
-- member function runs under the mutex, so it is one atomic step on the state; `claim` may leave
-- its caller waiting, and `resume` is the wait's predicate run again after a notification.
pub mod Ledger
pub mod Invariant
pub mod Release
pub mod Steps
pub mod Grants
mod Tests
use image_processing_engine.Prelude.{
  ℕ, zero, suc, ◌+◌, ◌-◌, ◌*◌, ◌^◌, Bool, true, false, ◌&&◌, ◌||◌, not, List, [], ◌∷◌, Option, none,
  some, ltb, leb, ◌==◌, if◌then◌else◌, set, get_elem?, replicate, length,
}
use Ledger.{Holdings, find, assign, erase, held_by}

-- ~uint64_t{0}
abbrev pub no_owner : ℕ
no_owner = 2 ^ 64 - 1

-- The head of `free_list` is the vector's back, where slots are taken and put. `base` is an
-- address, 0 the null pointer.
pub record SlotPool : Type 0 where
  pub base : ℕ
  pub count : ℕ
  pub bytes : ℕ
  pub per_owner_cap : ℕ
  pub free_list : List ℕ
  pub owner_of : List ℕ
  pub held_by_owner : Holdings
  pub blocked_claims : ℕ
  pub closed : Bool

-- What a call of `claim` has come to: a slot, an answer without one, a wait on `available_`, or
-- undefined behaviour (the back of an empty vector is read).
pub data Claim : Type 0 where
  granted : ℕ → SlotPool → Claim
  refused : SlotPool → Claim
  waiting : SlotPool → Claim
  fault : Claim

-- `for (i = count; i > 0; --i) push_back(i - 1)`
unfoldable pub fill : ℕ → List ℕ → List ℕ
fill zero free = free
fill (suc i) free = fill i (i ∷ free)

-- `none` is the invalid_argument that the constructor throws.
unfoldable pub init : ℕ → ℕ → ℕ → ℕ → Option SlotPool
unfolding fill
init base count bytes per_owner_cap =
    if base == 0 || count == 0 || bytes == 0
    then none
    else some (record {
      base = base;
      count = count;
      bytes = bytes;
      per_owner_cap = if per_owner_cap == 0 then count else per_owner_cap;
      free_list = fill count [];
      owner_of = replicate count no_owner;
      held_by_owner = [];
      blocked_claims = 0;
      closed = false;
    })

abbrev is_empty : List ℕ → Bool
is_empty [] = true
is_empty (x ∷ xs) = false

unfoldable pub can_claim : SlotPool → ℕ → Bool
can_claim p owner =
    if is_empty p.free_list
    then false
    else elim (find owner p.held_by_owner) [ none ↦ true | some held ↦ ltb held p.per_owner_cap ]

-- `++held_by_owner_[owner]`: a missing key counts from 0.
abbrev pub increment : ℕ → Holdings → Holdings
increment owner m = assign owner (held_by owner m + 1) m

-- What follows the wait in `claim`.
unfoldable pub take_back : SlotPool → ℕ → List ℕ → Claim
take_back p owner (index ∷ rest) = granted index (record p {
  free_list = rest;
  owner_of = set p.owner_of index owner;
  held_by_owner = increment owner p.held_by_owner;
})
take_back p owner [] = fault

unfoldable pub finish_claim : SlotPool → ℕ → Claim
unfolding take_back
finish_claim p owner = if p.closed then refused p else take_back p owner p.free_list

unfoldable pub claim : SlotPool → ℕ → Claim
unfolding finish_claim can_claim
claim p owner =
    if not p.closed && not (can_claim p owner)
    then waiting (record p { blocked_claims = p.blocked_claims + 1 })
    else finish_claim p owner

-- A waiter that is woken tests `closed_ || can_claim(owner)` again.
unfoldable pub resume : SlotPool → ℕ → Claim
unfolding finish_claim can_claim
resume p owner = if p.closed || can_claim p owner then finish_claim p owner else waiting p

-- `--held->second == 0` erases the entry.
unfoldable pub decrement : ℕ → Holdings → Holdings
decrement owner m = elim (find owner m) [
  | none ↦ m
  | some held ↦ if held - 1 == 0 then erase owner m else assign owner (held - 1) m
]

-- `none` is the logic_error that `release` throws.
unfoldable pub release : SlotPool → ℕ → Option SlotPool
unfolding decrement
release p index = elim (get_elem? p.owner_of index) [
  | none ↦ none
  | some owner ↦
      if leb p.count index || owner == no_owner
      then none
      else some (record p {
        held_by_owner = decrement owner p.held_by_owner;
        owner_of = set p.owner_of index no_owner;
        free_list = index ∷ p.free_list;
      })
]

-- `none` is the out_of_range that `slot` throws.
unfoldable pub slot : SlotPool → ℕ → Option ℕ
slot p index = if leb p.count index then none else some (p.base + index * p.bytes)

unfoldable pub close : SlotPool → SlotPool
close p = record p { closed = true }

unfoldable pub available : SlotPool → ℕ
available p = length p.free_list
