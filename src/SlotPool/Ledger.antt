-- ===== src/SlotPool/Ledger.antt =====
-- `std::unordered_map<std::uint64_t, std::size_t>`: a map with at most one entry for a key, as an
-- association list, and how often a value stands in a vector.
use image_processing_engine.Prelude.{
  ℕ, zero, suc, ◌<◌, ◌≡◌, refl, List, [], ◌∷◌, Option, none, some, arith, ◌==◌, if◌then◌else◌,
  length, get_elem?, set,
}
use image_processing_engine.Prelude.Predicates.{count_if}

abbrev pub Holdings : Type 0
Holdings = List (ℕ × ℕ)

unfoldable pub find : ℕ → Holdings → Option ℕ
find k [] = none
find k ((j, v) ∷ m) = if j == k then some v else find k m

unfoldable pub assign : ℕ → ℕ → Holdings → Holdings
assign k v [] = (k, v) ∷ []
assign k v ((j, w) ∷ m) = if j == k then (k, v) ∷ m else (j, w) ∷ assign k v m

unfoldable pub erase : ℕ → Holdings → Holdings
erase k [] = []
erase k ((j, w) ∷ m) = if j == k then erase k m else (j, w) ∷ erase k m

abbrev pub or_zero : Option ℕ → ℕ
or_zero none = 0
or_zero (some v) = v

-- How many slots the map says that an owner holds.
abbrev pub held_by : ℕ → Holdings → ℕ
held_by k m = or_zero (find k m)

pub find-assign :
    (k j v : ℕ) (m : Holdings) → find j (assign k v m) ≡ (if k == j then some v else find j m)
unfolding find assign
find-assign k j v [] = refl
find-assign k j v ((i, w) ∷ m) = ground (arith, find-assign k j v m)

pub find-erase : (k j : ℕ) (m : Holdings) → find j (erase k m) ≡ (if k == j then none else find j m)
unfolding find erase
find-erase k j [] = ground arith
find-erase k j ((i, w) ∷ m) = ground (arith, find-erase k j m)

-- How often `o` stands in a list.
abbrev pub occurrences : ℕ → List ℕ → ℕ
occurrences o = count_if (λ x. x == o)

-- One write moves one occurrence from the old value to the new.
pub get_elem?-set :
    (xs : List ℕ) (i j a v : ℕ)
    → get_elem? xs i ≡ some a
    → get_elem? (set xs i v) j ≡ (if i == j then some v else get_elem? xs j)
get_elem?-set [] i j a v h = ground arith
get_elem?-set (x ∷ xs) zero zero a v h = refl
get_elem?-set (x ∷ xs) zero (suc j) a v h = ground arith
get_elem?-set (x ∷ xs) (suc i) zero a v h = ground arith
get_elem?-set (x ∷ xs) (suc i) (suc j) a v h = ground (arith, get_elem?-set xs i j a v h)

pub get_elem?-lt : (xs : List ℕ) (i a : ℕ) → get_elem? xs i ≡ some a → i < length xs
get_elem?-lt [] i a h = ground arith
get_elem?-lt (x ∷ xs) zero a h = omega arith
get_elem?-lt (x ∷ xs) (suc i) a h = omega (arith, get_elem?-lt xs i a h)
