-- ===== src/Server/Worker/Table.antt =====
-- The in-flight table: what a submit puts in, a retire takes out.
use image_processing_engine.Prelude.{
  ℕ, ◌+◌, ◌≡◌, refl, [], ◌∷◌, Bool, none, some, arith, if◌then◌else◌,
}
use image_processing_engine.Server.Worker.{InFlight, Table, find, erase, emplace}

-- How many entries pass a test.
abbrev pub tally : (InFlight → Bool) → Table → ℕ
tally p [] = 0
tally p ((key, entry) ∷ table) = (if p entry then 1 else 0) + tally p table

pub tally-erase :
    (p : InFlight → Bool) (handle : ℕ) (table : Table) (entry : InFlight)
    → find handle table ≡ some entry
    → tally p table ≡ (if p entry then 1 else 0) + tally p (erase handle table)
unfolding find erase
tally-erase p handle [] entry e = ground arith
tally-erase p handle ((key, stored) ∷ table) entry e =
    ground (arith, tally-erase p handle table entry)

pub tally-emplace :
    (p : InFlight → Bool) (handle : ℕ) (entry : InFlight) (table : Table)
    → find handle table ≡ none
    → tally p (emplace handle entry table) ≡ (if p entry then 1 else 0) + tally p table
unfolding emplace
tally-emplace p handle entry table fresh = rw (fresh, emplace) refl
