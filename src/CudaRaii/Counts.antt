-- ===== src/CudaRaii/Counts.antt =====
-- How often a pointer was given and taken back, and by how many objects it is held.
use image_processing_engine.Prelude.{
  ℕ, ◌+◌, ◌≡◌, ◌≢◌, refl, sym, Bool, true, false, List, [], ◌∷◌, ◌++◌, some, ◌==◌, if◌then◌else◌,
  get_elem?, set, ◌⊎◌, arith, if-cases, inl, inr,
}
use image_processing_engine.Prelude.Predicates.{count_if, count_if-append, count_if-set}
use image_processing_engine.CudaRaii.{DeviceBuffer, null_buffer, Call, allocates, frees, reset}

-- How many objects hold the pointer `h`, how often the driver gave it, and how often it took it
-- back.
abbrev pub holds : ℕ → DeviceBuffer → Bool
holds h buffer = buffer.pointer == h

abbrev pub owners : ℕ → List DeviceBuffer → ℕ
owners h buffers = count_if (holds h) buffers

abbrev pub given : ℕ → List Call → ℕ
given h [] = 0
given h (allocates p ∷ calls) = (if p == h then 1 else 0) + given h calls
given h (frees p ∷ calls) = given h calls

abbrev pub taken : ℕ → List Call → ℕ
taken h [] = 0
taken h (allocates p ∷ calls) = taken h calls
taken h (frees p ∷ calls) = (if p == h then 1 else 0) + taken h calls

-- What `reset` frees.
reset-cases :
    (buffer : DeviceBuffer) (calls : List Call)
    → ((buffer.pointer ≡ 0) × (reset buffer calls ≡ (buffer, calls)))
      ⊎ ((buffer.pointer ≢ 0) × (reset buffer calls ≡ (null_buffer, frees buffer.pointer ∷ calls)))
unfolding reset
reset-cases buffer calls =
    let split : (((buffer.pointer == 0) ≡ true) × ((buffer, calls) ≡ reset buffer calls))
        ⊎ (((buffer.pointer == 0) ≡ false)
            × ((null_buffer, frees buffer.pointer ∷ calls) ≡ reset buffer calls)) =
      if-cases (buffer.pointer == 0) refl in
    elim split [
      | inl (null, e) ↦ inl (ground arith, sym e)
      | inr (real, e) ↦ inr ((λ z. ground arith), sym e)
    ]

pub reset-counts :
    (buffer : DeviceBuffer) (calls : List Call)
    → ((h : ℕ)
        → h ≢ 0
        → taken h (reset buffer calls).1 ≡ taken h calls + (if buffer.pointer == h then 1 else 0))
      × ((h : ℕ) → given h (reset buffer calls).1 ≡ given h calls)
      × ((reset buffer calls).0.pointer ≡ 0)
      × (taken 0 (reset buffer calls).1 ≡ taken 0 calls)
reset-counts buffer calls = elim (reset-cases buffer calls) [
  | inl (null, e) ↦ rw e ((λ h real. ground arith), (λ h. refl), null, refl)
  | inr (some_pointer, e) ↦ rw e ((λ h real. ground arith), (λ h. refl), refl, ground arith)
]

pub owners-snoc :
    (h : ℕ) (buffers : List DeviceBuffer) (last : DeviceBuffer)
    → owners h (buffers ++ (last ∷ [])) ≡ owners h buffers + (if last.pointer == h then 1 else 0)
owners-snoc h buffers last = omega (arith, count_if-append (holds h) buffers (last ∷ []))

-- The owners of a pointer after object `i` was replaced.
pub owners-set :
    (h : ℕ) (buffers : List DeviceBuffer) (i : ℕ) (was then_is : DeviceBuffer)
    → get_elem? buffers i ≡ some was
    → owners h (set buffers i then_is) + (if was.pointer == h then 1 else 0)
      ≡ owners h buffers + (if then_is.pointer == h then 1 else 0)
owners-set h buffers i was then_is e = count_if-set (holds h) buffers i was then_is e
