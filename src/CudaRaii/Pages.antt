-- ===== src/CudaRaii/Pages.antt =====
-- The size of a registered buffer is a whole number of pages.
use image_processing_engine.Prelude.{ℕ, ◌+◌, ◌-◌, ◌*◌, ◌/◌, ◌%◌, ◌^◌, ◌≤◌, ◌<◌, ◌≡◌, arith}
use native.Mathlib.Nat.{mul-mod_left}
use image_processing_engine.CudaRaii.{round_up}

fits_word : (n : ℕ) → n < 2 ^ 64 → n % 2 ^ 64 ≡ n
fits_word n small = omega arith

-- Where the sum does not overflow, `round_up` gives the least multiple that is not below the value.
pub round_up-IsLeast :
    (value multiple : ℕ)
    → 0 < multiple
    → value + multiple ≤ 2 ^ 64
    → (round_up value multiple % multiple ≡ 0)
      × (value ≤ round_up value multiple)
      × (round_up value multiple < value + multiple)
unfolding round_up
round_up-IsLeast value multiple some_bytes small =
    let sum : (value + multiple - 1) % 2 ^ 64 ≡ value + multiple - 1 = omega arith in
    let pages = (value + multiple - 1) / multiple in
    let bounds : (value ≤ pages * multiple) × (pages * multiple < value + multiple) = grind arith in
    let fits : pages * multiple % 2 ^ 64 ≡ pages * multiple =
      fits_word _ (let below = bounds.1 in grind arith) in
    rw (sum, fits) (mul-mod_left pages multiple, bounds.0, bounds.1)
