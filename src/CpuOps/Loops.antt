-- ===== src/CpuOps/Loops.antt =====
-- Counting loops over a state, and what a loop leaves of one sample when each round writes the
-- samples of its own index.
use image_processing_engine.Prelude.{
  ℕ, zero, suc, ◌+◌, ◌<◌, ◌≡◌, ◌∙◌, Bool, ◌&&◌, ltb, leb, ◌==◌, arith, if◌then◌else◌,
}
use image_processing_engine.Image.{Image}

-- `for (i = from; i < from + left; ++i)`
abbrev pub loop {ℓ} : {A : Type ℓ} → ℕ → ℕ → (ℕ → A → A) → A → A
loop from zero f a = a
loop from (suc left) f a = loop (from + 1) left f (f from a)

-- The two loops over the pixels of the input.
abbrev pub each_pixel : Image → (ℕ → ℕ → Image → Image) → Image → Image
each_pixel input body = loop 0 input.height (λ y. loop 0 input.width (λ x. body x y))

-- An observed number that round `key` sets to `v` under a guard, and no other round changes.
pub loop_sets :
    {A : Type 0} (P : A → Type 0) (obs : A → ℕ) (v : ℕ) (guard : Bool) (key n : ℕ) (f : ℕ → A → A)
    → ((i : ℕ) (a : A)
        → i < n
        → P a
        → P (f i a) × (obs (f i a) ≡ (if guard && i == key then v else obs a)))
    → (from left : ℕ) (a : A) → from + left ≡ n
    → P a
    → P (loop from left f a)
      × (obs (loop from left f a) ≡ (if guard && (leb from key && ltb key n) then v else obs a))
loop_sets P obs v guard key n f step from zero a e p = (p, ground arith)
loop_sets P obs v guard key n f step from (suc left) a e p =
    let (q, set) = step from a (omega arith) p in
    let (r, later) =
      loop_sets P obs v guard key n f step (from + 1) left (f from a) (omega arith) q in
    (r, later ∙ ground (arith))
