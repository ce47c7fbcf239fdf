-- ===== src/Prelude/Predicates.antt =====
-- Predicates on lists by recursion, which the tactics read as tuples, and counting.
use Prim.Native.Nat.{ℕ, zero, suc, ◌+◌}
use mathlib.Core.Path.{◌≡◌, ap, ◌∙◌}
use native.Mathlib.Omega.{arith}
use mathlib.Core.Bool.{Bool}
use mathlib.Core.Option.{some}
use mathlib.Core.List.{List, [], ◌∷◌, ◌++◌}
use image_processing_engine.Prelude.Tests.{if◌then◌else◌}
use image_processing_engine.Prelude.Lists.{get_elem?, set}

module _ {ℓ κ} {A : Type ℓ} where
  abbrev pub All : (A → Type κ) → List A → Type κ
  All P [] = Unit {κ}
  All P (x ∷ xs) = P x × All P xs

  -- One element more at the back.
  pub All-snoc :
      (P : A → Type κ) (front : List A) {x : A} → All P front → P x → All P (front ++ (x ∷ []))
  All-snoc P [] all last = (last, tt)
  All-snoc P (y ∷ front) (first, all) last = (first, All-snoc P front all last)

-- How many elements pass a test.
module _ {ℓ} {A : Type ℓ} where
  abbrev pub count_if : (A → Bool) → List A → ℕ
  count_if p [] = 0
  count_if p (x ∷ xs) = (if p x then 1 else 0) + count_if p xs

  pub count_if-append :
      (p : A → Bool) (xs ys : List A) → count_if p (xs ++ ys) ≡ count_if p xs + count_if p ys
  count_if-append p [] ys = omega arith
  count_if-append p (x ∷ xs) ys = omega (arith, count_if-append p xs ys)

  -- One element less in the middle.
  pub count_if-middle :
      (p : A → Bool) (before after : List A) (x : A) (xs : List A)
      → xs ≡ before ++ (x ∷ after)
      → count_if p xs ≡ (if p x then 1 else 0) + count_if p (before ++ after)
  count_if-middle p before after x xs e =
      ap (count_if p) e
      ∙ omega (arith, count_if-append p before (x ∷ after), count_if-append p before after)

  -- One element in place of another.
  pub count_if-set :
      (p : A → Bool) (xs : List A) (i : ℕ) (a v : A)
      → get_elem? xs i ≡ some a
      → count_if p (set xs i v) + (if p a then 1 else 0) ≡ count_if p xs + (if p v then 1 else 0)
  count_if-set p [] i a v h = absurd (cc)
  count_if-set p (x ∷ xs) zero a v h = let same : x ≡ a = cc in rw same (omega arith)
  count_if-set p (x ∷ xs) (suc i) a v h = omega (arith, count_if-set p xs i a v h)
