-- ===== src/OpChain/Texts.antt =====
-- Searching, cutting and trimming texts without separators.
use mathlib.Core.List.{reverse, reverse-cons, reverse-reverse}
use image_processing_engine.Prelude.{
  ℕ, zero, suc, ◌<◌, ◌≡◌, refl, ap, Bool, true, ◌&&◌, not, List, [], ◌∷◌, ◌++◌, none, some, arith,
  ◌==◌, length, take, drop,
}
use image_processing_engine.OpChain.{is_space, trim_front, trim, find_char}

abbrev pub all_of : (ℕ → Bool) → List ℕ → Bool
all_of p [] = true
all_of p (c ∷ text) = p c && all_of p text

pub all_of-append :
    (p : ℕ → Bool) (s t : List ℕ) → all_of p s ≡ true → all_of p t ≡ true → all_of p (s ++ t) ≡ true
all_of-append p [] t hs ht = ht
all_of-append p (c ∷ s) t hs ht = ground (arith, all_of-append p s t)

all_of-reverse : (p : ℕ → Bool) (s : List ℕ) → all_of p s ≡ true → all_of p (reverse s) ≡ true
all_of-reverse p [] h = refl
all_of-reverse p (c ∷ s) h =
    rw (reverse-cons c s)
      (all_of-append p (reverse s) (c ∷ []) (all_of-reverse p s (ground arith)) (ground arith))

pub all_of_weaken :
    (p q : ℕ → Bool) (s : List ℕ)
    → ((c : ℕ) → p c ≡ true → q c ≡ true)
    → all_of p s ≡ true
    → all_of q s ≡ true
all_of_weaken p q [] f h = refl
all_of_weaken p q (c ∷ s) f h = ground (arith, f c, all_of_weaken p q s f)

trim_front_lem : (s : List ℕ) → all_of (λ c. not (is_space c)) s ≡ true → trim_front s ≡ s
unfolding trim_front
trim_front_lem [] h = refl
trim_front_lem (c ∷ s) h = ground arith

-- Nothing is cut off a text without white space.
pub trim_lem : (s : List ℕ) → all_of (λ c. not (is_space c)) s ≡ true → trim s ≡ s
unfolding trim
trim_lem s h =
    rw (trim_front_lem s h, trim_front_lem (reverse s) (all_of-reverse _ s h)) (reverse-reverse s)

pub find_char-none :
    (c : ℕ) (s : List ℕ) → all_of (λ x. not (x == c)) s ≡ true → find_char c s ≡ none
unfolding find_char
find_char-none c [] h = refl
find_char-none c (x ∷ s) h = ground (arith, find_char-none c s)

pub find_char-append :
    (c : ℕ) (s t : List ℕ)
    → all_of (λ x. not (x == c)) s ≡ true
    → find_char c (s ++ (c ∷ t)) ≡ some (length s)
unfolding find_char
find_char-append c [] t h = ground arith
find_char-append c (x ∷ s) t h = ground (arith, find_char-append c s t)

pub take-length : (s t : List ℕ) → take (length s) (s ++ t) ≡ s
take-length [] t = refl
take-length (x ∷ s) t = ap (λ r. x ∷ r) (take-length s t)

pub drop-length : (s : List ℕ) (c : ℕ) (t : List ℕ) → drop (suc (length s)) (s ++ (c ∷ t)) ≡ t
drop-length [] c t = refl
drop-length (x ∷ s) c t = drop-length s c t

pub find_char-lt : (c : ℕ) (s : List ℕ) (n : ℕ) → find_char c s ≡ some n → n < length s
unfolding find_char
find_char-lt c [] n h = ground arith
find_char-lt c (x ∷ s) zero h = omega arith
find_char-lt c (x ∷ s) (suc n) h = ground (arith, find_char-lt c s n)
