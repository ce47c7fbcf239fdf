-- ===== src/KernelCache/Once.antt =====
-- A key that is in the cache stays there, is found by every equal key, and is not compiled again.
use mathlib.Core.Path.{subst}
use image_processing_engine.Prelude.{
  ◌≡◌, refl, sym, ap, ◌∙◌, ◌↔◌, ◌⊎◌, Bool, true, false, List, [], ◌∷◌, ◌++◌, Option, none, some,
  ==_iff, arith, if◌then◌else◌, Option-cases, Bool-cases, inl, inr,
}
use image_processing_engine.OpChain.Numerics.{Floats}
use image_processing_engine.KernelKey.{KernelKey, key_eq, hash_kernel_key}
use image_processing_engine.KernelKey.Inputs.{inputs, key_eq_iff, hash_kernel_key-key_eq}
use image_processing_engine.KernelCache.{KernelCache, matches, find, insert, get, get_new}

both_or_neither : (a b : Bool) → (a ≡ true) ↔ (b ≡ true) → a ≡ b
both_or_neither true b h = sym (h.0 refl)
both_or_neither false true h = h.1 refl
both_or_neither false false h = refl

module _ (R : Floats) where
  open R use {F}

  -- The hash makes no difference to a lookup, since equal keys hash equally.
  matches_lem : (a b : KernelKey F) → matches R a b ≡ key_eq R a b
  unfolding matches
  matches_lem a b = elim (Bool-cases (key_eq R a b)) [
    | inl same ↦
        let hashes =
          (==_iff (hash_kernel_key R a) (hash_kernel_key R b)).1
            (hash_kernel_key-key_eq R a b same) in
        rw (hashes, same) refl
    | inr differ ↦ ground arith
  ]

  matches_self : (key : KernelKey F) → matches R key key ≡ true
  matches_self key = matches_lem key key ∙ (key_eq_iff R key key).1 refl

  matches_same :
      (a b stored : KernelKey F) → key_eq R a b ≡ true → matches R a stored ≡ matches R b stored
  matches_same a b stored same =
      let e : inputs R a ≡ inputs R b = (key_eq_iff R a b).0 same in
      matches_lem a stored
      ∙ both_or_neither (key_eq R a stored) (key_eq R b stored) (
        λ h. (key_eq_iff R b stored).1 (sym e ∙ (key_eq_iff R a stored).0 h),
        λ h. (key_eq_iff R a stored).1 (e ∙ (key_eq_iff R b stored).0 h),
      )
      ∙ sym (matches_lem b stored)

module _ (R : Floats) {CompiledChain : Type 0} where
  open R use {F}

  find_same :
      (a b : KernelKey F) (entries : List (KernelKey F × CompiledChain))
      → key_eq R a b ≡ true
      → find R a entries ≡ find R b entries
  unfolding find
  find_same a b [] same = refl
  find_same a b ((stored, chain) ∷ entries) same =
      rw (matches_same R a b stored same)
        (ap (λ r. if matches R b stored then some chain else r) (find_same a b entries same))

  find_kept :
      (key : KernelKey F) (entries more : List (KernelKey F × CompiledChain))
      (chain : CompiledChain)
      → find R key entries ≡ some chain
      → find R key (entries ++ more) ≡ some chain
  unfolding find
  find_kept key [] more chain e = absurd (cc)
  find_kept key ((stored, first) ∷ entries) more chain e =
      elim (Bool-cases (matches R key stored)) [
        | inl hit ↦ rw hit (simp hit at e)
        | inr miss ↦ rw miss (find_kept key entries more chain (simp miss at e))
      ]

  find_inserted :
      (key : KernelKey F) (entries : List (KernelKey F × CompiledChain)) (chain : CompiledChain)
      → find R key entries ≡ none
      → find R key (entries ++ ((key, chain) ∷ [])) ≡ some chain
  unfolding find
  find_inserted key [] chain e = rw (matches_self R key) refl
  find_inserted key ((stored, first) ∷ entries) chain e = elim (Bool-cases (matches R key stored)) [
    | inl hit ↦ absurd (cc (simp hit at e))
    | inr miss ↦ rw miss (find_inserted key entries chain (simp miss at e))
  ]

  module _ (compile : KernelKey F → Option CompiledChain) where
    get_hit :
        (cache : KernelCache R CompiledChain) (key : KernelKey F) (chain : CompiledChain)
        → find R key cache.entries ≡ some chain
        → get R compile cache key ≡ some (chain, cache)
    unfolding get
    get_hit cache key chain e = rw (e, get) refl

    -- A lookup that succeeds was a hit, which changes nothing, or a miss that was compiled.
    get_cases :
        (cache next : KernelCache R CompiledChain) (key : KernelKey F) (chain : CompiledChain)
        → get R compile cache key ≡ some (chain, next)
        → ((find R key cache.entries ≡ some chain) × (cache ≡ next))
          ⊎ ((find R key cache.entries ≡ none)
              × (compile key ≡ some chain)
              × (insert R cache key chain ≡ next))
    unfolding get get_new
    get_cases cache next key chain e = elim (Option-cases (find R key cache.entries)) [
      | inr (found, hit) ↦
          let f : some (found, cache) ≡ some (chain, next) = rw (hit, get) at e in
          let chains : found ≡ chain = cc in
          let caches : cache ≡ next = cc in inl (hit ∙ ap some chains, caches)
      | inl miss ↦ elim (Option-cases (compile key)) [
        | inl refused ↦
            let g : get_new R compile cache key ≡ some (chain, next) = rw (miss, get) at e in
            let f : none ≡ some (chain, next) = rw (refused, get_new) at g in absurd (cc)
        | inr (made, compiled) ↦
            let g : get_new R compile cache key ≡ some (chain, next) = rw (miss, get) at e in
            let f : some (made, insert R cache key made) ≡ some (chain, next) =
              rw (compiled, get_new) at g in
            let chains : made ≡ chain = cc in
            let caches : insert R cache key made ≡ next = cc in
            inr (miss, compiled ∙ ap some chains, ap (insert R cache key) (sym chains) ∙ caches)
      ]
    ]

    get-found :
        (cache next : KernelCache R CompiledChain) (key : KernelKey F) (chain : CompiledChain)
        → get R compile cache key ≡ some (chain, next)
        → find R key next.entries ≡ some chain
    get-found cache next key chain e = elim (get_cases cache next key chain e) [
      | inl (hit, same) ↦
          subst (λ (c : KernelCache R CompiledChain). find R key c.entries ≡ some chain) same hit
      | inr (miss, compiled, made) ↦
          subst (λ (c : KernelCache R CompiledChain). find R key c.entries ≡ some chain) made
            (find_inserted key cache.entries chain miss)
    ]

    get-kept :
        (cache next : KernelCache R CompiledChain) (key other : KernelKey F)
        (chain found : CompiledChain)
        → find R key cache.entries ≡ some chain
        → get R compile cache other ≡ some (found, next)
        → find R key next.entries ≡ some chain
    get-kept cache next key other chain found kept e = elim (get_cases cache next other found e) [
      | inl (hit, same) ↦
          subst (λ (c : KernelCache R CompiledChain). find R key c.entries ≡ some chain) same kept
      | inr (miss, compiled, made) ↦
          subst (λ (c : KernelCache R CompiledChain). find R key c.entries ≡ some chain) made
            (find_kept key cache.entries ((other, found) ∷ []) chain kept)
    ]

    -- Lookups in any order, by successful calls of `get`.
    pub data Run (cache : KernelCache R CompiledChain) : KernelCache R CompiledChain → Type 0 where
      begun : Run cache cache
      gets :
          {between next : KernelCache R CompiledChain} (key : KernelKey F) (chain : CompiledChain)
          → Run cache between
          → get R compile between key ≡ some (chain, next)
          → Run cache next

    Run-kept :
        {cache next : KernelCache R CompiledChain} (key : KernelKey F) (chain : CompiledChain)
        → find R key cache.entries ≡ some chain
        → Run cache next
        → find R key next.entries ≡ some chain
    Run-kept key chain kept begun = kept
    Run-kept {cache} {next} key chain kept (gets {between} other found r e) =
        get-kept between next key other chain found (Run-kept key chain kept r) e

    -- Once a key has been got, every equal key gets the very same compiled chain, after any further
    -- lookups and whatever the hashes of the other keys, and the cache does not change: no more is
    -- compiled for it.
    pub get_once :
        (cache first later : KernelCache R CompiledChain) (key other : KernelKey F)
        (chain : CompiledChain)
        → get R compile cache key ≡ some (chain, first)
        → Run first later
        → key_eq R other key ≡ true
        → get R compile later other ≡ some (chain, later)
    get_once cache first later key other chain e r same = get_hit later other chain (
        find_same other key later.entries same
        ∙ Run-kept key chain (get-found cache first key chain e) r)
