-- ===== src/CudaRaii/Owned.antt =====
-- Who owns a pointer of the driver's, over any run of constructors, moves and destructors.
use image_processing_engine.Prelude.{
  ℕ, ◌+◌, ◌≤◌, ◌≡◌, ◌≢◌, refl, Bool, true, false, [], ◌∷◌, ◌++◌, some, ◌==◌, if◌then◌else◌,
  get_elem?, get_elem?-set_ne, set, ◌∙◌, arith, Option-cases, inl, inr,
}
use image_processing_engine.CudaRaii.{
  DeviceBuffer, null_buffer, allocates, Scope, reset, init, destroy, move_init, take_from,
  move_assign,
}
use image_processing_engine.CudaRaii.Counts.{
  owners, given, taken, reset-counts, owners-snoc, owners-set,
}

-- A call of the constructor gets a pointer that is not null and that is not in use, as the driver
-- gives it, or throws and changes nothing.
pub data Step (s : Scope) : Scope → Type 0 where
  inits :
      (bytes pointer : ℕ) {t : Scope}
      → pointer ≢ 0
      → given pointer s.calls ≡ taken pointer s.calls
      → init bytes (some pointer) s ≡ some t
      → Step s t
  destroys : (i : ℕ) {t : Scope} → destroy i s ≡ some t → Step s t
  moves : (j : ℕ) {t : Scope} → move_init j s ≡ some t → Step s t
  assigns : (i j : ℕ) {t : Scope} → move_assign i j s ≡ some t → Step s t

pub data Run (s : Scope) : Scope → Type 0 where
  begun : Run s s
  after : {t u : Scope} → Run s t → Step t u → Run s u

pub record IsOwned (s : Scope) : Type 0 where
  pub accounted : (h : ℕ) → h ≢ 0 → given h s.calls ≡ taken h s.calls + owners h s.buffers
  pub one_owner : (h : ℕ) → h ≢ 0 → owners h s.buffers ≤ 1
  pub null_kept : taken 0 s.calls ≡ 0

module _ {s : Scope} (v : IsOwned s) where
  init-IsOwned :
      (bytes pointer : ℕ)
      → pointer ≢ 0
      → given pointer s.calls ≡ taken pointer s.calls
      → IsOwned (record {
        buffers = s.buffers ++ (record { pointer = pointer; size = bytes } ∷ []);
        calls = allocates pointer ∷ s.calls;
      })
  init-IsOwned bytes pointer real fresh = record {
    accounted = λ h other. ground (
      arith,
      v.accounted h other,
      owners-snoc h s.buffers (record { pointer = pointer; size = bytes }),
    );
    one_owner = λ h other. ground (
      arith,
      v.accounted h other,
      v.one_owner h other,
      owners-snoc h s.buffers (record { pointer = pointer; size = bytes }),
      fresh,
    );
    null_kept = v.null_kept;
  }

  destroy-IsOwned :
      (i : ℕ) (this : DeviceBuffer)
      → get_elem? s.buffers i ≡ some this
      → IsOwned (record {
        buffers = set s.buffers i (reset this s.calls).0;
        calls = (reset this s.calls).1;
      })
  destroy-IsOwned i this e =
      let (counts, kept, null, zero_kept) = reset-counts this s.calls in
      record {
        accounted = λ h real. ground (
          arith,
          v.accounted h real,
          counts h real,
          kept h,
          null,
          owners-set h s.buffers i this (reset this s.calls).0 e,
        );
        one_owner = λ h real. ground (
          arith,
          v.one_owner h real,
          null,
          owners-set h s.buffers i this (reset this s.calls).0 e,
        );
        null_kept = zero_kept ∙ v.null_kept;
      }

  move_init-IsOwned :
      (j : ℕ) (other : DeviceBuffer)
      → get_elem? s.buffers j ≡ some other
      → IsOwned (record s { buffers = set s.buffers j null_buffer ++ (other ∷ []) })
  move_init-IsOwned j other e =
      let same : (h : ℕ)
          → h ≢ 0
          → owners h (set s.buffers j null_buffer ++ (other ∷ [])) ≡ owners h s.buffers =
        λ h real. ground (
          arith,
          owners-set h s.buffers j other null_buffer e,
          owners-snoc h (set s.buffers j null_buffer) other,
        ) in
      record {
        accounted = λ h real. ground (arith, v.accounted h real, same h real);
        one_owner = λ h real. ground (arith, v.one_owner h real, same h real);
        null_kept = v.null_kept;
      }

  take_from-IsOwned :
      (i j : ℕ) (this other : DeviceBuffer)
      → i ≢ j
      → get_elem? s.buffers i ≡ some this
      → get_elem? s.buffers j ≡ some other
      → IsOwned (take_from i j this other s)
  unfolding take_from
  take_from-IsOwned i j this other apart e f =
      let (counts, kept, null, zero_kept) = reset-counts this s.calls in
      let still : get_elem? (set s.buffers i other) j ≡ some other =
        get_elem?-set_ne s.buffers other apart ∙ f in
      let moved : (h : ℕ)
          → h ≢ 0
          → owners h (set (set s.buffers i other) j null_buffer)
              + (if this.pointer == h then 1 else 0)
            ≡ owners h s.buffers =
        λ h real. ground (
          arith,
          owners-set h s.buffers i this other e,
          owners-set h (set s.buffers i other) j other null_buffer still,
        ) in
      record {
        accounted =
            λ h real. ground (arith, v.accounted h real, counts h real, kept h, moved h real);
        one_owner = λ h real. ground (arith, v.one_owner h real, moved h real);
        null_kept = zero_kept ∙ v.null_kept;
      }

  assign-if :
      (test : Bool) (i j : ℕ) (this other : DeviceBuffer)
      → (i == j) ≡ test
      → get_elem? s.buffers i ≡ some this
      → get_elem? s.buffers j ≡ some other
      → IsOwned (if test then s else take_from i j this other s)
  assign-if true i j this other test e f = v
  assign-if false i j this other test e f =
      take_from-IsOwned i j this other (λ same. ground arith) e f

  move_assign-IsOwned : (i j : ℕ) {t : Scope} → move_assign i j s ≡ some t → IsOwned t
  unfolding move_assign
  move_assign-IsOwned i j {t} e = elim (Option-cases (get_elem? s.buffers i)) [
    | inl gone ↦ absurd (cc (rw (gone, move_assign) at e))
    | inr (this, here) ↦ elim (Option-cases (get_elem? s.buffers j)) [
      | inl gone ↦ absurd (cc (rw (here, gone, move_assign) at e))
      | inr (other, there) ↦
          let made : t ≡ (if i == j then s else take_from i j this other s) =
            cc (rw (here, there, move_assign) at e) in
          rw made (assign-if _ i j this other refl here there)
    ]
  ]

  move_init-step : (j : ℕ) {t : Scope} → move_init j s ≡ some t → IsOwned t
  unfolding move_init
  move_init-step j {t} e = elim (Option-cases (get_elem? s.buffers j)) [
    | inl gone ↦ absurd (cc (rw (gone, move_init) at e))
    | inr (other, there) ↦
        let made : t ≡ record s { buffers = set s.buffers j null_buffer ++ (other ∷ []) } =
          cc (rw (there, move_init) at e) in
        rw made (move_init-IsOwned j other there)
  ]

  destroy-step : (i : ℕ) {t : Scope} → destroy i s ≡ some t → IsOwned t
  unfolding destroy
  destroy-step i {t} e = elim (Option-cases (get_elem? s.buffers i)) [
    | inl gone ↦ absurd (cc (rw (gone, destroy) at e))
    | inr (this, here) ↦
        let made : t ≡ record {
          buffers = set s.buffers i (reset this s.calls).0;
          calls = (reset this s.calls).1;
        } =
          cc (rw (here, destroy) at e) in
        rw made (destroy-IsOwned i this here)
  ]

Step-IsOwned : {s t : Scope} → Step s t → IsOwned s → IsOwned t
unfolding init
Step-IsOwned {s} {t} (inits bytes pointer real fresh e) v =
    let made : t ≡ record {
      buffers = s.buffers ++ (record { pointer = pointer; size = bytes } ∷ []);
      calls = allocates pointer ∷ s.calls;
    } =
      cc in
    rw made (init-IsOwned v bytes pointer real fresh)
Step-IsOwned (destroys i e) v = destroy-step v i e
Step-IsOwned (moves j e) v = move_init-step v j e
Step-IsOwned (assigns i j e) v = move_assign-IsOwned v i j e

-- Over any constructors, moves, assignments, those to the object itself included, and destructors,
-- given that the driver gives no pointer that is in use: every pointer was given as often as it was
-- taken back and objects hold it, it has at most one owner, and the null pointer is never freed.
pub Run-IsOwned : {t : Scope} → Run (record { buffers = []; calls = [] }) t → IsOwned t
Run-IsOwned begun = record {
  accounted = λ h real. refl;
  one_owner = λ h real. omega arith;
  null_kept = refl;
}
Run-IsOwned (after earlier step) = Step-IsOwned step (Run-IsOwned earlier)
