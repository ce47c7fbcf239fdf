-- ===== src/CudaRaii/Tests.antt =====
-- A witness of the theorem on ownership, and a size in whole pages. A buffer is made, moved to another,
-- assigned over one of its own, and destroyed.
use image_processing_engine.Prelude.{◌≡◌, refl, arith, [], ◌∷◌}
use image_processing_engine.CudaRaii.{
  null_buffer, allocates, frees, Scope, reset, init, destroy, move_init, take_from, move_assign,
  round_up,
}
use image_processing_engine.CudaRaii.Owned.{
  Run, begun, after, inits, moves, assigns, destroys, IsOwned, Run-IsOwned,
}

-- The first buffer went to the second object, then to the third over its own, and was destroyed.
abbrev all_freed : Scope
all_freed = record {
  buffers = null_buffer ∷ null_buffer ∷ null_buffer ∷ [];
  calls = frees 512 ∷ frees 768 ∷ allocates 768 ∷ allocates 512 ∷ [];
}

moved_and_freed : Run (record { buffers = []; calls = [] }) all_freed
unfolding init move_init move_assign take_from destroy reset
moved_and_freed =
    let made = after begun (inits 64 512 (λ e. omega arith) refl refl) in
    let held = after (after made (moves 0 refl)) (inits 32 768 (λ e. omega arith) refl refl) in
    after (after (after held (assigns 2 2 refl)) (assigns 2 1 refl)) (destroys 2 refl)

Run-IsOwned_example : IsOwned all_freed
Run-IsOwned_example = Run-IsOwned moved_and_freed

two_pages : round_up 5000 4096 ≡ 8192
unfolding round_up
two_pages = refl
