-- ===== src/CudaRaii.antt =====
-- src/backend/cuda/cuda_raii.h: DeviceBuffer as the owner of a pointer of the driver's, and
-- `round_up` of RegisteredHostBuffer. CudaModule, PinnedHostBuffer, CudaStream and
-- CudaEvent have the members of DeviceBuffer, each with its own two calls of the driver.
pub mod Counts
pub mod Owned
pub mod Pages
mod Tests
use image_processing_engine.Prelude.{
  ℕ, ◌+◌, ◌-◌, ◌*◌, ◌/◌, ◌%◌, ◌^◌, List, [], ◌∷◌, ◌++◌, Option, none, some, ◌==◌, if◌then◌else◌,
  get_elem?, set,
}

-- A pointer is a number, 0 the null pointer.
pub record DeviceBuffer : Type 0 where
  pub pointer : ℕ
  pub size : ℕ

abbrev pub null_buffer : DeviceBuffer
null_buffer = record { pointer = 0; size = 0 }

-- The calls of the driver: `cuMemAlloc` that gave a pointer, and `cuMemFree`, whose result is only
-- printed.
pub data Call : Type 0 where
  allocates frees : ℕ → Call

-- The objects in the order in which they were constructed, and the calls, the last one first. An
-- object that was destroyed stays in the list without a pointer.
pub record Scope : Type 0 where
  pub buffers : List DeviceBuffer
  pub calls : List Call

-- `reset()`: the buffer then, and the calls.
unfoldable pub reset : DeviceBuffer → List Call → DeviceBuffer × List Call
reset buffer calls =
    if buffer.pointer == 0 then (buffer, calls) else (null_buffer, frees buffer.pointer ∷ calls)

-- The constructor, given what `cuMemAlloc` answers; `none` is the exception.
unfoldable pub init : ℕ → Option ℕ → Scope → Option Scope
init bytes none s = none
init bytes (some pointer) s = some (record {
  buffers = s.buffers ++ (record { pointer = pointer; size = bytes } ∷ []);
  calls = allocates pointer ∷ s.calls;
})

-- In the operations below `none` means that there is no such object. The destructor of object `i`:
unfoldable pub destroy : ℕ → Scope → Option Scope
unfolding reset
destroy i s = elim (get_elem? s.buffers i) [
  | none ↦ none
  | some this ↦
      let (emptied, calls) = reset this s.calls in
      some (record { buffers = set s.buffers i emptied; calls = calls })
]

-- The move constructor: a new object takes what object `j` has.
unfoldable pub move_init : ℕ → Scope → Option Scope
move_init j s = elim (get_elem? s.buffers j) [
  | none ↦ none
  | some other ↦ some (record s { buffers = set s.buffers j null_buffer ++ (other ∷ []) })
]

-- The move assignment of object `j` to an object `i` that is not the same.
unfoldable pub take_from : ℕ → ℕ → DeviceBuffer → DeviceBuffer → Scope → Scope
unfolding reset
take_from i j this other s = record {
  buffers = set (set s.buffers i other) j null_buffer;
  calls = (reset this s.calls).1;
}

unfoldable pub move_assign : ℕ → ℕ → Scope → Option Scope
unfolding take_from
move_assign i j s = elim (get_elem? s.buffers i) [
  | none ↦ none
  | some this ↦ elim (get_elem? s.buffers j) [
    | none ↦ none
    | some other ↦ some (if i == j then s else take_from i j this other s)
  ]
]

-- `RegisteredHostBuffer::round_up` on `std::size_t`.
unfoldable pub round_up : ℕ → ℕ → ℕ
round_up value multiple = (((value + multiple - 1) % 2 ^ 64) / multiple) * multiple % 2 ^ 64
