-- ===== src/Protocol/Bytes.antt =====
-- The little-endian packing of one field: what each reader makes of what the writer wrote.
use image_processing_engine.Prelude.{
  ℕ, ◌+◌, ◌*◌, ◌/◌, ◌%◌, ◌^◌, ◌<◌, ◌≡◌, List, ◌++◌, arith, bit_or,
}
use image_processing_engine.Prelude.Bits.{bit_and_byte, bit_or-shift}
use image_processing_engine.Prelude.Predicates.{All}
use image_processing_engine.Protocol.{put_u16, put_u32, get_u16, get_u32}

abbrev pub IsByte : ℕ → Type 0
IsByte b = b < 256

-- The four bytes of a word, or of a shorter field, or-ed at their places.
or_bytes :
    (a b c d : ℕ)
    → IsByte a
    → IsByte b
    → IsByte c
    → bit_or (bit_or (bit_or a (b * 2 ^ 8)) (c * 2 ^ 16)) (d * 2 ^ 24)
      ≡ a + b * 2 ^ 8 + c * 2 ^ 16 + d * 2 ^ 24
or_bytes a b c d ha hb hc =
    rw (bit_or-shift 8 a b ha, bit_or-shift 16 (a + b * 2 ^ 8) c (omega arith))
      (bit_or-shift 24 (a + b * 2 ^ 8 + c * 2 ^ 16) d (omega arith))

pub get_u16-put_u16 : (v : ℕ) (rest : List ℕ) → v < 2 ^ 16 → get_u16 (put_u16 v ++ rest) ≡ v
unfolding get_u16 put_u16
get_u16-put_u16 v rest h =
    rw
      (
        bit_and_byte v,
        bit_and_byte (v / 2 ^ 8),
        bit_or-shift 8 (v % 256) (v / 2 ^ 8 % 256) (omega arith),
      )
      (omega arith)

pub get_u32-put_u32 : (v : ℕ) (rest : List ℕ) → v < 2 ^ 32 → get_u32 (put_u32 v ++ rest) ≡ v
unfolding get_u32 put_u32
get_u32-put_u32 v rest h =
    rw
      (
        bit_and_byte v,
        bit_and_byte (v / 2 ^ 8),
        bit_and_byte (v / 2 ^ 16),
        bit_and_byte (v / 2 ^ 24),
        or_bytes (v % 256) (v / 2 ^ 8 % 256) (v / 2 ^ 16 % 256) (v / 2 ^ 24 % 256) (omega arith)
            (omega arith) (omega arith),
      )
      (omega arith)

put_u32-IsByte : (v : ℕ) → All IsByte (put_u32 v)
unfolding put_u32
put_u32-IsByte v =
    rw
      (
        bit_and_byte v,
        bit_and_byte (v / 2 ^ 8),
        bit_and_byte (v / 2 ^ 16),
        bit_and_byte (v / 2 ^ 24),
      )
      (omega arith)
