-- ===== src/Bytes.antt =====
-- Little-endian fields of a `#[repr(C)]` structure that is read in place from a byte buffer.
use vesper.Prelude.{ℕ, ◌+◌, ◌*◌, ◌^◌, List, get_or}

-- The byte at an offset; a buffer is always read inside its bounds, which the callers' lemmas show.
abbrev pub u8_at : List ℕ → ℕ → ℕ
u8_at b o = get_or b o 0

abbrev pub u16_at : List ℕ → ℕ → ℕ
u16_at b o = u8_at b o + 2 ^ 8 * u8_at b (o + 1)

abbrev pub u32_at : List ℕ → ℕ → ℕ
u32_at b o = u16_at b o + 2 ^ 16 * u16_at b (o + 2)

abbrev pub u64_at : List ℕ → ℕ → ℕ
u64_at b o = u32_at b o + 2 ^ 32 * u32_at b (o + 4)
