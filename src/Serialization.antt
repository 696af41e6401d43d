-- ===== src/Serialization.antt =====
-- serialization/binary_buffer.h and serialization/binary_buffer.cpp: the byte format of snapshots and packets.
--
-- A byte is a number below 256. A read answers with `none` where the code returns false. `|` of shifted bytes
-- is a sum. The signed and the floating-point values share the code below; strings are Godot's.
pub mod Roundtrip
pub mod Ahead
pub mod Memory
pub mod Component
use vortaris_ecs.Prelude.{
  ℕ, zero, suc, ◌+◌, ◌*◌, ◌/◌, ◌%◌, Bool, true, false, not, Option, none, some, List, [], ◌∷◌, ◌++◌,
  ltb, ◌==◌, nat_eq, if◌then◌else◌, length, drop, take,
}

pub record BinaryBuffer : Type 0 where
  pub bytes : List ℕ
  pub pos : ℕ

-- `(v >> (i * 8)) & 0xFF` for each byte, the lowest first.
unfoldable pub le_bytes : ℕ → ℕ → List ℕ
le_bytes zero v = []
le_bytes (suc n) v = v % 256 ∷ le_bytes n (v / 256)

-- The bytes put together again.
unfoldable pub le_value : List ℕ → ℕ
le_value [] = 0
le_value (x ∷ xs) = x + 256 * le_value xs

unfoldable pub write_bytes : List ℕ → BinaryBuffer → BinaryBuffer
write_bytes p_src b = record { bytes = b.bytes ++ p_src; pos = b.pos + length p_src }

abbrev pub write_u8 : ℕ → BinaryBuffer → BinaryBuffer
write_u8 v = write_bytes (le_bytes 1 v)

abbrev pub write_u16 : ℕ → BinaryBuffer → BinaryBuffer
write_u16 v = write_bytes (le_bytes 2 v)

abbrev pub write_u32 : ℕ → BinaryBuffer → BinaryBuffer
write_u32 v = write_bytes (le_bytes 4 v)

abbrev pub write_u64 : ℕ → BinaryBuffer → BinaryBuffer
write_u64 v = write_bytes (le_bytes 8 v)

abbrev pub write_bool : Bool → BinaryBuffer → BinaryBuffer
write_bool v = write_u8 (if v then 1 else 0)

unfoldable pub read_bytes : ℕ → BinaryBuffer → Option (List ℕ × BinaryBuffer)
read_bytes p_n b =
    if ltb (length b.bytes) (b.pos + p_n)
    then none
    else some (take p_n (drop b.pos b.bytes), record b { pos = b.pos + p_n })

-- What the four reads of numbers share: the bound, the bytes put together, the new position.
unfoldable pub read_le : ℕ → BinaryBuffer → Option (ℕ × BinaryBuffer)
unfolding le_value
read_le n b =
    if ltb (length b.bytes) (b.pos + n)
    then none
    else some (le_value (take n (drop b.pos b.bytes)), record b { pos = b.pos + n })

abbrev pub read_u8 : BinaryBuffer → Option (ℕ × BinaryBuffer)
read_u8 = read_le 1

abbrev pub read_u16 : BinaryBuffer → Option (ℕ × BinaryBuffer)
read_u16 = read_le 2

abbrev pub read_u32 : BinaryBuffer → Option (ℕ × BinaryBuffer)
read_u32 = read_le 4

abbrev pub read_u64 : BinaryBuffer → Option (ℕ × BinaryBuffer)
read_u64 = read_le 8

unfoldable pub read_bool : BinaryBuffer → Option (Bool × BinaryBuffer)
unfolding read_le
read_bool b = elim (read_u8 b) [ none ↦ none | some r ↦ some (not (r.0 == 0), r.1) ]

unfoldable pub seek : ℕ → BinaryBuffer → BinaryBuffer
seek p_pos b = record b { pos = if ltb p_pos (length b.bytes) then p_pos else length b.bytes }

unfoldable pub overwrite_u32 : ℕ → ℕ → BinaryBuffer → BinaryBuffer
unfolding le_bytes
overwrite_u32 p_pos p_value b =
    if ltb (length b.bytes) (p_pos + 4)
    then b
    else record b { bytes = take p_pos b.bytes ++ le_bytes 4 p_value ++ drop (p_pos + 4) b.bytes }

abbrev pub at_end : BinaryBuffer → Bool
at_end b = not (ltb b.pos (length b.bytes))
