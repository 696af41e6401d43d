-- ===== src/Network/Mask.antt =====
-- network/network_sync.cpp: the field mask on the wire, eight fields a byte.
pub mod Roundtrip
use vortaris_ecs.Prelude.{
  ℕ, zero, suc, ◌+◌, ◌-◌, ◌*◌, ◌/◌, ◌%◌, ◌≤◌, ◌<◌, ◌≡◌, refl, ap, ap₂, sym, ◌∙◌, Bool, true, false,
  not, Option, none, some, List, [], ◌∷◌, ◌++◌, ◌==◌, nat_eq, if◌then◌else◌, length, take, drop,
  arith, append_assoc,
}
use vortaris_ecs.Serialization.{BinaryBuffer, write_bytes, read_u8, read_le, le_value, le_bytes}
use vortaris_ecs.Serialization.Component.{field_mask_bytes}

abbrev pub bit_of : Bool → ℕ
bit_of b = if b then 1 else 0

-- A byte of the mask: bit `i` is entry `i` of the rest of the mask, and entries beyond it are 0.
unfoldable pub pack : ℕ → List Bool → ℕ
pack zero mask = 0
pack (suc n) [] = 0
pack (suc n) (m ∷ mask) = bit_of m + 2 * pack n mask

-- The loop over the bytes.
unfoldable pub mask_bytes : ℕ → List Bool → List ℕ
unfolding pack
mask_bytes zero mask = []
mask_bytes (suc bytes) mask = pack 8 mask ∷ mask_bytes bytes (drop 8 mask)

unfoldable pub write_field_mask : List Bool → BinaryBuffer → BinaryBuffer
unfolding mask_bytes
write_field_mask p_mask p_buf =
    write_bytes (mask_bytes (field_mask_bytes (length p_mask)) p_mask) p_buf

-- The first `n` bits of a byte.
unfoldable pub unpack : ℕ → ℕ → List Bool
unpack zero bits = []
unpack (suc n) bits = (bits % 2 == 1) ∷ unpack n (bits / 2)

-- The loop over the bytes, with the entries that they give.
unfoldable pub read_mask_bytes : ℕ → BinaryBuffer → Option (List Bool × BinaryBuffer)
unfolding unpack
read_mask_bytes zero p_buf = some ([], p_buf)
read_mask_bytes (suc bytes) p_buf = elim (read_u8 p_buf) [
  | none ↦ none
  | some r ↦ elim (read_mask_bytes bytes r.1) [
    | none ↦ none
    | some rest ↦ some (unpack 8 r.0 ++ rest.0, rest.1)
  ]
]

-- Entries beyond the field count are ignored.
abbrev pub cut_mask : ℕ → Option (List Bool × BinaryBuffer) → Option (List Bool × BinaryBuffer)
cut_mask n none = none
cut_mask n (some r) = some (take n r.0, r.1)

unfoldable pub read_field_mask : ℕ → BinaryBuffer → Option (List Bool × BinaryBuffer)
unfolding read_mask_bytes
read_field_mask p_field_count p_buf =
    cut_mask p_field_count (read_mask_bytes (field_mask_bytes p_field_count) p_buf)
