-- ===== src/Network/Plan/Secret.antt =====
-- network/network_sync.cpp: what stays off the wire.
use vortaris_ecs.Prelude.{ℕ, ◌≡◌, refl, ap, Bool, true, false, List, [], ◌∷◌}
use vortaris_ecs.Schema.{FieldDescriptor, storage_size}
use vortaris_ecs.Serialization.{BinaryBuffer, le_bytes, le_value}
use vortaris_ecs.Serialization.Component.{
  Shape, number, float, text, block, shape, payload, payload_of, field_size, size_of_shape,
  write_field, write_fields, padded,
}
use vortaris_ecs.Serialization.Memory.{slice}

-- Two components with the same bytes at every field that the mask lets through.
abbrev pub Alike : List FieldDescriptor → List Bool → List ℕ → List ℕ → Type 0
Alike [] mask a b = Unit {0}
Alike (fd ∷ fds) [] a b =
    (slice fd.offset (field_size fd) a ≡ slice fd.offset (field_size fd) b) × Alike fds [] a b
Alike (fd ∷ fds) (m ∷ mask) a b =
    (m ≡ true → slice fd.offset (field_size fd) a ≡ slice fd.offset (field_size fd) b)
    × Alike fds mask a b

payload-same :
    (fd : FieldDescriptor) (a b : List ℕ)
    → slice fd.offset (field_size fd) a ≡ slice fd.offset (field_size fd) b
    → payload fd a ≡ payload fd b
unfolding payload field_size
payload-same fd a b h = same (shape fd.type) h
  where
    same :
        (s : Shape)
        → slice fd.offset (size_of_shape s fd) a ≡ slice fd.offset (size_of_shape s fd) b
        → payload_of s fd a ≡ payload_of s fd b
    same (number n) e = ap (λ x. le_bytes n (le_value x)) e
    same (float n) e = e
    same text e = ap (padded (storage_size fd)) e
    same block e = e

-- What is written of a component under a mask depends on the bytes of the fields that the mask lets through alone.
pub write_fields-Alike :
    (fds : List FieldDescriptor) (mask : List Bool) (a b : List ℕ) (buf : BinaryBuffer)
    → Alike fds mask a b
    → write_fields fds mask a buf ≡ write_fields fds mask b buf
unfolding write_fields write_field
write_fields-Alike [] mask a b buf h = refl
write_fields-Alike (fd ∷ fds) [] a b buf h =
    rw (payload-same fd a b h.0) (write_fields-Alike fds [] a b _ h.1)
write_fields-Alike (fd ∷ fds) (false ∷ mask) a b buf h = write_fields-Alike fds mask a b buf h.1
write_fields-Alike (fd ∷ fds) (true ∷ mask) a b buf h =
    rw (payload-same fd a b (h.0 refl)) (write_fields-Alike fds mask a b _ h.1)
