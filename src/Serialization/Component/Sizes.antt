-- ===== src/Serialization/Component/Sizes.antt =====
-- serialization/component_serializer.cpp: what is written has the announced size.
use vortaris_ecs.Prelude.{
  ℕ, ◌+◌, ◌-◌, ◌≤◌, ◌≡◌, refl, ap₂, sym, ◌∙◌, Bool, List, [], ◌∷◌, ◌++◌, length, arith,
  length-append, length-replicate, Bool-cases, inl, inr, nat_eq, if◌then◌else◌, replicate,
  append_assoc, append-nil,
}
use vortaris_ecs.Schema.{FieldDescriptor, storage_size}
use vortaris_ecs.Serialization.{BinaryBuffer, write_bytes}
use vortaris_ecs.Serialization.Component.{
  Shape, number, float, text, block, shape, payload, payload_of, padded, until_nul, field_size,
  size_of_shape, write_field, write_fields, fields_size, masked_out, next_mask,
}
use vortaris_ecs.Serialization.Memory.{length-slice}
use vortaris_ecs.Serialization.Roundtrip.{length-le_bytes}

-- Every field lies within the component.
abbrev pub Fit : ℕ → List FieldDescriptor → Type 0
Fit n [] = Unit {0}
Fit n (fd ∷ fds) = (fd.offset + field_size fd ≤ n) × Fit n fds

length-until_nul : (bs : List ℕ) → length (until_nul bs) ≤ length bs
length-until_nul [] = omega arith
length-until_nul (b ∷ bs) = ground (arith, length-until_nul bs)

length-padded : (n : ℕ) (bs : List ℕ) → length bs ≡ n → length (padded n bs) ≡ n
length-padded n bs h = omega (
  arith,
  h,
  length-until_nul bs,
  length-append (until_nul bs) (replicate (n - length (until_nul bs)) 0),
  length-replicate {A = ℕ} (n - length (until_nul bs)) 0,
)

length-payload_of :
    (s : Shape) (fd : FieldDescriptor) (inst : List ℕ)
    → fd.offset + size_of_shape s fd ≤ length inst
    → length (payload_of s fd inst) ≡ size_of_shape s fd
length-payload_of (number n) fd inst h = length-le_bytes n _
length-payload_of (float n) fd inst h = length-slice fd.offset n inst h
length-payload_of text fd inst h =
    length-padded (storage_size fd) _ (length-slice fd.offset (storage_size fd) inst h)
length-payload_of block fd inst h = length-slice fd.offset (storage_size fd) inst h

pub length-payload :
    (fd : FieldDescriptor) (inst : List ℕ)
    → fd.offset + field_size fd ≤ length inst
    → length (payload fd inst) ≡ field_size fd
unfolding payload field_size
length-payload fd inst h = length-payload_of (shape fd.type) fd inst h

-- The bytes of all the fields that the mask lets through.
abbrev pub payloads : List FieldDescriptor → List Bool → List ℕ → List ℕ
payloads [] mask inst = []
payloads (fd ∷ fds) mask inst =
    (if masked_out mask then [] else payload fd inst) ++ payloads fds (next_mask mask) inst

pub length-payloads :
    (fds : List FieldDescriptor) (mask : List Bool) (inst : List ℕ)
    → Fit (length inst) fds
    → length (payloads fds mask inst) ≡ fields_size fds mask
unfolding fields_size
length-payloads [] mask inst f = refl
length-payloads (fd ∷ fds) mask inst f = elim (Bool-cases (masked_out mask)) [
  | inl out ↦ rw out (omega (arith, length-payloads fds (next_mask mask) inst f.1))
  | inr kept ↦ rw kept (
      omega (
        arith,
        length-append (payload fd inst) (payloads fds (next_mask mask) inst),
        length-payloads fds (next_mask mask) inst f.1,
        length-payload fd inst f.0,
      ))
]

pub write_twice :
    (xs ys : List ℕ) (b : BinaryBuffer)
    → write_bytes ys (write_bytes xs b) ≡ write_bytes (xs ++ ys) b
unfolding write_bytes
write_twice xs ys b =
    ap₂ (λ bs p. record { bytes = bs; pos = p }) (append_assoc b.bytes xs ys)
      (omega (arith, length-append xs ys))

pub write_nothing : (b : BinaryBuffer) → write_bytes [] b ≡ b
unfolding write_bytes
write_nothing b = ap₂ (λ bs p. record { bytes = bs; pos = p }) (append-nil b.bytes) (omega arith)

-- The loop writes the payloads.
pub write_fields-payloads :
    (fds : List FieldDescriptor) (mask : List Bool) (inst : List ℕ) (b : BinaryBuffer)
    → write_fields fds mask inst b ≡ write_bytes (payloads fds mask inst) b
unfolding write_fields write_field
write_fields-payloads [] mask inst b = sym (write_nothing b)
write_fields-payloads (fd ∷ fds) mask inst b = elim (Bool-cases (masked_out mask)) [
  | inl out ↦ rw out (write_fields-payloads fds (next_mask mask) inst b)
  | inr kept ↦ rw kept (
      write_fields-payloads fds (next_mask mask) inst (write_bytes (payload fd inst) b)
      ∙ write_twice (payload fd inst) (payloads fds (next_mask mask) inst) b)
]

-- A component whose fields lie within it takes exactly the announced number of bytes, under any mask.
pub write_fields-size :
    (fds : List FieldDescriptor) (mask : List Bool) (inst : List ℕ) (b : BinaryBuffer)
    → Fit (length inst) fds
    → (length (write_fields fds mask inst b).bytes ≡ length b.bytes + fields_size fds mask)
      × ((write_fields fds mask inst b).pos ≡ b.pos + fields_size fds mask)
unfolding write_bytes
write_fields-size fds mask inst b f =
    let l = length-payloads fds mask inst f in
    rw (write_fields-payloads fds mask inst b)
      (omega (arith, l, length-append b.bytes (payloads fds mask inst)), omega (arith, l))
