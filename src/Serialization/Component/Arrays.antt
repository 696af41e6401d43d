-- ===== src/Serialization/Component/Arrays.antt =====
-- serialization/component_serializer.cpp: fields with a count, which hold several elements.
use vortaris_ecs.Prelude.{ℕ, ◌+◌, ◌*◌, ◌≤◌, ◌<◌, ◌≡◌, ◌⊎◌, inl, inr, ap, List, arith}
use vortaris_ecs.Schema.{FieldDescriptor, storage_size}
use vortaris_ecs.Serialization.{BinaryBuffer, le_bytes, le_value, write_bytes}
use vortaris_ecs.Serialization.Component.{number, float, shape, payload, write_field, field_size}
use vortaris_ecs.Serialization.Memory.{patch, slice-patch_before}

-- An array of several numbers, whole or floating, of `n` bytes each.
pub record IsArray (n : ℕ) (fd : FieldDescriptor) : Type 0 where
  pub numeric : (shape fd.type ≡ number n) ⊎ (shape fd.type ≡ float n)
  pub several : 1 < fd.count
  pub storage : storage_size fd ≡ n * fd.count

-- Of an array of several numbers, whole or floating, the first element alone is written: whatever stands in the
-- component behind that element does not change what is written, and the announced size times the count is
-- the storage of the array.
pub write_field-array :
    (n : ℕ) (fd : FieldDescriptor) (inst bytes : List ℕ) (from : ℕ) (b : BinaryBuffer)
    → IsArray n fd
    → fd.offset + n ≤ from
    → (write_field fd (patch from bytes inst) b ≡ write_field fd inst b)
      × (field_size fd * fd.count ≡ storage_size fd)
unfolding write_field payload field_size
write_field-array n fd inst bytes from b s h =
    let first = slice-patch_before fd.offset n from bytes inst h in
    let announced = s.storage in
    elim (s.numeric) [
      | inl whole ↦
          rw whole
            (ap (λ xs. write_bytes (le_bytes n (le_value xs)) b) first, ground (arith, announced))
      | inr floating ↦ rw floating (ap (λ xs. write_bytes xs b) first, ground (arith, announced))
    ]
