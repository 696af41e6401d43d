-- ===== src/Serialization/Component.antt =====
-- serialization/component_serializer.cpp: the fields of a component, written one after the other.
--
-- A component in memory is its bytes, and a number in memory has its lowest byte first.
pub mod Sizes
pub mod Restore
pub mod Arrays
use vortaris_ecs.Prelude.{
  ℕ, zero, suc, ◌+◌, ◌-◌, ◌/◌, Bool, true, false, not, ◌&&◌, Option, none, some, List, [], ◌∷◌,
  ◌++◌, ltb, ◌==◌, nat_eq, if◌then◌else◌, length, take, replicate,
}
use vortaris_ecs.Schema.{FieldType, FieldDescriptor, ComponentSchema, storage_size}
use vortaris_ecs.Serialization.{BinaryBuffer, le_bytes, le_value, write_bytes, read_bytes, read_le}
use vortaris_ecs.Serialization.Memory.{slice, patch}

-- The groups of cases of the three switches: a number of so many bytes, a float of so many, a StringFixed,
-- and the default.
pub data Shape : Type 0 where
  number float : ℕ → Shape
  text block : Shape

unfoldable pub shape : FieldType → Shape
shape FieldType.bool = number 1
shape FieldType.i8 = number 1
shape FieldType.u8 = number 1
shape FieldType.i16 = number 2
shape FieldType.u16 = number 2
shape FieldType.i32 = number 4
shape FieldType.u32 = number 4
shape FieldType.i64 = number 8
shape FieldType.u64 = number 8
shape FieldType.f32 = float 4
shape FieldType.f64 = float 8
shape FieldType.string_fixed = text
shape _ = block

-- The bytes before the first NUL.
abbrev pub until_nul : List ℕ → List ℕ
until_nul [] = []
until_nul (b ∷ bs) = if b == 0 then [] else b ∷ until_nul bs

-- A StringFixed in the buffer: its content, and zeros up to its storage.
abbrev pub padded : ℕ → List ℕ → List ℕ
padded n bs = until_nul bs ++ replicate (n - length (until_nul bs)) 0

-- The bytes that a field's case writes.
abbrev pub payload_of : Shape → FieldDescriptor → List ℕ → List ℕ
payload_of (number n) p_fd inst = le_bytes n (le_value (slice p_fd.offset n inst))
payload_of (float n) p_fd inst = slice p_fd.offset n inst
payload_of text p_fd inst = padded (storage_size p_fd) (slice p_fd.offset (storage_size p_fd) inst)
payload_of block p_fd inst = slice p_fd.offset (storage_size p_fd) inst

unfoldable pub payload : FieldDescriptor → List ℕ → List ℕ
unfolding shape le_bytes le_value
payload p_fd inst = payload_of (shape p_fd.type) p_fd inst

unfoldable pub write_field : FieldDescriptor → List ℕ → BinaryBuffer → BinaryBuffer
write_field p_fd inst r_buf = write_bytes (payload p_fd inst) r_buf

abbrev pub size_of_shape : Shape → FieldDescriptor → ℕ
size_of_shape (number n) p_fd = n
size_of_shape (float n) p_fd = n
size_of_shape text p_fd = storage_size p_fd
size_of_shape block p_fd = storage_size p_fd

unfoldable pub field_size : FieldDescriptor → ℕ
unfolding shape
field_size p_fd = size_of_shape (shape p_fd.type) p_fd

-- The bytes read into the field: `none` where the buffer runs out.
abbrev pub read_into :
    FieldDescriptor → List ℕ → Option (List ℕ × BinaryBuffer) → Option (List ℕ × BinaryBuffer)
read_into p_fd inst none = none
read_into p_fd inst (some r) = some (patch p_fd.offset r.0 inst, r.1)

-- A number's bytes.
abbrev pub as_bytes : ℕ → Option (ℕ × BinaryBuffer) → Option (List ℕ × BinaryBuffer)
as_bytes n none = none
as_bytes n (some r) = some (le_bytes n r.0, r.1)

abbrev pub fetch : Shape → FieldDescriptor → BinaryBuffer → Option (List ℕ × BinaryBuffer)
fetch (number n) p_fd r_buf = as_bytes n (read_le n r_buf)
fetch (float n) p_fd r_buf = read_bytes n r_buf
fetch text p_fd r_buf = read_bytes (storage_size p_fd) r_buf
fetch block p_fd r_buf = read_bytes (storage_size p_fd) r_buf

unfoldable pub read_field : FieldDescriptor → List ℕ → BinaryBuffer → Option (List ℕ × BinaryBuffer)
unfolding shape
read_field p_fd inst r_buf = read_into p_fd inst (fetch (shape p_fd.type) p_fd r_buf)

-- `i < p_mask.size() && !p_mask[i]` at the head of a mask: is the field left out?
abbrev pub masked_out : List Bool → Bool
masked_out [] = false
masked_out (m ∷ ms) = not m

abbrev pub next_mask : List Bool → List Bool
next_mask [] = []
next_mask (m ∷ ms) = ms

-- The loops over the fields under a mask; the mask is walked with the fields.
unfoldable pub write_fields :
    List FieldDescriptor → List Bool → List ℕ → BinaryBuffer → BinaryBuffer
unfolding write_field
write_fields [] mask inst r_buf = r_buf
write_fields (fd ∷ fds) mask inst r_buf =
    write_fields fds (next_mask mask) inst
      (if masked_out mask then r_buf else write_field fd inst r_buf)

unfoldable pub read_fields :
    List FieldDescriptor → List Bool → List ℕ → BinaryBuffer → Option (List ℕ × BinaryBuffer)
read_fields [] mask inst r_buf = some (inst, r_buf)
read_fields (fd ∷ fds) mask inst r_buf =
    elim (if masked_out mask then some (inst, r_buf) else read_field fd inst r_buf) [
      | none ↦ none
      | some r ↦ read_fields fds (next_mask mask) r.0 r.1
    ]

unfoldable pub fields_size : List FieldDescriptor → List Bool → ℕ
fields_size [] mask = 0
fields_size (fd ∷ fds) mask =
    (if masked_out mask then 0 else field_size fd) + fields_size fds (next_mask mask)

abbrev pub serialize_component_fields :
    ComponentSchema → List ℕ → List Bool → BinaryBuffer → BinaryBuffer
serialize_component_fields p_schema p_inst p_mask = write_fields p_schema.fields p_mask p_inst

abbrev pub deserialize_component_fields :
    ComponentSchema → List ℕ → List Bool → BinaryBuffer → Option (List ℕ × BinaryBuffer)
deserialize_component_fields p_schema p_inst p_mask = read_fields p_schema.fields p_mask p_inst

abbrev pub serialized_component_fields_size : ComponentSchema → List Bool → ℕ
serialized_component_fields_size p_schema p_mask = fields_size p_schema.fields p_mask

-- Without a mask no field is left out.
abbrev pub serialize_component : ComponentSchema → List ℕ → BinaryBuffer → BinaryBuffer
serialize_component p_schema p_inst = write_fields p_schema.fields [] p_inst

abbrev pub deserialize_component :
    ComponentSchema → List ℕ → BinaryBuffer → Option (List ℕ × BinaryBuffer)
deserialize_component p_schema p_inst = read_fields p_schema.fields [] p_inst

abbrev pub serialized_component_size : ComponentSchema → ℕ
serialized_component_size p_schema = fields_size p_schema.fields []

abbrev pub field_mask_bytes : ℕ → ℕ
field_mask_bytes p_field_count = (p_field_count + 7) / 8
