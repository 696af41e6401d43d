-- ===== src/Schema/Registry.antt =====
-- core/component_registry.h and core/component_registry.cpp: type ids, schemas and names.
--
-- The registry is one object for the process; here it is a value that the operations take and return.
-- `sizeof` and `alignof` of the engine's value types are a parameter (`Layout`).
pub mod Lookup
use Prim.Native.String.{String}
use vortaris_ecs.Prelude.{
  ℕ, zero, suc, ◌+◌, ◌-◌, ◌*◌, ◌/◌, ◌≤◌, ◌<◌, ◌≡◌, Bool, true, false, not, ◌&&◌, ◌||◌, Option, none,
  some, List, [], ◌∷◌, ◌++◌, ltb, ◌==◌, nat_eq, string_eq, if◌then◌else◌, length, get_elem?, max,
  round_up, any, u32,
}
use vortaris_ecs.Prelude.Map
use vortaris_ecs.Prelude.Map.{Map}
use vortaris_ecs.Entity.{ComponentTypeId, invalid_component_type}
use vortaris_ecs.Schema.{FieldType, FieldDescriptor, ComponentSchema, ordinal}

pub record ComponentRegistry : Type 0 where
  pub schemas : List ComponentSchema
  pub id_by_name : Map String ComponentTypeId

-- `clear`.
abbrev pub empty_registry : ComponentRegistry
empty_registry = record { schemas = []; id_by_name = [] }

-- The two refusals of `register_component` print an error and return an id.
unfoldable pub register_component :
    ComponentSchema → ComponentRegistry → ComponentRegistry × ComponentTypeId
register_component p_schema reg =
    if p_schema.type_name == ""
    then (reg, invalid_component_type)
    else elim (Map.find p_schema.type_name reg.id_by_name) [
      | some known ↦ (reg, known)
      | none ↦
          let id = u32 (length reg.schemas + 1) in
          (
            record {
              schemas = reg.schemas ++ record p_schema { type_id = id } ∷ [];
              id_by_name = Map.insert p_schema.type_name id reg.id_by_name;
            },
            id,
          )
    ]

unfoldable pub schema_at : List ComponentSchema → ComponentTypeId → Option ComponentSchema
schema_at schemas p_id =
    if p_id == invalid_component_type || ltb (length schemas) p_id
    then none
    else get_elem? schemas (p_id - 1)

abbrev pub schema_of : ComponentRegistry → ComponentTypeId → Option ComponentSchema
schema_of reg p_id = schema_at reg.schemas p_id

unfoldable pub schema_of_name : ComponentRegistry → String → Option ComponentSchema
schema_of_name reg p_name = elim (Map.find p_name reg.id_by_name) [
  | none ↦ none
  | some id ↦ schema_of reg id
]

unfoldable pub id_of : ComponentRegistry → String → ComponentTypeId
id_of reg p_name = elim (Map.find p_name reg.id_by_name) [
  | none ↦ invalid_component_type
  | some id ↦ id
]

unfoldable pub name_of : ComponentRegistry → ComponentTypeId → String
name_of reg p_id = elim (schema_of reg p_id) [ none ↦ "" | some s ↦ s.type_name ]

-- `sizeof` and `alignof` of a field type's element in the build at hand.
pub record Layout : Type 0 where
  pub size : FieldType → ℕ
  pub align : FieldType → ℕ

-- Is the field a StringFixed or a Blob, whose length is in `count`?
abbrev pub is_buffer : FieldType → Bool
is_buffer FieldType.string_fixed = true
is_buffer FieldType.blob = true
is_buffer _ = false

-- `field_type_size` and `field_type_align`.
abbrev pub field_type_size : Layout → FieldType → ℕ
field_type_size l t = if is_buffer t then 0 else l.size t

abbrev pub field_type_align : Layout → FieldType → ℕ
field_type_align l t = if is_buffer t then 1 else l.align t

-- The body of the loop of `register_schema_component` for one field: `none` is the refused type.
unfoldable pub lay_field : Layout → ℕ → FieldDescriptor → Option FieldDescriptor
lay_field l offset fd =
    if is_buffer fd.type
    then some (record fd { element_type = 0; byte_size = fd.count; offset = round_up offset 1 })
    else (if field_type_size l fd.type == 0
        then none
        else some (record fd {
          element_type = if ltb 1 fd.count then ordinal fd.type else 0;
          byte_size = field_type_size l fd.type * (if ltb 0 fd.count then fd.count else 1);
          offset = round_up offset (field_type_align l fd.type);
        }))

abbrev pub elem_align : Layout → FieldDescriptor → ℕ
elem_align l fd = field_type_align l fd.type

pub record Laid : Type 0 where
  pub fields : List FieldDescriptor
  pub end : ℕ
  pub max_align : ℕ

-- The loop, from the offset and the alignment reached.
unfoldable pub lay_fields : Layout → ℕ → ℕ → List FieldDescriptor → Option Laid
unfolding lay_field
lay_fields l offset max_align [] =
    some (record { fields = []; end = offset; max_align = max_align })
lay_fields l offset max_align (fd ∷ fds) = elim (lay_field l offset fd) [
  | none ↦ none
  | some f ↦ elim (lay_fields l (f.offset + f.byte_size) (max max_align (elem_align l fd)) fds) [
    | none ↦ none
    | some r ↦ some (record r { fields = f ∷ r.fields })
  ]
]

unfoldable pub register_schema_component :
    Layout → String → List FieldDescriptor → ComponentRegistry → ComponentRegistry × ComponentTypeId
unfolding lay_fields register_component any
register_schema_component l p_name p_raw_fields reg = elim (lay_fields l 0 1 p_raw_fields) [
  | none ↦ (reg, invalid_component_type)
  | some r ↦
      register_component
        (record {
          type_name = p_name;
          type_id = invalid_component_type;
          size = round_up r.end r.max_align;
          alignment = r.max_align;
          fields = r.fields;
          is_networked = any (λ f. f.is_networked) r.fields;
        })
        reg
]

-- The ladder of comparisons of `parse_field_type`; `none` is the result false.
unfoldable pub parse_field_type : String → Option FieldType
parse_field_type s =
    if s == "Bool"
    then some FieldType.bool
    else (if s == "I8"
        then some FieldType.i8
        else (if s == "I16"
            then some FieldType.i16
            else (if s == "I32"
                then some FieldType.i32
                else (if s == "I64"
                    then some FieldType.i64
                    else (if s == "U8"
                        then some FieldType.u8
                        else (if s == "U16"
                            then some FieldType.u16
                            else (if s == "U32"
                                then some FieldType.u32
                                else (if s == "U64"
                                    then some FieldType.u64
                                    else (if s == "F32"
                                        then some FieldType.f32
                                        else (if s == "F64"
                                            then some FieldType.f64
                                            else (if s == "Vector2"
                                                then some FieldType.vector2
                                                else (if s == "Vector2i"
                                                    then some FieldType.vector2i
                                                    else (if s == "Vector3"
                                                        then some FieldType.vector3
                                                        else (if s == "Vector3i"
                                                            then some FieldType.vector3i
                                                            else (if s == "Vector4"
                                                            then some FieldType.vector4
                                                            else (if s == "Vector4i"
                                                            then some FieldType.vector4i
                                                            else (if s == "Color"
                                                            then some FieldType.color
                                                            else (if s == "Quaternion"
                                                            then some FieldType.quaternion
                                                            else (if s == "Basis"
                                                            then some FieldType.basis
                                                            else (if s == "Transform2D"
                                                            then some FieldType.transform2d
                                                            else (if s == "Transform3D"
                                                            then some FieldType.transform3d
                                                            else (if s == "AABB"
                                                            then some FieldType.aabb
                                                            else (if s == "Rect2"
                                                            then some FieldType.rect2
                                                            else (if s == "Plane"
                                                            then some FieldType.plane
                                                            else (if s == "StringFixed"
                                                            then some FieldType.string_fixed
                                                            else (if s == "Blob"
                                                            then some FieldType.blob
                                                            else (none)))))))))))))))))))))))))))
