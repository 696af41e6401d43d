-- ===== src/Schema.antt =====
-- core/component_schema.h: field descriptors and component schemas. A StringName is a String.
pub mod Registry
use Prim.Native.String.{String}
use vortaris_ecs.Prelude.{
  ℕ, Bool, List, Option, none, some, [], ◌∷◌, ◌==◌, string_eq, if◌then◌else◌,
}
use vortaris_ecs.Entity.{ComponentTypeId}

pub data FieldType : Type 0 where
  bool i8 i16 i32 i64 u8 u16 u32 u64 f32 f64 : FieldType
  vector2 vector2i vector3 vector3i vector4 vector4i : FieldType
  color quaternion basis transform2d transform3d aabb rect2 plane : FieldType
  string_fixed blob : FieldType

-- The number of the enumerator.
unfoldable pub ordinal : FieldType → ℕ
ordinal FieldType.bool = 0
ordinal FieldType.i8 = 1
ordinal FieldType.i16 = 2
ordinal FieldType.i32 = 3
ordinal FieldType.i64 = 4
ordinal FieldType.u8 = 5
ordinal FieldType.u16 = 6
ordinal FieldType.u32 = 7
ordinal FieldType.u64 = 8
ordinal FieldType.f32 = 9
ordinal FieldType.f64 = 10
ordinal FieldType.vector2 = 11
ordinal FieldType.vector2i = 12
ordinal FieldType.vector3 = 13
ordinal FieldType.vector3i = 14
ordinal FieldType.vector4 = 15
ordinal FieldType.vector4i = 16
ordinal FieldType.color = 17
ordinal FieldType.quaternion = 18
ordinal FieldType.basis = 19
ordinal FieldType.transform2d = 20
ordinal FieldType.transform3d = 21
ordinal FieldType.aabb = 22
ordinal FieldType.rect2 = 23
ordinal FieldType.plane = 24
ordinal FieldType.string_fixed = 25
ordinal FieldType.blob = 26

pub data SyncPriority : Type 0 where
  realtime high medium low spawn_only local : SyncPriority

pub record FieldDescriptor : Type 0 where
  pub name : String
  pub type : FieldType
  pub offset : ℕ
  pub byte_size : ℕ
  pub count : ℕ
  pub element_type : ℕ
  pub sync_priority : SyncPriority
  pub is_networked : Bool

pub record ComponentSchema : Type 0 where
  pub type_name : String
  pub type_id : ComponentTypeId
  pub size : ℕ
  pub alignment : ℕ
  pub fields : List FieldDescriptor
  pub is_networked : Bool

abbrev pub storage_size : FieldDescriptor → ℕ
storage_size f = f.byte_size

unfoldable pub find_field : String → List FieldDescriptor → Option FieldDescriptor
find_field p_name [] = none
find_field p_name (f ∷ fs) = if f.name == p_name then some f else find_field p_name fs
