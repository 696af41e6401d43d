-- ===== src/Network/Packets.antt =====
-- network/network_sync.cpp: the check of a packet before anything is applied.
--
-- A step of the reader answers with the buffer at its new position, or with `none` where the code returns false.
-- A buffer whose `seek` the code calls behind its bound check stands at the position asked for.
pub mod Spawns
pub mod Accepted
use vortaris_ecs.Prelude.{
  ℕ, zero, suc, ◌+◌, Bool, true, false, not, ◌&&◌, ◌||◌, Option, none, some, List, [], ◌∷◌, ltb,
  ◌==◌, nat_eq, if◌then◌else◌, length,
}
use vortaris_ecs.Entity.{ComponentTypeId}
use vortaris_ecs.Schema.{ComponentSchema}
use vortaris_ecs.Schema.Registry.{ComponentRegistry, schema_of}
use vortaris_ecs.Serialization.{
  BinaryBuffer, read_u8, read_u16, read_u32, read_u64, read_le, seek, at_end,
}
use vortaris_ecs.Serialization.Component.{
  serialized_component_size, serialized_component_fields_size, fields_size,
}
use vortaris_ecs.Network.Mask.{read_field_mask}

pub data SyncPacketKind : Type 0 where
  spawn delta full_state despawn : SyncPacketKind

abbrev pub sync_version : ℕ
sync_version = 2

abbrev pub sync_version_min : ℕ
sync_version_min = 1

-- `version < SYNC_VERSION_MIN || version > SYNC_VERSION`.
abbrev pub bad_version : ℕ → Bool
bad_version version = ltb version sync_version_min || ltb sync_version version

-- `if (in.pos() + sz > in.size()) return false; in.seek(in.pos() + sz)`.
unfoldable pub skip : ℕ → BinaryBuffer → Option BinaryBuffer
unfolding seek
skip sz b = if ltb (length b.bytes) (b.pos + sz) then none else some (seek (b.pos + sz) b)

-- The mask and the fields that it lets through.
unfoldable pub skip_masked : ComponentSchema → BinaryBuffer → Option BinaryBuffer
unfolding skip fields_size
skip_masked s b = elim (read_field_mask (length s.fields) b) [
  | none ↦ none
  | some r ↦ skip (serialized_component_fields_size s r.0) r.1
]

unfoldable pub consume_component :
    ComponentRegistry → ℕ → ComponentTypeId → BinaryBuffer → Option BinaryBuffer
unfolding skip_masked
consume_component reg version p_type b = elim (schema_of reg p_type) [
  | none ↦ none
  | some s ↦ if version == 1 then skip (serialized_component_size s) b else skip_masked s b
]

-- The loop over the records of a component in a delta: the bucket index, the mask and the fields.
unfoldable pub consume_records : ComponentSchema → ℕ → BinaryBuffer → Option BinaryBuffer
unfolding skip_masked
consume_records s zero b = some b
consume_records s (suc n) b = elim (read_u8 b) [
  | none ↦ none
  | some bidx ↦ elim (skip_masked s bidx.1) [ none ↦ none | some b' ↦ consume_records s n b' ]
]

unfoldable pub consume_delta_component_v2 :
    ComponentRegistry → ComponentTypeId → BinaryBuffer → Option BinaryBuffer
unfolding consume_records
consume_delta_component_v2 reg p_type b = elim (schema_of reg p_type) [
  | none ↦ none
  | some s ↦ elim (read_u8 b) [ none ↦ none | some nrec ↦ consume_records s nrec.0 nrec.1 ]
]

-- The loop over the components of an entity: the type id, and what `consume` reads.
unfoldable pub consume_components :
    (ComponentTypeId → BinaryBuffer → Option BinaryBuffer) → ℕ → BinaryBuffer → Option BinaryBuffer
consume_components consume zero b = some b
consume_components consume (suc n) b = elim (read_u32 b) [
  | none ↦ none
  | some t ↦ elim (consume t.0 t.1) [ none ↦ none | some b' ↦ consume_components consume n b' ]
]

-- An entity: its id, the count of its components in so many bytes, and the components.
unfoldable pub consume_entity :
    ℕ → (ComponentTypeId → BinaryBuffer → Option BinaryBuffer) → BinaryBuffer → Option BinaryBuffer
unfolding consume_components
consume_entity width consume b = elim (read_u64 b) [
  | none ↦ none
  | some id ↦ elim (read_le width id.1) [
    | none ↦ none
    | some ncomp ↦ consume_components consume ncomp.0 ncomp.1
  ]
]

unfoldable pub consume_entities :
    ℕ
    → (ComponentTypeId → BinaryBuffer → Option BinaryBuffer)
    → ℕ
    → BinaryBuffer
    → Option BinaryBuffer
unfolding consume_entity
consume_entities width consume zero b = some b
consume_entities width consume (suc n) b = elim (consume_entity width consume b) [
  | none ↦ none
  | some b' ↦ consume_entities width consume n b'
]

-- Delta and FullState: the count of the entities, then each.
unfoldable pub consume_counted :
    ℕ → (ComponentTypeId → BinaryBuffer → Option BinaryBuffer) → BinaryBuffer → Option BinaryBuffer
unfolding consume_entities
consume_counted width consume b = elim (read_u32 b) [
  | none ↦ none
  | some n ↦ consume_entities width consume n.0 n.1
]

-- `(version == 1) ? consume_component(t) : consume_delta_component_v2(t)`.
abbrev pub consume_delta :
    ComponentRegistry → ℕ → ComponentTypeId → BinaryBuffer → Option BinaryBuffer
consume_delta reg version t b =
    if version == 1 then consume_component reg version t b else consume_delta_component_v2 reg t b

-- What follows the version.
unfoldable pub consume_body :
    ComponentRegistry → SyncPacketKind → ℕ → BinaryBuffer → Option BinaryBuffer
unfolding consume_counted consume_component consume_delta_component_v2
consume_body reg SyncPacketKind.spawn version b = consume_entity 2 (consume_component reg version) b
consume_body reg SyncPacketKind.delta version b = consume_counted 1 (consume_delta reg version) b
consume_body reg SyncPacketKind.full_state version b =
    consume_counted 2 (consume_component reg version) b
consume_body reg SyncPacketKind.despawn version b = none

-- The version, and what follows it.
unfoldable pub consume_versioned :
    ComponentRegistry → SyncPacketKind → BinaryBuffer → Option BinaryBuffer
unfolding consume_body
consume_versioned reg p_kind b = elim (read_u16 b) [
  | none ↦ none
  | some version ↦
      if bad_version version.0 then none else consume_body reg p_kind version.0 version.1
]

-- A despawn packet has no version: it is an id.
unfoldable pub consume_packet :
    ComponentRegistry → SyncPacketKind → BinaryBuffer → Option BinaryBuffer
unfolding consume_versioned
consume_packet reg SyncPacketKind.despawn b = elim (read_u64 b) [
  | none ↦ none
  | some id ↦ some id.1
]
consume_packet reg SyncPacketKind.spawn b = consume_versioned reg SyncPacketKind.spawn b
consume_packet reg SyncPacketKind.delta b = consume_versioned reg SyncPacketKind.delta b
consume_packet reg SyncPacketKind.full_state b = consume_versioned reg SyncPacketKind.full_state b

unfoldable pub validate_packet : ComponentRegistry → BinaryBuffer → SyncPacketKind → Bool
unfolding consume_packet
validate_packet reg p_data p_kind = elim (consume_packet reg p_kind (seek 0 p_data)) [
  | none ↦ false
  | some end ↦ at_end end
]
