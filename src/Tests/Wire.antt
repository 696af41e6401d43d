-- ===== src/Tests/Wire.antt =====
-- The serializer and network/network_sync.cpp for an entity with one component of two fields.
use vortaris_ecs.Prelude.{
  ℕ, zero, suc, ◌+◌, ◌≤◌, ◌<◌, ◌^◌, ◌≡◌, refl, Bool, true, false, none, some, List, [], ◌∷◌, ◌==◌,
  nat_eq, arith, length, inl, ◌*◌,
}
use vortaris_ecs.Archetype.{blank}
use vortaris_ecs.Column.{fresh}
use vortaris_ecs.Schema.{FieldType, FieldDescriptor, ComponentSchema, SyncPriority}
use vortaris_ecs.Schema.Registry.{ComponentRegistry, schema_at}
use vortaris_ecs.Serialization.{BinaryBuffer, write_bytes}
use vortaris_ecs.Serialization.Component.{
  payload, field_size, shape, fields_size, write_fields, read_fields, write_field,
}
use vortaris_ecs.Serialization.Component.Arrays.{IsArray, write_field-array}
use vortaris_ecs.Serialization.Component.Restore.{read_fields-write_fields}
use vortaris_ecs.Serialization.Memory.{patch}
use vortaris_ecs.Entity.{slot}
use vortaris_ecs.Snapshot.{check_snapshot, serialize_world_snapshot}
use vortaris_ecs.Snapshot.Accepted.{check_snapshot-serialize_world_snapshot}
use vortaris_ecs.Network.Replication.Ticks.{sort_archetypes, insert_archetype}
use vortaris_ecs.World.{World}
use vortaris_ecs.World.Invariant.{at}
use vortaris_ecs.World.Lifecycle.{uninitialised}
use vortaris_ecs.Network.Client.Aligned.{delta_masked-dead}
use vortaris_ecs.Network.Client.Delta.{delta_masked}
use vortaris_ecs.Network.Packets.Spawns.Private.{spawn_packet-same}
use vortaris_ecs.Network.Mask.{write_field_mask, read_field_mask}
use vortaris_ecs.Network.Mask.Roundtrip.{read_field_mask-write_field_mask}
use vortaris_ecs.Network.Plan.{is_local, plan_of}
use vortaris_ecs.Network.Plan.Buckets.{Ascending, used, plan_of-Ascending}
use vortaris_ecs.Network.Packets.{SyncPacketKind, validate_packet}
use vortaris_ecs.Network.Packets.Spawns.{spawn_packet}
use vortaris_ecs.Network.Packets.Accepted.Spawned.{AllSendable, validate_packet-spawn_packet}

abbrev hp : FieldDescriptor
hp = record {
  name = "hp";
  type = FieldType.u16;
  offset = 0;
  byte_size = 2;
  count = 1;
  element_type = 0;
  sync_priority = SyncPriority.high;
  is_networked = true;
}

-- A field that never leaves its peer.
abbrev aim : FieldDescriptor
aim = record hp { name = "aim"; offset = 2; sync_priority = SyncPriority.local }

abbrev fields : List FieldDescriptor
fields = hp ∷ aim ∷ []

abbrev unit : ComponentSchema
unit = record {
  type_name = "unit";
  type_id = 1;
  size = 4;
  alignment = 2;
  fields = fields;
  is_networked = true;
}

abbrev pub registry : ComponentRegistry
registry = record { schemas = unit ∷ []; id_by_name = ("unit", 1) ∷ [] }

abbrev wounded : List ℕ
wounded = 10 ∷ 1 ∷ 33 ∷ 44 ∷ []

abbrev new_buffer : BinaryBuffer
new_buffer = record { bytes = 9 ∷ []; pos = 1 }

-- Entity 1 has the component in the only row of the archetype at address 5.
abbrev pub stage : World
stage = record uninitialised {
  entity_locations = (1, at 5 0) ∷ [];
  heap =
      (
        5,
        record blank {
          component_ids = 1 ∷ [];
          columns = record fresh { rows = some wounded ∷ [] } ∷ [];
        },
      )
      ∷ [];
}

read_fields-write_fields_example :
    let c = write_bytes (7 ∷ []) (write_fields fields [] wounded new_buffer) in
    (inst : List ℕ) × (read_fields fields [] (0 ∷ 0 ∷ 0 ∷ 0 ∷ []) (record c { pos = 1 })
      ≡ some (inst, record c { pos = 5 }))
    × (length inst ≡ 4)
    × (write_fields fields [] inst new_buffer ≡ write_fields fields [] wounded new_buffer)
unfolding fields_size field_size shape
read_fields-write_fields_example =
    read_fields-write_fields fields [] wounded (0 ∷ 0 ∷ 0 ∷ 0 ∷ []) (7 ∷ []) new_buffer
      (omega arith, (omega arith, tt)) (omega arith, (omega arith, tt))
      (omega arith, (omega arith, tt))

-- Two numbers in one field.
abbrev pair : FieldDescriptor
pair = record hp { name = "pair"; byte_size = 4; count = 2 }

pair-IsArray : IsArray 2 pair
unfolding shape
pair-IsArray = record { numeric = inl refl; several = omega arith; storage = refl }

write_field-array_example :
    (write_field pair (patch 2 (5 ∷ 6 ∷ []) wounded) new_buffer
      ≡ write_field pair wounded new_buffer)
    × (field_size pair * pair.count ≡ 4)
write_field-array_example =
    write_field-array 2 pair wounded (5 ∷ 6 ∷ []) 2 new_buffer pair-IsArray (omega arith)

read_field_mask-write_field_mask_example :
    let c = write_bytes (7 ∷ []) (write_field_mask (true ∷ false ∷ true ∷ []) new_buffer) in
    read_field_mask 3 (record c { pos = 1 }) ≡ some (true ∷ false ∷ true ∷ [], record c { pos = 2 })
read_field_mask-write_field_mask_example =
    read_field_mask-write_field_mask (true ∷ false ∷ true ∷ []) (7 ∷ []) new_buffer

plan_of-Ascending_example :
    Ascending (plan_of fields).bucket_intervals
    × ((iv : ℕ)
        → vortaris_ecs.Prelude.any (λ x. x == iv) (plan_of fields).bucket_intervals
          ≡ used iv fields)
plan_of-Ascending_example = plan_of-Ascending fields

stage-AllSendable : AllSendable registry [] stage 1 (1 ∷ [])
unfolding schema_at vortaris_ecs.World.Components.get_raw vortaris_ecs.World.Components.component_at
    vortaris_ecs.Prelude.Map.find vortaris_ecs.Archetype.has_component vortaris_ecs.Archetype.column
    vortaris_ecs.Archetype.column_index vortaris_ecs.Archetype.lower_bound
    vortaris_ecs.Archetype.found_at fields_size field_size shape
stage-AllSendable = (
  λ net. record {
    schema = unit;
    known = refl;
    row = some wounded;
    there = refl;
    fit = (omega arith, (omega arith, tt));
    small = omega arith;
  },
  tt,
)

validate_packet-spawn_packet_example :
    validate_packet registry (spawn_packet registry [] stage 1) SyncPacketKind.spawn ≡ true
unfolding vortaris_ecs.World.Components.get_entity_component_types vortaris_ecs.World.is_alive
    vortaris_ecs.Prelude.Map.find
validate_packet-spawn_packet_example =
    validate_packet-spawn_packet registry [] stage 1 stage-AllSendable (omega arith) (omega arith)

abbrev stored : World
stored = record stage {
  archetype_list = 5 ∷ [];
  heap =
      (
        5,
        record blank {
          entities = 1 ∷ [];
          component_ids = 1 ∷ [];
          columns = record fresh { rows = some wounded ∷ [] } ∷ [];
        },
      )
      ∷ [];
}

check_snapshot-serialize_world_snapshot_example :
    check_snapshot registry
      (record (serialize_world_snapshot registry [] stored (record { bytes = []; pos = 0 })) {
        pos = 0;
      })
    ≡ true
unfolding schema_at vortaris_ecs.Prelude.Map.find sort_archetypes insert_archetype fields_size
    field_size shape vortaris_ecs.World.entity_count payload slot vortaris_ecs.Prelude.any
check_snapshot-serialize_world_snapshot_example =
    check_snapshot-serialize_world_snapshot registry [] stored
      ((((omega arith, (unit, (refl, (omega arith, (omega arith, tt))))), tt), tt), tt)
      ((refl, (omega arith, omega arith)), tt) refl (omega arith)

-- The same world but for the local field.
abbrev elsewhere : World
elsewhere = record stage {
  heap =
      (
        5,
        record blank {
          component_ids = 1 ∷ [];
          columns = record fresh { rows = some (10 ∷ 1 ∷ 0 ∷ 0 ∷ []) ∷ [] } ∷ [];
        },
      )
      ∷ [];
}

spawn_packet-same_example : spawn_packet registry [] stage 1 ≡ spawn_packet registry [] elsewhere 1
unfolding schema_at vortaris_ecs.World.Components.get_raw vortaris_ecs.World.Components.component_at
    vortaris_ecs.Prelude.Map.find vortaris_ecs.Archetype.has_component vortaris_ecs.Archetype.column
    vortaris_ecs.Archetype.column_index vortaris_ecs.Archetype.lower_bound
    vortaris_ecs.Archetype.found_at fields_size field_size shape
    vortaris_ecs.World.Components.get_entity_component_types vortaris_ecs.World.is_alive is_local
spawn_packet-same_example =
    spawn_packet-same registry [] stage elsewhere 1 refl
      ((λ sent. refl, (λ sent. absurd (cc), tt)), tt)

-- One record with both fields.
abbrev record_bytes : BinaryBuffer
record_bytes = record { bytes = 1 ∷ 0 ∷ 3 ∷ 10 ∷ 1 ∷ 33 ∷ 44 ∷ []; pos = 0 }

delta_masked-dead_example :
    (delta_masked registry [] unit 1 1 record_bytes uninitialised).1
    ≡ (delta_masked registry [] unit 1 1 record_bytes stage).1
unfolding schema_at vortaris_ecs.World.Components.get_raw vortaris_ecs.World.Components.component_at
    vortaris_ecs.Prelude.Map.find vortaris_ecs.Archetype.has_component vortaris_ecs.Archetype.column
    vortaris_ecs.Archetype.column_index vortaris_ecs.Archetype.lower_bound
    vortaris_ecs.Archetype.found_at vortaris_ecs.World.is_alive vortaris_ecs.World.Components.has
delta_masked-dead_example =
    delta_masked-dead registry [] unit 1 1 record_bytes stage uninitialised (some wounded) refl refl
      refl
