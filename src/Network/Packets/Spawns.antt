-- ===== src/Network/Packets/Spawns.antt =====
-- network/network_sync.cpp: the blocks of components, and the packets that `tick` sends for spawns and despawns.
--
-- Memory of a component that nothing has written holds bytes that the caller gives (`unwritten`).
pub mod Private
use vortaris_ecs.Prelude.{ℕ, ◌+◌, ◌%◌, ◌^◌, none, some, List, [], ◌∷◌, if◌then◌else◌}
use vortaris_ecs.Column.{Row}
use vortaris_ecs.Entity.{Entity, ComponentTypeId}
use vortaris_ecs.Schema.Registry.{ComponentRegistry, schema_of}
use vortaris_ecs.Serialization.{BinaryBuffer, write_u16, write_u32, write_u64, write_bytes}
use vortaris_ecs.Serialization.Component.{serialize_component_fields}
use vortaris_ecs.World.{World}
use vortaris_ecs.World.Components.{get_raw, get_entity_component_types}
use vortaris_ecs.Network.Mask.{write_field_mask}
use vortaris_ecs.Network.Plan.{is_networked, sync_plan_for}
use vortaris_ecs.Network.Packets.{sync_version}

abbrev pub new_buffer : BinaryBuffer
new_buffer = record { bytes = []; pos = 0 }

-- The bytes behind the pointer to a component.
abbrev pub held_by : List ℕ → Row → List ℕ
held_by unwritten none = unwritten
held_by unwritten (some bytes) = bytes

unfoldable pub serialize_component_block :
    ComponentRegistry → List ℕ → World → Entity → ComponentTypeId → BinaryBuffer → BinaryBuffer
serialize_component_block reg unwritten w p_e p_t r_buf = elim (schema_of reg p_t) [
  | none ↦ r_buf
  | some s ↦ elim (get_raw w p_e p_t) [
    | none ↦ r_buf
    | some row ↦
        let mask = (sync_plan_for reg p_t).spawn_mask in
        serialize_component_fields s (held_by unwritten row) mask
          (write_field_mask mask (write_u32 p_t r_buf))
  ]
]

-- The loop over the components of an entity, with `ncomp`.
unfoldable pub spawn_blocks :
    ComponentRegistry
    → List ℕ
    → World
    → Entity
    → List ComponentTypeId
    → BinaryBuffer × ℕ
    → BinaryBuffer × ℕ
spawn_blocks reg unwritten w e [] r = r
spawn_blocks reg unwritten w e (t ∷ ts) r = spawn_blocks reg unwritten w e ts (
    if is_networked reg t
    then (serialize_component_block reg unwritten w e t r.0, (r.1 + 1) % 2 ^ 16)
    else r)

unfoldable pub spawn_packet : ComponentRegistry → List ℕ → World → Entity → BinaryBuffer
spawn_packet reg unwritten w e =
    let r = spawn_blocks reg unwritten w e (get_entity_component_types w e) (new_buffer, 0) in
    write_bytes r.0.bytes (write_u16 r.1 (write_u64 e (write_u16 sync_version new_buffer)))

unfoldable pub despawn_packet : Entity → BinaryBuffer
despawn_packet e = write_u64 e new_buffer
