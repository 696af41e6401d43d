-- ===== src/Network/Client.antt =====
-- network/network_sync.cpp: what a client does with a packet.
--
-- The client's state is its world and the entities that it got from the server.
pub mod Reading
pub mod Delta
pub mod FullState
pub mod Despawn
pub mod Aligned
use vortaris_ecs.Prelude.{
  ℕ, zero, suc, ◌+◌, Bool, true, false, not, ◌&&◌, ◌||◌, Option, none, some, List, [], ◌∷◌, ltb,
  ◌==◌, nat_eq, if◌then◌else◌, length, replicate,
}
use vortaris_ecs.Column.{Row}
use vortaris_ecs.Entity.{Entity, ComponentTypeId}
use vortaris_ecs.Schema.{ComponentSchema}
use vortaris_ecs.Schema.Registry.{ComponentRegistry, schema_of}
use vortaris_ecs.Serialization.{BinaryBuffer, read_u8, read_u16, read_u32, read_u64, seek}
use vortaris_ecs.Serialization.Component.{serialized_component_fields_size}
use vortaris_ecs.World.{World, among, is_alive}
use vortaris_ecs.World.Components.{add_raw, get_raw, has}
use vortaris_ecs.World.Entities.{create_entity_preassigned, destroy_entity, insert_unique}
use vortaris_ecs.Network.Mask.{read_field_mask}
use vortaris_ecs.Network.Packets.{
  SyncPacketKind, bad_version, consume_component, consume_components, validate_packet,
}
use vortaris_ecs.Network.Packets.Spawns.{held_by}
use vortaris_ecs.Network.Replication.{erase_from}
use vortaris_ecs.Snapshot.{bad_id}
use vortaris_ecs.Snapshot.Load.{read_until, put_raw}
use vortaris_ecs.Network.Client.Reading.{Client, apply_listed, with_version}
use vortaris_ecs.Network.Client.Delta.{apply_delta}
use vortaris_ecs.Network.Client.FullState.{apply_full_state}

module _ (reg : ComponentRegistry) (unwritten : List ℕ) where
  -- The entity was replicated if its packet was read to its end.
  abbrev pub replicated : Entity → List Entity → World × Option BinaryBuffer → Client
  replicated e es (w, none) = record { world = w; client_replicated = es }
  replicated e es (w, some b) = record { world = w; client_replicated = insert_unique e es }

  -- What follows the version of a spawn packet.
  unfoldable pub spawn_body : ℕ → BinaryBuffer → Client → Client
  unfolding apply_listed
  spawn_body version b c = elim (read_u64 b) [
    | none ↦ c
    | some id ↦
        let (w', e) = create_entity_preassigned id.0 c.world in
        if e == 0
        then record c { world = w' }
        else replicated e c.client_replicated (apply_listed reg unwritten version e id.1 w')
  ]

  abbrev pub apply_spawn : BinaryBuffer → Client → Client
  apply_spawn p_data c = with_version spawn_body (seek 0 p_data) c

unfoldable pub apply_despawn : BinaryBuffer → Client → Client
unfolding seek
apply_despawn p_data c = elim (read_u64 (seek 0 p_data)) [
  | none ↦ c
  | some id ↦ record {
    world = if is_alive c.world id.0 then destroy_entity id.0 c.world else c.world;
    client_replicated = erase_from c.client_replicated id.0;
  }
]

-- The switch of `apply_packet`, where there are a world and a strategy.
abbrev pub apply_kind : ComponentRegistry → List ℕ → SyncPacketKind → BinaryBuffer → Client → Client
apply_kind reg unwritten SyncPacketKind.spawn p_data c = apply_spawn reg unwritten p_data c
apply_kind reg unwritten SyncPacketKind.delta p_data c = apply_delta reg unwritten p_data c
apply_kind reg unwritten SyncPacketKind.full_state p_data c =
    apply_full_state reg unwritten p_data c
apply_kind reg unwritten SyncPacketKind.despawn p_data c = apply_despawn p_data c

unfoldable pub apply_packet :
    ComponentRegistry → List ℕ → SyncPacketKind → BinaryBuffer → Client → Client
unfolding validate_packet apply_despawn
apply_packet reg unwritten p_kind p_data c =
    if validate_packet reg p_data p_kind then apply_kind reg unwritten p_kind p_data c else c
