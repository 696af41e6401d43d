-- ===== src/Tests/Server.antt =====
-- network/network_sync.cpp: a server that tracks entity 1, whose component changed.
use vortaris_ecs.Prelude.{
  ℕ, ◌+◌, ◌≡◌, refl, Bool, true, false, none, if◌then◌else◌, List, [], ◌∷◌, ◌++◌, ltb, nat_eq, ◌==◌,
  any, arith,
}
use vortaris_ecs.Prelude.Map.{find}
use vortaris_ecs.Entity.{Entity, ComponentTypeId}
use vortaris_ecs.Schema.Registry.{schema_at}
use vortaris_ecs.Scheduler.{Clock}
use vortaris_ecs.World.{among, in_iteration, is_alive}
use vortaris_ecs.World.Components.{get_entity_component_types, get_raw, move_entity}
use vortaris_ecs.World.Lifecycle.{uninitialised, new_world}
use vortaris_ecs.World.Entities.{create_entity}
use vortaris_ecs.World.Moves.{create_archetype, move_entity_to}
use vortaris_ecs.Network.Client.Reading.{Client}
use vortaris_ecs.Network.Client.{apply_packet}
use vortaris_ecs.Network.Client.Despawn.{apply_packet-despawn_packet}
use vortaris_ecs.World.Invariant.{IsValid}
use vortaris_ecs.Network.Packets.{SyncPacketKind}
use vortaris_ecs.Network.Packets.Spawns.{despawn_packet}
use vortaris_ecs.Network.Plan.{is_networked, is_local}
use vortaris_ecs.Network.Replication.{
  SnapshotReplication, on_entity_component_added, on_entity_component_changed,
  on_entity_component_removed, seed_from_world, reset_state,
}
use vortaris_ecs.Network.Replication.Sending.{replication-IsTracking, readded_despawned}
use vortaris_ecs.Network.Replication.Ticks.{Packet, tick, spawn_packets}
use vortaris_ecs.Network.Replication.Tracking.{IsTracking}
use vortaris_ecs.Tests.{three, three-IsValid}
use vortaris_ecs.Tests.Wire.{registry, stage}

abbrev seconds : Clock ℕ
seconds = record { zero_time = 0; add = λ a b. a + b; less = ltb }

abbrev scale : ℕ → ℕ
scale n = n

abbrev server : SnapshotReplication ℕ
server = record {
  tracked = 1 ∷ [];
  dirty = (1, 1 ∷ []) ∷ [];
  pending_spawn = [];
  pending_despawn = [];
  client_replicated = [];
  tick_count = 0;
  reconcile_accum = 0;
  reconciliation_interval = 3000;
  elapsed_time = 0;
  next_send_tick = [];
}

server-IsTracking : IsTracking server
unfolding find any
server-IsTracking e h = ground (arith, h)

replication-IsTracking_example :
    ((live : Bool) (e : Entity) (t : ComponentTypeId)
      → IsTracking (on_entity_component_added registry live e t server)
        × (IsTracking (on_entity_component_changed registry live e t server)
            × IsTracking (on_entity_component_removed registry live stage e t server)))
    × (((is_server : Bool) (delta : ℕ)
          → IsTracking (seed_from_world registry is_server stage server)
            × IsTracking (tick registry [] stage seconds scale is_server delta server).0)
        × IsTracking (reset_state seconds server))
replication-IsTracking_example =
    replication-IsTracking seconds scale registry [] stage server server-IsTracking

readded_despawned_example :
    let now =
      on_entity_component_added registry true 1 1
        (on_entity_component_removed registry true uninitialised 1 1 server) in
    let sent = tick registry [] stage seconds scale true 5 now in
    (among 1 sent.0.tracked ≡ true)
    × (sent.0.pending_spawn ≡ [])
    × ((xs : List Packet) × ((ys : List Packet) × (sent.1
            ≡ (spawn_packets registry [] stage now.pending_spawn ++ xs)
              ++ ((SyncPacketKind.despawn, despawn_packet 1) ∷ ys))))
unfolding is_networked is_local schema_at any get_entity_component_types is_alive find
readded_despawned_example =
    readded_despawned registry uninitialised 1 1 1 server refl refl refl refl seconds scale [] stage
      5

apply_packet-despawn_packet_example :
    let c : Client = record { world = three; client_replicated = 1 ∷ [] } in
    let d = apply_packet registry [] SyncPacketKind.despawn (despawn_packet 1) c in
    ((q : Entity)
      → (is_alive d.world q ≡ (if 1 == q then false else is_alive three q))
        × (among q d.client_replicated ≡ (if 1 == q then false else among q (1 ∷ []))))
    × ((q : Entity) (t : ComponentTypeId)
        → get_raw d.world q t ≡ (if 1 == q then none else get_raw three q t))
    × IsValid d.world
unfolding new_world create_archetype create_entity in_iteration move_entity move_entity_to is_alive
    find vortaris_ecs.World.Ids.alloc_entity_id vortaris_ecs.Entity.handle
    vortaris_ecs.World.Entities.place vortaris_ecs.Prelude.Map.insert
    vortaris_ecs.Archetype.remove_entity vortaris_ecs.Archetype.add_entity
apply_packet-despawn_packet_example =
    apply_packet-despawn_packet registry [] (record { world = three; client_replicated = 1 ∷ [] }) 1
      three-IsValid refl (omega arith)
