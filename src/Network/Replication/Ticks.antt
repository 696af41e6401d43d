-- ===== src/Network/Replication/Ticks.antt =====
-- network/network_sync.cpp: `serialize_full_state`, `tick` and `send_full_state`.
use vortaris_ecs.Prelude.{
  ℕ, ◌+◌, Bool, not, List, [], ◌∷◌, ◌++◌, ◌==◌, nat_eq, ltb, if◌then◌else◌, length, u32,
}
use vortaris_ecs.Prelude.Map
use vortaris_ecs.Prelude.Map.{Map}
use vortaris_ecs.Archetype.{Archetype}
use vortaris_ecs.Entity.{Entity, ComponentTypeId}
use vortaris_ecs.Query.{Ptr}
use vortaris_ecs.Schema.Registry.{ComponentRegistry}
use vortaris_ecs.Scheduler.{Clock}
use vortaris_ecs.Serialization.{
  BinaryBuffer, write_u16, write_u32, write_u64, write_bytes, overwrite_u32,
}
use vortaris_ecs.World.{World, is_alive, deref}
use vortaris_ecs.Network.Packets.{SyncPacketKind, sync_version}
use vortaris_ecs.Network.Packets.Spawns.{new_buffer, spawn_blocks, spawn_packet, despawn_packet}
use vortaris_ecs.Network.Replication.{SnapshotReplication}
use vortaris_ecs.Network.Replication.Delta.{build_delta}

abbrev pub Packet : Type 0
Packet = SyncPacketKind × BinaryBuffer

-- `std::sort` by `a->signature < b->signature`.
unfoldable pub insert_archetype : Archetype → List Archetype → List Archetype
insert_archetype a [] = a ∷ []
insert_archetype a (b ∷ bs) =
    if ltb b.signature a.signature then b ∷ insert_archetype a bs else a ∷ b ∷ bs

unfoldable pub sort_archetypes : World → List Ptr → List Archetype
unfolding insert_archetype
sort_archetypes w [] = []
sort_archetypes w (p ∷ ps) = insert_archetype (deref w p) (sort_archetypes w ps)

module _ (reg : ComponentRegistry) (unwritten : List ℕ) (w : World) where
  -- A row of an archetype: the entity and its replicated components, and the count of entities.
  unfoldable pub full_row : List ComponentTypeId → Entity → BinaryBuffer × ℕ → BinaryBuffer × ℕ
  full_row ids e r =
      let c = spawn_blocks reg unwritten w e ids (new_buffer, 0) in
      if c.1 == 0
      then r
      else (write_bytes c.0.bytes (write_u16 c.1 (write_u64 e r.0)), u32 (r.1 + 1))

  unfoldable pub full_rows :
      List ComponentTypeId → List Entity → BinaryBuffer × ℕ → BinaryBuffer × ℕ
  unfolding full_row
  full_rows ids [] r = r
  full_rows ids (e ∷ es) r = full_rows ids es (full_row ids e r)

  unfoldable pub full_archetypes : List Archetype → BinaryBuffer × ℕ → BinaryBuffer × ℕ
  unfolding full_rows
  full_archetypes [] r = r
  full_archetypes (a ∷ rest) r = full_archetypes rest (full_rows a.component_ids a.entities r)

  unfoldable pub serialize_full_state : BinaryBuffer
  unfolding full_archetypes sort_archetypes overwrite_u32
  serialize_full_state =
      let head = write_u16 sync_version new_buffer in
      let r = full_archetypes (sort_archetypes w w.archetype_list) (write_u32 0 head, 0) in
      if ltb 0 r.1 then overwrite_u32 head.pos r.1 r.0 else new_buffer

  -- A packet that is not empty.
  abbrev pub unless_empty : SyncPacketKind → BinaryBuffer → List Packet
  unless_empty kind buf = if length buf.bytes == 0 then [] else (kind, buf) ∷ []

  unfoldable pub spawn_packets : List Entity → List Packet
  spawn_packets [] = []
  spawn_packets (e ∷ es) =
      if is_alive w e
      then (SyncPacketKind.spawn, spawn_packet reg unwritten w e) ∷ spawn_packets es
      else spawn_packets es

  unfoldable pub despawn_packets : List Entity → List Packet
  despawn_packets [] = []
  despawn_packets (e ∷ es) = (SyncPacketKind.despawn, despawn_packet e) ∷ despawn_packets es

  abbrev pub forget_times :
      {T : Type 0}
      → List Entity
      → Map Entity (Map ComponentTypeId (List T))
      → Map Entity (Map ComponentTypeId (List T))
  forget_times [] next = next
  forget_times (e ∷ es) next = forget_times es (Map.erase e next)

  module _ {T : Type 0} (clock : Clock T) (hundredths : ℕ → T) where
    -- The delta of the dirty components, if there are any.
    unfoldable pub delta_step : SnapshotReplication T → SnapshotReplication T × List Packet
    unfolding build_delta
    delta_step s =
        if length s.dirty == 0
        then (s, [])
        else (let (s', buf) = build_delta clock hundredths s.elapsed_time reg unwritten w s in
            (s', unless_empty SyncPacketKind.delta buf))

    -- `reconcile_accum_ >= reconciliation_interval_` after the addition.
    unfoldable pub reconcile_step : T → SnapshotReplication T → SnapshotReplication T × List Packet
    unfolding serialize_full_state
    reconcile_step p_delta s =
        let accum = clock.add s.reconcile_accum p_delta in
        if clock.less accum s.reconciliation_interval
        then (record s { reconcile_accum = accum }, [])
        else (
          record s { reconcile_accum = clock.zero_time },
          unless_empty SyncPacketKind.full_state serialize_full_state,
        )

    unfoldable pub tick : Bool → T → SnapshotReplication T → SnapshotReplication T × List Packet
    unfolding spawn_packets despawn_packets delta_step reconcile_step
    tick is_server p_delta s =
        if not is_server
        then (s, [])
        else (let spawned = record s {
          tick_count = s.tick_count + 1;
          elapsed_time = clock.add s.elapsed_time p_delta;
          pending_spawn = [];
        } in
            let (changed, deltas) = delta_step spawned in
            let despawned = record changed {
              pending_despawn = [];
              next_send_tick = forget_times changed.pending_despawn changed.next_send_tick;
            } in
            let (s', full) = reconcile_step p_delta despawned in
            (
              s',
              spawn_packets s.pending_spawn
                  ++ (deltas ++ (despawn_packets changed.pending_despawn ++ full)),
            ))

  abbrev pub send_full_state : Bool → List Packet
  send_full_state is_server =
      if is_server then unless_empty SyncPacketKind.full_state serialize_full_state else []
