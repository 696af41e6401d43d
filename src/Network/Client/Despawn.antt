-- ===== src/Network/Client/Despawn.antt =====
-- network/network_sync.cpp: a despawn, from the server's packet to the client's world.
use vortaris_ecs.Prelude.{
  ℕ, ◌^◌, ◌<◌, ◌≡◌, refl, sym, true, false, some, List, [], ltb, ◌==◌, nat_eq, if◌then◌else◌,
  length, arith, Bool-cases, Option-cases, inl, inr, append-nil, nat_beq_iff, none,
}
use vortaris_ecs.Prelude.Map.{contains}
use vortaris_ecs.Entity.{Entity, ComponentTypeId}
use vortaris_ecs.Schema.Registry.{ComponentRegistry}
use vortaris_ecs.Serialization.{BinaryBuffer, le_bytes, write_bytes, read_u64, seek}
use vortaris_ecs.Serialization.Ahead.{Ahead}
use vortaris_ecs.Serialization.Roundtrip.{length-le_bytes}
use vortaris_ecs.World.{World, EntityLocation, among, in_iteration, is_alive, location}
use vortaris_ecs.World.Components.{get_raw}
use vortaris_ecs.World.Frames.{destroy_entity-get_raw}
use vortaris_ecs.World.Reads.{get_raw-reads}
use vortaris_ecs.World.Entities.{destroy_entity}
use vortaris_ecs.World.Invariant.{IsValid, moved-relocate, moved-located}
use vortaris_ecs.World.Preserves.{destroy_entity-rows, take_out-rows, destroy_entity-IsValid}
use vortaris_ecs.Network.Client.Reading.{Client}
use vortaris_ecs.Network.Client.{apply_packet, apply_despawn}
use vortaris_ecs.Network.Packets.{SyncPacketKind, consume_packet, validate_packet}
use vortaris_ecs.Network.Packets.Accepted.{read_number-Ahead}
use vortaris_ecs.Network.Packets.Accepted.Spawned.{seek_start}
use vortaris_ecs.Network.Packets.Spawns.{despawn_packet}
use vortaris_ecs.Network.Replication.Tracking.{among-erase_from}

-- A destruction takes the entity out of the map of locations, and no other.
destroyed_contains :
    (w : World) (e q : Entity) (loc : EntityLocation)
    → IsValid w
    → location w e ≡ some loc
    → in_iteration w ≡ false
    → contains q (destroy_entity e w).entity_locations
      ≡ (if e == q then false else contains q w.entity_locations)
destroyed_contains w e q loc valid found calm =
    let rows = destroy_entity-rows e loc w found calm in
    let (h, l, _) = take_out-rows e loc.archetype loc.row w in
    let there = moved-relocate w.heap w.entity_locations valid e loc.archetype loc.row found q in
    let moved = moved-located w.heap w.entity_locations valid e loc.archetype loc.row found in
    rw (rows.locations, l, there) (ground (arith, moved))

-- What the client does with a live or a dead entity.
abbrev removed : Entity → World → World
removed e w = if is_alive w e then destroy_entity e w else w

removed-is_alive :
    (w : World) (e q : Entity)
    → IsValid w
    → in_iteration w ≡ false
    → is_alive (removed e w) q ≡ (if e == q then false else is_alive w q)
unfolding is_alive
removed-is_alive w e q valid calm = elim (Bool-cases (is_alive w e)) [
  | inl live ↦ elim (Option-cases (location w e)) [
    | inl nowhere ↦ absurd (ground (arith, live, nowhere))
    | inr (loc, found) ↦ rw live (ground (arith, destroyed_contains w e q loc valid found calm))
  ]
  | inr dead ↦ rw dead (ground (arith, dead))
]

removed-get_raw :
    (w : World) (e q : Entity) (t : ComponentTypeId)
    → IsValid w
    → in_iteration w ≡ false
    → get_raw (removed e w) q t ≡ (if e == q then none else get_raw w q t)
unfolding is_alive
removed-get_raw w e q t valid calm = elim (Bool-cases (is_alive w e)) [
  | inl live ↦ elim (Option-cases (location w e)) [
    | inl nowhere ↦ absurd (ground (arith, live, nowhere))
    | inr (loc, found) ↦ rw live (destroy_entity-get_raw w e q t loc valid found calm)
  ]
  | inr dead ↦ elim (Option-cases (location w e)) [
    | inr (loc, found) ↦
        let row = valid.located e loc.archetype loc.row found in
        absurd (ground (arith, dead, found, row, (valid.sound loc.archetype).real))
    | inl nowhere ↦ elim (Bool-cases (e == q)) [
      | inr other ↦ rw (dead, other) refl
      | inl same ↦
          let k : e ≡ q = (nat_beq_iff e q).0 same in
          rw (dead, same, ← k, get_raw-reads w e t valid, nowhere) refl
    ]
  ]
]

removed-IsValid : (w : World) (e : Entity) → IsValid w → IsValid (removed e w)
removed-IsValid w e valid = elim (Bool-cases (is_alive w e)) [
  | inl live ↦ rw live (destroy_entity-IsValid w valid e)
  | inr dead ↦ rw dead valid
]

-- The id of the packet is read.
read_despawn :
    (e : Entity)
    → e < 2 ^ 64
    → read_u64 (seek 0 (despawn_packet e)) ≡ some (e, record { bytes = le_bytes 8 e; pos = 8 })
unfolding despawn_packet write_bytes
read_despawn e small =
    let c : BinaryBuffer = record { bytes = le_bytes 8 e; pos = 0 } in
    let held : Ahead c (le_bytes 8 e) [] = record {
      inside = omega arith;
      ahead = sym (append-nil (le_bytes 8 e));
    } in
    rw (seek_start (despawn_packet e)) (read_number-Ahead 8 e c [] (omega (arith, small)) held)

validate_packet-despawn_packet :
    (reg : ComponentRegistry) (e : Entity)
    → e < 2 ^ 64
    → validate_packet reg (despawn_packet e) SyncPacketKind.despawn ≡ true
unfolding validate_packet consume_packet
validate_packet-despawn_packet reg e small =
    let stop : ltb 8 (length (le_bytes 8 e)) ≡ false = ground (arith, length-le_bytes 8 e) in
    rw (validate_packet, consume_packet, read_despawn e small, stop) refl

-- A client that gets the server's despawn of an entity, in a valid world outside an iteration, accepts it: the
-- entity is then not alive, has no components and is not kept as replicated; every other entity lives or not, has
-- what components it had, and is kept as replicated or not, as before; and the world is valid.
pub apply_packet-despawn_packet :
    (reg : ComponentRegistry) (unwritten : List ℕ) (c : Client) (e : Entity)
    → IsValid c.world
    → in_iteration c.world ≡ false
    → e < 2 ^ 64
    → let d = apply_packet reg unwritten SyncPacketKind.despawn (despawn_packet e) c in
      ((q : Entity)
        → (is_alive d.world q ≡ (if e == q then false else is_alive c.world q))
          × (among q d.client_replicated ≡ (if e == q then false else among q c.client_replicated)))
      × ((q : Entity) (t : ComponentTypeId)
          → get_raw d.world q t ≡ (if e == q then none else get_raw c.world q t))
      × IsValid d.world
unfolding apply_packet apply_despawn
apply_packet-despawn_packet reg unwritten c e valid calm small =
    rw
      (
        apply_packet,
        validate_packet-despawn_packet reg e small,
        apply_despawn,
        read_despawn e small,
      )
      (
        λ q. (
          removed-is_alive c.world e q valid calm,
          ground (arith, among-erase_from q e c.client_replicated),
        ),
        λ q t. removed-get_raw c.world e q t valid calm,
        removed-IsValid c.world e valid,
      )
