-- ===== src/Network/Replication/Sending.antt =====
-- network/network_sync.cpp: what `tick` keeps of the server's state, and the order of its packets.
use vortaris_ecs.Prelude.{
  ℕ, zero, suc, ◌+◌, ◌≡◌, refl, ap, sym, ◌∙◌, Bool, true, false, not, ◌&&◌, ◌||◌, Option, none,
  some, List, [], ◌∷◌, ◌++◌, ◌==◌, nat_eq, if◌then◌else◌, any, keep_if, Bool-cases, inl, inr, arith,
  append_assoc, length,
}
use vortaris_ecs.Prelude.Map
use vortaris_ecs.Entity.{Entity, ComponentTypeId}
use vortaris_ecs.Schema.Registry.{ComponentRegistry}
use vortaris_ecs.Scheduler.{Clock}
use vortaris_ecs.World.{World, among}
use vortaris_ecs.World.Sets.{among-insert_unique}
use vortaris_ecs.World.Components.{get_entity_component_types}
use vortaris_ecs.Network.Plan.{is_networked}
use vortaris_ecs.Network.Packets.{SyncPacketKind}
use vortaris_ecs.Network.Packets.Spawns.{despawn_packet}
use vortaris_ecs.Network.Replication.{
  SnapshotReplication, erase_from, make_clean, untrack, track, on_entity_component_added,
  on_entity_component_changed, on_entity_component_removed, seed_from_world, reset_state,
}
use vortaris_ecs.Network.Replication.Delta.{build_delta}
use vortaris_ecs.Network.Replication.Ticks.{
  Packet, tick, forget_times, spawn_packets, despawn_packets, delta_step, reconcile_step,
}
use vortaris_ecs.Network.Replication.Tracking.{
  IsTracking, Within, build_delta-Within, added-IsTracking, changed-IsTracking, removed-IsTracking,
  seed_from_world-IsTracking, among-erase_from,
}

module _ {T : Type 0} (clock : Clock T) (hundredths : ℕ → T) (reg : ComponentRegistry)
    (unwritten : List ℕ) (w : World) where
  -- What a delta keeps.
  record Kept (s s' : SnapshotReplication T) : Type 0 where
    tracked_same : s'.tracked ≡ s.tracked
    dirty_within : Within s'.dirty s.dirty
    spawn_same : s'.pending_spawn ≡ s.pending_spawn
    despawn_same : s'.pending_despawn ≡ s.pending_despawn

  delta_step-Kept :
      (s : SnapshotReplication T) → Kept s (delta_step reg unwritten w clock hundredths s).0
  unfolding delta_step build_delta
  delta_step-Kept s = elim (Bool-cases (length s.dirty == 0)) [
    | inl none_dirty ↦
        rw (delta_step, none_dirty)
          (record {
            tracked_same = refl;
            dirty_within = λ q h. h;
            spawn_same = refl;
            despawn_same = refl;
          })
    | inr some_dirty ↦
        rw (delta_step, some_dirty)
          (record {
            tracked_same = refl;
            dirty_within = build_delta-Within clock hundredths s.elapsed_time reg unwritten w s;
            spawn_same = refl;
            despawn_same = refl;
          })
  ]

  reconcile_step-Kept :
      (delta : T) (s : SnapshotReplication T)
      → Kept s (reconcile_step reg unwritten w clock hundredths delta s).0
  unfolding reconcile_step
  reconcile_step-Kept delta s =
      elim (Bool-cases (clock.less (clock.add s.reconcile_accum delta) s.reconciliation_interval)) [
        | inl early ↦
            rw (reconcile_step, early)
              (record {
                tracked_same = refl;
                dirty_within = λ q h. h;
                spawn_same = refl;
                despawn_same = refl;
              })
        | inr due ↦
            rw (reconcile_step, due)
              (record {
                tracked_same = refl;
                dirty_within = λ q h. h;
                spawn_same = refl;
                despawn_same = refl;
              })
      ]

  module _ (delta : T) (s : SnapshotReplication T) where
    -- The state before the delta, after it, and before the reconciliation.
    abbrev before : SnapshotReplication T
    before = record s {
      tick_count = s.tick_count + 1;
      elapsed_time = clock.add s.elapsed_time delta;
      pending_spawn = [];
    }

    abbrev changed : SnapshotReplication T
    changed = (delta_step reg unwritten w clock hundredths before).0

    abbrev despawned : SnapshotReplication T
    despawned = record changed {
      pending_despawn = [];
      next_send_tick = forget_times reg unwritten w changed.pending_despawn changed.next_send_tick;
    }

    after : Kept despawned (tick reg unwritten w clock hundredths true delta s).0
    unfolding tick
    after = reconcile_step-Kept delta despawned

    tick-tracked : (tick reg unwritten w clock hundredths true delta s).0.tracked ≡ s.tracked
    tick-tracked = after.tracked_same ∙ (delta_step-Kept before).tracked_same

    tick-dirty : Within (tick reg unwritten w clock hundredths true delta s).0.dirty s.dirty
    tick-dirty q h = (delta_step-Kept before).dirty_within q (after.dirty_within q h)

    tick-pending_spawn : (tick reg unwritten w clock hundredths true delta s).0.pending_spawn ≡ []
    tick-pending_spawn = after.spawn_same ∙ (delta_step-Kept before).spawn_same

    -- The spawns, then what else is sent, then the despawns.
    tick-packets :
        (full : List Packet) × ((tick reg unwritten w clock hundredths true delta s).1
          ≡ spawn_packets reg unwritten w s.pending_spawn
            ++ ((delta_step reg unwritten w clock hundredths before).1
                ++ (despawn_packets reg unwritten w s.pending_despawn ++ full)))
    unfolding tick
    tick-packets = (
      (reconcile_step reg unwritten w clock hundredths delta despawned).1,
      ap
          (λ es.
            spawn_packets reg unwritten w s.pending_spawn
            ++ ((delta_step reg unwritten w clock hundredths before).1
                ++ (despawn_packets reg unwritten w es
                    ++ (reconcile_step reg unwritten w clock hundredths delta despawned).1)))
          (delta_step-Kept before).despawn_same,
    )

  tick-IsTracking :
      (server : Bool) (delta : T) (s : SnapshotReplication T)
      → IsTracking s
      → IsTracking (tick reg unwritten w clock hundredths server delta s).0
  unfolding tick
  tick-IsTracking false delta s v e h = v e h
  tick-IsTracking true delta s v e h =
      ap (among e) (tick-tracked delta s) ∙ v e (tick-dirty delta s e h)

  -- The despawn of an entity that is to be despawned.
  despawn_sent :
      (e : Entity) (es : List Entity)
      → among e es ≡ true
      → (xs : List Packet) × ((ys : List Packet) × (despawn_packets reg unwritten w es
            ≡ xs ++ (SyncPacketKind.despawn, despawn_packet e) ∷ ys))
  unfolding despawn_packets any
  despawn_sent e [] h = absurd cc
  despawn_sent e (x ∷ es) h = elim (Bool-cases (x == e)) [
    | inl same ↦
        let eq : x ≡ e = ground (arith, same) in
        (
          [],
          (
            despawn_packets reg unwritten w es,
            ap
                (λ q.
                  (SyncPacketKind.despawn, despawn_packet q) ∷ despawn_packets reg unwritten w es)
                eq,
          ),
        )
    | inr other ↦
        let (xs, (ys, eq)) = despawn_sent e es (ground (arith, other, h)) in
        (
          (SyncPacketKind.despawn, despawn_packet x) ∷ xs,
          (ys, ap (◌∷◌ (SyncPacketKind.despawn, despawn_packet x)) eq),
        )
  ]

-- Every operation of a replication keeps the entities with dirty components among the tracked ones: the three
-- events of the world, the seeding from a world, the tick and the reset.
pub replication-IsTracking :
    {T : Type 0} (clock : Clock T) (hundredths : ℕ → T) (reg : ComponentRegistry)
    (unwritten : List ℕ) (w : World) (s : SnapshotReplication T)
    → IsTracking s
    → ((live : Bool) (e : Entity) (t : ComponentTypeId)
        → IsTracking (on_entity_component_added reg live e t s)
          × (IsTracking (on_entity_component_changed reg live e t s)
              × IsTracking (on_entity_component_removed reg live w e t s)))
      × (((server : Bool) (delta : T)
            → IsTracking (seed_from_world reg server w s)
              × IsTracking (tick reg unwritten w clock hundredths server delta s).0)
          × IsTracking (reset_state clock s))
unfolding reset_state vortaris_ecs.Prelude.Map.find
replication-IsTracking clock hundredths reg unwritten w s v = (
  λ live e t. (
    added-IsTracking reg live e t s v,
    (changed-IsTracking reg live e t s v, removed-IsTracking reg live w e t s v),
  ),
  (
    λ server delta. (
      seed_from_world-IsTracking reg server w s v,
      tick-IsTracking clock hundredths reg unwritten w server delta s v,
    ),
    λ e h. absurd cc,
  ),
)

shuffle : (a b x z f : List Packet) → a ++ (b ++ ((x ++ z) ++ f)) ≡ (a ++ (b ++ x)) ++ (z ++ f)
shuffle a b x z f = simp append_assoc

module _ {T : Type 0} (reg : ComponentRegistry) (w : World) (e : Entity) (t u : ComponentTypeId)
    (s : SnapshotReplication T) (known : among e s.tracked ≡ true) (net : is_networked reg t ≡ true)
    (again : is_networked reg u ≡ true)
    (last : any (is_networked reg) (get_entity_component_types w e) ≡ false) where
  -- The state after the last replicated component of a tracked entity went, and after another came.
  abbrev pub gone : SnapshotReplication T
  gone = on_entity_component_removed reg true w e t s

  abbrev pub back : SnapshotReplication T
  back = on_entity_component_added reg true e u gone

  clean_tracked : (make_clean reg e t s).tracked ≡ s.tracked
  clean_tracked = ground arith

  gone_untracked : gone ≡ untrack reg e (make_clean reg e t s)
  unfolding on_entity_component_removed
  gone_untracked =
      let there : among e (make_clean reg e t s).tracked ≡ true =
        ap (among e) clean_tracked ∙ known in
      rw (on_entity_component_removed, net, there, last) refl

  back_tracked : back ≡ track reg e (untrack reg e (make_clean reg e t s))
  unfolding on_entity_component_added
  back_tracked =
      let away : among e (erase_from (make_clean reg e t s).tracked e) ≡ false =
        ground (arith, among-erase_from e e (make_clean reg e t s).tracked) in
      rw (gone_untracked, on_entity_component_added, again, away) refl

  back_among : (among e back.tracked ≡ true) × (among e back.pending_despawn ≡ true)
  back_among =
      let base = make_clean reg e t s in
      rw back_tracked (
        ground (arith, among-insert_unique e e (erase_from base.tracked e)),
        ground (arith, among-insert_unique e e base.pending_despawn),
      )

  -- When the last replicated component of a tracked entity is removed, and another one is added before the next tick,
  -- the packets of that tick hold the entity's despawn behind all spawns, no spawn is pending after it, and the
  -- server goes on tracking the entity.
  pub readded_despawned :
      (clock : Clock T) (hundredths : ℕ → T) (unwritten : List ℕ) (later : World) (delta : T)
      → let sent = tick reg unwritten later clock hundredths true delta back in
        (among e sent.0.tracked ≡ true)
        × (sent.0.pending_spawn ≡ [])
        × ((xs : List Packet) × ((ys : List Packet) × (sent.1
                ≡ (spawn_packets reg unwritten later back.pending_spawn ++ xs)
                  ++ ((SyncPacketKind.despawn, despawn_packet e) ∷ ys))))
  readded_despawned clock hundredths unwritten later delta =
      let (full, packets) = tick-packets clock hundredths reg unwritten later delta back in
      let (xs, (ys, there)) =
        despawn_sent clock hundredths reg unwritten later e back.pending_despawn back_among.1 in
      let deltas =
        (delta_step reg unwritten later clock hundredths
          (before clock hundredths reg unwritten later delta back)).1 in
      let spawns = spawn_packets reg unwritten later back.pending_spawn in
      (
        ap (among e) (tick-tracked clock hundredths reg unwritten later delta back) ∙ back_among.0,
        tick-pending_spawn clock hundredths reg unwritten later delta back,
        (
          deltas ++ xs,
          (
            ys ++ full,
            packets
                ∙ ap (λ z. spawns ++ (deltas ++ (z ++ full))) there
                ∙ shuffle spawns deltas xs ((SyncPacketKind.despawn, despawn_packet e) ∷ ys) full,
          ),
        ),
      )
