-- ===== src/Network/Replication.antt =====
-- network/network_sync.cpp: the state of VECSSnapshotReplication, what the events of the world do to it, and `tick`.
--
-- Seconds are the numbers of a `Clock`. The packets of `tick` are its result, in the order of `send_packet`.
pub mod Delta
pub mod Ticks
pub mod Tracking
pub mod Sending
use vortaris_ecs.Prelude.{
  ℕ, zero, suc, ◌+◌, Bool, true, false, not, ◌&&◌, ◌||◌, Option, none, some, List, [], ◌∷◌, ◌++◌,
  ◌==◌, nat_eq, if◌then◌else◌, any, keep_if, length,
}
use vortaris_ecs.Prelude.Map
use vortaris_ecs.Prelude.Map.{Map}
use vortaris_ecs.Entity.{Entity, ComponentTypeId}
use vortaris_ecs.Archetype.{Archetype}
use vortaris_ecs.Query.{Ptr}
use vortaris_ecs.Schema.Registry.{ComponentRegistry}
use vortaris_ecs.Scheduler.{Clock}
use vortaris_ecs.World.{World, among, deref}
use vortaris_ecs.World.Components.{get_entity_component_types}
use vortaris_ecs.World.Entities.{insert_unique}
use vortaris_ecs.Network.Plan.{is_networked}

pub record SnapshotReplication (T : Type 0) : Type 0 where
  pub tracked : List Entity
  pub dirty : Map Entity (List ComponentTypeId)
  pub pending_spawn : List Entity
  pub pending_despawn : List Entity
  pub client_replicated : List Entity
  pub tick_count : ℕ
  pub reconcile_accum : T
  pub reconciliation_interval : T
  pub elapsed_time : T
  pub next_send_tick : Map Entity (Map ComponentTypeId (List T))

-- `set.erase`.
abbrev pub erase_from : List ℕ → ℕ → List ℕ
erase_from es e = keep_if (λ x. not (x == e)) es

-- `operator[]` of the map of sets.
abbrev pub set_of : Option (List ComponentTypeId) → List ComponentTypeId
set_of none = []
set_of (some ts) = ts

module _ {T : Type 0} (reg : ComponentRegistry) where
  -- `dirty_[p_e].insert(p_t)`.
  abbrev pub make_dirty : Entity → ComponentTypeId → SnapshotReplication T → SnapshotReplication T
  make_dirty p_e p_t s = record s {
    dirty = Map.insert p_e (insert_unique p_t (set_of (Map.find p_e s.dirty))) s.dirty;
  }

  -- The entity is tracked from now on, and is to be spawned.
  abbrev pub track : Entity → SnapshotReplication T → SnapshotReplication T
  track p_e s = record s {
    tracked = insert_unique p_e s.tracked;
    pending_spawn = insert_unique p_e s.pending_spawn;
  }

  -- `live` is `is_server() && !is_applying()`.
  unfoldable pub on_entity_component_added :
      Bool → Entity → ComponentTypeId → SnapshotReplication T → SnapshotReplication T
  on_entity_component_added live p_e p_t s =
      if not live || not (is_networked reg p_t)
      then s
      else (if among p_e s.tracked then make_dirty p_e p_t s else track p_e s)

  unfoldable pub on_entity_component_changed :
      Bool → Entity → ComponentTypeId → SnapshotReplication T → SnapshotReplication T
  on_entity_component_changed live p_e p_t s =
      if not live || not (is_networked reg p_t)
      then s
      else (if among p_e s.tracked then make_dirty p_e p_t s else s)

  -- The component leaves the entity's set, if there is one.
  abbrev pub make_clean : Entity → ComponentTypeId → SnapshotReplication T → SnapshotReplication T
  make_clean p_e p_t s =
      if Map.contains p_e s.dirty
      then record s {
        dirty = Map.insert p_e (erase_from (set_of (Map.find p_e s.dirty)) p_t) s.dirty;
      }
      else s

  -- The entity is not tracked any more, and is to be despawned.
  abbrev pub untrack : Entity → SnapshotReplication T → SnapshotReplication T
  untrack p_e s = record s {
    tracked = erase_from s.tracked p_e;
    dirty = Map.erase p_e s.dirty;
    next_send_tick = Map.erase p_e s.next_send_tick;
    pending_despawn = insert_unique p_e s.pending_despawn;
  }

  unfoldable pub on_entity_component_removed :
      Bool → World → Entity → ComponentTypeId → SnapshotReplication T → SnapshotReplication T
  unfolding keep_if
  on_entity_component_removed live w p_e p_t s =
      if not live || not (is_networked reg p_t)
      then s
      else (let s' = make_clean p_e p_t s in
          if among p_e s'.tracked && not (any (is_networked reg) (get_entity_component_types w p_e))
          then untrack p_e s'
          else s')

  -- The rows of an archetype that has a replicated component.
  abbrev pub seed_rows : List Entity → SnapshotReplication T → SnapshotReplication T
  seed_rows [] s = s
  seed_rows (e ∷ es) s = seed_rows es (if among e s.tracked then s else track e s)

  abbrev pub seed_archetypes : World → List Ptr → SnapshotReplication T → SnapshotReplication T
  seed_archetypes w [] s = s
  seed_archetypes w (p ∷ ps) s =
      let a = deref w p in
      seed_archetypes w ps
        (if any (is_networked reg) a.component_ids then seed_rows a.entities s else s)

  unfoldable pub seed_from_world : Bool → World → SnapshotReplication T → SnapshotReplication T
  seed_from_world is_server w s = if is_server then seed_archetypes w w.archetype_list s else s

unfoldable pub reset_state : {T : Type 0} → Clock T → SnapshotReplication T → SnapshotReplication T
reset_state clock s = record s {
  tracked = [];
  dirty = [];
  pending_spawn = [];
  pending_despawn = [];
  client_replicated = [];
  tick_count = 0;
  reconcile_accum = clock.zero_time;
  elapsed_time = clock.zero_time;
  next_send_tick = [];
}
