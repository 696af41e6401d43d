-- ===== src/World.antt =====
-- core/world.h and core/world.cpp: the state of a world, and the small operations on it.
--
-- An archetype is reached through a pointer, a number; `heap` is the memory behind the pointers, and
-- `next_ptr` the address of the next `new`. A row of `entity_locations_` is a pointer and a row index.
-- `events` collects what the world hands to its observers and custom commands, in order: what a callback
-- does to the world is a later call of its operations.
pub mod Ids
pub mod Moves
pub mod Entities
pub mod Components
pub mod Deferred
pub mod Lifecycle
pub mod ChangeLog
pub mod Invariant
pub mod Copies
pub mod Preserves
pub mod Reads
pub mod Frames
pub mod Migration
pub mod Carries
pub mod Collision
pub mod Writes
pub mod Growth
pub mod Adds
pub mod Sets
use Prim.Native.String.{String}
use vortaris_ecs.Prelude.{
  ℕ, zero, suc, ◌+◌, ◌-◌, ◌*◌, ◌/◌, ◌%◌, ◌^◌, ◌≤◌, ◌<◌, ◌≡◌, Bool, true, false, not, ◌&&◌, ◌||◌,
  Option, none, some, List, [], ◌∷◌, ◌++◌, map, ltb, ◌==◌, nat_eq, ids_eq, if◌then◌else◌, length,
  get_or, u32, any,
}
use vortaris_ecs.Prelude.Map
use vortaris_ecs.Prelude.Map.{Map}
use vortaris_ecs.Entity.{Entity, ComponentTypeId}
use vortaris_ecs.Archetype.{Archetype, blank}
use vortaris_ecs.Query.{Ptr, QueryCache}

pub record EntityLocation : Type 0 where
  pub archetype : Ptr
  pub row : ℕ

pub record PendingComponentOp : Type 0 where
  pub type : ComponentTypeId
  pub add : Bool
  pub bytes : List ℕ

pub record ChangeLogEntry : Type 0 where
  pub entity : Entity
  pub comp : ComponentTypeId
  pub tick : ℕ

-- core/observer_dispatch.h.
pub data ObserverEventType : Type 0 where
  added removed changed matched unmatched custom : ObserverEventType

-- A call of `observer_dispatch_.dispatch`, or of a registered custom command with its data.
pub data Event : Type 0 where
  dispatched : ObserverEventType → Entity → ComponentTypeId → String → Event
  custom_ran : ℕ → List ℕ → Event

-- core/command_buffer.h: a queued command, one constructor for each CmdOp.
pub data Command : Type 0 where
  add_component : Entity → ComponentTypeId → List ℕ → Command
  remove_component : Entity → ComponentTypeId → Command
  add_entity : Entity → Command
  remove_entity : Entity → Command
  custom_command : ℕ → List ℕ → Command

pub record World : Type 0 where
  pub slot_generations : List ℕ
  -- The head of these two is the back of the vector.
  pub free_slots : List ℕ
  pub pool_slots : List Entity
  pub entity_locations : Map Entity EntityLocation
  pub archetypes : Map (List ComponentTypeId) Ptr
  pub archetype_list : List Ptr
  pub empty_archetype : Ptr
  pub query_cache : QueryCache
  pub command_buffer : List Command
  pub change_tick : ℕ
  pub cache_version : ℕ
  pub suppress_depth : ℕ
  pub iteration_depth : ℕ
  pub pending_cache_invalidation : Bool
  pub defer_moves : Bool
  pub deferred_entities : List Entity
  pub deferred_set : List Entity
  pub pending_ops : Map Entity (List PendingComponentOp)
  pub pending_destroy : List Entity
  pub changed_baselines : Map ℕ ℕ
  pub custom_commands : Map ℕ ℕ
  pub change_log : List ChangeLogEntry
  pub change_log_generation : ℕ
  pub events : List Event
  pub heap : Map Ptr Archetype
  pub next_ptr : ℕ

-- What a pointer points to; no operation follows one that was never allocated or was deleted.
abbrev pub or_blank : Option Archetype → Archetype
or_blank none = blank
or_blank (some a) = a

abbrev pub deref : World → Ptr → Archetype
deref w p = or_blank (Map.find p w.heap)

abbrev pub store : Ptr → Archetype → World → World
store p a w = record w { heap = Map.insert p a w.heap }

abbrev pub location : World → Entity → Option EntityLocation
location w e = Map.find e w.entity_locations

abbrev pub locate : Entity → Ptr → ℕ → World → World
locate e p row w = record w {
  entity_locations = Map.insert e (record { archetype = p; row = row }) w.entity_locations;
}

abbrev pub emit : Event → World → World
emit ev w = record w { events = w.events ++ ev ∷ [] }

abbrev pub dispatch : ObserverEventType → Entity → ComponentTypeId → String → World → World
dispatch type e comp name w = emit (dispatched type e comp name) w

-- Is the number in the vector or the set?
abbrev pub among : ℕ → List ℕ → Bool
among e es = any (λ x. x == e) es

-- `iteration_depth_` is an int: it stands here modulo 2^32, and is positive below 2^31.
unfoldable pub in_iteration : World → Bool
in_iteration w = ltb 0 w.iteration_depth && ltb w.iteration_depth (2 ^ 31)

unfoldable pub begin_iteration : World → World
begin_iteration w = record w { iteration_depth = u32 (w.iteration_depth + 1) }

unfoldable pub end_iteration : World → World
end_iteration w = record w { iteration_depth = u32 (w.iteration_depth + 2 ^ 32 - 1) }

unfoldable pub is_alive : World → Entity → Bool
is_alive w p_e = not (p_e == 0) && Map.contains p_e w.entity_locations

unfoldable pub entity_count : World → ℕ
entity_count w = u32 (length w.entity_locations)

abbrev pub tick_max : ℕ
tick_max = 2 ^ 64 - 1

-- The clock saturates; the new tick is read from the world.
unfoldable pub bump_tick : World → World
bump_tick w = if ltb w.change_tick tick_max then record w { change_tick = w.change_tick + 1 } else w

unfoldable pub invalidate_cache : World → World
invalidate_cache w =
    if ltb 0 w.suppress_depth
    then record w { pending_cache_invalidation = true }
    else record w { cache_version = u32 (w.cache_version + 1) }

unfoldable pub begin_suppress : World → World
begin_suppress w = record w { suppress_depth = w.suppress_depth + 1 }

-- The inner `if` of `end_suppress`, which `end_deferred_moves` has too.
unfoldable pub flush_invalidation : World → World
flush_invalidation w =
    if w.suppress_depth == 0 && w.pending_cache_invalidation
    then record w { pending_cache_invalidation = false; cache_version = u32 (w.cache_version + 1) }
    else w

unfoldable pub end_suppress : World → World
unfolding flush_invalidation
end_suppress w =
    if ltb 0 w.suppress_depth
    then flush_invalidation (record w { suppress_depth = w.suppress_depth - 1 })
    else w
