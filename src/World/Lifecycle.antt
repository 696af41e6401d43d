-- ===== src/World/Lifecycle.antt =====
-- core/world.cpp: construction, compaction, clearing and resetting, and the small maps of the world.
use Prim.Native.String.{String}
use vortaris_ecs.Prelude.{
  ℕ, ◌+◌, Bool, true, false, not, ◌&&◌, none, some, List, [], ◌∷◌, ◌==◌, nat_eq, ids_eq,
  if◌then◌else◌, length, u64, map,
}
use vortaris_ecs.Prelude.Map
use vortaris_ecs.Entity.{Entity}
use vortaris_ecs.Schema.Registry.{ComponentRegistry}
use vortaris_ecs.Query.{Ptr, no_queries, erase_archetype}
use vortaris_ecs.World.{
  World, ObserverEventType, custom_ran, deref, location, dispatch, emit, in_iteration,
  invalidate_cache,
}
use vortaris_ecs.World.Entities.{take_out}
use vortaris_ecs.World.Ids.{free_entity_id}
use vortaris_ecs.World.Moves.{create_archetype}

-- The members' initial values.
abbrev pub uninitialised : World
uninitialised = record {
  slot_generations = [];
  free_slots = [];
  pool_slots = [];
  entity_locations = [];
  archetypes = [];
  archetype_list = [];
  empty_archetype = 0;
  query_cache = no_queries;
  command_buffer = [];
  change_tick = 1;
  cache_version = 0;
  suppress_depth = 0;
  iteration_depth = 0;
  pending_cache_invalidation = false;
  defer_moves = false;
  deferred_entities = [];
  deferred_set = [];
  pending_ops = [];
  pending_destroy = [];
  changed_baselines = [];
  custom_commands = [];
  change_log = [];
  change_log_generation = 0;
  events = [];
  heap = [];
  next_ptr = 1;
}

-- The constructor makes the archetype of entities without components.
unfoldable pub new_world : ComponentRegistry → World
unfolding create_archetype
new_world reg =
    let (w, a) = create_archetype reg [] uninitialised in record w { empty_archetype = a }

unfoldable pub emit_event : String → Entity → World → World
emit_event p_name p_e w = dispatch ObserverEventType.custom p_e 0 p_name w

-- A command function is known by its number.
unfoldable pub register_custom_command : ℕ → ℕ → World → World
register_custom_command p_id p_fn w = record w {
  custom_commands = Map.insert p_id p_fn w.custom_commands;
}

unfoldable pub run_custom_command : ℕ → List ℕ → World → World
run_custom_command p_id p_data w = elim (Map.find p_id w.custom_commands) [
  | none ↦ w
  | some fn ↦ emit (custom_ran fn p_data) w
]

-- Is the archetype to be freed?
unfoldable pub is_garbage : World → Ptr → Bool
is_garbage w a = not (a == w.empty_archetype) && length (deref w a).entities == 0

unfoldable pub free_archetype : Ptr → World → World
free_archetype a w = record w {
  archetypes = Map.erase (deref w a).component_ids w.archetypes;
  query_cache = erase_archetype a w.query_cache;
  heap = Map.erase a w.heap;
}

-- The loop over `archetype_list_`, with the pointers that it keeps.
unfoldable pub compact_loop : List Ptr → World → World × List Ptr
unfolding free_archetype
compact_loop [] w = (w, [])
compact_loop (a ∷ as') w = elim (is_garbage w a) [
  | true ↦ compact_loop as' (free_archetype a w)
  | false ↦ let (w', keep) = compact_loop as' w in (w', a ∷ keep)
]

unfoldable pub compact : World → World
unfolding compact_loop
compact w = let (w', keep) = compact_loop w.archetype_list w in record w' { archetype_list = keep }

-- One round of the loop of `clear`.
unfoldable pub clear_entity : Entity → World → World
clear_entity e w = elim (location w e) [ none ↦ w | some loc ↦ free_entity_id e (take_out e loc w) ]

unfoldable pub clear_entities : List Entity → World → World
unfolding clear_entity
clear_entities [] w = w
clear_entities (e ∷ es) w = clear_entities es (clear_entity e w)

unfoldable pub clear : World → World
unfolding clear_entities
clear w =
    if in_iteration w
    then w
    else (let w₁ = invalidate_cache (clear_entities (map (λ kv. kv.0) w.entity_locations) w) in
        dispatch ObserverEventType.custom 0 0 "world_cleared" (record w₁ {
          change_log = [];
          change_log_generation = u64 (w₁.change_log_generation + 1);
        }))

-- Clearing the observers is on the dispatcher, which is not part of this state.
unfoldable pub reset : World → World
reset w = record w {
  command_buffer = [];
  changed_baselines = [];
  pending_ops = [];
  pending_destroy = [];
  deferred_entities = [];
  deferred_set = [];
  custom_commands = [];
  change_log = [];
  change_log_generation = u64 (w.change_log_generation + 1);
  pool_slots = [];
  suppress_depth = 0;
  iteration_depth = 0;
  pending_cache_invalidation = false;
  defer_moves = false;
}

-- The value, and whether the signature was there.
unfoldable pub changed_baseline : World → ℕ → ℕ × Bool
changed_baseline w p_sig = elim (Map.find p_sig w.changed_baselines) [
  | none ↦ (0, false)
  | some tick ↦ (tick, true)
]

unfoldable pub set_changed_baseline : ℕ → ℕ → World → World
set_changed_baseline p_sig p_tick w = record w {
  changed_baselines = Map.insert p_sig p_tick w.changed_baselines;
}
