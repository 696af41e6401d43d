-- ===== src/World/Entities.antt =====
-- core/world.cpp: the life of entities.
use vortaris_ecs.Prelude.{
  ℕ, ◌+◌, ◌^◌, ◌||◌, none, some, List, [], ◌∷◌, ◌++◌, leb, ◌==◌, nat_eq, if◌then◌else◌, length, set,
}
use vortaris_ecs.Prelude.Map
use vortaris_ecs.Entity.{Entity, ComponentTypeId, slot, generation}
use vortaris_ecs.World.{
  World, EntityLocation, ObserverEventType, deref, location, locate, dispatch, store, in_iteration,
  is_alive, invalidate_cache, among,
}
use vortaris_ecs.World.Ids.{alloc_entity_id, free_entity_id, resize, u32_max}
use vortaris_ecs.World.Moves.{host_entity, fix_moved}
use vortaris_ecs.Archetype.{remove_entity}

-- The entity's first row, in the empty archetype, as the three ways of creation end.
unfoldable pub place : Entity → World → World
unfolding host_entity invalidate_cache
place e w =
    let (w', row) = host_entity w.empty_archetype e w in
    invalidate_cache (locate e w.empty_archetype row w')

unfoldable pub create_entity : World → World × Entity
create_entity w = let (w', e) = alloc_entity_id w in if e == 0 then (w', 0) else (place e w', e)

abbrev pub max_slot : ℕ
max_slot = 2 ^ 24

-- The generations grown to hold the slot.
abbrev pub grow_slots : ℕ → World → World
grow_slots s w = record w {
  slot_generations =
      if leb (length w.slot_generations) s
      then resize (s + 1) w.slot_generations
      else w.slot_generations;
}

-- `create_entity_preassigned` behind its two guards on the slot.
unfoldable pub claim_id : ℕ → World → World × Entity
claim_id p_id w =
    let w' = grow_slots (slot p_id) w in
    if Map.contains p_id w.entity_locations then (w', 0) else (
      place p_id
          (record w' { slot_generations = set w'.slot_generations (slot p_id) (generation p_id) }),
      p_id,
    )

unfoldable pub create_entity_preassigned : ℕ → World → World × Entity
unfolding claim_id
create_entity_preassigned p_id w =
    if slot p_id == u32_max || leb max_slot (slot p_id) then (w, 0) else claim_id p_id w

-- A Removed event for each component that the entity had.
unfoldable pub dispatch_removed : Entity → List ComponentTypeId → World → World
dispatch_removed e [] w = w
dispatch_removed e (t ∷ ts) w = dispatch_removed e ts (dispatch ObserverEventType.removed e t "" w)

-- The entity leaves its row and the map of locations, and the entity that took its row is told.
unfoldable pub take_out : Entity → EntityLocation → World → World
unfolding fix_moved
take_out e loc w =
    let (a, moved) = remove_entity e (deref w loc.archetype) in
    let w' = store loc.archetype a w in
    fix_moved moved loc.row (record w' { entity_locations = Map.erase e w'.entity_locations })

unfoldable pub destroy_entity : Entity → World → World
destroy_entity p_e w = elim (location w p_e) [
  | none ↦ w
  | some loc ↦
      if in_iteration w
      then w
      else invalidate_cache (
          dispatch_removed p_e (deref w loc.archetype).component_ids
            (free_entity_id p_e (take_out p_e loc w)))
]

unfoldable pub queue_deferred_move : Entity → World → World
queue_deferred_move p_e w = if among p_e w.deferred_set then w else record w {
  deferred_set = w.deferred_set ++ p_e ∷ [];
  deferred_entities = w.deferred_entities ++ p_e ∷ [];
}

-- `set.insert`.
abbrev pub insert_unique : ℕ → List ℕ → List ℕ
insert_unique e es = if among e es then es else es ++ e ∷ []

unfoldable pub destroy_entity_deferred : Entity → World → World
destroy_entity_deferred p_e w =
    if w.defer_moves
    then (if is_alive w p_e
        then queue_deferred_move p_e
            (record w { pending_destroy = insert_unique p_e w.pending_destroy })
        else w)
    else destroy_entity p_e w

unfoldable pub create_entity_pooled : World → World × Entity
create_entity_pooled w = elim w.pool_slots [
  | [] ↦ create_entity w
  | e ∷ rest ↦ (place e (record w { pool_slots = rest }), e)
]

unfoldable pub destroy_entity_pooled : Entity → World → World
destroy_entity_pooled p_e w = elim (location w p_e) [
  | none ↦ w
  | some loc ↦
      if in_iteration w
      then w
      else (let w' = take_out p_e loc w in
          invalidate_cache (
            dispatch_removed p_e (deref w loc.archetype).component_ids
              (record w' { pool_slots = p_e ∷ w'.pool_slots })))
]
