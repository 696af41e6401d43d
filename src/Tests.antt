-- ===== src/Tests.antt =====
-- core/world.cpp in a small world, and the theorems at it.
--
-- The world has one component of four bytes, an archetype for it, and two entities without components.
pub mod Parts
pub mod Wire
pub mod Systems
pub mod Server
pub mod Loops
use vortaris_ecs.Prelude.{
  ℕ, ◌+◌, ◌<◌, ◌^◌, ◌≡◌, refl, true, false, none, some, List, [], ◌∷◌, nat_eq, ids_eq, length,
  arith, Option, Bool,
}
use vortaris_ecs.Prelude.Map.{find}
use vortaris_ecs.Entity.{Entity, handle, slot, generation}
use vortaris_ecs.Schema.{ComponentSchema}
use vortaris_ecs.Schema.Registry.{ComponentRegistry, empty_registry, register_component, schema_of}
use vortaris_ecs.Archetype.{has_component, add_entity, found_at, lower_bound, remove_entity}
use vortaris_ecs.World.{World, EntityLocation, location, deref, in_iteration}
use vortaris_ecs.World.Components.{move_entity, get_raw, add_raw, bytes_of, overwrite}
use vortaris_ecs.World.Entities.{
  create_entity, create_entity_preassigned, destroy_entity, destroy_entity_pooled, place,
}
use vortaris_ecs.World.Adds.{add_raw-get_raw}
use vortaris_ecs.World.Writes.{overwrite-IsValid}
use vortaris_ecs.World.Frames.{
  destroy_entity-get_raw, destroy_entity_pooled-get_raw, create_entity-get_raw,
}
use vortaris_ecs.World.Growth.{new_world-IsValid, create_archetype-IsValid}
use vortaris_ecs.World.Ids.{alloc_entity_id, alloc_fresh}
use vortaris_ecs.World.Invariant.{IsValid, at}
use vortaris_ecs.World.Lifecycle.{new_world}
use vortaris_ecs.World.Migration.{move_entity-IsValid}
use vortaris_ecs.World.Moves.{
  create_archetype, new_archetype, host_entity, copy_row, evict_entity, move_entity_to, fix_moved,
}
use vortaris_ecs.World.Preserves.{
  create_entity-IsValid, destroy_entity-IsValid, create_entity_preassigned-IsValid,
}
use vortaris_ecs.World.Carries.{move_entity-get_raw}

abbrev pub pos : ComponentSchema
pos = record {
  type_id = 0;
  type_name = "pos";
  size = 4;
  alignment = 4;
  fields = [];
  is_networked = false;
}

abbrev pub reg : ComponentRegistry
reg = (register_component pos empty_registry).0

abbrev start : World
start = (create_archetype reg (1 ∷ []) (new_world reg)).0

abbrev one : World
one = (create_entity start).0

abbrev two : World
two = (create_entity one).0

abbrev pub three : World
three = (move_entity 1 2 two).0

abbrev four_bytes : List ℕ
four_bytes = 1 ∷ 2 ∷ 3 ∷ 4 ∷ []

start-IsValid : IsValid start
unfolding new_world create_archetype find vortaris_ecs.Prelude.Map.insert
start-IsValid =
    create_archetype-IsValid reg (1 ∷ []) (new_world reg) (omega arith, tt) refl
      (new_world-IsValid reg)

one-IsValid : IsValid one
unfolding new_world create_archetype alloc_entity_id new_archetype find
    vortaris_ecs.Prelude.Map.insert
one-IsValid = create_entity-IsValid start start-IsValid (omega arith) refl

two-IsValid : IsValid two
unfolding new_world create_archetype alloc_entity_id alloc_fresh new_archetype find
    vortaris_ecs.Prelude.Map.insert create_entity place add_entity in_iteration has_component
    move_entity move_entity_to vortaris_ecs.Schema.Registry.schema_at register_component
    vortaris_ecs.World.is_alive handle remove_entity found_at get_raw
    vortaris_ecs.World.Components.component_at fix_moved host_entity copy_row evict_entity
    vortaris_ecs.Archetype.column vortaris_ecs.Archetype.column_index lower_bound
    vortaris_ecs.Prelude.Map.erase vortaris_ecs.World.invalidate_cache
    vortaris_ecs.Archetype.fill_row
two-IsValid = create_entity-IsValid one one-IsValid (omega arith) refl

pub three-IsValid : IsValid three
unfolding new_world create_archetype alloc_entity_id alloc_fresh new_archetype find
    vortaris_ecs.Prelude.Map.insert create_entity place add_entity in_iteration has_component
    move_entity move_entity_to vortaris_ecs.Schema.Registry.schema_at register_component
    vortaris_ecs.World.is_alive handle remove_entity found_at get_raw
    vortaris_ecs.World.Components.component_at fix_moved host_entity copy_row evict_entity
    vortaris_ecs.Archetype.column vortaris_ecs.Archetype.column_index lower_bound
    vortaris_ecs.Prelude.Map.erase vortaris_ecs.World.invalidate_cache
    vortaris_ecs.Archetype.fill_row
three-IsValid = move_entity-IsValid two 1 2 two-IsValid (omega arith)

move_entity-get_raw_example : get_raw (move_entity 1 2 two).0 1 1 ≡ some none
unfolding new_world create_archetype alloc_entity_id alloc_fresh new_archetype find
    vortaris_ecs.Prelude.Map.insert create_entity place add_entity in_iteration has_component
    move_entity move_entity_to vortaris_ecs.Schema.Registry.schema_at register_component
    vortaris_ecs.World.is_alive handle remove_entity found_at get_raw
    vortaris_ecs.World.Components.component_at fix_moved host_entity copy_row evict_entity
    vortaris_ecs.Archetype.column vortaris_ecs.Archetype.column_index lower_bound
    vortaris_ecs.Prelude.Map.erase vortaris_ecs.World.invalidate_cache
    vortaris_ecs.Archetype.fill_row
move_entity-get_raw_example =
    move_entity-get_raw two 1 1 1 2 (at 1 0) two-IsValid (omega arith) refl refl refl

add_raw-get_raw_example :
    get_raw (add_raw reg 1 1 (some four_bytes) three) 1 1 ≡ some (some four_bytes)
unfolding new_world create_archetype alloc_entity_id alloc_fresh new_archetype find
    vortaris_ecs.Prelude.Map.insert create_entity place add_entity in_iteration has_component
    move_entity move_entity_to vortaris_ecs.Schema.Registry.schema_at register_component
    vortaris_ecs.World.is_alive handle remove_entity found_at get_raw
    vortaris_ecs.World.Components.component_at fix_moved host_entity copy_row evict_entity
    vortaris_ecs.Archetype.column vortaris_ecs.Archetype.column_index lower_bound
    vortaris_ecs.Prelude.Map.erase vortaris_ecs.World.invalidate_cache
    vortaris_ecs.Archetype.fill_row
add_raw-get_raw_example =
    add_raw-get_raw reg three 1 1 1 1 (record pos { type_id = 1 }) (some four_bytes) (at 2 0)
      three-IsValid refl refl refl refl

destroy_entity-get_raw_example : get_raw (destroy_entity 1 three) 1 1 ≡ none
unfolding new_world create_archetype alloc_entity_id alloc_fresh new_archetype find
    vortaris_ecs.Prelude.Map.insert create_entity place add_entity in_iteration has_component
    move_entity move_entity_to vortaris_ecs.Schema.Registry.schema_at register_component
    vortaris_ecs.World.is_alive handle remove_entity found_at get_raw
    vortaris_ecs.World.Components.component_at fix_moved host_entity copy_row evict_entity
    vortaris_ecs.Archetype.column vortaris_ecs.Archetype.column_index lower_bound
    vortaris_ecs.Prelude.Map.erase vortaris_ecs.World.invalidate_cache
    vortaris_ecs.Archetype.fill_row
destroy_entity-get_raw_example = destroy_entity-get_raw three 1 1 1 (at 2 0) three-IsValid refl refl

move_entity-IsValid_example : IsValid (move_entity 2 2 three).0
unfolding new_world create_archetype alloc_entity_id alloc_fresh new_archetype find
    vortaris_ecs.Prelude.Map.insert create_entity place add_entity in_iteration has_component
    move_entity move_entity_to vortaris_ecs.Schema.Registry.schema_at register_component
    vortaris_ecs.World.is_alive handle remove_entity found_at get_raw
    vortaris_ecs.World.Components.component_at fix_moved host_entity copy_row evict_entity
    vortaris_ecs.Archetype.column vortaris_ecs.Archetype.column_index lower_bound
    vortaris_ecs.Prelude.Map.erase vortaris_ecs.World.invalidate_cache
    vortaris_ecs.Archetype.fill_row
move_entity-IsValid_example = move_entity-IsValid three 2 2 three-IsValid (omega arith)

destroy_entity-IsValid_example : IsValid (destroy_entity 1 three)
destroy_entity-IsValid_example = destroy_entity-IsValid three three-IsValid 1

create_entity_preassigned-IsValid_example : IsValid (create_entity_preassigned 7 three).0
unfolding new_world create_archetype alloc_entity_id alloc_fresh new_archetype find
    vortaris_ecs.Prelude.Map.insert create_entity place add_entity in_iteration has_component
    move_entity move_entity_to vortaris_ecs.Schema.Registry.schema_at register_component
    vortaris_ecs.World.is_alive handle remove_entity found_at get_raw
    vortaris_ecs.World.Components.component_at fix_moved host_entity copy_row evict_entity
    vortaris_ecs.Archetype.column vortaris_ecs.Archetype.column_index lower_bound
    vortaris_ecs.Prelude.Map.erase vortaris_ecs.World.invalidate_cache
    vortaris_ecs.Archetype.fill_row
create_entity_preassigned-IsValid_example =
    create_entity_preassigned-IsValid three 7 three-IsValid (omega arith)
