-- ===== src/World/Moves.antt =====
-- core/world.cpp: archetypes made on demand, and the rows that move between them.
use vortaris_ecs.Prelude.{
  ℕ, ◌+◌, ◌&&◌, Option, none, some, List, [], ◌∷◌, ◌++◌, map, compare, Ordering, ◌==◌, nat_eq,
  ids_eq, if◌then◌else◌, get_or,
}
use vortaris_ecs.Prelude.Map
use vortaris_ecs.Prelude.Map.{Map}
use vortaris_ecs.Entity.{Entity, ComponentTypeId}
use vortaris_ecs.Schema.{ComponentSchema}
use vortaris_ecs.Schema.Registry.{ComponentRegistry, schema_of}
use vortaris_ecs.Column.{Column, fresh, init, write_row, set_version, version_at}
use vortaris_ecs.Archetype.{Archetype, blank, add_entity, remove_entity}
use vortaris_ecs.Archetype.Columns.{zip_columns}
use vortaris_ecs.Query.{Ptr, compute_signature, register_new_archetype}
use vortaris_ecs.World.{World, deref, store, location, locate}

-- The column for an id. The code follows the schema's pointer; every id that reaches it was registered.
abbrev pub column_for : Option ComponentSchema → Column
column_for none = init 0 1 fresh
column_for (some s) = init s.size s.alignment fresh

unfoldable pub new_archetype : ComponentRegistry → List ComponentTypeId → Archetype
new_archetype reg p_ids = record blank {
  component_ids = p_ids;
  signature = compute_signature p_ids;
  columns = map (λ t. column_for (schema_of reg t)) p_ids;
}

unfoldable pub create_archetype : ComponentRegistry → List ComponentTypeId → World → World × Ptr
unfolding new_archetype
create_archetype reg p_ids w =
    let a = w.next_ptr in
    let heap' = Map.insert a (new_archetype reg p_ids) w.heap in
    let w' = record w { heap = heap'; next_ptr = a + 1 } in
    (
      record w' {
        archetypes = Map.insert p_ids a w.archetypes;
        archetype_list = w.archetype_list ++ a ∷ [];
        query_cache = register_new_archetype (deref w') a w.query_cache;
      },
      a,
    )

unfoldable pub ensure_archetype : ComponentRegistry → List ComponentTypeId → World → World × Ptr
ensure_archetype reg p_ids w = elim (Map.find p_ids w.archetypes) [
  | some a ↦ (w, a)
  | none ↦ create_archetype reg p_ids w
]

-- "if (moved) { find it; if found, set its row }".
unfoldable pub fix_moved : Entity → ℕ → World → World
fix_moved moved row w =
    if moved == 0
    then w
    else elim (location w moved) [ none ↦ w | some loc ↦ locate moved loc.archetype row w ]

-- `add_entity` on the archetype behind a pointer.
unfoldable pub host_entity : Ptr → Entity → World → World × ℕ
host_entity p e w = let (a, row) = add_entity e w.change_tick (deref w p) in (store p a w, row)

-- `remove_entity` on the archetype behind a pointer, and the correction of the moved entity's row.
unfoldable pub evict_entity : Ptr → Entity → ℕ → World → World
unfolding fix_moved
evict_entity p e row w =
    let (a, moved) = remove_entity e (deref w p) in fix_moved moved row (store p a w)

-- The memcpy of a shared column's row, and its version where both columns keep them.
unfoldable pub copy_cell : Column → ℕ → Column → ℕ → Column
copy_cell src from_row dst new_row =
    let dst' = write_row new_row (get_or src.rows from_row none) dst in
    if dst.tracking && src.tracking
    then set_version new_row (version_at from_row src) dst'
    else dst'

-- The merge walk over two ascending lists of ids; the result is the destination's columns.
unfoldable pub copy_shared :
    List (ComponentTypeId × Column) → ℕ → List (ComponentTypeId × Column) → ℕ → List Column
unfolding copy_cell
copy_shared [] from_row dst new_row = map (λ x. x.1) dst
copy_shared ((s, c) ∷ src) from_row [] new_row = []
copy_shared ((s, c) ∷ src) from_row ((d, x) ∷ dst) new_row = elim (compare s d) [
  | Ordering.lt ↦ copy_shared src from_row ((d, x) ∷ dst) new_row
  | Ordering.gt ↦ x ∷ copy_shared ((s, c) ∷ src) from_row dst new_row
  | Ordering.eq ↦ copy_cell c from_row x new_row ∷ copy_shared src from_row dst new_row
]

-- The walk from the archetype behind one pointer to that behind another.
unfoldable pub copy_row : Ptr → ℕ → Ptr → ℕ → World → World
unfolding copy_shared
copy_row p_from from_row p_to new_row w =
    let from = deref w p_from in
    let to = deref w p_to in
    store p_to
      (record to {
        columns =
            copy_shared (zip_columns from.component_ids from.columns) from_row
              (zip_columns to.component_ids to.columns) new_row;
      })
      w

unfoldable pub move_entity_to : Entity → Ptr → Ptr → ℕ → World → World × ℕ
unfolding host_entity copy_row evict_entity
move_entity_to p_e p_from p_to p_from_row w =
    let (w₁, new_row) = host_entity p_to p_e w in
    (evict_entity p_from p_e p_from_row (copy_row p_from p_from_row p_to new_row w₁), new_row)
