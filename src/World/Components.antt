-- ===== src/World/Components.antt =====
-- core/world.cpp: components read and written by type id, outside a deferred batch and into one.
use Prim.Native.String.{String}
use vortaris_ecs.Prelude.{
  ℕ, Bool, true, false, not, Option, none, some, List, [], ◌∷◌, ◌++◌, leb, ◌==◌, nat_eq,
  if◌then◌else◌, get_elem?, set, take, replicate,
}
use vortaris_ecs.Prelude.Map
use vortaris_ecs.Prelude.Map.{Map}
use vortaris_ecs.Entity.{Entity, ComponentTypeId}
use vortaris_ecs.Schema.{ComponentSchema}
use vortaris_ecs.Schema.Registry.{ComponentRegistry, schema_of}
use vortaris_ecs.Column.{Column, Row, write_row, mark_changed, ensure_versions}
use vortaris_ecs.Archetype.{Archetype, has_component, column, column_index}
use vortaris_ecs.Query.{Ptr}
use vortaris_ecs.World.{
  World, EntityLocation, ObserverEventType, PendingComponentOp, deref, store, location, locate,
  dispatch, in_iteration, is_alive, invalidate_cache, bump_tick,
}
use vortaris_ecs.World.ChangeLog.{log_change}
use vortaris_ecs.World.Entities.{queue_deferred_move}
use vortaris_ecs.World.Moves.{ensure_archetype, move_entity_to}

unfoldable pub has : World → Entity → ComponentTypeId → Bool
has w p_e p_t = if p_e == 0 then false else elim (location w p_e) [
  | none ↦ false
  | some loc ↦ has_component (deref w loc.archetype) p_t
]

-- The row of a column, if there is one.
abbrev pub row_in : ℕ → Option Column → Option Row
row_in r none = none
row_in r (some c) = get_elem? c.rows r

-- The component of the row at a location.
unfoldable pub component_at : Archetype → ComponentTypeId → ℕ → Option Row
component_at a p_t row = if has_component a p_t then row_in row (column a p_t) else none

-- The bytes behind the pointer that both versions of `get_raw` return; `none` is the null pointer.
unfoldable pub get_raw : World → Entity → ComponentTypeId → Option Row
get_raw w p_e p_t = if p_e == 0 then none else elim (location w p_e) [
  | none ↦ none
  | some loc ↦ component_at (deref w loc.archetype) p_t loc.row
]

-- A change of the column of a component.
unfoldable pub update_column : ComponentTypeId → (Column → Column) → Archetype → Archetype
update_column p_t f a = elim (column_index a p_t) [
  | none ↦ a
  | some i ↦ elim (get_elem? a.columns i) [
    | none ↦ a
    | some c ↦ record a { columns = set a.columns i (f c) }
  ]
]

-- Does the column of a component keep versions?
abbrev pub tracks : Option Column → Bool
tracks none = false
tracks (some c) = c.tracking

-- The bytes that a write with this pointer leaves: `memcpy` of the component's size, or zeros.
abbrev pub bytes_of : ComponentSchema → Option (List ℕ) → List ℕ
bytes_of s none = replicate s.size 0
bytes_of s (some d) = take s.size d

-- The write of a row, its mark with a new tick, and the entry in the change log.
unfoldable pub write_component : Entity → ComponentTypeId → Ptr → ℕ → List ℕ → World → World
unfolding update_column
write_component p_e p_t host row bytes w =
    let w' = bump_tick w in
    let a = deref w' host in
    let w'' =
      store host
        (update_column p_t (λ c. mark_changed row w'.change_tick (write_row row (some bytes) c)) a)
        w' in
    if tracks (column a p_t) then log_change p_e p_t w''.change_tick w'' else w''

-- `ops.push_back(op)` on the entity's entry.
abbrev pub ops_of : Option (List PendingComponentOp) → List PendingComponentOp
ops_of none = []
ops_of (some ops) = ops

unfoldable pub queue_op : Entity → PendingComponentOp → World → World
queue_op p_e op w = queue_deferred_move p_e (record w {
  pending_ops = Map.insert p_e (ops_of (Map.find p_e w.pending_ops) ++ op ∷ []) w.pending_ops;
})

-- What `op.data` holds.
abbrev pub op_bytes : ComponentSchema → Option (List ℕ) → List ℕ
op_bytes s none = []
op_bytes s (some d) = take s.size d

-- `push_back` and `std::sort` on ids that are sorted.
unfoldable pub insert_sorted : ComponentTypeId → List ComponentTypeId → List ComponentTypeId
insert_sorted t [] = t ∷ []
insert_sorted t (x ∷ xs) = if leb t x then t ∷ x ∷ xs else x ∷ insert_sorted t xs

-- `std::find` and `erase`.
unfoldable pub erase_first : ComponentTypeId → List ComponentTypeId → List ComponentTypeId
erase_first t [] = []
erase_first t (x ∷ xs) = if x == t then xs else x ∷ erase_first t xs

-- `add_raw` where the archetype has the component.
unfoldable pub overwrite : Entity → ComponentTypeId → EntityLocation → List ℕ → World → World
unfolding write_component
overwrite p_e p_t loc bytes w =
    dispatch ObserverEventType.changed p_e p_t ""
      (write_component p_e p_t loc.archetype loc.row bytes w)

-- The move of an entity to the archetype of other ids.
unfoldable pub migrate :
    ComponentRegistry
    → Entity
    → EntityLocation
    → List ComponentTypeId
    → World
    → World × EntityLocation
migrate reg p_e loc new_ids w =
    let (w₁, target) = ensure_archetype reg new_ids w in
    let (w₂, new_row) = move_entity_to p_e loc.archetype target loc.row w₁ in
    (locate p_e target new_row w₂, record { archetype = target; row = new_row })

-- `add_raw` where the archetype lacks the component.
unfoldable pub attach :
    ComponentRegistry → Entity → ComponentTypeId → EntityLocation → List ℕ → World → World
unfolding migrate write_component insert_sorted
attach reg p_e p_t loc bytes w =
    let (w', loc') =
      migrate reg p_e loc (insert_sorted p_t (deref w loc.archetype).component_ids) w in
    invalidate_cache (
      dispatch ObserverEventType.added p_e p_t ""
        (write_component p_e p_t loc'.archetype loc'.row bytes w'))

-- `add_raw` from the lookup of the location on.
unfoldable pub add_now :
    ComponentRegistry → Entity → ComponentTypeId → ComponentSchema → Option (List ℕ) → World → World
add_now reg p_e p_t schema p_data w = elim (location w p_e) [
  | none ↦ w
  | some loc ↦
      if has_component (deref w loc.archetype) p_t
      then overwrite p_e p_t loc (bytes_of schema p_data) w
      else (if in_iteration w then w else attach reg p_e p_t loc (bytes_of schema p_data) w)
]

unfoldable pub add_raw :
    ComponentRegistry → Entity → ComponentTypeId → Option (List ℕ) → World → World
add_raw reg p_e p_t p_data w = if not (is_alive w p_e) then w else elim (schema_of reg p_t) [
  | none ↦ w
  | some schema ↦
      if w.defer_moves
      then queue_op p_e (record { type = p_t; add = true; bytes = op_bytes schema p_data }) w
      else add_now reg p_e p_t schema p_data w
]

-- `remove_component` from the lookup of the location on.
unfoldable pub remove_now : ComponentRegistry → Entity → ComponentTypeId → World → World
unfolding migrate erase_first
remove_now reg p_e p_t w = elim (location w p_e) [
  | none ↦ w
  | some loc ↦
      if not (has_component (deref w loc.archetype) p_t)
      then w
      else (if in_iteration w
          then w
          else (let (w', loc') =
                migrate reg p_e loc (erase_first p_t (deref w loc.archetype).component_ids) w in
              invalidate_cache (dispatch ObserverEventType.removed p_e p_t "" w')))
]

unfoldable pub remove_component : ComponentRegistry → Entity → ComponentTypeId → World → World
remove_component reg p_e p_t w =
    if not (is_alive w p_e)
    then w
    else (if w.defer_moves
        then queue_op p_e (record { type = p_t; add = false; bytes = [] }) w
        else remove_now reg p_e p_t w)

unfoldable pub mark_component_changed : Entity → ComponentTypeId → String → World → World
unfolding update_column
mark_component_changed p_e p_t p_field w =
    if not (is_alive w p_e) then w else elim (location w p_e) [
      | none ↦ w
      | some loc ↦
          let a = deref w loc.archetype in
          if not (has_component a p_t)
          then w
          else (let w' = bump_tick w in
              let w'' =
                store loc.archetype
                  (update_column p_t
                    (λ c. mark_changed loc.row w'.change_tick (ensure_versions w.change_tick c)) a)
                  w' in
              dispatch ObserverEventType.changed p_e p_t p_field
                (log_change p_e p_t w''.change_tick w''))
    ]

unfoldable pub get_entity_component_types : World → Entity → List ComponentTypeId
get_entity_component_types w p_e =
    if not (is_alive w p_e)
    then []
    else elim (location w p_e) [ none ↦ [] | some loc ↦ (deref w loc.archetype).component_ids ]

-- `move_entity`: the location that it answers with, unless it refuses.
unfoldable pub move_entity : Entity → Ptr → World → World × Option EntityLocation
move_entity p_e p_target w =
    if not (is_alive w p_e)
    then (w, none)
    else (if in_iteration w then (w, none) else elim (location w p_e) [
      | none ↦ (w, none)
      | some loc ↦
          if loc.archetype == p_target
          then (w, some loc)
          else (let (w', row) = move_entity_to p_e loc.archetype p_target loc.row w in
              (
                invalidate_cache (locate p_e p_target row w'),
                some (record { archetype = p_target; row = row }),
              ))
    ])
