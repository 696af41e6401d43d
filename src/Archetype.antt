-- ===== src/Archetype.antt =====
-- core/archetype.h and core/archetype.cpp, and the struct Query of core/query.h.
pub mod Invariant
pub mod Removal
pub mod Index
pub mod Columns
pub mod Refine
pub mod Addition
pub mod Matching
use vortaris_ecs.Prelude.{
  ℕ, zero, suc, ◌+◌, ◌-◌, ◌%◌, ◌^◌, ◌≤◌, ◌<◌, ◌≡◌, Bool, true, false, not, ◌&&◌, ◌||◌, Option, none,
  some, List, [], ◌∷◌, ◌++◌, map, ltb, ◌==◌, nat_eq, if◌then◌else◌, length, get_elem?, get_or, set,
  drop_last, u32, any, all,
}
use vortaris_ecs.Prelude.Map
use vortaris_ecs.Prelude.Map.{Map}
use vortaris_ecs.Entity.{Entity, ComponentTypeId}
use vortaris_ecs.Column
use vortaris_ecs.Column.{Column, grow, set_version, swap_remove, pop_back}

pub record Query : Type 0 where
  pub all : List ComponentTypeId
  pub any : List ComponentTypeId
  pub none : List ComponentTypeId

pub record Archetype : Type 0 where
  pub signature : ℕ
  pub component_ids : List ComponentTypeId
  pub entities : List Entity
  pub columns : List Column
  pub enabled : List ℕ
  pub entity_to_row : Map Entity ℕ

-- `new Archetype()`.
abbrev pub blank : Archetype
blank = record {
  signature = 0;
  component_ids = [];
  entities = [];
  columns = [];
  enabled = [];
  entity_to_row = [];
}

-- `std::lower_bound` on a sorted vector: the first index whose element is not below `t`.
unfoldable pub lower_bound : List ComponentTypeId → ComponentTypeId → ℕ
lower_bound [] t = 0
lower_bound (x ∷ xs) t = if ltb x t then suc (lower_bound xs t) else 0

-- What stands at that index, if it is `t`: `it != end() && *it == t`.
unfoldable pub found_at : List ComponentTypeId → ComponentTypeId → Bool
unfolding lower_bound
found_at ids t = elim (get_elem? ids (lower_bound ids t)) [ none ↦ false | some x ↦ x == t ]

-- `std::binary_search` on a sorted vector.
unfoldable pub has_component : Archetype → ComponentTypeId → Bool
has_component a t = found_at a.component_ids t

-- `none` is SIZE_MAX.
unfoldable pub column_index : Archetype → ComponentTypeId → Option ℕ
column_index a t = if found_at a.component_ids t then some (lower_bound a.component_ids t) else none

-- `none` is the failed assertion.
unfoldable pub column : Archetype → ComponentTypeId → Option Column
column a t = elim (column_index a t) [ none ↦ none | some i ↦ get_elem? a.columns i ]

-- The loop body of `add_entity` over the columns.
unfoldable pub grow_column : ℕ → ℕ → Column → Column
grow_column row tick c = let c' = grow c in if c'.tracking then set_version row tick c' else c'

unfoldable pub add_entity : Entity → ℕ → Archetype → Archetype × ℕ
unfolding grow_column
add_entity p_e p_change_tick a =
    let row = u32 (length a.entities) in
    (
      record a {
        entities = a.entities ++ p_e ∷ [];
        enabled = a.enabled ++ 1 ∷ [];
        columns = map (grow_column row p_change_tick) a.columns;
        entity_to_row = Map.insert p_e row a.entity_to_row;
      },
      row,
    )

-- `remove_entity` where the row is the last one.
unfoldable pub drop_row : Entity → Archetype → Archetype
drop_row p_e a = record a {
  columns = map pop_back a.columns;
  entities = drop_last a.entities;
  enabled = drop_last a.enabled;
  entity_to_row = Map.erase p_e a.entity_to_row;
}

-- `remove_entity` where the last row moves into the freed one.
unfoldable pub fill_row : Entity → ℕ → ℕ → Archetype → Archetype
fill_row p_e row last a =
    let moved = get_or a.entities last 0 in
    record a {
      entities = drop_last (set a.entities row moved);
      entity_to_row = Map.insert moved row (Map.erase p_e a.entity_to_row);
      columns = map (swap_remove row) a.columns;
      enabled = drop_last (set a.enabled row (get_or a.enabled last 0));
    }

unfoldable pub remove_row : Entity → ℕ → Archetype → Archetype × Entity
remove_row p_e row a =
    let last = u32 (u32 (length a.entities) + 2 ^ 32 - 1) in
    if row == last then (drop_row p_e a, 0) else (fill_row p_e row last a, get_or a.entities last 0)

-- Returns the entity that was moved into the freed row, or 0.
unfoldable pub remove_entity : Entity → Archetype → Archetype × Entity
unfolding remove_row
remove_entity p_e a = elim (Map.find p_e a.entity_to_row) [
  | none ↦ (a, 0)
  | some row ↦ remove_row p_e row a
]

unfoldable pub set_enabled : ℕ → Bool → Archetype → Archetype
set_enabled p_row p_on a =
    if ltb p_row (length a.enabled)
    then record a { enabled = set a.enabled p_row (if p_on then 1 else 0) }
    else a

unfoldable pub get_enabled : ℕ → Archetype → Bool
get_enabled p_row a = ltb p_row (length a.enabled) && not (get_or a.enabled p_row 0 == 0)

-- The three loops of `Archetype::matches`, and of `Query::matches`, which has the same text.
unfoldable pub matches : Query → Archetype → Bool
unfolding all any
matches q a =
    if all (has_component a) q.all
    then (if not (length q.any == 0) && not (any (has_component a) q.any)
        then false
        else not (any (has_component a) q.none))
    else false
