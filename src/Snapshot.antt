-- ===== src/Snapshot.antt =====
-- serialization/snapshot.cpp: a whole world in a buffer, and the two passes of loading it.
--
-- Memory that nothing has written holds the bytes `unwritten`, as for packets. A schema that the code follows without
-- a test is there; without one nothing is written.
pub mod Load
pub mod Checked
pub mod Accepted
use vortaris_ecs.Prelude.{
  ℕ, zero, suc, ◌+◌, ◌^◌, Bool, true, false, not, ◌&&◌, ◌||◌, Option, none, some, List, [], ◌∷◌,
  leb, ◌==◌, nat_eq, if◌then◌else◌, length,
}
use vortaris_ecs.Archetype.{Archetype}
use vortaris_ecs.Column.{Column, Row}
use vortaris_ecs.Entity.{Entity, ComponentTypeId, slot}
use vortaris_ecs.Schema.Registry.{ComponentRegistry, schema_of}
use vortaris_ecs.Serialization.{
  BinaryBuffer, write_u16, write_u32, write_u64, read_u16, read_u32, read_u64,
}
use vortaris_ecs.Serialization.Component.{serialize_component, serialized_component_size}
use vortaris_ecs.World.{World, entity_count, among}
use vortaris_ecs.World.Components.{row_in}
use vortaris_ecs.World.Entities.{max_slot}
use vortaris_ecs.World.Ids.{u32_max}
use vortaris_ecs.Network.Packets.{skip, consume_components}
use vortaris_ecs.Network.Packets.Spawns.{held_by}
use vortaris_ecs.Network.Replication.Ticks.{sort_archetypes}

abbrev pub snapshot_version : ℕ
snapshot_version = 1

-- The bytes of a row that is there.
abbrev pub cell_bytes : List ℕ → Option Row → List ℕ
cell_bytes unwritten none = unwritten
cell_bytes unwritten (some row) = held_by unwritten row

module _ (reg : ComponentRegistry) (unwritten : List ℕ) where
  -- The type id and the component of a column.
  unfoldable pub write_cell : ComponentTypeId → List ℕ → BinaryBuffer → BinaryBuffer
  write_cell t inst r_out = elim (schema_of reg t) [
    | none ↦ r_out
    | some s ↦ serialize_component s inst (write_u32 t r_out)
  ]

  -- The loop over the components of a row, whose columns run along.
  unfoldable pub write_cells : ℕ → List ComponentTypeId → List Column → BinaryBuffer → BinaryBuffer
  unfolding write_cell
  write_cells row [] columns r_out = r_out
  write_cells row (t ∷ ts) [] r_out = r_out
  write_cells row (t ∷ ts) (c ∷ cs) r_out =
      write_cells row ts cs (write_cell t (cell_bytes unwritten (row_in row (some c))) r_out)

  -- The loop over the rows of an archetype, from a row on.
  unfoldable pub write_rows : Archetype → ℕ → List Entity → BinaryBuffer → BinaryBuffer
  unfolding write_cells
  write_rows a row [] r_out = r_out
  write_rows a row (e ∷ es) r_out = write_rows a (suc row) es (
      write_cells row a.component_ids a.columns
        (write_u16 (length a.component_ids) (write_u64 e r_out)))

  unfoldable pub write_archetypes : List Archetype → BinaryBuffer → BinaryBuffer
  unfolding write_rows
  write_archetypes [] r_out = r_out
  write_archetypes (a ∷ rest) r_out = write_archetypes rest (write_rows a 0 a.entities r_out)

  unfoldable pub serialize_world_snapshot : World → BinaryBuffer → BinaryBuffer
  unfolding write_archetypes
  serialize_world_snapshot p_world r_out =
      write_archetypes (sort_archetypes p_world p_world.archetype_list)
        (write_u32 (entity_count p_world) (write_u16 snapshot_version r_out))

-- Pass 1. A component is skipped by the size of its schema.
abbrev pub check_component :
    ComponentRegistry → ComponentTypeId → BinaryBuffer → Option BinaryBuffer
check_component reg t b = elim (schema_of reg t) [
  | none ↦ none
  | some s ↦ skip (serialized_component_size s) b
]

-- An id without a slot, with one behind the guard, or one that came before.
abbrev pub bad_id : ℕ → List ℕ → Bool
bad_id id seen = (slot id == u32_max || leb max_slot (slot id)) || among id seen

-- The components of an entity behind its id.
unfoldable pub check_components : ComponentRegistry → BinaryBuffer → Option BinaryBuffer
unfolding consume_components
check_components reg b = elim (read_u16 b) [
  | none ↦ none
  | some ncomp ↦ consume_components (check_component reg) ncomp.0 ncomp.1
]

unfoldable pub check_entities : ComponentRegistry → ℕ → List ℕ → BinaryBuffer → Option BinaryBuffer
check_entities reg zero seen b = some b
check_entities reg (suc n) seen b = elim (read_u64 b) [
  | none ↦ none
  | some id ↦
      let body = check_components reg id.1 in
      if bad_id id.0 seen
      then none
      else elim body [ none ↦ none | some b' ↦ check_entities reg n (id.0 ∷ seen) b' ]
]

-- The count of the entities behind the version.
unfoldable pub read_head : BinaryBuffer → Option (ℕ × BinaryBuffer)
read_head b = elim (read_u16 b) [
  | none ↦ none
  | some version ↦ if version.0 == snapshot_version then read_u32 version.1 else none
]

unfoldable pub check_snapshot : ComponentRegistry → BinaryBuffer → Bool
unfolding read_head check_entities
check_snapshot reg b = elim (read_head b) [
  | none ↦ false
  | some count ↦ elim (check_entities reg count.0 [] count.1) [ none ↦ false | some end ↦ true ]
]
