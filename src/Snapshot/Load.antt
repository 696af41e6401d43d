-- ===== src/Snapshot/Load.antt =====
-- serialization/snapshot.cpp: pass 2, which replaces the world.
use vortaris_ecs.Prelude.{
  ℕ, zero, suc, Bool, true, false, Option, none, some, List, [], ◌∷◌, ◌==◌, nat_eq, if◌then◌else◌,
}
use vortaris_ecs.Column.{Row, write_row}
use vortaris_ecs.Entity.{Entity, ComponentTypeId}
use vortaris_ecs.Schema.{FieldDescriptor}
use vortaris_ecs.Schema.Registry.{ComponentRegistry, schema_of}
use vortaris_ecs.Serialization.{BinaryBuffer, read_u16, read_u32, read_u64}
use vortaris_ecs.Serialization.Component.{masked_out, next_mask, read_field}
use vortaris_ecs.World.{World, location, deref, store}
use vortaris_ecs.World.Components.{add_raw, get_raw, update_column}
use vortaris_ecs.World.Entities.{create_entity_preassigned}
use vortaris_ecs.World.Lifecycle.{clear}
use vortaris_ecs.Network.Packets.Spawns.{held_by}
use vortaris_ecs.Snapshot.{check_snapshot, read_head}

-- `deserialize_component` in place: the fields that were read before the buffer ran out stay.
unfoldable pub read_until :
    List FieldDescriptor → List Bool → List ℕ → BinaryBuffer → List ℕ × Option BinaryBuffer
read_until [] mask inst b = (inst, some b)
read_until (fd ∷ fds) mask inst b =
    elim (if masked_out mask then some (inst, b) else read_field fd inst b) [
      | none ↦ (inst, none)
      | some r ↦ read_until fds (next_mask mask) r.0 r.1
    ]

-- The bytes behind the pointer of `get_raw` are changed.
unfoldable pub put_raw : Entity → ComponentTypeId → List ℕ → World → World
unfolding update_column
put_raw e t bytes w = elim (location w e) [
  | none ↦ w
  | some loc ↦
      store loc.archetype
        (update_column t (λ c. write_row loc.row (some bytes) c) (deref w loc.archetype)) w
]

module _ (reg : ComponentRegistry) (unwritten : List ℕ) where
  -- The component is read into the row that `get_raw` finds.
  unfoldable pub fill :
      List FieldDescriptor
      → Entity
      → ComponentTypeId
      → BinaryBuffer
      → Option Row
      → World
      → World × Option BinaryBuffer
  unfolding read_until put_raw
  fill fds e t b none w = (w, none)
  fill fds e t b (some row) w =
      let r = read_until fds [] (held_by unwritten row) b in (put_raw e t r.0 w, r.1)

  unfoldable pub load_component :
      Entity → ComponentTypeId → BinaryBuffer → World → World × Option BinaryBuffer
  unfolding fill
  load_component e t b w = elim (schema_of reg t) [
    | none ↦ (w, none)
    | some s ↦ let w' = add_raw reg e t none w in fill s.fields e t b (get_raw w' e t) w'
  ]

  unfoldable pub load_components : Entity → ℕ → BinaryBuffer → World → World × Option BinaryBuffer
  unfolding load_component
  load_components e zero b w = (w, some b)
  load_components e (suc n) b w = elim (read_u32 b) [
    | none ↦ (w, none)
    | some t ↦
        let (w', end) = load_component e t.0 t.1 w in
        elim end [ none ↦ (w', none) | some b' ↦ load_components e n b' w' ]
  ]

  -- The components of an entity behind its id.
  unfoldable pub load_body : Entity → BinaryBuffer → World → World × Option BinaryBuffer
  unfolding load_components
  load_body e b w = elim (read_u16 b) [
    | none ↦ (w, none)
    | some ncomp ↦ load_components e ncomp.0 ncomp.1 w
  ]

  unfoldable pub load_entity : BinaryBuffer → World → World × Option BinaryBuffer
  unfolding load_body
  load_entity b w = elim (read_u64 b) [
    | none ↦ (w, none)
    | some id ↦
        let (w', e) = create_entity_preassigned id.0 w in
        if e == 0 then (w', none) else load_body e id.1 w'
  ]

  unfoldable pub load_entities : ℕ → BinaryBuffer → World → World × Option BinaryBuffer
  unfolding load_entity
  load_entities zero b w = (w, some b)
  load_entities (suc n) b w =
      let (w', end) = load_entity b w in
      elim end [ none ↦ (w', none) | some b' ↦ load_entities n b' w' ]

  abbrev pub succeeded : World × Option BinaryBuffer → World × Bool
  succeeded (w, none) = (w, false)
  succeeded (w, some b) = (w, true)

  -- Pass 2.
  unfoldable pub load_snapshot : BinaryBuffer → World → World × Bool
  unfolding load_entities
  load_snapshot b w = elim (read_head b) [
    | none ↦ (w, false)
    | some count ↦ succeeded (load_entities count.0 count.1 w)
  ]

  unfoldable pub deserialize_world_snapshot : BinaryBuffer → World → World × Bool
  unfolding check_snapshot load_snapshot
  deserialize_world_snapshot r_in p_world =
      if check_snapshot reg r_in then load_snapshot r_in (clear p_world) else (p_world, false)
