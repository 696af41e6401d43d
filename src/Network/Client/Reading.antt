-- ===== src/Network/Client/Reading.antt =====
-- network/network_sync.cpp: how a client reads the components of a packet into its world.
--
-- A null pointer where a component is to be written ends the packet, as a failed read does.
use vortaris_ecs.Prelude.{
  ℕ, zero, suc, Option, none, some, List, [], ◌==◌, nat_eq, if◌then◌else◌, length,
}
use vortaris_ecs.Entity.{Entity, ComponentTypeId}
use vortaris_ecs.Schema.{ComponentSchema}
use vortaris_ecs.Schema.Registry.{ComponentRegistry, schema_of}
use vortaris_ecs.Serialization.{BinaryBuffer, read_u8, read_u16, read_u32}
use vortaris_ecs.World.{World}
use vortaris_ecs.World.Components.{add_raw, get_raw}
use vortaris_ecs.Network.Mask.{read_field_mask}
use vortaris_ecs.Network.Packets.{bad_version}
use vortaris_ecs.Network.Packets.Spawns.{held_by}
use vortaris_ecs.Snapshot.Load.{read_until, put_raw}

pub record Client : Type 0 where
  pub world : World
  pub client_replicated : List Entity

-- A mask and the fields that it lets through, read into a component.
unfoldable pub read_masked : ComponentSchema → List ℕ → BinaryBuffer → List ℕ × Option BinaryBuffer
read_masked s inst b = elim (read_field_mask (length s.fields) b) [
  | none ↦ (inst, none)
  | some mask ↦ read_until s.fields mask.0 inst mask.1
]

-- Version 1 has whole components, version 2 masked ones.
abbrev pub read_versioned :
    ℕ → ComponentSchema → List ℕ → BinaryBuffer → List ℕ × Option BinaryBuffer
read_versioned version s inst b =
    if version == 1 then read_until s.fields [] inst b else read_masked s inst b

-- The records of a component in a delta, read one after the other into it.
unfoldable pub read_records :
    ComponentSchema → ℕ → List ℕ → BinaryBuffer → List ℕ × Option BinaryBuffer
unfolding read_masked
read_records s zero inst b = (inst, some b)
read_records s (suc n) inst b = elim (read_u8 b) [
  | none ↦ (inst, none)
  | some bidx ↦
      let r = read_masked s inst bidx.1 in
      elim (r.1) [ none ↦ r | some b' ↦ read_records s n r.0 b' ]
]

-- The version, and the body of the packet.
unfoldable pub with_version : (ℕ → BinaryBuffer → Client → Client) → BinaryBuffer → Client → Client
with_version body b c = elim (read_u16 b) [
  | none ↦ c
  | some version ↦ if bad_version version.0 then c else body version.0 version.1 c
]

-- The loop over the components of an entity, each read by `apply`.
unfoldable pub apply_components :
    (ComponentTypeId → BinaryBuffer → World → World × Option BinaryBuffer)
    → ℕ
    → BinaryBuffer
    → World
    → World × Option BinaryBuffer
apply_components apply zero b w = (w, some b)
apply_components apply (suc n) b w = elim (read_u32 b) [
  | none ↦ (w, none)
  | some t ↦
      let (w', end) = apply t.0 t.1 w in
      elim end [ none ↦ (w', none) | some b' ↦ apply_components apply n b' w' ]
]

module _ (reg : ComponentRegistry) (unwritten : List ℕ) where
  -- What `read` does to the component behind the pointer of `get_raw`; a null pointer ends the packet.
  unfoldable pub read_at :
      (List ℕ → BinaryBuffer → List ℕ × Option BinaryBuffer)
      → Entity
      → ComponentTypeId
      → BinaryBuffer
      → World
      → World × Option BinaryBuffer
  unfolding put_raw
  read_at read e t b w = elim (get_raw w e t) [
    | none ↦ (w, none)
    | some row ↦ let r = read (held_by unwritten row) b in (put_raw e t r.0 w, r.1)
  ]

  -- A component of a spawn or of a full state.
  unfoldable pub apply_component :
      ℕ → Entity → ComponentTypeId → BinaryBuffer → World → World × Option BinaryBuffer
  unfolding read_at
  apply_component version e t b w = elim (schema_of reg t) [
    | none ↦ (w, none)
    | some s ↦ read_at (read_versioned version s) e t b (add_raw reg e t none w)
  ]

  -- The count of the components in 16 bits, and the components.
  unfoldable pub apply_listed : ℕ → Entity → BinaryBuffer → World → World × Option BinaryBuffer
  unfolding apply_component apply_components
  apply_listed version e b w = elim (read_u16 b) [
    | none ↦ (w, none)
    | some ncomp ↦ apply_components (apply_component version e) ncomp.0 ncomp.1 w
  ]
