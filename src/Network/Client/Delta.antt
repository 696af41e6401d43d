-- ===== src/Network/Client/Delta.antt =====
-- network/network_sync.cpp: what a client does with a delta (`apply_delta`).
--
-- The code reads records of dead entities into a static buffer that grows and that nothing else reads; here each
-- record has a buffer of its own. What the code writes behind the end of the buffer is not modelled.
use vortaris_ecs.Prelude.{
  ℕ, zero, suc, ◌+◌, Option, none, some, List, [], ltb, ◌==◌, nat_eq, if◌then◌else◌, length,
  replicate,
}
use vortaris_ecs.Entity.{Entity, ComponentTypeId}
use vortaris_ecs.Schema.{ComponentSchema}
use vortaris_ecs.Schema.Registry.{ComponentRegistry, schema_of}
use vortaris_ecs.Serialization.{BinaryBuffer, read_u8, read_u32, read_u64, seek}
use vortaris_ecs.Serialization.Component.{serialized_component_fields_size}
use vortaris_ecs.World.{World, is_alive}
use vortaris_ecs.World.Components.{add_raw, has}
use vortaris_ecs.World.Entities.{insert_unique}
use vortaris_ecs.Network.Mask.{read_field_mask}
use vortaris_ecs.Snapshot.Load.{read_until}
use vortaris_ecs.Network.Client.Reading.{
  Client, read_versioned, read_records, read_at, apply_components, with_version,
}

-- A record for a dead entity: its mask, the bound check, and its fields.
unfoldable pub pass_record : ComponentSchema → BinaryBuffer → Option BinaryBuffer
pass_record s b = elim (read_field_mask (length s.fields) b) [
  | none ↦ none
  | some mask ↦
      let sz = serialized_component_fields_size s mask.0 in
      if ltb (length mask.1.bytes) (mask.1.pos + sz)
      then none
      else (read_until s.fields mask.0 (replicate sz 0) mask.1).1
]

unfoldable pub pass_records : ComponentSchema → ℕ → BinaryBuffer → Option BinaryBuffer
unfolding pass_record
pass_records s zero b = some b
pass_records s (suc n) b = elim (read_u8 b) [
  | none ↦ none
  | some bidx ↦ elim (pass_record s bidx.1) [ none ↦ none | some b' ↦ pass_records s n b' ]
]

module _ (reg : ComponentRegistry) (unwritten : List ℕ) where
  -- A component of a delta, by its schema: dead entities' bytes are passed over.
  unfoldable pub delta_whole :
      ComponentSchema
      → Entity
      → ComponentTypeId
      → BinaryBuffer
      → World
      → World × Option BinaryBuffer
  delta_whole s e t b w =
      if is_alive w e
      then read_at reg unwritten (read_versioned 1 s) e t b (add_raw reg e t none w)
      else (w, (read_until s.fields [] (replicate s.size 0) b).1)

  unfoldable pub delta_masked :
      ComponentSchema
      → Entity
      → ComponentTypeId
      → BinaryBuffer
      → World
      → World × Option BinaryBuffer
  unfolding read_records pass_records
  delta_masked s e t b w = elim (read_u8 b) [
    | none ↦ (w, none)
    | some nrec ↦
        if is_alive w e
        then read_at reg unwritten (read_records s nrec.0) e t nrec.1
            (if has w e t then w else add_raw reg e t none w)
        else (w, pass_records s nrec.0 nrec.1)
  ]

  unfoldable pub delta_component :
      ℕ → Entity → ComponentTypeId → BinaryBuffer → World → World × Option BinaryBuffer
  unfolding delta_whole delta_masked
  delta_component version e t b w = elim (schema_of reg t) [
    | none ↦ (w, none)
    | some s ↦ if version == 1 then delta_whole s e t b w else delta_masked s e t b w
  ]

  -- An entity of a delta: the byte that counts its components, and these; a live one was replicated.
  unfoldable pub delta_entity : ℕ → BinaryBuffer → Client → Client × Option BinaryBuffer
  unfolding delta_component
  delta_entity version b c = elim (read_u64 b) [
    | none ↦ (c, none)
    | some id ↦ elim (read_u8 id.1) [
      | none ↦ (c, none)
      | some ncomp ↦
          let (w', end) = apply_components (delta_component version id.0) ncomp.0 ncomp.1 c.world in
          let es =
            (if is_alive w' id.0
              then insert_unique id.0 c.client_replicated
              else c.client_replicated) in
          elim end [
            | none ↦ (record c { world = w' }, none)
            | some b' ↦ (record { world = w'; client_replicated = es }, some b')
          ]
    ]
  ]

  unfoldable pub delta_entities : ℕ → ℕ → BinaryBuffer → Client → Client
  unfolding delta_entity
  delta_entities version zero b c = c
  delta_entities version (suc n) b c =
      let (c', end) = delta_entity version b c in
      elim end [ none ↦ c' | some b' ↦ delta_entities version n b' c' ]

  unfoldable pub delta_body : ℕ → BinaryBuffer → Client → Client
  unfolding delta_entities
  delta_body version b c = elim (read_u32 b) [
    | none ↦ c
    | some n ↦ delta_entities version n.0 n.1 c
  ]

  abbrev pub apply_delta : BinaryBuffer → Client → Client
  apply_delta p_data c = with_version delta_body (seek 0 p_data) c
