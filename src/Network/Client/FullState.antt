-- ===== src/Network/Client/FullState.antt =====
-- network/network_sync.cpp: what a client does with a full state (`apply_full_state`): a scan of the packet that
-- writes nothing, and the load.
use vortaris_ecs.Prelude.{
  ℕ, zero, suc, not, ◌&&◌, Option, none, some, List, [], ◌∷◌, ◌==◌, nat_eq, if◌then◌else◌,
}
use vortaris_ecs.Entity.{Entity}
use vortaris_ecs.Schema.Registry.{ComponentRegistry}
use vortaris_ecs.Serialization.{BinaryBuffer, read_u16, read_u32, read_u64, seek}
use vortaris_ecs.World.{World, among, is_alive}
use vortaris_ecs.World.Entities.{create_entity_preassigned, destroy_entity, insert_unique}
use vortaris_ecs.Network.Packets.{consume_component, consume_components}
use vortaris_ecs.Snapshot.{bad_id}
use vortaris_ecs.Network.Client.Reading.{Client, apply_listed, with_version}

module _ (reg : ComponentRegistry) (unwritten : List ℕ) where
  -- Pass 1 of a full state: every id is one that can be created and comes once.
  unfoldable pub scan_entities : ℕ → ℕ → List ℕ → BinaryBuffer → Option BinaryBuffer
  unfolding consume_components consume_component
  scan_entities version zero seen b = some b
  scan_entities version (suc n) seen b = elim (read_u64 b) [
    | none ↦ none
    | some id ↦ if bad_id id.0 seen then none else elim (read_u16 id.1) [
      | none ↦ none
      | some ncomp ↦ elim (consume_components (consume_component reg version) ncomp.0 ncomp.1) [
        | none ↦ none
        | some b' ↦ scan_entities version n (id.0 ∷ seen) b'
      ]
    ]
  ]

  -- Pass 2: a live entity is destroyed and built anew. The ids that came are collected.
  unfoldable pub full_entity :
      ℕ → BinaryBuffer → World → List Entity → World × (List Entity × Option BinaryBuffer)
  full_entity version b w incoming = elim (read_u64 b) [
    | none ↦ (w, (incoming, none))
    | some id ↦
        let (w', e) =
          create_entity_preassigned id.0 (if is_alive w id.0 then destroy_entity id.0 w else w) in
        let r = apply_listed reg unwritten version e id.1 w' in
        if e == 0 then (w', (incoming, none)) else (r.0, (insert_unique e incoming, r.1))
  ]

  unfoldable pub full_entities :
      ℕ → ℕ → BinaryBuffer → World → List Entity → World × (List Entity × Option BinaryBuffer)
  unfolding full_entity
  full_entities version zero b w incoming = (w, (incoming, some b))
  full_entities version (suc n) b w incoming =
      let (w', (es, end)) = full_entity version b w incoming in
      elim end [ none ↦ (w', (es, none)) | some b' ↦ full_entities version n b' w' es ]

  -- Entities that were replicated and are not part of the full state go.
  unfoldable pub drop_ghosts : List Entity → List Entity → World → World
  drop_ghosts incoming [] w = w
  drop_ghosts incoming (e ∷ es) w =
      drop_ghosts incoming es
        (if not (among e incoming) && is_alive w e then destroy_entity e w else w)

  abbrev pub settle : Client → World × (List Entity × Option BinaryBuffer) → Client
  settle c (w, (incoming, none)) = record c { world = w }
  settle c (w, (incoming, some b)) = record {
    world = drop_ghosts incoming c.client_replicated w;
    client_replicated = incoming;
  }

  unfoldable pub full_body : ℕ → BinaryBuffer → Client → Client
  unfolding scan_entities full_entities drop_ghosts
  full_body version b c = elim (read_u32 b) [
    | none ↦ c
    | some n ↦ elim (scan_entities version n.0 [] n.1) [
      | none ↦ c
      | some end ↦ settle c (full_entities version n.0 n.1 c.world [])
    ]
  ]

  abbrev pub apply_full_state : BinaryBuffer → Client → Client
  apply_full_state p_data c = with_version full_body (seek 0 p_data) c
