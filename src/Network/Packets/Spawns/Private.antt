-- ===== src/Network/Packets/Spawns/Private.antt =====
-- network/network_sync.cpp: local fields stay off the packets of spawns.
use vortaris_ecs.Prelude.{
  ℕ, ◌≡◌, refl, true, Option, none, some, List, [], ◌∷◌, map, Option-cases, inl, inr, subst,
}
use vortaris_ecs.Column.{Row}
use vortaris_ecs.Entity.{Entity, ComponentTypeId}
use vortaris_ecs.Schema.{FieldDescriptor, ComponentSchema}
use vortaris_ecs.Schema.Registry.{ComponentRegistry, schema_of}
use vortaris_ecs.Serialization.{BinaryBuffer}
use vortaris_ecs.Serialization.Component.{field_size}
use vortaris_ecs.Serialization.Memory.{slice}
use vortaris_ecs.World.{World}
use vortaris_ecs.World.Components.{get_raw, get_entity_component_types}
use vortaris_ecs.Network.Plan.{is_sent, sync_plan_for, plan_of}
use vortaris_ecs.Network.Plan.Secret.{Alike, write_fields-Alike}
use vortaris_ecs.Network.Packets.Spawns.{
  held_by, serialize_component_block, spawn_blocks, spawn_packet,
}

-- The same bytes at every field that is networked and not local.
abbrev pub SentAlike : List FieldDescriptor → List ℕ → List ℕ → Type 0
SentAlike [] a b = Unit {0}
SentAlike (fd ∷ fds) a b =
    (is_sent fd ≡ true → slice fd.offset (field_size fd) a ≡ slice fd.offset (field_size fd) b)
    × SentAlike fds a b

SentAlike-Alike :
    (fds : List FieldDescriptor) (a b : List ℕ)
    → SentAlike fds a b
    → Alike fds (map is_sent fds) a b
SentAlike-Alike [] a b h = tt
SentAlike-Alike (fd ∷ fds) a b h = (h.0, SentAlike-Alike fds a b h.1)

-- Two components that differ, if at all, in the bytes outside the fields that are sent.
abbrev pub AlikeRows : List ℕ → List FieldDescriptor → Option Row → Option Row → Type 0
AlikeRows unwritten fds none none = Unit {0}
AlikeRows unwritten fds none (some b) = ⊥
AlikeRows unwritten fds (some a) none = ⊥
AlikeRows unwritten fds (some a) (some b) =
    SentAlike fds (held_by unwritten a) (held_by unwritten b)

plan-mask :
    (reg : ComponentRegistry) (t : ComponentTypeId) (s : ComponentSchema)
    → schema_of reg t ≡ some s
    → (sync_plan_for reg t).spawn_mask ≡ map is_sent s.fields
unfolding sync_plan_for plan_of
plan-mask reg t s k = rw (sync_plan_for, k) refl

abbrev pub AlikeUnder : List ℕ → Option ComponentSchema → Option Row → Option Row → Type 0
AlikeUnder unwritten none ra rb = Unit {0}
AlikeUnder unwritten (some s) ra rb = AlikeRows unwritten s.fields ra rb

-- The components of an entity in two worlds.
abbrev pub AllAlike :
    ComponentRegistry → List ℕ → World → World → Entity → List ComponentTypeId → Type 0
AllAlike reg unwritten v w e [] = Unit {0}
AllAlike reg unwritten v w e (t ∷ ts) =
    AlikeUnder unwritten (schema_of reg t) (get_raw v e t) (get_raw w e t)
    × AllAlike reg unwritten v w e ts

module _ (reg : ComponentRegistry) (unwritten : List ℕ) (v w : World) (e : Entity) where
  block-same :
      (t : ComponentTypeId) (s : ComponentSchema) (buf : BinaryBuffer) (ra rb : Option Row)
      → schema_of reg t ≡ some s
      → get_raw v e t ≡ ra
      → get_raw w e t ≡ rb
      → AlikeRows unwritten s.fields ra rb
      → serialize_component_block reg unwritten v e t buf
        ≡ serialize_component_block reg unwritten w e t buf
  unfolding serialize_component_block
  block-same t s buf none none k p q h = rw (serialize_component_block, k, p, q) refl
  block-same t s buf none (some b) k p q h = absurd h
  block-same t s buf (some a) none k p q h = absurd h
  block-same t s buf (some a) (some b) k p q h =
      rw (serialize_component_block, k, p, q, plan-mask reg t s k)
        (write_fields-Alike s.fields (map is_sent s.fields) (held_by unwritten a)
          (held_by unwritten b) _ (SentAlike-Alike s.fields _ _ h))

  component-same :
      (t : ComponentTypeId) (buf : BinaryBuffer)
      → AlikeUnder unwritten (schema_of reg t) (get_raw v e t) (get_raw w e t)
      → serialize_component_block reg unwritten v e t buf
        ≡ serialize_component_block reg unwritten w e t buf
  unfolding serialize_component_block
  component-same t buf h = elim (Option-cases (schema_of reg t)) [
    | inl unknown ↦ rw (serialize_component_block, unknown) refl
    | inr (s, known) ↦
        let h' = subst (λ o. AlikeUnder unwritten o (get_raw v e t) (get_raw w e t)) known h in
        block-same t s buf _ _ known refl refl h'
  ]

  blocks-same :
      (ts : List ComponentTypeId) (r : BinaryBuffer × ℕ)
      → AllAlike reg unwritten v w e ts
      → spawn_blocks reg unwritten v e ts r ≡ spawn_blocks reg unwritten w e ts r
  unfolding spawn_blocks
  blocks-same [] r h = refl
  blocks-same (t ∷ ts) r h = rw (component-same t r.0 h.0) (blocks-same ts _ h.1)

  -- Where an entity has the same components in two worlds, and each that has a schema is the same in both at every
  -- field that is networked and not local, the spawn packets of the entity are the same.
  pub spawn_packet-same :
      get_entity_component_types v e ≡ get_entity_component_types w e
      → AllAlike reg unwritten v w e (get_entity_component_types w e)
      → spawn_packet reg unwritten v e ≡ spawn_packet reg unwritten w e
  unfolding spawn_packet
  spawn_packet-same types h = rw (types, blocks-same (get_entity_component_types w e) _ h) refl
