-- ===== src/Network/Packets/Accepted/Spawned.antt =====
-- network/network_sync.cpp: a spawn packet of `tick` passes `validate_packet`.
use vortaris_ecs.Prelude.{
  ℕ, suc, ◌+◌, ◌^◌, ◌≤◌, ◌<◌, ◌≡◌, refl, ap, ap₂, sym, ◌∙◌, Bool, true, false, Option, none, some,
  List, [], ◌∷◌, ◌++◌, ltb, nat_eq, length, arith, append_assoc, append-nil, length-append, map,
  if◌then◌else◌, ◌%◌, Bool-cases, inl, inr,
}
use vortaris_ecs.Column.{Row}
use vortaris_ecs.Entity.{Entity, ComponentTypeId}
use vortaris_ecs.Schema.{ComponentSchema}
use vortaris_ecs.Schema.Registry.{ComponentRegistry, schema_of}
use vortaris_ecs.Serialization.{BinaryBuffer, le_bytes, seek, write_bytes}
use vortaris_ecs.Serialization.Ahead.{Ahead, advance, Ahead-left, Ahead-right}
use vortaris_ecs.Serialization.Component.{field_mask_bytes}
use vortaris_ecs.Serialization.Component.Sizes.{
  Fit, payloads, write_fields-payloads, write_twice, write_nothing,
}
use vortaris_ecs.Serialization.Roundtrip.{length-le_bytes}
use vortaris_ecs.World.{World}
use vortaris_ecs.World.Components.{get_raw, get_entity_component_types}
use vortaris_ecs.Network.Mask.{mask_bytes, write_field_mask}
use vortaris_ecs.Network.Plan.{is_networked, is_sent, sync_plan_for, plan_of}
use vortaris_ecs.Network.Packets.{
  SyncPacketKind, consume_component, consume_packet, consume_versioned, consume_body,
  validate_packet,
}
use vortaris_ecs.Network.Packets.Spawns.{
  serialize_component_block, spawn_blocks, spawn_packet, held_by, new_buffer,
}
use vortaris_ecs.Network.Packets.Accepted.{
  Item, flat, Reads, ReadsAll, masked_bytes, read_number-Ahead, consume_component-Ahead,
  consume_entity-Ahead, entity_bytes,
}

length-map : {A B : Type 0} (f : A → B) (xs : List A) → length (map f xs) ≡ length xs
length-map f [] = refl
length-map f (x ∷ xs) = ap suc (length-map f xs)

-- A component that can be sent: its schema and its bytes are there, and the fields lie within these.
pub record Sendable (reg : ComponentRegistry) (unwritten : List ℕ) (w : World) (e : Entity)
    (t : ComponentTypeId) : Type 0 where
  pub schema : ComponentSchema
  pub known : schema_of reg t ≡ some schema
  pub row : Row
  pub there : get_raw w e t ≡ some row
  pub fit : Fit (length (held_by unwritten row)) schema.fields
  pub small : t < 2 ^ 32

-- Those components of a list that are replicated can be sent.
abbrev pub AllSendable : ComponentRegistry → List ℕ → World → Entity → List ComponentTypeId → Type 0
AllSendable reg unwritten w e [] = Unit {0}
AllSendable reg unwritten w e (t ∷ ts) =
    (is_networked reg t ≡ true → Sendable reg unwritten w e t) × AllSendable reg unwritten w e ts

-- The bytes of a component behind its type id.
abbrev body_of : List Bool → List ℕ → Option ComponentSchema → Option Row → List ℕ
body_of mask unwritten none row = []
body_of mask unwritten (some s) none = []
body_of mask unwritten (some s) (some row) = masked_bytes mask s.fields (held_by unwritten row)

pub seek_start : (b : BinaryBuffer) → seek 0 b ≡ record b { pos = 0 }
unfolding seek
seek_start b = ap (λ p. record b { pos = p }) (ground arith)

-- A buffer that holds a version and an entity is a spawn packet.
accepted_spawn :
    (reg : ComponentRegistry) (e : Entity) (b : BinaryBuffer) (xs : List Item)
    → b.bytes ≡ le_bytes 2 2 ++ entity_bytes 2 e xs
    → ReadsAll (consume_component reg 2) xs
    → length xs < 2 ^ 16
    → e < 2 ^ 64
    → validate_packet reg b SyncPacketKind.spawn ≡ true
unfolding validate_packet consume_packet consume_versioned consume_body
accepted_spawn reg e b xs h r n small =
    let c : BinaryBuffer = record b { pos = 0 } in
    let whole : Ahead c (le_bytes 2 2 ++ entity_bytes 2 e xs) [] = record {
      inside = omega arith;
      ahead = h ∙ sym (append-nil (le_bytes 2 2 ++ entity_bytes 2 e xs));
    } in
    let version = Ahead-left c (le_bytes 2 2) (entity_bytes 2 e xs) [] whole in
    let entity =
      Ahead-right c (le_bytes 2 2) (entity_bytes 2 e xs) [] whole 2 (length-le_bytes 2 2) in
    let all : length b.bytes ≡ 2 + length (entity_bytes 2 e xs) = omega (
      arith,
      ap length h,
      length-append (le_bytes 2 2) (entity_bytes 2 e xs),
      length-le_bytes 2 2,
    ) in
    let stop : ltb (0 + 2 + length (entity_bytes 2 e xs)) (length b.bytes) ≡ false =
      ground (arith, all) in
    rw
      (
        validate_packet,
        seek_start b,
        consume_packet,
        consume_versioned,
        read_number-Ahead 2 2 c (entity_bytes 2 e xs ++ []) (omega arith) version,
        consume_entity-Ahead 2 e (consume_component reg 2) xs (advance 2 c) []
            (omega (arith, small)) (omega (arith, n)) r entity,
        stop,
      )
      refl

module _ (reg : ComponentRegistry) (unwritten : List ℕ) (w : World) (e : Entity) where
  abbrev body : ComponentTypeId → List ℕ
  body t = body_of (sync_plan_for reg t).spawn_mask unwritten (schema_of reg t) (get_raw w e t)

  abbrev items : List ComponentTypeId → List Item
  items [] = []
  items (t ∷ ts) = if is_networked reg t then (t, body t) ∷ items ts else items ts

  block-body :
      (t : ComponentTypeId) (b : BinaryBuffer)
      → Sendable reg unwritten w e t
      → serialize_component_block reg unwritten w e t b ≡ write_bytes (le_bytes 4 t ++ body t) b
  unfolding serialize_component_block write_field_mask
  block-body t b s =
      let mask = (sync_plan_for reg t).spawn_mask in
      let bits = mask_bytes (field_mask_bytes (length mask)) mask in
      let inst = held_by unwritten s.row in
      rw (serialize_component_block, s.known, s.there)
        (write_fields-payloads s.schema.fields mask inst
            (write_bytes bits (write_bytes (le_bytes 4 t) b))
          ∙ write_twice bits (payloads s.schema.fields mask inst) (write_bytes (le_bytes 4 t) b)
          ∙ write_twice (le_bytes 4 t) (bits ++ payloads s.schema.fields mask inst) b)

  body-known :
      (t : ComponentTypeId) (s : Sendable reg unwritten w e t)
      → body t
        ≡ masked_bytes (sync_plan_for reg t).spawn_mask s.schema.fields (held_by unwritten s.row)
  body-known t s = rw (s.known, s.there) refl

  length-spawn_mask :
      (t : ComponentTypeId) (s : ComponentSchema)
      → schema_of reg t ≡ some s
      → length (sync_plan_for reg t).spawn_mask ≡ length s.fields
  unfolding sync_plan_for plan_of
  length-spawn_mask t s k = rw (sync_plan_for, k) (length-map is_sent s.fields)

  body-Reads :
      (t : ComponentTypeId)
      → Sendable reg unwritten w e t
      → Reads (consume_component reg 2) (t, body t)
  body-Reads t s = rw (body-known t s) (
    omega (arith, s.small),
    λ c rest a.
        consume_component-Ahead reg t s.schema (sync_plan_for reg t).spawn_mask
          (held_by unwritten s.row) c rest s.known (length-spawn_mask t s.schema s.known) s.fit a,
  )

  spawn_blocks-items :
      (ts : List ComponentTypeId) (b : BinaryBuffer) (n : ℕ)
      → AllSendable reg unwritten w e ts
      → n + length (items ts) < 2 ^ 16
      → spawn_blocks reg unwritten w e ts (b, n)
        ≡ (write_bytes (flat (items ts)) b, n + length (items ts))
  unfolding spawn_blocks
  spawn_blocks-items [] b n s h = ap₂ (λ x k. (x, k)) (sym (write_nothing b)) (omega arith)
  spawn_blocks-items (t ∷ ts) b n s h = elim (Bool-cases (is_networked reg t)) [
    | inl net ↦
        let h' = rw net at h in
        let m : (n + 1) % 2 ^ 16 ≡ n + 1 = omega (arith, h') in
        rw (net, block-body t b (s.0 net), m)
          (spawn_blocks-items ts (write_bytes (le_bytes 4 t ++ body t) b) (n + 1) s.1
              (omega (arith, h'))
            ∙ ap₂ (λ x k. (x, k)) (write_twice (le_bytes 4 t ++ body t) (flat (items ts)) b)
                (omega arith))
    | inr skipped ↦ rw skipped (spawn_blocks-items ts b n s.1 (rw skipped at h))
  ]

  items-ReadsAll :
      (ts : List ComponentTypeId)
      → AllSendable reg unwritten w e ts
      → ReadsAll (consume_component reg 2) (items ts)
  items-ReadsAll [] s = tt
  items-ReadsAll (t ∷ ts) s = elim (Bool-cases (is_networked reg t)) [
    | inl net ↦ rw net (body-Reads t (s.0 net), items-ReadsAll ts s.1)
    | inr skipped ↦ rw skipped (items-ReadsAll ts s.1)
  ]

  length-items : (ts : List ComponentTypeId) → length (items ts) ≤ length ts
  length-items [] = omega arith
  length-items (t ∷ ts) = ground (arith, length-items ts)

  spawn_packet-bytes :
      AllSendable reg unwritten w e (get_entity_component_types w e)
      → length (get_entity_component_types w e) < 2 ^ 16
      → (spawn_packet reg unwritten w e).bytes
        ≡ le_bytes 2 2 ++ entity_bytes 2 e (items (get_entity_component_types w e))
  unfolding spawn_packet write_bytes
  spawn_packet-bytes s h =
      let ts = get_entity_component_types w e in
      let z : 0 + length (items ts) ≡ length (items ts) = omega arith in
      let ncomp = le_bytes 2 (length (items ts)) in
      rw (spawn_blocks-items ts new_buffer 0 s (omega (arith, h, length-items ts)), z)
        (append_assoc (le_bytes 2 2 ++ le_bytes 8 e) ncomp (flat (items ts))
          ∙ append_assoc (le_bytes 2 2) (le_bytes 8 e) (ncomp ++ flat (items ts)))

  -- A spawn packet that the server builds is accepted by a client with the same registry: where every
  -- replicated component of the entity has a schema, its bytes and an id of 32 bits, their fields lie within the
  -- bytes, the entity's id has 64 bits, and it has fewer than 2 ^ 16 components.
  pub validate_packet-spawn_packet :
      AllSendable reg unwritten w e (get_entity_component_types w e)
      → length (get_entity_component_types w e) < 2 ^ 16
      → e < 2 ^ 64
      → validate_packet reg (spawn_packet reg unwritten w e) SyncPacketKind.spawn ≡ true
  unfolding validate_packet
  validate_packet-spawn_packet s h small =
      let xs = items (get_entity_component_types w e) in
      let b = spawn_packet reg unwritten w e in
      accepted_spawn reg e b xs (spawn_packet-bytes s h) (items-ReadsAll _ s)
        (omega (arith, h, length-items (get_entity_component_types w e))) small
