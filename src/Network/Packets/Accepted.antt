-- ===== src/Network/Packets/Accepted.antt =====
-- network/network_sync.cpp: the packets that a server builds pass the check of a client.
pub mod Spawned
use vortaris_ecs.Prelude.{
  ℕ, zero, suc, ◌+◌, ◌-◌, ◌*◌, ◌^◌, ◌≤◌, ◌<◌, ◌≡◌, refl, ap, ap₂, sym, ◌∙◌, Bool, true, false,
  Option, none, some, List, [], ◌∷◌, ◌++◌, ltb, ◌==◌, nat_eq, length, drop, arith, append_assoc,
  append-nil, length-append, map, if◌then◌else◌,
}
use vortaris_ecs.Entity.{ComponentTypeId}
use vortaris_ecs.Schema.{FieldDescriptor, ComponentSchema}
use vortaris_ecs.Schema.Registry.{ComponentRegistry, schema_of}
use vortaris_ecs.Serialization.{BinaryBuffer, le_bytes, seek}
use vortaris_ecs.Serialization.Ahead.{
  Ahead, advance, read_le-Ahead, Ahead-advance, Ahead-room, Ahead-left, Ahead-right,
  advance-advance,
}
use vortaris_ecs.Serialization.Component.{field_mask_bytes, fields_size}
use vortaris_ecs.Serialization.Component.Sizes.{Fit, payloads, length-payloads}
use vortaris_ecs.Serialization.Roundtrip.{length-le_bytes, le_value-le_bytes}
use vortaris_ecs.Network.Mask.{mask_bytes}
use vortaris_ecs.Network.Mask.Roundtrip.{length-mask_bytes, read_field_mask-Ahead}
use vortaris_ecs.Network.Packets.{
  skip, skip_masked, consume_component, consume_components, consume_entity,
}

-- A number that is ahead is read.
pub read_number-Ahead :
    (n v : ℕ) (c : BinaryBuffer) (rest : List ℕ)
    → v < 256 ^ n
    → Ahead c (le_bytes n v) rest
    → vortaris_ecs.Serialization.read_le n c ≡ some (v, advance n c)
read_number-Ahead n v c rest h a =
    read_le-Ahead c (le_bytes n v) rest a n (length-le_bytes n v)
    ∙ ap (λ x. some (x, advance n c)) (le_value-le_bytes n v h)

pub skip-Ahead :
    (xs : List ℕ) (c : BinaryBuffer) (rest : List ℕ)
    → Ahead c xs rest
    → skip (length xs) c ≡ some (advance (length xs) c)
unfolding skip seek
skip-Ahead xs c rest a =
    let room = Ahead-room c xs rest a in
    let inside : ltb (length c.bytes) (c.pos + length xs) ≡ false = ground (arith, room) in
    let there : (if ltb (c.pos + length xs) (length c.bytes)
          then c.pos + length xs
          else length c.bytes)
        ≡ c.pos + length xs =
      ground (arith, room) in
    rw (inside, there) refl

-- The bytes of a component behind its type id: the mask, and the fields that it lets through.
abbrev pub masked_bytes : List Bool → List FieldDescriptor → List ℕ → List ℕ
masked_bytes mask fds inst =
    mask_bytes (field_mask_bytes (length mask)) mask ++ payloads fds mask inst

pub skip_masked-Ahead :
    (s : ComponentSchema) (mask : List Bool) (inst : List ℕ) (c : BinaryBuffer) (rest : List ℕ)
    → length mask ≡ length s.fields
    → Fit (length inst) s.fields
    → Ahead c (masked_bytes mask s.fields inst) rest
    → skip_masked s c ≡ some (advance (length (masked_bytes mask s.fields inst)) c)
unfolding skip_masked
skip_masked-Ahead s mask inst c rest m f a =
    let k = field_mask_bytes (length mask) in
    let bits = mask_bytes k mask in
    let fields = payloads s.fields mask inst in
    let lm = length-mask_bytes k mask in
    let lf = length-payloads s.fields mask inst f in
    let masked =
      rw m at (read_field_mask-Ahead mask c (fields ++ rest) (Ahead-left c bits fields rest a)) in
    let later : Ahead (advance (field_mask_bytes (length s.fields)) c) fields rest =
      Ahead-right c bits fields rest a (field_mask_bytes (length s.fields))
        (lm ∙ ap field_mask_bytes m) in
    rw
      (
        skip_masked,
        masked,
        sym lf,
        skip-Ahead fields (advance (field_mask_bytes (length s.fields)) c) rest later,
      )
      (ap some (
        advance-advance (field_mask_bytes (length s.fields)) (length fields) _ c
          (omega (arith, length-append bits fields, lm, ap field_mask_bytes m))))

pub consume_component-Ahead :
    (reg : ComponentRegistry) (t : ComponentTypeId) (s : ComponentSchema) (mask : List Bool)
    (inst : List ℕ) (c : BinaryBuffer) (rest : List ℕ)
    → schema_of reg t ≡ some s
    → length mask ≡ length s.fields
    → Fit (length inst) s.fields
    → Ahead c (masked_bytes mask s.fields inst) rest
    → consume_component reg 2 t c ≡ some (advance (length (masked_bytes mask s.fields inst)) c)
unfolding consume_component
consume_component-Ahead reg t s mask inst c rest k m f a =
    rw (consume_component, k) (skip_masked-Ahead s mask inst c rest m f a)

-- Components on the wire: each is its type id and the bytes behind it.
abbrev pub Item : Type 0
Item = ComponentTypeId × List ℕ

abbrev pub flat : List Item → List ℕ
flat [] = []
flat (x ∷ xs) = (le_bytes 4 x.0 ++ x.1) ++ flat xs

-- The reader of a component reads its bytes.
abbrev pub Reads : (ComponentTypeId → BinaryBuffer → Option BinaryBuffer) → Item → Type 0
Reads consume x =
    (x.0 < 256 ^ 4)
    × ((c : BinaryBuffer) (rest : List ℕ)
        → Ahead c x.1 rest
        → consume x.0 c ≡ some (advance (length x.1) c))

abbrev pub ReadsAll : (ComponentTypeId → BinaryBuffer → Option BinaryBuffer) → List Item → Type 0
ReadsAll consume [] = Unit {0}
ReadsAll consume (x ∷ xs) = Reads consume x × ReadsAll consume xs

pub consume_components-Ahead :
    (consume : ComponentTypeId → BinaryBuffer → Option BinaryBuffer) (xs : List Item)
    (c : BinaryBuffer) (rest : List ℕ)
    → ReadsAll consume xs
    → Ahead c (flat xs) rest
    → consume_components consume (length xs) c ≡ some (advance (length (flat xs)) c)
unfolding consume_components
consume_components-Ahead consume [] c rest r a = ap (λ p. some (record c { pos = p })) (omega arith)
consume_components-Ahead consume (x ∷ xs) c rest r a =
    let here = Ahead-left c (le_bytes 4 x.0 ++ x.1) (flat xs) rest a in
    let id = Ahead-left c (le_bytes 4 x.0) x.1 (flat xs ++ rest) here in
    let l4 = length-le_bytes 4 x.0 in
    let body = Ahead-right c (le_bytes 4 x.0) x.1 (flat xs ++ rest) here 4 l4 in
    let l = length-append (le_bytes 4 x.0) x.1 in
    let later : Ahead (advance (length x.1) (advance 4 c)) (flat xs) rest =
      rw (sym (advance-advance 4 (length x.1) (4 + length x.1) c (omega (arith, l, l4)))) at (
        Ahead-right c (le_bytes 4 x.0 ++ x.1) (flat xs) rest a (4 + length x.1)
          (omega (arith, l, l4))) in
    rw
      (
        consume_components,
        read_number-Ahead 4 x.0 c (x.1 ++ (flat xs ++ rest)) r.0.0 id,
        r.0.1 (advance 4 c) (flat xs ++ rest) body,
        consume_components-Ahead consume xs (advance (length x.1) (advance 4 c)) rest r.1 later,
      )
      (ap (λ p. some (record c { pos = p }))
        (omega (arith, l, l4, length-append (le_bytes 4 x.0 ++ x.1) (flat xs))))

-- An entity on the wire.
abbrev pub entity_bytes : ℕ → ℕ → List Item → List ℕ
entity_bytes width id xs = le_bytes 8 id ++ (le_bytes width (length xs) ++ flat xs)

pub consume_entity-Ahead :
    (width id : ℕ) (consume : ComponentTypeId → BinaryBuffer → Option BinaryBuffer) (xs : List Item)
    (c : BinaryBuffer) (rest : List ℕ)
    → id < 256 ^ 8
    → length xs < 256 ^ width
    → ReadsAll consume xs
    → Ahead c (entity_bytes width id xs) rest
    → consume_entity width consume c ≡ some (advance (length (entity_bytes width id xs)) c)
unfolding consume_entity
consume_entity-Ahead width id consume xs c rest h k r a =
    let ncomp = le_bytes width (length xs) in
    let l8 = length-le_bytes 8 id in
    let lw = length-le_bytes width (length xs) in
    let first = Ahead-left c (le_bytes 8 id) (ncomp ++ flat xs) rest a in
    let behind = Ahead-right c (le_bytes 8 id) (ncomp ++ flat xs) rest a 8 l8 in
    let second = Ahead-left (advance 8 c) ncomp (flat xs) rest behind in
    let third = Ahead-right (advance 8 c) ncomp (flat xs) rest behind width lw in
    rw
      (
        consume_entity,
        read_number-Ahead 8 id c ((ncomp ++ flat xs) ++ rest) h first,
        read_number-Ahead width (length xs) (advance 8 c) (flat xs ++ rest) k second,
        consume_components-Ahead consume xs (advance width (advance 8 c)) rest r third,
      )
      (ap (λ p. some (record c { pos = p }))
        (omega (
          arith,
          l8,
          lw,
          length-append (le_bytes 8 id) (ncomp ++ flat xs),
          length-append ncomp (flat xs),
        )))
