-- ===== src/Network/Client/Aligned.antt =====
-- network/network_sync.cpp: the cursor in a delta, for entities that died at the client.
use vortaris_ecs.Prelude.{
  ℕ, zero, suc, ◌+◌, ◌≤◌, ◌≡◌, refl, Bool, true, false, Option, none, some, List, [], ◌∷◌, ltb,
  length, replicate, Bool-cases, Option-cases, inl, inr, arith, if◌then◌else◌, sym, ◌∙◌,
}
use vortaris_ecs.Column.{Row}
use vortaris_ecs.Entity.{Entity, ComponentTypeId}
use vortaris_ecs.World.{World, is_alive}
use vortaris_ecs.World.Components.{add_raw, get_raw, has}
use vortaris_ecs.Network.Packets.Spawns.{held_by}
use vortaris_ecs.Schema.Registry.{ComponentRegistry}
use vortaris_ecs.Schema.{FieldDescriptor, ComponentSchema}
use vortaris_ecs.Serialization.{BinaryBuffer, read_u8, read_le, read_bytes}
use vortaris_ecs.Serialization.Component.{
  Shape, number, float, text, block, shape, size_of_shape, fetch, field_size, fields_size,
  read_field, masked_out, next_mask, field_mask_bytes,
}
use vortaris_ecs.Network.Mask.{read_field_mask, read_mask_bytes}
use vortaris_ecs.Network.Client.Reading.{read_masked, read_records, read_at}
use vortaris_ecs.Network.Client.Delta.{pass_record, pass_records, delta_masked}
use vortaris_ecs.Snapshot.Load.{read_until}

-- The cursor is not behind the end.
abbrev pub IsInside : BinaryBuffer → Type 0
IsInside b = b.pos ≤ length b.bytes

-- The buffer after `n` bytes, if there are so many.
abbrev past : ℕ → BinaryBuffer → Option BinaryBuffer
past n b = if ltb (length b.bytes) (b.pos + n) then none else some (record b { pos = b.pos + n })

abbrev rest : Option (List ℕ × BinaryBuffer) → Option BinaryBuffer
rest none = none
rest (some r) = some r.1

fetch-past :
    (s : Shape) (fd : FieldDescriptor) (b : BinaryBuffer)
    → rest (fetch s fd b) ≡ past (size_of_shape s fd) b
unfolding read_le read_bytes
fetch-past (number n) fd b = ground arith
fetch-past (float n) fd b = ground arith
fetch-past text fd b = ground arith
fetch-past block fd b = ground arith

read_field-past :
    (fd : FieldDescriptor) (inst : List ℕ) (b : BinaryBuffer)
    → rest (read_field fd inst b) ≡ past (field_size fd) b
unfolding read_field field_size
read_field-past fd inst b = elim (Option-cases (fetch (shape fd.type) fd b)) [
  | inl out ↦ rw out (rw out at (fetch-past (shape fd.type) fd b))
  | inr (r, got) ↦ rw got (rw got at (fetch-past (shape fd.type) fd b))
]

past-past :
    (m n : ℕ) (b b' : BinaryBuffer)
    → some b' ≡ past m b
    → IsInside b' × (past n b' ≡ past (m + n) b)
past-past m n b b' h = elim (Bool-cases (ltb (length b.bytes) (b.pos + m))) [
  | inl short ↦ absurd (ground (arith, h, short))
  | inr enough ↦
      let e : b' ≡ record b { pos = b.pos + m } = ground (arith, h, enough) in
      rw e (ground (arith, enough), ground (arith, enough))
]

-- What is read of a component depends in its length on the mask alone.
read_until-past :
    (fds : List FieldDescriptor) (mask : List Bool) (inst : List ℕ) (b : BinaryBuffer)
    → IsInside b
    → (read_until fds mask inst b).1 ≡ past (fields_size fds mask) b
unfolding read_until fields_size
read_until-past [] mask inst b h = ground (arith, h)
read_until-past (fd ∷ fds) mask inst b h = elim (Bool-cases (masked_out mask)) [
  | inl out ↦ rw (read_until, out) (ground (arith, read_until-past fds (next_mask mask) inst b h))
  | inr kept ↦ elim (Option-cases (read_field fd inst b)) [
    | inl short ↦
        let stop = rw short at (read_field-past fd inst b) in
        rw (read_until, kept, short) (ground (arith, stop))
    | inr (r, got) ↦
        let step = rw got at (read_field-past fd inst b) in
        let (inside, more) =
          past-past (field_size fd) (fields_size fds (next_mask mask)) b r.1 step in
        rw (read_until, kept, got)
          (ground (arith, read_until-past fds (next_mask mask) r.0 r.1 inside, more))
  ]
]

read_le-IsInside :
    (n : ℕ) (b : BinaryBuffer) (r : ℕ × BinaryBuffer) → read_le n b ≡ some r → IsInside (r.1)
unfolding read_le
read_le-IsInside n b r h = ground (arith, h)

read_mask_bytes-IsInside :
    (n : ℕ) (b : BinaryBuffer) (r : List Bool × BinaryBuffer)
    → IsInside b
    → read_mask_bytes n b ≡ some r
    → IsInside (r.1)
unfolding read_mask_bytes
read_mask_bytes-IsInside zero b r i h = ground (arith, i, h)
read_mask_bytes-IsInside (suc n) b r i h = elim (Option-cases (read_u8 b)) [
  | inl short ↦ absurd (ground (arith, short, h))
  | inr (x, got) ↦ elim (Option-cases (read_mask_bytes n x.1)) [
    | inl short ↦ absurd (ground (arith, short, got, h))
    | inr (y, more) ↦
        let deep = read_mask_bytes-IsInside n x.1 y (read_le-IsInside 1 b x got) more in
        ground (arith, got, more, h, deep)
  ]
]

read_field_mask-IsInside :
    (n : ℕ) (b : BinaryBuffer) (r : List Bool × BinaryBuffer)
    → IsInside b
    → read_field_mask n b ≡ some r
    → IsInside (r.1)
unfolding read_field_mask
read_field_mask-IsInside n b r i h = elim (Option-cases (read_mask_bytes (field_mask_bytes n) b)) [
  | inl short ↦ absurd (ground (arith, short, h))
  | inr (y, got) ↦
      let deep = read_mask_bytes-IsInside (field_mask_bytes n) b y i got in
      ground (arith, got, h, deep)
]

-- A record that is passed over ends where it ends when it is read into a component.
pass_record-read_masked :
    (s : ComponentSchema) (inst : List ℕ) (b : BinaryBuffer)
    → IsInside b
    → pass_record s b ≡ (read_masked s inst b).1
unfolding pass_record read_masked
pass_record-read_masked s inst b i = elim (Option-cases (read_field_mask (length s.fields) b)) [
  | inl short ↦ rw (pass_record, read_masked, short) refl
  | inr (m, got) ↦
      let inside = read_field_mask-IsInside (length s.fields) b m i got in
      rw (pass_record, read_masked, got)
        (ground (
          arith,
          read_until-past s.fields m.0 inst m.1 inside,
          read_until-past s.fields m.0 (replicate (fields_size s.fields m.0) 0) m.1 inside,
        ))
]

read_masked-IsInside :
    (s : ComponentSchema) (inst : List ℕ) (b b' : BinaryBuffer)
    → IsInside b
    → (read_masked s inst b).1 ≡ some b'
    → IsInside b'
unfolding read_masked
read_masked-IsInside s inst b b' i h = elim (Option-cases (read_field_mask (length s.fields) b)) [
  | inl short ↦ absurd (ground (arith, short, h))
  | inr (m, got) ↦
      let inside = read_field_mask-IsInside (length s.fields) b m i got in
      let h' = rw (read_masked, got) at h in
      let e = read_until-past s.fields m.0 inst m.1 inside in
      (past-past (fields_size s.fields m.0) 0 m.1 b' (sym h' ∙ e)).0
]

-- Passing over the records of a dead entity's component moves the cursor to where reading them into a live
-- entity's component does, whatever that component holds, and fails where reading them fails.
pass_records-read_records :
    (s : ComponentSchema) (n : ℕ) (inst : List ℕ) (b : BinaryBuffer)
    → IsInside b
    → pass_records s n b ≡ (read_records s n inst b).1
unfolding pass_records read_records
pass_records-read_records s zero inst b i = refl
pass_records-read_records s (suc n) inst b i = elim (Option-cases (read_u8 b)) [
  | inl short ↦ rw (pass_records, read_records, short) refl
  | inr (x, got) ↦
      let inside = read_le-IsInside 1 b x got in
      let same = pass_record-read_masked s inst x.1 inside in
      elim (Option-cases ((read_masked s inst x.1).1)) [
        | inl cut ↦ rw (pass_records, read_records, got, same, cut) (sym cut)
        | inr (b', there) ↦
            rw (pass_records, read_records, got, same, there)
              (pass_records-read_records s n (read_masked s inst x.1).0 b'
                (read_masked-IsInside s inst x.1 b' inside there))
      ]
]

-- A component of a delta (from version 2 on) ends at one place in the packet, or ends the packet, both for a client
-- at which the entity is dead and for one at which it is alive and the component's pointer is not null.
pub delta_masked-dead :
    (reg : ComponentRegistry) (unwritten : List ℕ) (s : ComponentSchema) (e : Entity)
    (t : ComponentTypeId) (b : BinaryBuffer) (v w : World) (row : Row)
    → is_alive v e ≡ true
    → get_raw (if has v e t then v else add_raw reg e t none v) e t ≡ some row
    → is_alive w e ≡ false
    → (delta_masked reg unwritten s e t b w).1 ≡ (delta_masked reg unwritten s e t b v).1
unfolding delta_masked read_at
delta_masked-dead reg unwritten s e t b v w row live there dead = elim (Option-cases (read_u8 b)) [
  | inl short ↦ rw (delta_masked, short) refl
  | inr (n, got) ↦
      rw (delta_masked, got, live, dead, read_at, there)
        (pass_records-read_records s n.0 (held_by unwritten row) n.1 (read_le-IsInside 1 b n got))
]
