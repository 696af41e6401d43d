-- ===== src/Serialization/Component/Restore.antt =====
-- serialization/component_serializer.cpp: what is written is read back.
use vortaris_ecs.Prelude.{
  ℕ, zero, suc, ◌+◌, ◌-◌, ◌*◌, ◌/◌, ◌%◌, ◌≤◌, ◌≡◌, refl, ap, ap₂, sym, ◌∙◌, Bool, some, List, [],
  ◌∷◌, ◌++◌, length, arith, Bool-cases, inl, inr, ◌==◌, nat_eq, if◌then◌else◌, replicate,
  append_assoc, drop, length-append,
}
use vortaris_ecs.Schema.{FieldDescriptor, storage_size}
use vortaris_ecs.Serialization.{BinaryBuffer, le_bytes, le_value, write_bytes}
use vortaris_ecs.Serialization.Component.{
  Shape, number, float, text, block, shape, payload, payload_of, padded, until_nul, field_size,
  size_of_shape, write_fields, read_field, read_fields, fetch, fields_size, masked_out, next_mask,
}
use vortaris_ecs.Serialization.Ahead.{
  Ahead, advance, Ahead-advance, read_bytes-Ahead, read_le-Ahead,
}
use vortaris_ecs.Serialization.Component.Sizes.{
  Fit, payloads, length-payload, write_fields-payloads,
}
use vortaris_ecs.Serialization.Memory.{slice, patch, length-patch, slice-patch, slice-patch_before}
use vortaris_ecs.Serialization.Roundtrip.{drop-append}

-- The bytes of a number are those of the number that they make.
le_bytes-le_value : (n v : ℕ) → le_bytes n (le_value (le_bytes n v)) ≡ le_bytes n v
unfolding le_bytes le_value
le_bytes-le_value zero v = refl
le_bytes-le_value (suc n) v =
    let x = le_value (le_bytes n (v / 256)) in
    let low : (v % 256 + 256 * x) % 256 ≡ v % 256 = omega arith in
    let high : (v % 256 + 256 * x) / 256 ≡ x = omega arith in
    rw (low, high) (ap (◌∷◌ (v % 256)) (le_bytes-le_value n (v / 256)))

until_nul-zeros : (k : ℕ) → until_nul (replicate k 0) ≡ []
until_nul-zeros zero = refl
until_nul-zeros (suc k) = refl

until_nul-padded : (bs : List ℕ) (k : ℕ) → until_nul (until_nul bs ++ replicate k 0) ≡ until_nul bs
until_nul-padded [] k = until_nul-zeros k
until_nul-padded (b ∷ bs) k = elim (Bool-cases (b == 0)) [
  | inl end ↦ rw end (until_nul-zeros k)
  | inr more ↦ rw (more, more) (ap (◌∷◌ b) (until_nul-padded bs k))
]

-- What a case writes of the bytes of its field.
abbrev norm : Shape → FieldDescriptor → List ℕ → List ℕ
norm (number n) fd bs = le_bytes n (le_value bs)
norm (float n) fd bs = bs
norm text fd bs = padded (storage_size fd) bs
norm block fd bs = bs

payload_of-norm :
    (s : Shape) (fd : FieldDescriptor) (inst : List ℕ)
    → payload_of s fd inst ≡ norm s fd (slice fd.offset (size_of_shape s fd) inst)
payload_of-norm (number n) fd inst = refl
payload_of-norm (float n) fd inst = refl
payload_of-norm text fd inst = refl
payload_of-norm block fd inst = refl

norm_again :
    (s : Shape) (fd : FieldDescriptor) (bs : List ℕ) → norm s fd (norm s fd bs) ≡ norm s fd bs
norm_again (number n) fd bs = le_bytes-le_value n (le_value bs)
norm_again (float n) fd bs = refl
norm_again text fd bs =
    let n = storage_size fd in
    ap (λ u. u ++ replicate (n - length u) 0) (until_nul-padded bs (n - length (until_nul bs)))
norm_again block fd bs = refl

-- The fetch of a field whose payload is ahead.
fetch-Ahead :
    (s : Shape) (fd : FieldDescriptor) (c : BinaryBuffer) (bs rest : List ℕ)
    → Ahead c (norm s fd bs) rest
    → length (norm s fd bs) ≡ size_of_shape s fd
    → fetch s fd c ≡ some (norm s fd bs, advance (size_of_shape s fd) c)
fetch-Ahead (number n) fd c bs rest a l =
    rw (read_le-Ahead c (le_bytes n (le_value bs)) rest a n l)
      (ap (λ x. some (x, advance n c)) (le_bytes-le_value n (le_value bs)))
fetch-Ahead (float n) fd c bs rest a l = read_bytes-Ahead c bs rest a n l
fetch-Ahead text fd c bs rest a l =
    read_bytes-Ahead c (padded (storage_size fd) bs) rest a (storage_size fd) l
fetch-Ahead block fd c bs rest a l = read_bytes-Ahead c bs rest a (storage_size fd) l

read_field-Ahead :
    (fd : FieldDescriptor) (src dst : List ℕ) (c : BinaryBuffer) (rest : List ℕ)
    → fd.offset + field_size fd ≤ length src
    → Ahead c (payload fd src) rest
    → read_field fd dst c ≡ some (patch fd.offset (payload fd src) dst, advance (field_size fd) c)
unfolding read_field payload field_size
read_field-Ahead fd src dst c rest f a =
    let s = shape fd.type in
    let n = payload_of-norm s fd src in
    let l = length-payload fd src f in
    rw
      (
        fetch-Ahead s fd c (slice fd.offset (size_of_shape s fd) src) rest (rw n at a)
            (ap length (sym n) ∙ l),
        n,
      )
      refl

-- The component with the payloads of another written into it.
abbrev pub restored : List FieldDescriptor → List Bool → List ℕ → List ℕ → List ℕ
restored [] mask src dst = dst
restored (fd ∷ fds) mask src dst =
    restored fds (next_mask mask) src
      (if masked_out mask then dst else patch fd.offset (payload fd src) dst)

read_fields-Ahead :
    (fds : List FieldDescriptor) (mask : List Bool) (src dst : List ℕ) (c : BinaryBuffer)
    (rest : List ℕ)
    → Fit (length src) fds
    → Ahead c (payloads fds mask src) rest
    → read_fields fds mask dst c
      ≡ some (restored fds mask src dst, advance (fields_size fds mask) c)
unfolding read_fields fields_size
read_fields-Ahead [] mask src dst c rest f a =
    ap (λ p. some (dst, record c { pos = p })) (omega arith)
read_fields-Ahead (fd ∷ fds) mask src dst c rest f a = elim (Bool-cases (masked_out mask)) [
  | inl out ↦
      rw (out, read_fields)
        (read_fields-Ahead fds (next_mask mask) src dst c rest f.1 (rw out at a)
          ∙ ap (λ p. some (restored fds (next_mask mask) src dst, record c { pos = p }))
              (omega arith))
  | inr kept ↦
      let a' = rw kept at a in
      let held : Ahead c (payload fd src) (payloads fds (next_mask mask) src ++ rest) = record {
        inside = a'.inside;
        ahead = a'.ahead ∙ append_assoc (payload fd src) (payloads fds (next_mask mask) src) rest;
      } in
      let step =
        read_field-Ahead fd src dst c (payloads fds (next_mask mask) src ++ rest) f.0 held in
      let next =
        Ahead-advance c (payload fd src) _ held (payloads fds (next_mask mask) src) rest refl in
      let l = length-payload fd src f.0 in
      let dst' = patch fd.offset (payload fd src) dst in
      rw (kept, read_fields, step)
        (read_fields-Ahead fds (next_mask mask) src dst' (advance (field_size fd) c) rest f.1
            (rw l at next)
          ∙ ap (λ p. some (restored fds (next_mask mask) src dst', record c { pos = p }))
              (omega arith))
]

-- The fields lie one behind the other, from an offset on.
abbrev pub Apart : ℕ → List FieldDescriptor → Type 0
Apart n [] = Unit {0}
Apart n (fd ∷ fds) = (n ≤ fd.offset) × Apart (fd.offset + field_size fd) fds

Apart-le : (m n : ℕ) (fds : List FieldDescriptor) → m ≤ n → Apart n fds → Apart m fds
Apart-le m n [] h a = tt
Apart-le m n (fd ∷ fds) h a = (omega (arith, h, a.0), a.1)

pub length-restored :
    (fds : List FieldDescriptor) (mask : List Bool) (src dst : List ℕ)
    → length (restored fds mask src dst) ≡ length dst
length-restored [] mask src dst = refl
length-restored (fd ∷ fds) mask src dst = elim (Bool-cases (masked_out mask)) [
  | inl out ↦ rw out (length-restored fds (next_mask mask) src dst)
  | inr kept ↦ rw kept (
      length-restored fds (next_mask mask) src (patch fd.offset (payload fd src) dst)
      ∙ length-patch fd.offset (payload fd src) dst)
]

-- The later fields leave what lies before them.
restored-before :
    (offset n : ℕ) (fds : List FieldDescriptor) (mask : List Bool) (src dst : List ℕ)
    → Apart (offset + n) fds
    → slice offset n (restored fds mask src dst) ≡ slice offset n dst
restored-before offset n [] mask src dst a = refl
restored-before offset n (fd ∷ fds) mask src dst a =
    let later = Apart-le (offset + n) (fd.offset + field_size fd) fds (omega (arith, a.0)) a.1 in
    elim (Bool-cases (masked_out mask)) [
      | inl out ↦ rw out (restored-before offset n fds (next_mask mask) src dst later)
      | inr kept ↦ rw kept (
          restored-before offset n fds (next_mask mask) src (patch fd.offset (payload fd src) dst)
            later
          ∙ slice-patch_before offset n fd.offset (payload fd src) dst a.0)
    ]

-- A field that was restored has the same payload again.
payload-patch :
    (fd : FieldDescriptor) (src inst : List ℕ)
    → fd.offset + field_size fd ≤ length src
    → slice fd.offset (field_size fd) inst ≡ payload fd src
    → payload fd inst ≡ payload fd src
unfolding payload field_size
payload-patch fd src inst f e =
    let s = shape fd.type in
    payload_of-norm s fd inst
    ∙ ap (norm s fd) (e ∙ payload_of-norm s fd src)
    ∙ norm_again s fd (slice fd.offset (size_of_shape s fd) src)
    ∙ sym (payload_of-norm s fd src)

restored-payloads :
    (n : ℕ) (fds : List FieldDescriptor) (mask : List Bool) (src dst : List ℕ)
    → Apart n fds
    → Fit (length src) fds
    → Fit (length dst) fds
    → payloads fds mask (restored fds mask src dst) ≡ payloads fds mask src
restored-payloads n [] mask src dst a f g = refl
restored-payloads n (fd ∷ fds) mask src dst a f g = elim (Bool-cases (masked_out mask)) [
  | inl out ↦
      rw out
        (restored-payloads (fd.offset + field_size fd) fds (next_mask mask) src dst a.1 f.1 g.1)
  | inr kept ↦
      let dst' = patch fd.offset (payload fd src) dst in
      let l = length-payload fd src f.0 in
      let here : slice fd.offset (field_size fd) (restored fds (next_mask mask) src dst')
          ≡ payload fd src =
        restored-before fd.offset (field_size fd) fds (next_mask mask) src dst' a.1
        ∙ rw l at (slice-patch fd.offset (payload fd src) dst (rw l g.0)) in
      rw kept (
        ap₂ (λ x y. x ++ y) (payload-patch fd src (restored fds (next_mask mask) src dst') f.0 here)
          (restored-payloads (fd.offset + field_size fd) fds (next_mask mask) src dst' a.1 f.1
            (rw (length-patch fd.offset (payload fd src) dst) g.1)))
]

-- A component whose fields lie one behind the other within it is written, under any mask, and whatever is written
-- behind it, is read back into any component of a size that holds the fields: the read succeeds, ends
-- where the written bytes do, keeps the component's size, and leaves a component that is written as the
-- same bytes.
pub read_fields-write_fields :
    (fds : List FieldDescriptor) (mask : List Bool) (src dst more : List ℕ) (b : BinaryBuffer)
    → Apart 0 fds
    → Fit (length src) fds
    → Fit (length dst) fds
    → let c = write_bytes more (write_fields fds mask src b) in
      (inst : List ℕ) × (read_fields fds mask dst (record c { pos = length b.bytes })
        ≡ some (inst, record c { pos = length b.bytes + fields_size fds mask }))
      × (length inst ≡ length dst)
      × (write_fields fds mask inst b ≡ write_fields fds mask src b)
unfolding write_bytes
read_fields-write_fields fds mask src dst more b a f g =
    let w = write_fields-payloads fds mask src b in
    (
      restored fds mask src dst,
      rw w (read_fields-Ahead fds mask src dst _ more f ahead),
      length-restored fds mask src dst,
      write_fields-payloads fds mask (restored fds mask src dst) b
          ∙ ap (λ xs. write_bytes xs b) (restored-payloads 0 fds mask src dst a f g)
          ∙ sym w,
    )
  where
    ahead :
        Ahead
          (record (write_bytes more (write_bytes (payloads fds mask src) b)) {
            pos = length b.bytes;
          })
          (payloads fds mask src)
          more
    ahead = record {
      inside = omega (
        arith,
        length-append b.bytes (payloads fds mask src),
        length-append (b.bytes ++ payloads fds mask src) more,
      );
      ahead =
          ap (drop (length b.bytes)) (append_assoc b.bytes (payloads fds mask src) more)
          ∙ drop-append b.bytes (payloads fds mask src ++ more);
    }
