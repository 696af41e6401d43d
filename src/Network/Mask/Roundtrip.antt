-- ===== src/Network/Mask/Roundtrip.antt =====
-- network/network_sync.cpp: a field mask that was written is read.
use vortaris_ecs.Prelude.{
  ℕ, zero, suc, ◌+◌, ◌*◌, ◌/◌, ◌%◌, ◌≤◌, ◌≡◌, refl, ap, ap₂, ◌∙◌, Bool, true, false, some, List, [],
  ◌∷◌, ◌++◌, nat_eq, length, take, drop, arith, append_assoc, length-append,
}
use vortaris_ecs.Serialization.{BinaryBuffer, write_bytes, le_value}
use vortaris_ecs.Serialization.Ahead.{Ahead, advance, read_le-Ahead, Ahead-advance}
use vortaris_ecs.Serialization.Component.{field_mask_bytes}
use vortaris_ecs.Serialization.Roundtrip.{drop-append}
use vortaris_ecs.Network.Mask.{
  pack, mask_bytes, unpack, read_mask_bytes, write_field_mask, read_field_mask,
}

-- The first entries of a mask, filled up with unset ones.
abbrev filled : ℕ → List Bool → List Bool
filled zero mask = []
filled (suc n) [] = false ∷ filled n []
filled (suc n) (m ∷ mask) = m ∷ filled n mask

unpack_nil : (n : ℕ) → unpack n 0 ≡ filled n []
unfolding unpack
unpack_nil zero = refl
unpack_nil (suc n) = ap (◌∷◌ false) (unpack_nil n)

unpack-pack : (n : ℕ) (mask : List Bool) → unpack n (pack n mask) ≡ filled n mask
unfolding unpack pack
unpack-pack zero mask = refl
unpack-pack (suc n) [] = unpack_nil (suc n)
unpack-pack (suc n) (true ∷ mask) =
    let half : (1 + 2 * pack n mask) / 2 ≡ pack n mask = omega arith in
    let odd : (1 + 2 * pack n mask) % 2 ≡ 1 = omega arith in
    rw (half, odd) (ap (◌∷◌ true) (unpack-pack n mask))
unpack-pack (suc n) (false ∷ mask) =
    let half : (0 + 2 * pack n mask) / 2 ≡ pack n mask = omega arith in
    let even : (0 + 2 * pack n mask) % 2 ≡ 0 = omega arith in
    rw (half, even) (ap (◌∷◌ false) (unpack-pack n mask))

drop_none : (n : ℕ) → drop {A = Bool} n [] ≡ []
drop_none zero = refl
drop_none (suc n) = refl

filled_plus :
    (n m : ℕ) (mask : List Bool) → filled n mask ++ filled m (drop n mask) ≡ filled (n + m) mask
filled_plus zero m mask = let e : zero + m ≡ m = omega arith in rw e refl
filled_plus (suc n) m [] =
    let e : suc n + m ≡ suc (n + m) = omega arith in
    rw e (ap (◌∷◌ false) (rw (drop_none n) at (filled_plus n m [])))
filled_plus (suc n) m (b ∷ mask) =
    let e : suc n + m ≡ suc (n + m) = omega arith in rw e (ap (◌∷◌ b) (filled_plus n m mask))

take-filled :
    (n : ℕ) (mask : List Bool) → length mask ≤ n → take (length mask) (filled n mask) ≡ mask
take-filled n [] h = refl
take-filled zero (m ∷ mask) h = absurd (omega (arith, h))
take-filled (suc n) (m ∷ mask) h = ap (◌∷◌ m) (take-filled n mask (omega (arith, h)))

pub length-mask_bytes : (k : ℕ) (mask : List Bool) → length (mask_bytes k mask) ≡ k
unfolding mask_bytes
length-mask_bytes zero mask = refl
length-mask_bytes (suc k) mask = ap suc (length-mask_bytes k (drop 8 mask))

read_mask_bytes-Ahead :
    (k : ℕ) (mask : List Bool) (c : BinaryBuffer) (rest : List ℕ)
    → Ahead c (mask_bytes k mask) rest
    → read_mask_bytes k c ≡ some (filled (8 * k) mask, advance k c)
unfolding read_mask_bytes mask_bytes le_value
read_mask_bytes-Ahead zero mask c rest a = ap (λ p. some ([], record c { pos = p })) (omega arith)
read_mask_bytes-Ahead (suc k) mask c rest a =
    let b = pack 8 mask in
    let held : Ahead c (b ∷ []) (mask_bytes k (drop 8 mask) ++ rest) = record {
      inside = a.inside;
      ahead = a.ahead;
    } in
    let first = read_le-Ahead c (b ∷ []) _ held 1 refl in
    let value : le_value (b ∷ []) ≡ b = omega arith in
    let next = Ahead-advance c (b ∷ []) _ held (mask_bytes k (drop 8 mask)) rest refl in
    let eight : 8 + 8 * k ≡ 8 * suc k = omega arith in
    let bits : unpack 8 b ++ filled (8 * k) (drop 8 mask) ≡ filled (8 * suc k) mask =
      ap (λ u. u ++ filled (8 * k) (drop 8 mask)) (unpack-pack 8 mask)
      ∙ filled_plus 8 (8 * k) mask
      ∙ ap (λ n. filled n mask) eight in
    rw
      (read_mask_bytes, first, read_mask_bytes-Ahead k (drop 8 mask) (advance 1 c) rest next, value)
      (ap₂ (λ u p. some (u, record c { pos = p })) bits (omega arith))

-- A mask ahead in the buffer is read.
pub read_field_mask-Ahead :
    (mask : List Bool) (c : BinaryBuffer) (rest : List ℕ)
    → Ahead c (mask_bytes (field_mask_bytes (length mask)) mask) rest
    → read_field_mask (length mask) c ≡ some (mask, advance (field_mask_bytes (length mask)) c)
unfolding read_field_mask
read_field_mask-Ahead mask c rest a =
    let k = field_mask_bytes (length mask) in
    rw (read_mask_bytes-Ahead k mask c rest a, take-filled (8 * k) mask (omega arith)) refl

-- A mask that is written, whatever is written behind it, is read back by a reader that knows the number of
-- its entries, and the reader stands behind it.
pub read_field_mask-write_field_mask :
    (mask : List Bool) (more : List ℕ) (b : BinaryBuffer)
    → let c = write_bytes more (write_field_mask mask b) in
      read_field_mask (length mask) (record c { pos = length b.bytes })
      ≡ some (mask, record c { pos = length b.bytes + field_mask_bytes (length mask) })
unfolding write_bytes write_field_mask
read_field_mask-write_field_mask mask more b = read_field_mask-Ahead mask _ more (record {
  inside = omega (
    arith,
    length-append b.bytes (mask_bytes (field_mask_bytes (length mask)) mask),
    length-append (b.bytes ++ mask_bytes (field_mask_bytes (length mask)) mask) more,
  );
  ahead =
      ap (drop (length b.bytes))
        (append_assoc b.bytes (mask_bytes (field_mask_bytes (length mask)) mask) more)
      ∙ drop-append b.bytes (mask_bytes (field_mask_bytes (length mask)) mask ++ more);
})
