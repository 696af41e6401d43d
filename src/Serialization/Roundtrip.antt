-- ===== src/Serialization/Roundtrip.antt =====
-- serialization/binary_buffer.cpp: what is written is read back, and no read passes the end.
use vortaris_ecs.Prelude.{
  ℕ, zero, suc, ◌+◌, ◌*◌, ◌/◌, ◌^◌, ◌≤◌, ◌<◌, ◌≡◌, refl, ap, ◌∙◌, false, none, some, List, [], ◌∷◌,
  ◌++◌, ltb, nat_eq, length, drop, take, arith, length-append, append_assoc,
}
use vortaris_ecs.Serialization.{BinaryBuffer, le_bytes, le_value, read_le, write_bytes}

pub length-le_bytes : (n v : ℕ) → length (le_bytes n v) ≡ n
unfolding le_bytes
length-le_bytes zero v = refl
length-le_bytes (suc n) v = ground (arith, length-le_bytes n (v / 256))

below : (v p : ℕ) → v < 256 * p → v / 256 < p
below v p h = omega (arith, h)

pub le_value-le_bytes : (n v : ℕ) → v < 256 ^ n → le_value (le_bytes n v) ≡ v
unfolding le_bytes le_value
le_value-le_bytes zero v h = omega (arith, h)
le_value-le_bytes (suc n) v h =
    omega (arith, le_value-le_bytes n (v / 256) (below v (256 ^ n) (omega (arith, h))))

pub drop-append : (xs ys : List ℕ) → drop (length xs) (xs ++ ys) ≡ ys
drop-append [] ys = refl
drop-append (x ∷ xs) ys = drop-append xs ys

pub take-append : (n : ℕ) (xs ys : List ℕ) → length xs ≡ n → take n (xs ++ ys) ≡ xs
take-append zero [] ys h = refl
take-append zero (x ∷ xs) ys h = absurd (omega (arith, h))
take-append (suc n) [] ys h = absurd (omega (arith, h))
take-append (suc n) (x ∷ xs) ys h = ap (◌∷◌ x) (take-append n xs ys (omega (arith, h)))

-- A number that fits into `n` bytes and is written to a buffer, whatever is written behind it, is read back
-- at the position where the buffer ended, and the read ends where the number does.
pub read_le-write_bytes :
    (n v : ℕ) (more : List ℕ) (b : BinaryBuffer)
    → v < 256 ^ n
    → let c = write_bytes more (write_bytes (le_bytes n v) b) in
      read_le n (record c { pos = length b.bytes })
      ≡ some (v, record c { pos = length b.bytes + n })
unfolding read_le write_bytes
read_le-write_bytes n v more b h =
    rw
      (
        inside,
        drop-append2,
        take-append n (le_bytes n v) more (length-le_bytes n v),
        le_value-le_bytes n v h,
      )
      refl
  where
    inside : ltb (length ((b.bytes ++ le_bytes n v) ++ more)) (length b.bytes + n) ≡ false
    inside = ground (
      arith,
      length-append (b.bytes ++ le_bytes n v) more,
      length-append b.bytes (le_bytes n v),
      length-le_bytes n v,
    )

    drop-append2 : drop (length b.bytes) ((b.bytes ++ le_bytes n v) ++ more) ≡ le_bytes n v ++ more
    drop-append2 =
        ap (drop (length b.bytes)) (append_assoc b.bytes (le_bytes n v) more)
        ∙ drop-append b.bytes (le_bytes n v ++ more)

-- A read of a number succeeds exactly when its bytes are there, and then ends within the buffer.
pub read_le-within :
    (n : ℕ) (b : BinaryBuffer)
    → ((length b.bytes < b.pos + n) → read_le n b ≡ none)
      × ((b.pos + n ≤ length b.bytes)
          → (v : ℕ) × (read_le n b ≡ some (v, record b { pos = b.pos + n })))
unfolding read_le
read_le-within n b =
    (λ h. ground arith, λ h. (le_value (take n (drop b.pos b.bytes)), ground arith))
