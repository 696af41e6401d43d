-- ===== src/Serialization/Ahead.antt =====
-- serialization/binary_buffer.cpp: a read of bytes that are known to lie ahead.
use vortaris_ecs.Prelude.{
  ℕ, zero, suc, ◌+◌, ◌-◌, ◌≤◌, ◌≡◌, refl, ap, ◌∙◌, false, some, List, [], ◌∷◌, ◌++◌, length, arith,
  ltb, drop, length-append, append_assoc,
}
use vortaris_ecs.Serialization.{BinaryBuffer, le_value, read_bytes, read_le}
use vortaris_ecs.Serialization.Roundtrip.{drop-append, take-append}

-- The buffer holds these bytes, then others, from its position on.
pub record Ahead (c : BinaryBuffer) (xs rest : List ℕ) : Type 0 where
  pub inside : c.pos ≤ length c.bytes
  pub ahead : drop c.pos c.bytes ≡ xs ++ rest

abbrev pub advance : ℕ → BinaryBuffer → BinaryBuffer
advance n c = record c { pos = c.pos + n }

length-drop : (n : ℕ) (xs : List ℕ) → length (drop n xs) ≡ length xs - n
length-drop zero xs = omega arith
length-drop (suc n) [] = omega arith
length-drop (suc n) (x ∷ xs) = omega (arith, length-drop n xs)

drop_nil : (m : ℕ) → [] ≡ drop {A = ℕ} m []
drop_nil zero = refl
drop_nil (suc m) = refl

drop-drop : (m n : ℕ) (xs : List ℕ) → drop (n + m) xs ≡ drop m (drop n xs)
drop-drop m zero xs = let e : zero + m ≡ m = omega arith in rw e refl
drop-drop m (suc n) [] = let e : suc n + m ≡ suc (n + m) = omega arith in rw e (drop_nil m)
drop-drop m (suc n) (x ∷ xs) =
    let e : suc n + m ≡ suc (n + m) = omega arith in rw e (drop-drop m n xs)

module _ (c : BinaryBuffer) (xs rest : List ℕ) (held : Ahead c xs rest) where
  pub Ahead-room : c.pos + length xs ≤ length c.bytes
  Ahead-room =
      omega
        (arith, held.inside, length-drop c.pos c.bytes, ap length held.ahead, length-append xs rest)

  -- Once they are read, the others are ahead.
  pub Ahead-advance : (ys more : List ℕ) → rest ≡ ys ++ more → Ahead (advance (length xs) c) ys more
  Ahead-advance ys more e = record {
    inside = Ahead-room;
    ahead =
        drop-drop (length xs) c.pos c.bytes
        ∙ ap (drop (length xs)) held.ahead
        ∙ drop-append xs rest
        ∙ e;
  }

  pub read_bytes-Ahead : (n : ℕ) → length xs ≡ n → read_bytes n c ≡ some (xs, advance n c)
  unfolding read_bytes
  read_bytes-Ahead n l =
      let room : ltb (length c.bytes) (c.pos + n) ≡ false = ground (arith, Ahead-room, l) in
      rw (room, held.ahead, take-append n xs rest l) refl

  pub read_le-Ahead : (n : ℕ) → length xs ≡ n → read_le n c ≡ some (le_value xs, advance n c)
  unfolding read_le
  read_le-Ahead n l =
      let room : ltb (length c.bytes) (c.pos + n) ≡ false = ground (arith, Ahead-room, l) in
      rw (room, held.ahead, take-append n xs rest l) refl

-- Bytes ahead in two parts: the first part is ahead, and the second one behind it.
module _ (c : BinaryBuffer) (xs ys rest : List ℕ) (held : Ahead c (xs ++ ys) rest) where
  pub Ahead-left : Ahead c xs (ys ++ rest)
  Ahead-left = record { inside = held.inside; ahead = held.ahead ∙ append_assoc xs ys rest }

  pub Ahead-right : (n : ℕ) → length xs ≡ n → Ahead (advance n c) ys rest
  Ahead-right n l = rw l at (Ahead-advance c xs (ys ++ rest) Ahead-left ys rest refl)

-- Two advances are one.
pub advance-advance :
    (m n k : ℕ) (c : BinaryBuffer) → m + n ≡ k → advance n (advance m c) ≡ advance k c
advance-advance m n k c h = ap (λ p. record c { pos = p }) (omega (arith, h))
