-- ===== src/Snapshot/Checked.antt =====
-- serialization/snapshot.cpp: the check of a load accepts a list of entities with good ids and components.
use vortaris_ecs.Prelude.{
  ℕ, ◌+◌, ◌^◌, ◌<◌, ◌≡◌, refl, ap, sym, ◌∙◌, true, false, some, List, [], ◌∷◌, ◌++◌, nat_eq, length,
  arith, append-nil, length-append,
}
use vortaris_ecs.Entity.{Entity}
use vortaris_ecs.Schema.Registry.{ComponentRegistry}
use vortaris_ecs.Serialization.{BinaryBuffer, le_bytes}
use vortaris_ecs.Serialization.Ahead.{Ahead, advance, Ahead-left, Ahead-right, advance-advance}
use vortaris_ecs.Serialization.Roundtrip.{length-le_bytes}
use vortaris_ecs.Network.Packets.Accepted.{
  Item, flat, ReadsAll, read_number-Ahead, consume_components-Ahead, entity_bytes,
}
use vortaris_ecs.Snapshot.{
  snapshot_version, check_component, bad_id, check_components, check_entities, read_head,
  check_snapshot,
}

-- Entities on the wire.
abbrev pub Listing : Type 0
Listing = List (Entity × List Item)

abbrev pub bytes_of : Listing → List ℕ
bytes_of [] = []
bytes_of (x ∷ xs) = entity_bytes 2 x.0 x.1 ++ bytes_of xs

-- Each id is good, new and of 64 bits, and no entity has too many components.
abbrev pub GoodIds : List ℕ → List (Entity × List Item) → Type 0
GoodIds seen [] = Unit {0}
GoodIds seen (x ∷ xs) =
    ((bad_id x.0 seen ≡ false) × ((x.0 < 2 ^ 64) × (length x.1 < 2 ^ 16))) × GoodIds (x.0 ∷ seen) xs

-- Each component can be skipped.
abbrev pub AllRead : ComponentRegistry → Listing → Type 0
AllRead reg [] = Unit {0}
AllRead reg (x ∷ xs) = ReadsAll (check_component reg) x.1 × AllRead reg xs

pub append-AllRead :
    (reg : ComponentRegistry) (xs ys : Listing)
    → AllRead reg xs
    → AllRead reg ys
    → AllRead reg (xs ++ ys)
append-AllRead reg [] ys r q = q
append-AllRead reg (x ∷ xs) ys r q = (r.0, append-AllRead reg xs ys r.1 q)

abbrev pub Acceptable : ComponentRegistry → List ℕ → List (Entity × List Item) → Type 0
Acceptable reg seen [] = Unit {0}
Acceptable reg seen (x ∷ xs) =
    ((bad_id x.0 seen ≡ false)
      × ((x.0 < 2 ^ 64) × ((length x.1 < 2 ^ 16) × ReadsAll (check_component reg) x.1)))
    × Acceptable reg (x.0 ∷ seen) xs

pub both-Acceptable :
    (reg : ComponentRegistry) (seen : List ℕ) (xs : Listing)
    → GoodIds seen xs
    → AllRead reg xs
    → Acceptable reg seen xs
both-Acceptable reg seen [] g r = tt
both-Acceptable reg seen (x ∷ xs) g r =
    ((g.0.0, (g.0.1.0, (g.0.1.1, r.0))), both-Acceptable reg (x.0 ∷ seen) xs g.1 r.1)

check_components-Ahead :
    (reg : ComponentRegistry) (xs : List Item) (c : BinaryBuffer) (rest : List ℕ)
    → length xs < 2 ^ 16
    → ReadsAll (check_component reg) xs
    → Ahead c (le_bytes 2 (length xs) ++ flat xs) rest
    → check_components reg c ≡ some (advance (2 + length (flat xs)) c)
unfolding check_components
check_components-Ahead reg xs c rest h r a =
    let l2 = length-le_bytes 2 (length xs) in
    let first = Ahead-left c (le_bytes 2 (length xs)) (flat xs) rest a in
    let later = Ahead-right c (le_bytes 2 (length xs)) (flat xs) rest a 2 l2 in
    rw
      (
        check_components,
        read_number-Ahead 2 (length xs) c (flat xs ++ rest) (omega (arith, h)) first,
        consume_components-Ahead (check_component reg) xs (advance 2 c) rest r later,
      )
      (ap some (advance-advance 2 (length (flat xs)) (2 + length (flat xs)) c refl))

check_entities-Ahead :
    (reg : ComponentRegistry) (seen : List ℕ) (xs : Listing) (c : BinaryBuffer) (rest : List ℕ)
    → Acceptable reg seen xs
    → Ahead c (bytes_of xs) rest
    → check_entities reg (length xs) seen c ≡ some (advance (length (bytes_of xs)) c)
unfolding check_entities
check_entities-Ahead reg seen [] c rest ok a = ap (λ p. some (record c { pos = p })) (omega arith)
check_entities-Ahead reg seen (x ∷ xs) c rest ok a =
    let (good, (small, (few, reads))) = ok.0 in
    let tail = le_bytes 2 (length x.1) ++ flat x.1 in
    let l8 = length-le_bytes 8 x.0 in
    let l2 = length-le_bytes 2 (length x.1) in
    let lt = length-append (le_bytes 2 (length x.1)) (flat x.1) in
    let le = length-append (le_bytes 8 x.0) tail in
    let here = Ahead-left c (le_bytes 8 x.0 ++ tail) (bytes_of xs) rest a in
    let id = Ahead-left c (le_bytes 8 x.0) tail (bytes_of xs ++ rest) here in
    let body = Ahead-right c (le_bytes 8 x.0) tail (bytes_of xs ++ rest) here 8 l8 in
    let n = 2 + length (flat x.1) in
    let later : Ahead (advance n (advance 8 c)) (bytes_of xs) rest =
      rw (sym (advance-advance 8 n (8 + n) c refl)) at (
        Ahead-right c (le_bytes 8 x.0 ++ tail) (bytes_of xs) rest a (8 + n)
          (omega (arith, l8, l2, lt, le))) in
    rw
      (
        check_entities,
        read_number-Ahead 8 x.0 c (tail ++ (bytes_of xs ++ rest)) (omega (arith, small)) id,
        check_components-Ahead reg x.1 (advance 8 c) (bytes_of xs ++ rest) few reads body,
        good,
        check_entities-Ahead reg (x.0 ∷ seen) xs (advance n (advance 8 c)) rest ok.1 later,
      )
      (ap (λ p. some (record c { pos = p }))
        (omega (arith, l8, l2, lt, le, length-append (le_bytes 8 x.0 ++ tail) (bytes_of xs))))

pub checked :
    (reg : ComponentRegistry) (xs : Listing) (b : BinaryBuffer)
    → b.bytes ≡ le_bytes 2 snapshot_version ++ (le_bytes 4 (length xs) ++ bytes_of xs)
    → Acceptable reg [] xs
    → length xs < 2 ^ 32
    → check_snapshot reg (record b { pos = 0 }) ≡ true
unfolding check_snapshot read_head
checked reg xs b h ok small =
    let c : BinaryBuffer = record b { pos = 0 } in
    let count = le_bytes 4 (length xs) in
    let version = le_bytes 2 snapshot_version in
    let whole : Ahead c (version ++ (count ++ bytes_of xs)) [] = record {
      inside = omega arith;
      ahead = h ∙ sym (append-nil (version ++ (count ++ bytes_of xs)));
    } in
    let first = Ahead-left c version (count ++ bytes_of xs) [] whole in
    let behind =
      Ahead-right c version (count ++ bytes_of xs) [] whole 2
        (length-le_bytes 2 snapshot_version) in
    let second = Ahead-left (advance 2 c) count (bytes_of xs) [] behind in
    let third =
      Ahead-right (advance 2 c) count (bytes_of xs) [] behind 4 (length-le_bytes 4 (length xs)) in
    rw
      (
        check_snapshot,
        read_head,
        read_number-Ahead 2 snapshot_version c ((count ++ bytes_of xs) ++ []) (omega arith) first,
        read_number-Ahead 4 (length xs) (advance 2 c) (bytes_of xs ++ []) (omega (arith, small))
            second,
        check_entities-Ahead reg [] xs (advance 4 (advance 2 c)) [] ok third,
      )
      refl
