-- ===== src/World/Invariant.antt =====
-- core/world.cpp: the map of locations and the rows of the archetypes say the same.
use vortaris_ecs.Prelude.{
  ℕ, ◌+◌, ◌^◌, ◌<◌, ◌≡◌, ◌≢◌, refl, not, ◌&&◌, Option, none, some, ◌==◌, nat_eq, if◌then◌else◌,
  length, arith, Option-cases, Bool-cases, inl, inr, u32,
}
use vortaris_ecs.Prelude.Map.{Map, find, insert, erase, find-insert, find-erase}
use vortaris_ecs.Entity.{Entity}
use vortaris_ecs.Archetype.{Archetype, add_entity, remove_entity}
use vortaris_ecs.Archetype.Index.{add_entity-index, remove_entity-index, remove_entity-moved}
use vortaris_ecs.Archetype.Invariant.{add_entity-IsValid, IsValid as IsSound}
use vortaris_ecs.Archetype.Removal.{remove_entity-IsValid}
use vortaris_ecs.Query.{Ptr}
use vortaris_ecs.World.{World, EntityLocation, or_blank}

abbrev pub Heap : Type 0
Heap = Map Ptr Archetype

abbrev pub Locations : Type 0
Locations = Map Entity EntityLocation

abbrev pub behind : Heap → Ptr → Archetype
behind h p = or_blank (find p h)

-- The row that the archetype behind a pointer gives an entity.
abbrev pub row_of : Heap → Ptr → Entity → Option ℕ
row_of h p e = find e (behind h p).entity_to_row

abbrev pub at : Ptr → ℕ → EntityLocation
at p r = record { archetype = p; row = r }

-- Every archetype is sound; an entity is located where its archetype has it, and nowhere else does an
-- archetype have it.
pub record Placed (h : Heap) (l : Locations) : Type 0 where
  pub sound : (p : Ptr) → IsSound (behind h p)
  pub located : (e : Entity) (p : Ptr) (r : ℕ) → find e l ≡ some (at p r) → row_of h p e ≡ some r
  pub hosted : (p : Ptr) (e : Entity) (r : ℕ) → row_of h p e ≡ some r → find e l ≡ some (at p r)

-- The map of locations after "if (moved) { find it; if found, set its row }".
abbrev pub relocate : Entity → ℕ → Locations → Locations
relocate moved row l =
    if moved == 0
    then l
    else (elim (find moved l) [ none ↦ l | some loc ↦ insert moved (at loc.archetype row) l ])

abbrev pub IsValid : World → Type 0
IsValid w = Placed w.heap w.entity_locations

pub behind-insert :
    (p q : Ptr) (a : Archetype) (h : Heap)
    → behind (insert p a h) q ≡ (if p == q then a else behind h q)
behind-insert p q a h = ground (arith, find-insert p q a h)

insert-IsSound :
    (p : Ptr) (a : Archetype) (h : Heap)
    → IsSound a
    → ((q : Ptr) → IsSound (behind h q))
    → (q : Ptr) → IsSound (behind (insert p a h) q)
insert-IsSound p a h s ss q = elim (Bool-cases (p == q)) [
  | inl same ↦ rw (behind-insert p q a h, same) s
  | inr other ↦ rw (behind-insert p q a h, other) (ss q)
]

relocate_law :
    (e m q : Entity) (p : Ptr) (r : ℕ) (l : Locations)
    → (m ≢ 0 → (e ≢ m) × ((k : ℕ) × (find m l ≡ some (at p k))))
    → find q (relocate m r (erase e l))
      ≡ (if e == q then none else (if not (m == 0) && m == q then some (at p r) else find q l))
relocate_law e m q p r l there = elim (Bool-cases (m == 0)) [
  | inl nothing ↦ rw (nothing, find-erase e q l) refl
  | inr moved ↦
      let (other, (k, f)) = there (ground arith) in
      let kept : find m (erase e l) ≡ some (at p k) = ground (arith, find-erase e m l, f) in
      rw (moved, kept) (ground (arith, find-insert m q (at p r) (erase e l), find-erase e q l))
]

module _ (h : Heap) (l : Locations) (valid : Placed h l) where
  -- An entity that is nowhere gets a row.
  pub add-Placed :
      (e t : ℕ) (p : Ptr)
      → e ≢ 0
      → find e l ≡ none
      → length (behind h p).entities + 1 < 2 ^ 32
      → Placed
          (insert p (add_entity e t (behind h p)).0 h)
          (insert e (at p (u32 (length (behind h p).entities))) l)
  add-Placed e t p real new room = record {
    sound =
        insert-IsSound p (add_entity e t (behind h p)).0 h
          (add_entity-IsValid (behind h p) (valid.sound p) e t real unhosted room) valid.sound;
    located = λ q p' r f. ground (
      arith,
      behind-insert p p' (add_entity e t (behind h p)).0 h,
      add_entity-index e q t (behind h p),
      find-insert e q (at p (u32 (length (behind h p).entities))) l,
      valid.located q p' r,
    );
    hosted = λ p' q r f. ground (
      arith,
      behind-insert p p' (add_entity e t (behind h p)).0 h,
      add_entity-index e q t (behind h p),
      find-insert e q (at p (u32 (length (behind h p).entities))) l,
      valid.hosted p' q r,
      unhosted,
    );
  }
    where
      unhosted : find e (behind h p).entity_to_row ≡ none
      unhosted = elim (Option-cases (find e (behind h p).entity_to_row)) [
        | inl absent ↦ absent
        | inr (r, there) ↦ ground (arith, valid.hosted p e r there, new)
      ]

  -- An entity that is located loses its row, and the entity that took the row is relocated.
  module _ (e : Entity) (p : Ptr) (r : ℕ) (found : find e l ≡ some (at p r)) where
    -- The archetype and the entity that moved.
    abbrev pub left : Archetype
    left = (remove_entity e (behind h p)).0

    abbrev pub moved : Entity
    moved = (remove_entity e (behind h p)).1

    pub row-found : row_of h p e ≡ some r
    row-found = valid.located e p r found

    pub moved-located : moved ≢ 0 → (e ≢ moved) × ((k : ℕ) × (find moved l ≡ some (at p k)))
    moved-located n =
        let (other, (k, there)) =
          remove_entity-moved e r (behind h p) (valid.sound p) row-found n in
        (other, (k, valid.hosted p moved k there))

    pub moved-relocate :
        (q : Entity)
        → find q (relocate moved r (erase e l)) ≡ (
            if e == q
            then none
            else (if not (moved == 0) && moved == q then some (at p r) else find q l))
    moved-relocate q = relocate_law e moved q p r l moved-located

    left-index :
        (q : Entity)
        → find q left.entity_to_row ≡ (
            if e == q
            then none
            else (if not (moved == 0) && moved == q then some r else row_of h p q))
    left-index q = remove_entity-index e q r (behind h p) (valid.sound p) row-found

    pub remove-Placed : Placed (insert p left h) (relocate moved r (erase e l))
    remove-Placed = record {
      sound =
          insert-IsSound p left h (remove_entity-IsValid e (behind h p) (valid.sound p))
            valid.sound;
      located = λ q p' k f.
          let g = rw (moved-relocate q) at f in
          ground (arith, g, behind-insert p p' left h, left-index q, valid.located q p' k);
      hosted = λ p' q k f. rw (moved-relocate q) (
          ground (
            arith,
            behind-insert p p' left h,
            left-index q,
            valid.hosted p' q k,
            found,
            moved-located,
          ));
    }
