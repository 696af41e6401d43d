-- ===== src/World/Reads.antt =====
-- core/world.cpp against an abstract view: what `get_raw` reads of an entity's component.
use vortaris_ecs.Prelude.{
  ℕ, ◌≡◌, refl, ap, ◌∙◌, true, false, not, ◌&&◌, Option, none, some, List, [], ◌∷◌, map, ◌==◌,
  nat_eq, nat_beq_iff, if◌then◌else◌, length, arith, Option-cases, Bool-cases, inl, inr, u32,
}
use vortaris_ecs.Prelude.Map.{find, insert, erase, find-insert, is_some}
use vortaris_ecs.Entity.{Entity, ComponentTypeId}
use vortaris_ecs.Column.{Column, Row}
use vortaris_ecs.Column.Cells.{Cell, cell}
use vortaris_ecs.Archetype.{
  Archetype, has_component, column, add_entity, remove_entity, drop_row, fill_row,
}
use vortaris_ecs.Archetype.Addition.{new_line, add_entity-view}
use vortaris_ecs.Archetype.Columns.{zip_columns, columns_of, column-find, has_component-find}
use vortaris_ecs.Archetype.Refine.{Line, line, view, remove_entity-view}
use vortaris_ecs.Query.{Ptr}
use vortaris_ecs.World.{World, EntityLocation, location}
use vortaris_ecs.World.Components.{component_at, row_in, get_raw}
use vortaris_ecs.World.Invariant.{
  Heap, Locations, Placed, IsValid, at, behind, relocate, moved-relocate, moved-located,
  behind-insert,
}

-- The content of the cell that stands for an id.
abbrev pub content_of : Cell → Option Row
content_of c = c.content

abbrev pub pick : ComponentTypeId → List ComponentTypeId → List Cell → Option Row
pick t [] cs = none
pick t (x ∷ xs) [] = none
pick t (x ∷ xs) (c ∷ cs) = if x == t then c.content else pick t xs cs

abbrev pub pick_line : ComponentTypeId → List ComponentTypeId → Option Line → Option Row
pick_line t ids none = none
pick_line t ids (some l) = pick t ids l.cells

pub row_in-pick :
    (t r : ℕ) (ids : List ComponentTypeId) (cs : List Column)
    → row_in r (find t (zip_columns ids cs)) ≡ pick t ids (map (λ c. cell c r) cs)
unfolding find
row_in-pick t r [] cs = refl
row_in-pick t r (x ∷ xs) [] = refl
row_in-pick t r (x ∷ xs) (c ∷ cs) = ground (arith, row_in-pick t r xs cs)

-- What the archetype behind a pointer says of an entity's component.
abbrev pub says : Archetype → Entity → ComponentTypeId → Option Row
says a e t = pick_line t a.component_ids (view a e)

-- What the entity's archetype says.
abbrev pub says_at : Heap → Option EntityLocation → Entity → ComponentTypeId → Option Row
says_at h none e t = none
says_at h (some loc) e t = says (behind h loc.archetype) e t

-- The abstract world: a partial map from entities and components to contents.
abbrev pub reads : Heap → Locations → Entity → ComponentTypeId → Option Row
reads h l e t = says_at h (find e l) e t

guard_row : (o : Option Column) (r : ℕ) → (if is_some o then row_in r o else none) ≡ row_in r o
guard_row none r = refl
guard_row (some c) r = refl

component_at-pick :
    (a : Archetype) (t : ComponentTypeId) (r : ℕ)
    → vortaris_ecs.Archetype.Invariant.IsValid a
    → component_at a t r ≡ pick t a.component_ids (line a r).cells
unfolding component_at
component_at-pick a t r v =
    rw (has_component-find a t v, column-find a t v, ← row_in-pick t r a.component_ids a.columns)
      (guard_row (find t (columns_of a)) r)

-- `get_raw` reads the abstract world.
pub get_raw-reads :
    (w : World) (e : Entity) (t : ComponentTypeId)
    → IsValid w
    → get_raw w e t ≡ reads w.heap w.entity_locations e t
unfolding get_raw
get_raw-reads w e t valid = elim (Option-cases (location w e)) [
  | inl dead ↦ rw (dead, get_raw) (ground arith)
  | inr (loc, found) ↦
      let row = valid.located e loc.archetype loc.row found in
      let real : (e == 0) ≡ false = ground (arith, row, (valid.sound loc.archetype).real) in
      rw (found, get_raw, real, row)
        (component_at-pick (behind w.heap loc.archetype) t loc.row (valid.sound loc.archetype))
]

remove_entity-ids :
    (e : Entity) (a : Archetype) → (remove_entity e a).0.component_ids ≡ a.component_ids
unfolding remove_entity drop_row fill_row
remove_entity-ids e a = ground arith

add_entity-ids : (e k : ℕ) (a : Archetype) → (add_entity e k a).0.component_ids ≡ a.component_ids
unfolding add_entity
add_entity-ids e k a = refl

-- A change of one archetype that leaves what it says of an entity leaves what all of them say of it.
pub says-insert :
    (h : Heap) (p p' : Ptr) (a : Archetype) (q : Entity) (t : ComponentTypeId)
    → says a q t ≡ says (behind h p) q t
    → says (behind (insert p a h) p') q t ≡ says (behind h p') q t
says-insert h p p' a q t same = elim (Bool-cases (p == p')) [
  | inl here ↦
      let e : p ≡ p' = (nat_beq_iff p p').0 here in
      rw (behind-insert p p' a h, here) (same ∙ ap (λ x. says (behind h x) q t) e)
  | inr there ↦ rw (behind-insert p p' a h, there)
]

module _ (h : Heap) (l : Locations) (valid : Placed h l) where
  -- The rows after a removal, seen from outside: only the removed entity's are gone.
  pub reads-remove :
      (e q : Entity) (t : ComponentTypeId) (p : Ptr) (r : ℕ) (found : find e l ≡ some (at p r))
      → let a = (remove_entity e (behind h p)).0 in
        let m = (remove_entity e (behind h p)).1 in
        reads (insert p a h) (relocate m r (erase e l)) q t
        ≡ (if e == q then none else reads h l q t)
  reads-remove e q t p r found =
      rw (moved-relocate h l valid e p r found q)
        (elim (Bool-cases (e == q)) [ inl same ↦ rw same | inr other ↦ rw other (others other) ])
    where
      a : Archetype
      a = (remove_entity e (behind h p)).0

      m : Entity
      m = (remove_entity e (behind h p)).1

      kept : (e == q) ≡ false → says a q t ≡ says (behind h p) q t
      kept other = rw (
        remove_entity-ids e (behind h p),
        remove_entity-view e q (behind h p) (valid.sound p),
        other,
      )

      others :
          (e == q) ≡ false
          → says_at (insert p a h) (if not (m == 0) && m == q then some (at p r) else find q l) q t
            ≡ says_at h (find q l) q t
      others other = elim (Bool-cases (not (m == 0) && m == q)) [
        | inl hit ↦
            let (_, (k, there)) = moved-located h l valid e p r found (ground arith) in
            let at_p : find q l ≡ some (at p k) = ground (arith, there) in
            rw (hit, at_p) (says-insert h p p a q t (kept other))
        | inr miss ↦ elim (Option-cases (find q l)) [
          | inl dead ↦ rw (miss, dead)
          | inr (loc, there) ↦ rw (miss, there) (says-insert h p loc.archetype a q t (kept other))
        ]
      ]

  -- The rows after an addition: only the new entity's are new.
  pub reads-add :
      (e q : Entity) (t : ComponentTypeId) (p : Ptr) (k : ℕ)
      → find e l ≡ none
      → let a = behind h p in
        reads (insert p (add_entity e k a).0 h) (insert e (at p (u32 (length a.entities))) l) q t
        ≡ (if e == q then pick t a.component_ids (new_line k a).cells else reads h l q t)
  reads-add e q t p k new =
      rw (find-insert e q (at p (u32 (length (behind h p).entities))) l)
        (elim (Bool-cases (e == q)) [
          | inl same ↦ rw same (fresh same)
          | inr other ↦ rw other (others other)
        ])
    where
      a' : Archetype
      a' = (add_entity e k (behind h p)).0

      unhosted : find e (behind h p).entity_to_row ≡ none
      unhosted = elim (Option-cases (find e (behind h p).entity_to_row)) [
        | inl absent ↦ absent
        | inr (r, there) ↦ ground (arith, valid.hosted p e r there, new)
      ]

      added :
          says a' q t
          ≡ pick_line t
              (behind h p).component_ids
              (if e == q then some (new_line k (behind h p)) else view (behind h p) q)
      added =
          rw
            (
              add_entity-ids e k (behind h p),
              (add_entity-view e q k (behind h p) (valid.sound p) unhosted).1,
            )
            refl

      fresh :
          (e == q) ≡ true
          → says (behind (insert p a' h) p) q t
            ≡ pick t (behind h p).component_ids (new_line k (behind h p)).cells
      fresh same = rw (behind-insert p p a' h, (nat_beq_iff p p).1 refl) (added ∙ rw same refl)

      others : (e == q) ≡ false → says_at (insert p a' h) (find q l) q t ≡ says_at h (find q l) q t
      others other = elim (Option-cases (find q l)) [
        | inl dead ↦ rw dead
        | inr (loc, there) ↦ rw there (says-insert h p loc.archetype a' q t (added ∙ rw other refl))
      ]
