-- ===== src/World/Carries/Rows.antt =====
-- core/world.cpp: the rows in which an entity's components are read.
use vortaris_ecs.Prelude.{
  ℕ, zero, suc, ◌≡◌, refl, sym, ap, Option, none, some, List, [], ◌∷◌, map, ◌==◌, nat_eq,
  if◌then◌else◌, length, arith, Option-cases, Bool-cases, inl, inr, get_elem?, get_or,
}
use vortaris_ecs.Prelude.Map.{find, is_some}
use vortaris_ecs.Entity.{Entity, ComponentTypeId}
use vortaris_ecs.Column.{Column, Row}
use vortaris_ecs.Archetype.Columns.{zip_columns}
use vortaris_ecs.Archetype.Invariant.{Parallel}
use vortaris_ecs.Query.{Ptr}
use vortaris_ecs.World.Components.{row_in}
use vortaris_ecs.World.Invariant.{Heap, Locations, Placed, at, behind}
use vortaris_ecs.World.Reads.{reads, says, pick, row_in-pick}

-- A row that no write has filled counts as one without content.
abbrev pub content : Option Row → Row
content none = none
content (some r) = r

-- Worlds that look-ups do not tell apart read alike.
pub reads-extends :
    (h h' : Heap) (l l' : Locations) (q : Entity) (t : ComponentTypeId)
    → ((p : Ptr) → behind h p ≡ behind h' p)
    → find q l ≡ find q l'
    → reads h l q t ≡ reads h' l' q t
reads-extends h h' l l' q t hs ls = elim (Option-cases (find q l')) [
  | inl dead ↦ rw (ls, dead) refl
  | inr (loc, there) ↦ rw (ls, there) (ap (λ a. says a q t) (hs loc.archetype))
]

-- What is read of a located entity is in its row.
pub reads-row :
    (h : Heap) (l : Locations) (q : Entity) (t : ComponentTypeId) (p r : ℕ)
    → Placed h l
    → find q l ≡ some (at p r)
    → reads h l q t
      ≡ row_in r (find t (zip_columns (behind h p).component_ids (behind h p).columns))
reads-row h l q t p r valid found =
    rw (found, valid.located q p r found)
      (sym (row_in-pick t r (behind h p).component_ids (behind h p).columns))

pub pick-new :
    (t k : ℕ) (ids : List ComponentTypeId) (cs : List Column)
    → pick t ids
        (map (λ c. record { content = some none; version = if c.tracking then k else 0 }) cs)
      ≡ (if is_some (find t (zip_columns ids cs)) then some none else none)
unfolding find
pick-new t k [] cs = refl
pick-new t k (x ∷ ids) [] = refl
pick-new t k (x ∷ ids) (c ∷ cs) = ground (arith, pick-new t k ids cs)

pub content-get_elem? : (rows : List Row) (i : ℕ) → content (get_elem? rows i) ≡ get_or rows i none
content-get_elem? [] i = refl
content-get_elem? (r ∷ rows) zero = refl
content-get_elem? (r ∷ rows) (suc i) = content-get_elem? rows i

pub none-some : {v : Row} → none ≡ some v → ⊥
none-some h = ground arith

pub find-height :
    (t m : ℕ) (ids : List ComponentTypeId) (cs : List Column) (x : Column)
    → Parallel m cs
    → find t (zip_columns ids cs) ≡ some x
    → length x.rows ≡ m
unfolding find
find-height t m [] cs x p f = ground arith
find-height t m (i ∷ ids) [] x p f = ground arith
find-height t m (i ∷ ids) (c ∷ cs) x p f = elim (Bool-cases (i == t)) [
  | inl here ↦ let f' = rw here at f in ground (arith, p.0, f')
  | inr there ↦ let f' = rw there at f in find-height t m ids cs x p.2 f'
]
