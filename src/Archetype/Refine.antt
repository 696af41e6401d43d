-- ===== src/Archetype/Refine.antt =====
-- core/archetype.cpp against an abstract view: what an archetype says of each entity.
use vortaris_ecs.Prelude.{
  ℕ, ◌+◌, ◌-◌, ◌<◌, ◌≡◌, refl, Option, none, some, List, [], ◌∷◌, map, ◌==◌, nat_eq, if◌then◌else◌,
  length, get_or, set, arith, ap, ap₂, length-set, get_or-set, get_or-drop_last_if, Option-cases,
  inl, inr, ◌⊎◌, nat_beq_iff, ◌≢◌, ◌∙◌, Bool-cases,
}
use vortaris_ecs.Prelude.Map.{find, erase, find-insert, find-erase}
use vortaris_ecs.Entity.{Entity}
use vortaris_ecs.Column.{Column, swap_remove, pop_back}
use vortaris_ecs.Column.Cells.{Cell, cell, swap_remove-cell, pop_back-cell}
use vortaris_ecs.Archetype.{Archetype, remove_entity, drop_row, fill_row}
use vortaris_ecs.Archetype.Invariant.{IsValid, Sized, Parallel, row_of-lt}
use vortaris_ecs.Archetype.Removal.{remove_row_cases, moved-row, moved-at}

-- An entity's enabled flag and its cell in every column.
pub record Line : Type 0 where
  pub flag : ℕ
  pub cells : List Cell

abbrev pub line : Archetype → ℕ → Line
line a r = record { flag = get_or a.enabled r 0; cells = map (λ c. cell c r) a.columns }

abbrev pub line_at : Archetype → Option ℕ → Option Line
line_at a none = none
line_at a (some r) = some (line a r)

-- The abstract archetype: a partial map from entities to lines.
abbrev pub view : Archetype → Entity → Option Line
view a e = line_at a (find e a.entity_to_row)

pub line-eq :
    {f g : ℕ} {cs ds : List Cell}
    → f ≡ g
    → cs ≡ ds
    → let l : Line = record { flag = f; cells = cs } in l ≡ record { flag = g; cells = ds }
line-eq p q = cc

pub cells-map :
    (f : Column → Column) (n r s : ℕ) (cs : List Column)
    → ((c : Column) → Sized n c → cell (f c) r ≡ cell c s)
    → Parallel n cs
    → map (λ c. cell c r) (map f cs) ≡ map (λ c. cell c s) cs
cells-map f n r s [] h p = refl
cells-map f n r s (c ∷ cs) h (l, v, p) = ap₂ ◌∷◌ (h c (l, v)) (cells-map f n r s cs h p)

module _ (a : Archetype) (valid : IsValid a) (e : Entity) (row last : ℕ)
    (at : find e a.entity_to_row ≡ some row) (end : last + 1 ≡ length a.entities) where
  drop_row-line : (r : ℕ) → r < last → line (drop_row e a) r ≡ line a r
  unfolding drop_row
  drop_row-line r h = line-eq (ground (arith, get_or-drop_last_if a.enabled r 0, valid.flags)) (
      cells-map pop_back (length a.entities) r r a.columns
        (λ c s. pop_back-cell c s.1 r (omega arith)) valid.height)

  fill_row-line :
      (r : ℕ)
      → r < last
      → row < last
      → line (fill_row e row last a) r ≡ line a (if row == r then last else r)
  unfolding fill_row
  fill_row-line r h inner =
      line-eq
        (ground (
          arith,
          get_or-drop_last_if (set a.enabled row (get_or a.enabled last 0)) r 0,
          length-set a.enabled row (get_or a.enabled last 0),
          get_or-set a.enabled row r (get_or a.enabled last 0) 0,
          valid.flags,
        ))
        (cells-map (swap_remove row) (length a.entities) r (if row == r then last else r) a.columns
          (λ c s.
            let k : length c.rows - 1 ≡ last = omega arith in
            rw (swap_remove-cell c s.1 row r (omega arith) (omega arith), k) (ground arith))
          valid.height)

  -- Another entity's row.
  module _ (q : Entity) (other : e ≢ q) (r : ℕ) (found : find q a.entity_to_row ≡ some r) where
    drop_row-index : find q (drop_row e a).entity_to_row ≡ some r
    unfolding drop_row
    drop_row-index = ground (arith, find-erase e q a.entity_to_row)

    drop_row-view : row ≡ last → view (drop_row e a) q ≡ some (line a r)
    drop_row-view same =
        let apart : r < last =
          ground
            (arith, row_of-lt a valid q r found, valid.indexed q r found, valid.indexed e row at) in
        rw drop_row-index (ap some (drop_row-line r apart))

    -- The row moves if the entity stood in the last one.
    fill_row-index :
        row < last
        → find q (fill_row e row last a).entity_to_row ≡ some (if r == last then row else r)
    unfolding fill_row
    fill_row-index inner =
        let moved = get_or a.entities last 0 in
        ground (
          arith,
          find-insert moved q row (erase e a.entity_to_row),
          find-erase e q a.entity_to_row,
          valid.indexed q r found,
          moved-at a valid e row last at end,
          moved-row a valid e row last at end,
        )

    fill_row-view : row < last → view (fill_row e row last a) q ≡ some (line a r)
    fill_row-view inner =
        let within = row_of-lt a valid q r found in
        let apart : r ≢ row = ground (arith, valid.indexed q r found, valid.indexed e row at) in
        elim (Bool-cases (r == last)) [
          | inl end_row ↦
              let same : r ≡ last = ground arith in
              rw (fill_row-index inner, end_row)
                (ap some (fill_row-line row inner inner ∙ ap (line a) (ground arith)))
          | inr other_row ↦
              rw (fill_row-index inner, other_row)
                (ap some (fill_row-line r (ground arith) inner ∙ ap (line a) (ground arith)))
        ]

  -- An entity that is gone, or was never there.
  drop_row-none :
      (q : Entity)
      → (e ≡ q) ⊎ (find q a.entity_to_row ≡ none)
      → find q (drop_row e a).entity_to_row ≡ none
  unfolding drop_row
  drop_row-none q h = ground (arith, find-erase e q a.entity_to_row)

  fill_row-none :
      (q : Entity)
      → row < last
      → (e ≡ q) ⊎ (find q a.entity_to_row ≡ none)
      → find q (fill_row e row last a).entity_to_row ≡ none
  unfolding fill_row
  fill_row-none q inner h = ground (
    arith,
    find-insert (get_or a.entities last 0) q row (erase e a.entity_to_row),
    find-erase e q a.entity_to_row,
    moved-row a valid e row last at end,
  )

-- The view after a removal, from what becomes of the index.
view_law :
    (e q : Entity) (a d : Archetype)
    → ((e ≡ q) ⊎ (find q a.entity_to_row ≡ none) → find q d.entity_to_row ≡ none)
    → (e ≢ q → (r : ℕ) → find q a.entity_to_row ≡ some r → view d q ≡ some (line a r))
    → view d q ≡ (if e == q then none else view a q)
view_law e q a d gone kept = elim (Bool-cases (e == q)) [
  | inl same ↦ rw (same, gone (inl ((nat_beq_iff e q).0 same)))
  | inr other ↦ elim (Option-cases (find q a.entity_to_row)) [
    | inl absent ↦ rw (other, absent, gone (inr absent))
    | inr (r, found) ↦ rw (other, found) (kept (ground arith) r found)
  ]
]

-- In a valid archetype, `remove_entity` takes the entity out of the view and leaves the line of every other entity, its flag,
-- bytes and versions, as it was, although the last row may have moved.
pub remove_entity-view :
    (e q : Entity) (a : Archetype)
    → IsValid a
    → view (remove_entity e a).0 q ≡ (if e == q then none else view a q)
unfolding remove_entity
remove_entity-view e q a valid = elim (Option-cases (find e a.entity_to_row)) [
  | inl absent ↦ rw (absent, remove_entity) (ground (arith, absent))
  | inr (row, at) ↦
      let (last, end, which) = remove_row_cases a valid e row at in
      elim which [
        | inl (same, run) ↦
            rw (at, remove_entity, run)
              (view_law e q a (drop_row e a) (drop_row-none a valid e row last at end q)
                (λ n r f. drop_row-view a valid e row last at end q n r f same))
        | inr (inner, run) ↦
            rw (at, remove_entity, run)
              (view_law e q a (fill_row e row last a)
                (fill_row-none a valid e row last at end q inner)
                (λ n r f. fill_row-view a valid e row last at end q n r f inner))
      ]
]
