-- ===== src/Archetype/Addition.antt =====
-- core/archetype.cpp against the abstract view: `add_entity`.
use vortaris_ecs.Prelude.{
  ℕ, ◌<◌, ◌≡◌, refl, none, some, List, [], ◌∷◌, ◌++◌, map, ◌==◌, nat_eq, if◌then◌else◌, length, u32,
  arith, ap, ap₂, length-append, length-set, get_or-set, get_or-append_one, get_elem?-append_one,
  Option-cases, inl, inr, ◌∙◌, sym, Bool-cases,
}
use vortaris_ecs.Prelude.Map.{find, find-insert}
use vortaris_ecs.Column.{Column, grow, set_version}
use vortaris_ecs.Column.Cells.{cell}
use vortaris_ecs.Column.Bounds.{grow-IsValid}
use vortaris_ecs.Archetype.{Archetype, add_entity, grow_column}
use vortaris_ecs.Archetype.Invariant.{IsValid, Parallel, row_of-lt}
use vortaris_ecs.Archetype.Refine.{Line, line, view, line-eq, cells-map}
use vortaris_ecs.Column.{version_at}
use vortaris_ecs.Column.Bounds

-- An enabled row that nothing has written, its versions at the tick where they are kept.
abbrev pub new_line : ℕ → Archetype → Line
new_line t a = record {
  flag = 1;
  cells =
      map (λ c. record { content = some none; version = if c.tracking then t else 0 }) a.columns;
}

module _ (t : ℕ) (c : Column) (valid : Bounds.IsValid c) where
  grow_column-old :
      (r : ℕ) → r < length c.rows → cell (grow_column (length c.rows) t c) r ≡ cell c r
  unfolding grow_column grow set_version version_at
  grow_column-old r h = ground (
    arith,
    get_elem?-append_one c.rows r none,
    get_or-append_one c.versions r 0 0,
    length-append c.versions (0 ∷ []),
    length-set (c.versions ++ 0 ∷ []) (length c.rows) t,
    get_or-set (c.versions ++ 0 ∷ []) (length c.rows) r t 0,
  )

  grow_column-new :
      cell (grow_column (length c.rows) t c) (length c.rows)
      ≡ record { content = some none; version = if c.tracking then t else 0 }
  unfolding grow_column grow set_version version_at
  grow_column-new = ground (
    arith,
    get_elem?-append_one c.rows (length c.rows) none,
    length-append c.versions (0 ∷ []),
    length-set (c.versions ++ 0 ∷ []) (length c.rows) t,
    get_or-set (c.versions ++ 0 ∷ []) (length c.rows) (length c.rows) t 0,
  )

new_cells :
    (t n row : ℕ) (cs : List Column)
    → row ≡ n
    → Parallel n cs
    → map (λ c. cell c row) (map (grow_column row t) cs)
      ≡ map (λ c. record { content = some none; version = if c.tracking then t else 0 }) cs
new_cells t n row [] e p = refl
new_cells t n row (c ∷ cs) e (l, v, p) =
    let k : row ≡ length c.rows = e ∙ sym l in
    ap₂ ◌∷◌ (rw k (grow_column-new t c v)) (new_cells t n row cs e p)

-- In a valid archetype that lacks the entity, `add_entity` returns the next row, gives the entity an enabled line that nothing has written, with the
-- versions of tracked columns at the tick, and leaves the line of every other entity as it was.
pub add_entity-view :
    (e q t : ℕ) (a : Archetype)
    → IsValid a
    → find e a.entity_to_row ≡ none
    → ((add_entity e t a).1 ≡ length a.entities)
      × (view (add_entity e t a).0 q ≡ (if e == q then some (new_line t a) else view a q))
unfolding add_entity
add_entity-view e q t a valid new = (
  same_row,
  elim (Bool-cases (e == q)) [
    | inl same ↦
        rw (same, find-insert e q, same)
          (ap some (
            line-eq (ground (arith, get_or-append_one a.enabled row 1 0, valid.flags, valid.small))
              (new_cells t (length a.entities) row a.columns same_row valid.height)))
    | inr other ↦ elim (Option-cases (find q a.entity_to_row)) [
      | inl absent ↦ rw (other, find-insert e q, other, absent) refl
      | inr (r, found) ↦
          rw (other, find-insert e q, other, found)
            (ap some (old_line r (row_of-lt a valid q r found)))
    ]
  ],
)
  where
    row : ℕ
    row = u32 (length a.entities)

    same_row : row ≡ length a.entities
    same_row = omega (arith, valid.small)

    old_line : (r : ℕ) → r < length a.entities → line (add_entity e t a).0 r ≡ line a r
    old_line r h = line-eq (ground (arith, get_or-append_one a.enabled r 1 0, valid.flags)) (
        cells-map (grow_column row t) (length a.entities) r r a.columns
          (λ c s.
            let k : row ≡ length c.rows = same_row ∙ sym s.0 in
            rw k (grow_column-old t c s.1 r (omega arith)))
          valid.height)
