-- ===== src/Archetype/Removal.antt =====
-- core/archetype.cpp: `remove_entity` keeps the arrays parallel, and rows and entities in step.
use vortaris_ecs.Prelude.{
  ℕ, ◌+◌, ◌-◌, ◌^◌, ◌<◌, ◌≡◌, some, ◌==◌, nat_eq, length, get_elem?, get_or, set, drop_last, u32,
  arith, length-set, length-drop_last, get_elem?-set, get_elem?-drop_last_if, Option-cases,
  Bool-cases, ◌⊎◌, get_or-get_elem?, inl, inr, nat_beq_iff,
}
use vortaris_ecs.Prelude.Map.{find, erase, find-insert, find-erase}
use vortaris_ecs.Entity.{Entity}
use vortaris_ecs.Column.{Column, swap_remove, pop_back}
use vortaris_ecs.Column.Bounds.{swap_remove-IsValid, pop_back-IsValid}
use vortaris_ecs.Column.Cells.{swap_remove-rows, pop_back-rows}
use vortaris_ecs.Archetype.{Archetype, remove_entity, remove_row, drop_row, fill_row}
use vortaris_ecs.Archetype.Invariant.{IsValid, Sized, map-Parallel, length-map, row_of-lt}

module _ (a : Archetype) (valid : IsValid a) where
  -- The two branches of a removal, with the row that the index names and the last row.
  module _ (e : Entity) (row last : ℕ) (at : find e a.entity_to_row ≡ some row)
      (end : last + 1 ≡ length a.entities) where
    drop_row-Sized : (c : Column) → Sized (length a.entities) c → Sized last (pop_back c)
    drop_row-Sized c s = ground (arith, pop_back-rows c s.1, pop_back-IsValid c s.1)

    swap_row-Sized : (c : Column) → Sized (length a.entities) c → Sized last (swap_remove row c)
    swap_row-Sized c s = ground (arith, swap_remove-rows c s.1 row, swap_remove-IsValid row c s.1)

    pub drop_row-IsValid : row ≡ last → IsValid (drop_row e a)
    unfolding drop_row
    drop_row-IsValid same = record {
      ids = valid.ids;
      width = rw length-map valid.width;
      height =
          let n : length (drop_last a.entities) ≡ last =
            omega (arith, length-drop_last a.entities) in
          rw n
            (map-Parallel pop_back (length a.entities) last a.columns drop_row-Sized valid.height);
      flags = omega (arith, length-drop_last a.enabled, length-drop_last a.entities, valid.flags);
      small = omega (arith, length-drop_last a.entities, valid.small);
      indexed = λ q r h. ground (
        arith,
        find-erase e q a.entity_to_row,
        valid.indexed q r,
        valid.indexed e row at,
        get_elem?-drop_last_if a.entities r,
        row_of-lt a valid q r,
      );
      covered = λ q r h. ground (
        arith,
        find-erase e q a.entity_to_row,
        valid.covered q r,
        get_elem?-drop_last_if a.entities r,
      );
      real = ground (arith, find-erase e 0 a.entity_to_row, valid.real);
    }

    -- The entity that moves.
    abbrev pub moved : Entity
    moved = get_or a.entities last 0

    pub moved-at : get_elem? a.entities last ≡ some moved
    moved-at = get_or-get_elem? a.entities last 0 (omega arith)

    pub moved-row : find moved a.entity_to_row ≡ some last
    moved-row = valid.covered moved last moved-at

    pub fill_row-IsValid : row < last → IsValid (fill_row e row last a)
    unfolding fill_row
    fill_row-IsValid inner = record {
      ids = valid.ids;
      width = rw length-map valid.width;
      height =
          let n : length (drop_last (set a.entities row moved)) ≡ last =
            omega (
              arith,
              length-drop_last (set a.entities row moved),
              length-set a.entities row moved,
            ) in
          rw n (
            map-Parallel (swap_remove row) (length a.entities) last a.columns swap_row-Sized
              valid.height);
      flags = omega (
        arith,
        length-drop_last (set a.enabled row (get_or a.enabled last 0)),
        length-set a.enabled row (get_or a.enabled last 0),
        length-drop_last (set a.entities row moved),
        length-set a.entities row moved,
        valid.flags,
      );
      small = omega (
        arith,
        length-drop_last (set a.entities row moved),
        length-set a.entities row moved,
        valid.small,
      );
      indexed = λ q r h. ground (
        arith,
        find-insert moved q row (erase e a.entity_to_row),
        find-erase e q a.entity_to_row,
        valid.indexed q r,
        valid.indexed e row at,
        moved-at,
        moved-row,
        get_elem?-drop_last_if (set a.entities row moved) r,
        length-set a.entities row moved,
        get_elem?-set a.entities row r moved,
        row_of-lt a valid q r,
      );
      covered = λ q r h. ground (
        arith,
        find-insert moved q row (erase e a.entity_to_row),
        find-erase e q a.entity_to_row,
        valid.covered q r,
        valid.indexed e row at,
        moved-at,
        moved-row,
        get_elem?-drop_last_if (set a.entities row moved) r,
        length-set a.entities row moved,
        get_elem?-set a.entities row r moved,
      );
      real = ground (
        arith,
        find-insert moved 0 row (erase e a.entity_to_row),
        find-erase e 0 a.entity_to_row,
        valid.real,
        moved-row,
      );
    }

  -- Which branch runs, and what it returns.
  pub remove_row_cases :
      (e : Entity) (row : ℕ)
      → find e a.entity_to_row ≡ some row
      → (last : ℕ) × (last + 1 ≡ length a.entities)
        × (((row ≡ last) × (remove_row e row a ≡ (drop_row e a, 0)))
            ⊎ ((row < last)
                × (remove_row e row a ≡ (fill_row e row last a, get_or a.entities last 0))))
  unfolding remove_row
  remove_row_cases e row at =
      let last = u32 (u32 (length a.entities) + 2 ^ 32 - 1) in
      let within = row_of-lt a valid e row at in
      let end : last + 1 ≡ length a.entities = omega (arith, valid.small) in
      (
        last,
        end,
        elim (Bool-cases (row == last)) [
          | inl same ↦ inl ((nat_beq_iff row last).0 same, rw same)
          | inr other ↦ inr (ground arith, rw other)
        ],
      )

-- Removing an entity, or one that is not there, keeps the arrays parallel and the index exact.
pub remove_entity-IsValid : (e : Entity) (a : Archetype) → IsValid a → IsValid (remove_entity e a).0
unfolding remove_entity
remove_entity-IsValid e a valid = elim (Option-cases (find e a.entity_to_row)) [
  | inl absent ↦ rw (absent, remove_entity) valid
  | inr (row, at) ↦
      let (last, end, which) = remove_row_cases a valid e row at in
      elim which [
        | inl (same, run) ↦
            rw (at, remove_entity, run) (drop_row-IsValid a valid e row last at end same)
        | inr (inner, run) ↦
            rw (at, remove_entity, run) (fill_row-IsValid a valid e row last at end inner)
      ]
]
