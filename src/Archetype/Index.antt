-- ===== src/Archetype/Index.antt =====
-- core/archetype.cpp: what the operations do to the map from entities to rows.
use vortaris_ecs.Prelude.{
  ℕ, ◌≡◌, ◌≢◌, refl, not, ◌&&◌, none, some, ◌==◌, nat_eq, if◌then◌else◌, length, get_or, arith, inl,
  inr, u32,
}
use vortaris_ecs.Prelude.Map.{find, erase, find-insert, find-erase}
use vortaris_ecs.Entity.{Entity}
use vortaris_ecs.Archetype.{Archetype, add_entity, remove_entity, drop_row, fill_row}
use vortaris_ecs.Archetype.Invariant.{IsValid}
use vortaris_ecs.Archetype.Removal.{remove_row_cases, moved-row}

pub add_entity-index :
    (e q t : ℕ) (a : Archetype)
    → find q (add_entity e t a).0.entity_to_row
      ≡ (if e == q then some (u32 (length a.entities)) else find q a.entity_to_row)
unfolding add_entity
add_entity-index e q t a = find-insert e q (u32 (length a.entities)) a.entity_to_row

drop_row-index :
    (e q : Entity) (a : Archetype)
    → find q (drop_row e a).entity_to_row ≡ (if e == q then none else find q a.entity_to_row)
unfolding drop_row
drop_row-index e q a = find-erase e q a.entity_to_row

fill_row-index :
    (e q : Entity) (row last : ℕ) (a : Archetype)
    → e ≢ get_or a.entities last 0
    → find q (fill_row e row last a).entity_to_row ≡ (
        if e == q
        then none
        else (if get_or a.entities last 0 == q then some row else find q a.entity_to_row))
unfolding fill_row
fill_row-index e q row last a h =
    let moved = get_or a.entities last 0 in
    ground
      (arith, find-insert moved q row (erase e a.entity_to_row), find-erase e q a.entity_to_row)

-- The removed entity leaves the map, the one that it returns is now in the freed row, and every other
-- entity keeps its row.
pub remove_entity-index :
    (e q : Entity) (row : ℕ) (a : Archetype)
    → IsValid a
    → find e a.entity_to_row ≡ some row
    → let (a', moved) = remove_entity e a in
      find q a'.entity_to_row ≡ (
        if e == q
        then none
        else (if not (moved == 0) && moved == q then some row else find q a.entity_to_row))
unfolding remove_entity
remove_entity-index e q row a valid at =
    let (last, end, which) = remove_row_cases a valid e row at in
    elim which [
      | inl (same, run) ↦ rw (at, remove_entity, run) (drop_row-index e q a)
      | inr (inner, run) ↦
          let there = moved-row a valid e row last at end in
          rw (at, remove_entity, run)
            (ground (arith, fill_row-index e q row last a, there, valid.real))
    ]

-- The entity that it returns is 0 or one of the archetype's others.
pub remove_entity-moved :
    (e : Entity) (row : ℕ) (a : Archetype)
    → IsValid a
    → find e a.entity_to_row ≡ some row
    → let moved = (remove_entity e a).1 in
      (moved ≢ 0) → (e ≢ moved) × ((last : ℕ) × (find moved a.entity_to_row ≡ some last))
unfolding remove_entity
remove_entity-moved e row a valid at =
    let (last, end, which) = remove_row_cases a valid e row at in
    elim which [
      | inl (same, run) ↦ rw (at, remove_entity, run) (λ h. absurd (h refl))
      | inr (inner, run) ↦
          let there = moved-row a valid e row last at end in
          rw (at, remove_entity, run) (λ h. (ground (arith, there), (last, there)))
    ]
