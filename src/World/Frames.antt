-- ===== src/World/Frames.antt =====
-- core/world.cpp: what `get_raw` reads after an operation, of the entity of the operation and of others.
use vortaris_ecs.Prelude.{
  ℕ, ◌≡◌, refl, ◌∙◌, true, false, none, some, [], ◌==◌, nat_eq, if◌then◌else◌, arith, Bool-cases,
  inl, inr,
}
use vortaris_ecs.Entity.{Entity, ComponentTypeId}
use vortaris_ecs.World.{World, EntityLocation, location, in_iteration, deref}
use vortaris_ecs.Archetype.Addition.{new_line}
use vortaris_ecs.World.Entities.{
  place, take_out, create_entity, destroy_entity, destroy_entity_pooled,
}
use vortaris_ecs.World.Ids.{alloc_entity_id}
use vortaris_ecs.World.Components.{get_raw}
use vortaris_ecs.World.Invariant.{IsValid, at}
use vortaris_ecs.World.Preserves.{
  SameRows, SameRows-IsValid, HasRoom, destroy_entity-rows, destroy_entity_pooled-rows,
  take_out-rows, destroy_entity-IsValid, destroy_entity_pooled-IsValid, create_entity-IsValid,
  place-rows, alloc_entity_id-SameRows,
}
use vortaris_ecs.World.Reads.{reads, get_raw-reads, reads-remove, reads-add, pick}

SameRows-reads :
    (v w : World) (q : Entity) (t : ComponentTypeId)
    → SameRows v w
    → reads v.heap v.entity_locations q t ≡ reads w.heap w.entity_locations q t
SameRows-reads v w q t s = rw (s.heap, s.locations) refl

take_out-reads :
    (w : World) (e q : Entity) (t : ComponentTypeId) (p r : ℕ)
    → IsValid w
    → location w e ≡ some (at p r)
    → reads (take_out e (at p r) w).heap (take_out e (at p r) w).entity_locations q t
      ≡ (if e == q then none else reads w.heap w.entity_locations q t)
take_out-reads w e q t p r valid found =
    let (h, l, _) = take_out-rows e p r w in
    rw (h, l) (reads-remove w.heap w.entity_locations valid e q t p r found)

-- After the destruction of a located entity of a valid world outside an iteration, `get_raw` finds nothing of that
-- entity and of every other entity what it found before, whichever row the swap moved.
pub destroy_entity-get_raw :
    (w : World) (e q : Entity) (t : ComponentTypeId) (loc : EntityLocation)
    → IsValid w
    → location w e ≡ some loc
    → in_iteration w ≡ false
    → get_raw (destroy_entity e w) q t ≡ (if e == q then none else get_raw w q t)
destroy_entity-get_raw w e q t loc valid found calm =
    rw
      (
        get_raw-reads (destroy_entity e w) q t (destroy_entity-IsValid w valid e),
        get_raw-reads w q t valid,
      )
      (SameRows-reads _ _ q t (destroy_entity-rows e loc w found calm)
        ∙ take_out-reads w e q t loc.archetype loc.row valid found)

-- After the destruction of a located entity of a valid world into the pool, outside an iteration, `get_raw` finds nothing of
-- that entity and of every other entity what it found before.
pub destroy_entity_pooled-get_raw :
    (w : World) (e q : Entity) (t : ComponentTypeId) (loc : EntityLocation)
    → IsValid w
    → location w e ≡ some loc
    → in_iteration w ≡ false
    → get_raw (destroy_entity_pooled e w) q t ≡ (if e == q then none else get_raw w q t)
destroy_entity_pooled-get_raw w e q t loc valid found calm =
    rw
      (
        get_raw-reads (destroy_entity_pooled e w) q t (destroy_entity_pooled-IsValid w valid e),
        get_raw-reads w q t valid,
      )
      (SameRows-reads _ _ q t (destroy_entity_pooled-rows e loc w found calm)
        ∙ take_out-reads w e q t loc.archetype loc.row valid found)

place-reads :
    (w : World) (e q : Entity) (t : ComponentTypeId)
    → IsValid w
    → location w e ≡ none
    → reads (place e w).heap (place e w).entity_locations q t ≡ (
        if e == q
        then pick t
            (deref w w.empty_archetype).component_ids
            (new_line w.change_tick (deref w w.empty_archetype)).cells
        else reads w.heap w.entity_locations q t)
place-reads w e q t valid new =
    let (h, l, _) = place-rows e w in
    rw (h, l) (reads-add w.heap w.entity_locations valid e q t w.empty_archetype w.change_tick new)

place-empty :
    (v w : World) (e q : Entity) (t : ComponentTypeId)
    → SameRows v w
    → IsValid w
    → location w e ≡ none
    → (deref w w.empty_archetype).component_ids ≡ []
    → reads (place e v).heap (place e v).entity_locations q t
      ≡ (if e == q then none else reads w.heap w.entity_locations q t)
place-empty v w e q t same valid new bare =
    let ids : (deref v v.empty_archetype).component_ids ≡ [] = rw (same.heap, same.empty) bare in
    place-reads v e q t (SameRows-IsValid same valid) (rw same.locations new)
    ∙ rw (ids, SameRows-reads v w q t same) refl

get_raw-null :
    (w : World) (q : Entity) (t : ComponentTypeId) → (0 == q) ≡ true → get_raw w q t ≡ none
unfolding get_raw
get_raw-null w q t null = ground arith

created :
    (w : World) (q : Entity) (t : ComponentTypeId)
    → IsValid w
    → (deref w w.empty_archetype).component_ids ≡ []
    → location w (alloc_entity_id w).1 ≡ none
    → (0 == q) ≡ false
    → reads (create_entity w).0.heap (create_entity w).0.entity_locations q t
      ≡ (if (alloc_entity_id w).1 == q then none else reads w.heap w.entity_locations q t)
unfolding create_entity
created w q t valid bare new real =
    let same = alloc_entity_id-SameRows w in
    elim (Bool-cases ((alloc_entity_id w).1 == 0)) [
      | inl spent ↦
          let other : ((alloc_entity_id w).1 == q) ≡ false = ground arith in
          rw (spent, create_entity, other) (SameRows-reads _ w q t same)
      | inr there ↦
          rw (there, create_entity) (place-empty (alloc_entity_id w).0 w _ q t same valid new bare)
    ]

-- In a valid world with room, whose empty archetype has no components and whose next id no entity has, the
-- creation of an entity leaves that id without components and what `get_raw` reads of every other entity.
pub create_entity-get_raw :
    (w : World) (q : Entity) (t : ComponentTypeId)
    → IsValid w
    → HasRoom w
    → (deref w w.empty_archetype).component_ids ≡ []
    → location w (alloc_entity_id w).1 ≡ none
    → get_raw (create_entity w).0 q t ≡ (if (alloc_entity_id w).1 == q then none else get_raw w q t)
create_entity-get_raw w q t valid room bare new = elim (Bool-cases (0 == q)) [
  | inl null ↦
      rw (get_raw-null (create_entity w).0 q t null, get_raw-null w q t null) (ground arith)
  | inr real ↦
      rw
        (
          get_raw-reads (create_entity w).0 q t (create_entity-IsValid w valid room new),
          get_raw-reads w q t valid,
        )
        (created w q t valid bare new real)
]
