-- ===== src/World/Preserves.antt =====
-- core/world.cpp: the operations on entities keep the locations and the rows in step.
use vortaris_ecs.Prelude.{
  ℕ, ◌+◌, ◌^◌, ◌<◌, ◌≡◌, ◌≢◌, refl, false, ◌||◌, leb, none, some, List, [], ◌∷◌, ◌==◌, nat_eq,
  length, arith, Option-cases, Bool-cases, inl, inr, u32, ◌∙◌,
}
use vortaris_ecs.Prelude.Map.{insert, erase}
use vortaris_ecs.Entity.{Entity, ComponentTypeId, slot}
use vortaris_ecs.Archetype.{add_entity, remove_entity}
use vortaris_ecs.World.{World, EntityLocation, deref, location, invalidate_cache, in_iteration}
use vortaris_ecs.World.Entities.{
  place, take_out, claim_id, max_slot, create_entity, create_entity_preassigned, destroy_entity,
  destroy_entity_pooled, dispatch_removed,
}
use vortaris_ecs.World.Ids.{u32_max, alloc_entity_id, free_entity_id}
use vortaris_ecs.World.Invariant.{IsValid, at, relocate, add-Placed, remove-Placed}
use vortaris_ecs.World.Lifecycle.{clear_entity, clear_entities}
use vortaris_ecs.World.Moves.{fix_moved}

-- Two worlds with the same archetypes and the same locations.
pub record SameRows (v w : World) : Type 0 where
  pub heap : v.heap ≡ w.heap
  pub locations : v.entity_locations ≡ w.entity_locations
  pub empty : v.empty_archetype ≡ w.empty_archetype

pub SameRows-IsValid : {v w : World} → SameRows v w → IsValid w → IsValid v
SameRows-IsValid s valid = rw (s.heap, s.locations) valid

pub SameRows-trans : {u v w : World} → SameRows u v → SameRows v w → SameRows u w
SameRows-trans s t = record {
  heap = s.heap ∙ t.heap;
  locations = s.locations ∙ t.locations;
  empty = s.empty ∙ t.empty;
}

pub invalidate_cache-SameRows : (w : World) → SameRows (invalidate_cache w) w
unfolding invalidate_cache
invalidate_cache-SameRows w = ground arith

pub dispatch_removed-SameRows :
    (e : Entity) (ts : List ComponentTypeId) (w : World) → SameRows (dispatch_removed e ts w) w
unfolding dispatch_removed
dispatch_removed-SameRows e [] w = ground arith
dispatch_removed-SameRows e (t ∷ ts) w =
    let s = dispatch_removed-SameRows e ts _ in
    record { heap = s.heap; locations = s.locations; empty = s.empty }

pub free_entity_id-SameRows : (e : Entity) (w : World) → SameRows (free_entity_id e w) w
unfolding free_entity_id
free_entity_id-SameRows e w = ground arith

pub alloc_entity_id-SameRows : (w : World) → SameRows (alloc_entity_id w).0 w
unfolding alloc_entity_id
alloc_entity_id-SameRows w = ground arith

fix_moved-rows :
    (m : Entity) (r : ℕ) (w : World)
    → ((fix_moved m r w).heap ≡ w.heap)
      × ((fix_moved m r w).entity_locations ≡ relocate m r w.entity_locations)
      × ((fix_moved m r w).empty_archetype ≡ w.empty_archetype)
unfolding fix_moved
fix_moved-rows m r w = ground arith

-- What `place` writes.
pub place-rows :
    (e : Entity) (w : World)
    → let p = w.empty_archetype in
      ((place e w).heap ≡ insert p (add_entity e w.change_tick (deref w p)).0 w.heap)
      × ((place e w).entity_locations
          ≡ insert e (at p (u32 (length (deref w p).entities))) w.entity_locations)
      × ((place e w).empty_archetype ≡ p)
unfolding place add_entity
place-rows e w = ground arith

pub take_out-rows :
    (e : Entity) (p : ℕ) (r : ℕ) (w : World)
    → let (a, m) = remove_entity e (deref w p) in
      ((take_out e (at p r) w).heap ≡ insert p a w.heap)
      × ((take_out e (at p r) w).entity_locations ≡ relocate m r (erase e w.entity_locations))
      × ((take_out e (at p r) w).empty_archetype ≡ w.empty_archetype)
unfolding take_out
take_out-rows e p r w = fix_moved-rows (remove_entity e (deref w p)).1 r _

-- A destruction that goes through is `take_out`, as far as rows and locations go.
pub destroy_entity-rows :
    (e : Entity) (loc : EntityLocation) (w : World)
    → location w e ≡ some loc
    → in_iteration w ≡ false
    → SameRows (destroy_entity e w) (take_out e loc w)
unfolding destroy_entity
destroy_entity-rows e loc w found calm =
    let ts = (deref w loc.archetype).component_ids in
    let w₁ = free_entity_id e (take_out e loc w) in
    rw (found, destroy_entity, calm)
      (SameRows-trans (invalidate_cache-SameRows (dispatch_removed e ts w₁))
        (SameRows-trans (dispatch_removed-SameRows e ts w₁) (free_entity_id-SameRows e _)))

pub destroy_entity_pooled-rows :
    (e : Entity) (loc : EntityLocation) (w : World)
    → location w e ≡ some loc
    → in_iteration w ≡ false
    → SameRows (destroy_entity_pooled e w) (take_out e loc w)
unfolding destroy_entity_pooled
destroy_entity_pooled-rows e loc w found calm =
    let ts = (deref w loc.archetype).component_ids in
    let w' = take_out e loc w in
    let w₁ = record w' { pool_slots = e ∷ w'.pool_slots } in
    rw (found, destroy_entity_pooled, calm)
      (SameRows-trans (invalidate_cache-SameRows (dispatch_removed e ts w₁)) (
        let s = dispatch_removed-SameRows e ts w₁ in
        record { heap = s.heap; locations = s.locations; empty = s.empty }))

-- There is room for one more row.
abbrev pub HasRoom : World → Type 0
HasRoom w = length (deref w w.empty_archetype).entities + 1 < 2 ^ 32

module _ (w : World) (valid : IsValid w) where
  pub place-IsValid :
      (e : Entity)
      → e ≢ 0
      → location w e ≡ none
      → length (deref w w.empty_archetype).entities + 1 < 2 ^ 32
      → IsValid (place e w)
  place-IsValid e real new room =
      let (h, l, p) = place-rows e w in
      rw (h, l)
        (add-Placed w.heap w.entity_locations valid e w.change_tick w.empty_archetype real new room)

  pub take_out-IsValid :
      (e : Entity) (p r : ℕ) → location w e ≡ some (at p r) → IsValid (take_out e (at p r) w)
  take_out-IsValid e p r found =
      let (h, l, p') = take_out-rows e p r w in
      rw (h, l) (remove-Placed w.heap w.entity_locations valid e p r found)

  -- Destruction keeps a valid world valid: of a dead handle, inside an iteration and else.
  pub destroy_entity-IsValid : (e : Entity) → IsValid (destroy_entity e w)
  unfolding destroy_entity
  destroy_entity-IsValid e = elim (Option-cases (location w e)) [
    | inl dead ↦ rw (dead, destroy_entity) valid
    | inr (loc, found) ↦ elim (Bool-cases (in_iteration w)) [
      | inl busy ↦ rw (found, destroy_entity, busy) valid
      | inr calm ↦
          SameRows-IsValid (destroy_entity-rows e loc w found calm)
            (take_out-IsValid e loc.archetype loc.row found)
    ]
  ]

  pub destroy_entity_pooled-IsValid : (e : Entity) → IsValid (destroy_entity_pooled e w)
  unfolding destroy_entity_pooled
  destroy_entity_pooled-IsValid e = elim (Option-cases (location w e)) [
    | inl dead ↦ rw (dead, destroy_entity_pooled) valid
    | inr (loc, found) ↦ elim (Bool-cases (in_iteration w)) [
      | inl busy ↦ rw (found, destroy_entity_pooled, busy) valid
      | inr calm ↦
          SameRows-IsValid (destroy_entity_pooled-rows e loc w found calm)
            (take_out-IsValid e loc.archetype loc.row found)
    ]
  ]

  clear_entity-IsValid : (e : Entity) → IsValid (clear_entity e w)
  unfolding clear_entity
  clear_entity-IsValid e = elim (Option-cases (location w e)) [
    | inl dead ↦ rw (dead, clear_entity) valid
    | inr (loc, found) ↦
        rw (found, clear_entity)
          (SameRows-IsValid (free_entity_id-SameRows e (take_out e loc w))
            (take_out-IsValid e loc.archetype loc.row found))
  ]

-- Placing an entity in a world with the same rows.
place-SameRows :
    (v w : World) (e : Entity)
    → SameRows v w
    → IsValid w
    → HasRoom w
    → e ≢ 0
    → location w e ≡ none
    → IsValid (place e v)
place-SameRows v w e same valid room real new =
    place-IsValid v (SameRows-IsValid same valid) e real (rw same.locations new)
      (rw (same.heap, same.empty) room)

-- Where no entity has the next id, `create_entity` keeps a valid world with room valid, also when the slots are
-- exhausted.
pub create_entity-IsValid :
    (w : World)
    → IsValid w
    → HasRoom w
    → location w (alloc_entity_id w).1 ≡ none
    → IsValid (create_entity w).0
unfolding create_entity
create_entity-IsValid w valid room new =
    let same = alloc_entity_id-SameRows w in
    elim (Bool-cases ((alloc_entity_id w).1 == 0)) [
      | inl spent ↦ rw (spent, create_entity) (SameRows-IsValid same valid)
      | inr real ↦
          rw (real, create_entity) (place-SameRows _ w _ same valid room (ground arith) new)
    ]

claim_id-IsValid : (w : World) (id : ℕ) → IsValid w → HasRoom w → id ≢ 0 → IsValid (claim_id id w).0
unfolding claim_id
claim_id-IsValid w id valid room real = elim (Option-cases (location w id)) [
  | inr (loc, taken) ↦ rw (taken, claim_id) valid
  | inl new ↦
      rw (new, claim_id)
        (place-SameRows _ w id (record { heap = refl; locations = refl; empty = refl }) valid room
          real new)
]

slot-ne-zero : (id : ℕ) → (slot id == u32_max) ≡ false → id ≢ 0
unfolding slot
slot-ne-zero id h = ground arith

-- Whatever id `create_entity_preassigned` is given, a valid world with room in its empty archetype stays valid.
pub create_entity_preassigned-IsValid :
    (w : World) (id : ℕ) → IsValid w → HasRoom w → IsValid (create_entity_preassigned id w).0
unfolding create_entity_preassigned
create_entity_preassigned-IsValid w id valid room =
    elim (Bool-cases (slot id == u32_max || leb max_slot (slot id))) [
      | inl refused ↦ rw (refused, create_entity_preassigned) valid
      | inr accepted ↦
          rw (accepted, create_entity_preassigned)
            (claim_id-IsValid w id valid room (slot-ne-zero id (ground arith)))
    ]

clear_entities-IsValid : (es : List Entity) (w : World) → IsValid w → IsValid (clear_entities es w)
unfolding clear_entities
clear_entities-IsValid [] w valid = valid
clear_entities-IsValid (e ∷ es) w valid =
    clear_entities-IsValid es (clear_entity e w) (clear_entity-IsValid w valid e)
