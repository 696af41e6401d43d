-- ===== src/World/Collision.antt =====
-- core/world.cpp: `create_entity_preassigned` and the free slots.
use vortaris_ecs.Prelude.{
  ℕ, ◌+◌, ◌-◌, ◌^◌, ◌<◌, ◌≡◌, refl, ◌∙◌, ap, Bool, true, false, ◌||◌, leb, none, List, ◌∷◌, ◌==◌,
  nat_eq, nat_beq_iff, if◌then◌else◌, length, get_or, set, replicate, arith, get_or-set,
  length-append, length-replicate,
}
use vortaris_ecs.Entity.{Entity, slot, generation, handle, handle_of_fields}
use vortaris_ecs.World.{World, location}
use vortaris_ecs.World.Entities.{
  place, claim_id, grow_slots, create_entity, create_entity_preassigned, max_slot,
}
use vortaris_ecs.World.Ids.{alloc_entity_id, u32_max}

place-slots :
    (e : Entity) (w : World)
    → ((place e w).free_slots ≡ w.free_slots) × ((place e w).slot_generations ≡ w.slot_generations)
unfolding place
place-slots e w = ground arith

grow-inside : (w : World) (s : ℕ) → s < length (grow_slots s w).slot_generations
grow-inside w s = ground (
  arith,
  length-append w.slot_generations (replicate (s + 1 - length w.slot_generations) 0),
  length-replicate {A = ℕ} (s + 1 - length w.slot_generations) 0,
)

claim_id-slots :
    (w : World) (id : ℕ)
    → location w id ≡ none
    → ((claim_id id w).0.free_slots ≡ w.free_slots)
      × (get_or (claim_id id w).0.slot_generations (slot id) 0 ≡ generation id)
unfolding claim_id
claim_id-slots w id new =
    let w' = grow_slots (slot id) w in
    let p =
      place-slots id
        (record w' { slot_generations = set w'.slot_generations (slot id) (generation id) }) in
    rw (new, claim_id, p.0, p.1)
      (
        refl,
        get_or-set w'.slot_generations (slot id) (slot id) (generation id) 0
              (grow-inside w (slot id))
            ∙ rw ((nat_beq_iff (slot id) (slot id)).1 refl) refl,
      )

if-same :
    (b : Bool) (v w : World) (k : ℕ)
    → (k == 0) ≡ b
    → (if◌then◌else◌ {A = World × Entity} b (v, 0) (w, k)).1 ≡ k
if-same true v w k h = ground arith
if-same false v w k h = refl

create_entity-takes :
    (w : World) (s : ℕ) (rest : List ℕ)
    → w.free_slots ≡ s ∷ rest
    → (create_entity w).1 ≡ handle s (get_or w.slot_generations s 0)
unfolding create_entity alloc_entity_id
create_entity-takes w s rest free = rw free (if-same _ _ _ _ refl)

claimed : (w : World) (id : ℕ) → location w id ≡ none → (claim_id id w).1 ≡ id
unfolding claim_id
claimed w id new = rw (new, claim_id) refl

-- A 64-bit id that no entity has, with a slot below the limit that is the next free slot, is taken by
-- `create_entity_preassigned`; `create_entity` then returns the same id, that of a live entity.
pub create_entity_preassigned-repeats :
    (w : World) (id : ℕ) (rest : List ℕ)
    → id < 2 ^ 64
    → slot id < max_slot
    → location w id ≡ none
    → w.free_slots ≡ slot id ∷ rest
    → ((create_entity_preassigned id w).1 ≡ id)
      × ((create_entity (create_entity_preassigned id w).0).1 ≡ id)
unfolding create_entity_preassigned
create_entity_preassigned-repeats w id rest wide low new free =
    let pass : (slot id == u32_max || leb max_slot (slot id)) ≡ false = ground arith in
    let s = claim_id-slots w id new in
    rw (pass, create_entity_preassigned)
      (
        claimed w id new,
        create_entity-takes (claim_id id w).0 (slot id) rest (s.0 ∙ free)
            ∙ ap (handle (slot id)) s.1
            ∙ handle_of_fields id wide (omega (arith, low)),
      )
