-- ===== src/World/Ids.antt =====
-- core/world.cpp: the allocation of entity ids.
use vortaris_ecs.Prelude.{
  ℕ, ◌+◌, ◌-◌, ◌^◌, not, List, [], ◌∷◌, ◌++◌, ltb, leb, ◌==◌, nat_eq, if◌then◌else◌, length, get_or,
  set, replicate,
}
use vortaris_ecs.Entity.{Entity, slot, generation, handle}
use vortaris_ecs.World.{World}

-- `slot_generations_.resize(n, 0)` where n is not below the size.
abbrev pub resize : ℕ → List ℕ → List ℕ
resize n gens = gens ++ replicate (n - length gens) 0

abbrev pub u32_max : ℕ
u32_max = 2 ^ 32 - 1

-- Where there is no free slot.
unfoldable pub alloc_fresh : World → World × Entity
alloc_fresh w = if leb 0xFFFFFFFE (length w.slot_generations) then (w, 0) else (
  record w { slot_generations = w.slot_generations ++ 0 ∷ [] },
  handle (length w.slot_generations) 0,
)

unfoldable pub alloc_entity_id : World → World × Entity
unfolding alloc_fresh
alloc_entity_id w = elim w.free_slots [
  | [] ↦ alloc_fresh w
  | idx ∷ rest ↦ (record w { free_slots = rest }, handle idx (get_or w.slot_generations idx 0))
]

unfoldable pub free_entity_id : Entity → World → World
free_entity_id p_e w =
    let s = slot p_e in
    if leb (length w.slot_generations) s
    then w
    else (if not (get_or w.slot_generations s 0 == generation p_e)
        then w
        else (if generation p_e == u32_max
            then record w { slot_generations = set w.slot_generations s u32_max }
            else record w {
              slot_generations = set w.slot_generations s (generation p_e + 1);
              free_slots = s ∷ w.free_slots;
            }))

unfoldable pub set_entity_range : ℕ → World → World
set_entity_range p_base_index w =
    if ltb (length w.slot_generations) p_base_index
    then record w { slot_generations = resize p_base_index w.slot_generations }
    else w
