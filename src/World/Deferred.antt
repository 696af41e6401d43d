-- ===== src/World/Deferred.antt =====
-- core/world.cpp: the deferred batch, and its commit as one move for each entity.
--
-- The sets of the commit are lists without repetition; the code sorts before it reads them in order.
pub mod FinalSet
use vortaris_ecs.Prelude.{
  ℕ, ◌≡◌, Bool, true, false, not, ◌&&◌, ◌||◌, Option, none, some, List, [], ◌∷◌, ◌++◌, ltb, leb,
  ◌==◌, nat_eq, if◌then◌else◌, ids_beq, length, keep_if, any, replicate,
}
use vortaris_ecs.Prelude.Map
use vortaris_ecs.Prelude.Map.{Map}
use vortaris_ecs.Entity.{Entity, ComponentTypeId}
use vortaris_ecs.Schema.{ComponentSchema}
use vortaris_ecs.Schema.Registry.{ComponentRegistry, schema_of}
use vortaris_ecs.World.{
  World, EntityLocation, ObserverEventType, PendingComponentOp, deref, location, dispatch, among,
  invalidate_cache, flush_invalidation,
}
use vortaris_ecs.World.Components.{write_component, migrate}
use vortaris_ecs.World.Entities.{destroy_entity, insert_unique}

-- What the loop over the ops collects: the final set, and the data of each type's last add.
pub record Net : Type 0 where
  pub final_set : List ComponentTypeId
  pub last_add_data : Map ComponentTypeId (List ℕ)

unfoldable pub apply_op : PendingComponentOp → Net → Net
apply_op op n =
    if op.add
    then record {
      final_set = insert_unique op.type n.final_set;
      last_add_data = Map.insert op.type op.bytes n.last_add_data;
    }
    else record n { final_set = keep_if (λ t. not (t == op.type)) n.final_set }

unfoldable pub apply_ops : List PendingComponentOp → Net → Net
unfolding apply_op
apply_ops [] n = n
apply_ops (op ∷ ops) n = apply_ops ops (apply_op op n)

-- `std::sort`.
unfoldable pub insert_id : ComponentTypeId → List ComponentTypeId → List ComponentTypeId
insert_id t [] = t ∷ []
insert_id t (x ∷ xs) = if leb t x then t ∷ x ∷ xs else x ∷ insert_id t xs

unfoldable pub sort_ids : List ComponentTypeId → List ComponentTypeId
unfolding insert_id
sort_ids [] = []
sort_ids (t ∷ ts) = insert_id t (sort_ids ts)

-- The bytes of a surviving write: those of the op, or zeros where it has none.
abbrev pub size_of : Option ComponentSchema → ℕ
size_of none = 0
size_of (some s) = s.size

abbrev pub surviving_bytes : ComponentRegistry → ComponentTypeId → List ℕ → List ℕ
surviving_bytes reg t [] = replicate (size_of (schema_of reg t)) 0
surviving_bytes reg t (b ∷ bs) = b ∷ bs

-- The loop over the final ids that writes what was added.
unfoldable pub write_survivors :
    ComponentRegistry
    → Entity
    → EntityLocation
    → Map ComponentTypeId (List ℕ)
    → List ComponentTypeId
    → World
    → World
unfolding write_component
write_survivors reg p_e host adds [] w = w
write_survivors reg p_e host adds (t ∷ ts) w =
    write_survivors reg p_e host adds ts (elim (Map.find t adds) [
      | none ↦ w
      | some bytes ↦ write_component p_e t host.archetype host.row (surviving_bytes reg t bytes) w
    ])

-- The two loops that dispatch the net changes.
unfoldable pub dispatch_kept :
    Entity
    → List ComponentTypeId
    → Map ComponentTypeId (List ℕ)
    → List ComponentTypeId
    → World
    → World
dispatch_kept p_e original adds [] w = w
dispatch_kept p_e original adds (t ∷ ts) w = dispatch_kept p_e original adds ts (
    if not (among t original)
    then dispatch ObserverEventType.added p_e t "" w
    else (if Map.contains t adds then dispatch ObserverEventType.changed p_e t "" w else w))

unfoldable pub dispatch_lost : Entity → List ComponentTypeId → List ComponentTypeId → World → World
dispatch_lost p_e final_set [] w = w
dispatch_lost p_e final_set (t ∷ ts) w =
    dispatch_lost p_e final_set ts
      (if among t final_set then w else dispatch ObserverEventType.removed p_e t "" w)

-- The commit, once the location and the ops were found.
unfoldable pub commit_ops :
    ComponentRegistry → Entity → EntityLocation → List PendingComponentOp → World → World
unfolding apply_ops sort_ids migrate write_survivors dispatch_kept dispatch_lost
commit_ops reg p_e loc ops w =
    let original = (deref w loc.archetype).component_ids in
    let net = apply_ops ops (record { final_set = original; last_add_data = [] }) in
    let final_ids = sort_ids net.final_set in
    let structural = not (ids_beq final_ids original) in
    let (w₁, host) = if structural then migrate reg p_e loc final_ids w else (w, loc) in
    let w₂ = write_survivors reg p_e host net.last_add_data final_ids w₁ in
    let w₃ = dispatch_kept p_e original net.last_add_data final_ids w₂ in
    let w₄ = dispatch_lost p_e net.final_set original w₃ in
    if structural then invalidate_cache w₄ else w₄

unfoldable pub commit_deferred_move : ComponentRegistry → Entity → World → World
unfolding commit_ops
commit_deferred_move reg p_e w = elim (location w p_e) [
  | none ↦ w
  | some loc ↦ elim (Map.find p_e w.pending_ops) [
    | none ↦ w
    | some ops ↦ commit_ops reg p_e loc ops w
  ]
]

unfoldable pub begin_deferred_moves : World → World
begin_deferred_moves w = record w { defer_moves = true }

-- The first loop of `end_deferred_moves`.
unfoldable pub destroy_pending : List Entity → World → World
destroy_pending [] w = w
destroy_pending (e ∷ es) w =
    destroy_pending es (if among e w.pending_destroy then destroy_entity e w else w)

-- The second loop.
unfoldable pub commit_pending : ComponentRegistry → List Entity → World → World
commit_pending reg [] w = w
commit_pending reg (e ∷ es) w =
    commit_pending reg es (if among e w.pending_destroy then w else commit_deferred_move reg e w)

unfoldable pub clear_pending : World → World
clear_pending w = record w {
  pending_ops = [];
  pending_destroy = [];
  deferred_entities = [];
  deferred_set = [];
}

unfoldable pub end_deferred_moves : ComponentRegistry → World → World
unfolding clear_pending
end_deferred_moves reg w =
    if not w.defer_moves
    then w
    else (let w' = record w { defer_moves = false } in
        flush_invalidation (
          clear_pending
            (commit_pending reg w.deferred_entities (destroy_pending w.deferred_entities w'))))
