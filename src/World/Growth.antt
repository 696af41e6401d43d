-- ===== src/World/Growth.antt =====
-- core/world.cpp: archetypes made on demand, and the operations that may make one.
use vortaris_ecs.Prelude.{
  ◌≡◌, refl, sym, ap, ◌∙◌, Option, none, some, List, [], ◌∷◌, map, ◌==◌, nat_eq, ids_eq,
  nat_beq_iff, arith, Option-cases, Bool-cases, inl, inr,
}
use vortaris_ecs.Prelude.Map.{find, insert}
use vortaris_ecs.Entity.{Entity, ComponentTypeId}
use vortaris_ecs.Schema.{ComponentSchema}
use vortaris_ecs.Schema.Registry.{ComponentRegistry, schema_of}
use vortaris_ecs.Column.{init, fresh}
use vortaris_ecs.Column.Bounds.{init-IsValid}
use vortaris_ecs.Archetype.{Archetype, blank}
use vortaris_ecs.Archetype.Invariant.{Ascends, Parallel, Sized, length-map, IsValid as IsSound}
use vortaris_ecs.Query.{Ptr}
use vortaris_ecs.World.{World}
use vortaris_ecs.World.Invariant.{Heap, Locations, Placed, IsValid, behind-insert, row_of}
use vortaris_ecs.World.Lifecycle.{new_world, uninitialised}
use vortaris_ecs.World.Moves.{column_for, new_archetype, create_archetype, ensure_archetype}

column_for-Sized : (o : Option ComponentSchema) → Sized 0 (column_for o)
unfolding init
column_for-Sized none = (refl, init-IsValid 0 1 fresh)
column_for-Sized (some s) = (refl, init-IsValid s.size s.alignment fresh)

columns-Parallel :
    (reg : ComponentRegistry) (ids : List ComponentTypeId)
    → Parallel 0 (map (λ t. column_for (schema_of reg t)) ids)
columns-Parallel reg [] = tt
columns-Parallel reg (t ∷ ts) =
    let s = column_for-Sized (schema_of reg t) in (s.0, s.1, columns-Parallel reg ts)

pub new_archetype-IsSound :
    (reg : ComponentRegistry) (ids : List ComponentTypeId)
    → Ascends 0 ids
    → IsSound (new_archetype reg ids)
unfolding new_archetype find
new_archetype-IsSound reg ids s = record {
  ids = s;
  width = length-map (λ t. column_for (schema_of reg t)) ids;
  height = columns-Parallel reg ids;
  flags = refl;
  small = omega arith;
  indexed = λ e r f. ground (arith, f);
  covered = λ e r f. ground (arith, f);
  real = refl;
}

module _ (h : Heap) (l : Locations) (valid : Placed h l) where
  -- An archetype without entities behind a pointer that has none.
  insert-empty :
      (p : Ptr) (a : Archetype)
      → find p h ≡ none
      → IsSound a
      → a.entity_to_row ≡ []
      → Placed (insert p a h) l
  unfolding find
  insert-empty p a free s bare = record {
    sound = λ q. elim (Bool-cases (p == q)) [
      | inl same ↦ rw (behind-insert p q a h, same) s
      | inr other ↦ rw (behind-insert p q a h, other) (valid.sound q)
    ];
    located = λ e q r f. rw (same_rows q e) (valid.located e q r f);
    hosted = λ q e r f. valid.hosted q e r (sym (same_rows q e) ∙ f);
  }
    where
      none-behind : (e : Entity) → row_of h p e ≡ none
      none-behind e = rw free refl

      same_rows : (q : Ptr) (e : Entity) → row_of (insert p a h) q e ≡ row_of h q e
      same_rows q e = elim (Bool-cases (p == q)) [
        | inr other ↦ rw (behind-insert p q a h, other) refl
        | inl same ↦
            let k : p ≡ q = (nat_beq_iff p q).0 same in
            rw (behind-insert p q a h, same, bare) (sym (none-behind e) ∙ ap (λ x. row_of h x e) k)
      ]

create_archetype-rows :
    (reg : ComponentRegistry) (ids : List ComponentTypeId) (w : World)
    → ((create_archetype reg ids w).0.heap ≡ insert w.next_ptr (new_archetype reg ids) w.heap)
      × ((create_archetype reg ids w).0.entity_locations ≡ w.entity_locations)
unfolding create_archetype
create_archetype-rows reg ids w = (refl, refl)

-- A new archetype is empty, and everything else stays.
pub create_archetype-IsValid :
    (reg : ComponentRegistry) (ids : List ComponentTypeId) (w : World)
    → Ascends 0 ids
    → find w.next_ptr w.heap ≡ none
    → IsValid w
    → IsValid (create_archetype reg ids w).0
unfolding new_archetype
create_archetype-IsValid reg ids w s free valid =
    let (h, l) = create_archetype-rows reg ids w in
    rw (h, l)
      (insert-empty w.heap w.entity_locations valid w.next_ptr (new_archetype reg ids) free
        (new_archetype-IsSound reg ids s) refl)

pub ensure_archetype-IsValid :
    (reg : ComponentRegistry) (ids : List ComponentTypeId) (w : World)
    → Ascends 0 ids
    → find w.next_ptr w.heap ≡ none
    → IsValid w
    → IsValid (ensure_archetype reg ids w).0
unfolding ensure_archetype
ensure_archetype-IsValid reg ids w s free valid = elim (Option-cases (find ids w.archetypes)) [
  | inr (a, there) ↦ rw (there, ensure_archetype) valid
  | inl absent ↦ rw (absent, ensure_archetype) (create_archetype-IsValid reg ids w s free valid)
]

blank-IsSound : IsSound blank
unfolding find
blank-IsSound = record {
  ids = tt;
  width = refl;
  height = tt;
  flags = refl;
  small = omega arith;
  indexed = λ e r f. ground (arith, f);
  covered = λ e r f. ground (arith, f);
  real = refl;
}

uninitialised-IsValid : IsValid uninitialised
unfolding find
uninitialised-IsValid = record {
  sound = λ p. blank-IsSound;
  located = λ e p r f. ground (arith, f);
  hosted = λ p e r f. ground (arith, f);
}

-- A new world is valid, whatever is registered.
pub new_world-IsValid : (reg : ComponentRegistry) → IsValid (new_world reg)
unfolding new_world find
new_world-IsValid reg =
    let v = create_archetype-IsValid reg [] uninitialised tt refl uninitialised-IsValid in
    record { sound = v.sound; located = v.located; hosted = v.hosted }
