-- ===== src/Tests/Loops.antt =====
-- core/world.h: an archetype with two components, of which entity 1 was written at tick 3.
use vortaris_ecs.Prelude.{
  map, none, arith, List, ◌==◌, if◌then◌else◌, ◌≡◌, refl, true, some, [], ◌∷◌, nat_eq, length, any,
  all, keep_if,
}
use vortaris_ecs.Prelude.Map.{find}
use vortaris_ecs.Archetype.{
  Archetype, add_entity, remove_entity, grow_column, blank, matches, has_component, found_at,
  lower_bound,
}
use vortaris_ecs.Column.{fresh, grow, set_version}
use vortaris_ecs.Query.{match, cached, no_queries}
use vortaris_ecs.World.{deref, store, World, among, is_alive}
use vortaris_ecs.World.Components.{has}
use vortaris_ecs.World.Deferred.{sort_ids, insert_id}
use vortaris_ecs.World.Invariant.{at}
use vortaris_ecs.World.Lifecycle.{uninitialised}
use vortaris_ecs.Views.{query_of, scan_archetypes, ChangeView, for_each, each, count, take}
use vortaris_ecs.Views.Calls.{members, raw_call, for_each-get_raw}
use vortaris_ecs.Views.Hidden.{scan_archetypes-removed}
use vortaris_ecs.Tests.{three, three-IsValid}
use vortaris_ecs.Tests.Parts.{no_queries-Consistent}
use vortaris_ecs.Query.Cache.{selected}
use vortaris_ecs.Archetype.Invariant.{IsValid as IsSound, add_entity-IsValid}
use vortaris_ecs.Archetype.Refine.{view as archetype_view}
use vortaris_ecs.Entity.{Entity}
use vortaris_ecs.Views.Steady.{take_steady}

abbrev pair : World
pair = record uninitialised {
  entity_locations = (1, at 5 0) ∷ [];
  archetype_list = 5 ∷ [];
  query_cache = no_queries;
  change_tick = 3;
  change_log = record { entity = 1; comp = 2; tick = 3 } ∷ [];
  heap =
      (
        5,
        record blank {
          entities = 1 ∷ [];
          component_ids = 1 ∷ 2 ∷ [];
          columns =
              record fresh { rows = some (7 ∷ []) ∷ [] }
              ∷ record fresh { rows = some (8 ∷ []) ∷ [] }
              ∷ [];
        },
      )
      ∷ [];
}

abbrev view : ChangeView
view = record {
  ids = 2 ∷ 1 ∷ [];
  baseline = 2;
  log_pos = 0;
  log_gen = 0;
  warmed_up = true;
  last_arches = 5 ∷ [];
}

-- The small world with an empty cache.
abbrev uncached : World
uncached = record three { query_cache = no_queries }

for_each-get_raw_example :
    let es =
      members uncached
        (selected (deref uncached) uncached.archetype_list (query_of (sort_ids (1 ∷ [])))) in
    ((for_each (1 ∷ []) uncached).1 ≡ map (raw_call uncached (sort_ids (1 ∷ []))) es)
    × ((each (1 ∷ []) uncached).1 ≡ map (raw_call uncached (1 ∷ [])) es)
    × ((count (1 ∷ []) uncached).1 ≡ length es)
for_each-get_raw_example =
    for_each-get_raw (1 ∷ []) uncached three-IsValid
      (no_queries-Consistent (deref uncached) uncached.archetype_list)

take_steady_example : among 1 (take view pair).1.1 ≡ true
unfolding sort_ids insert_id any all find is_alive has has_component lower_bound found_at match
    cached matches keep_if
take_steady_example = take_steady view pair 1 refl refl refl

-- An archetype of two entities, whose column keeps versions.
abbrev bare : Archetype
bare = record blank { component_ids = 1 ∷ []; columns = record fresh { tracking = true } ∷ [] }

abbrev crowd : Archetype
crowd = (add_entity 2 4 (add_entity 1 3 bare).0).0

bare-IsValid : IsSound bare
unfolding find
bare-IsValid = record {
  ids = (omega arith, tt);
  width = refl;
  height =
      (refl, record { fits = omega arith; versioned = λ h. refl; plain = λ h. absurd (cc) }, tt);
  flags = refl;
  small = omega arith;
  indexed = λ e r h. absurd (ground (arith, h));
  covered = λ e r h. absurd (ground (arith, h));
  real = refl;
}

crowd-IsValid : IsSound crowd
unfolding find vortaris_ecs.Prelude.Map.insert add_entity
crowd-IsValid =
    add_entity-IsValid (add_entity 1 3 bare).0
      (add_entity-IsValid bare bare-IsValid 1 3 (omega arith) refl (omega arith)) 2 4 (omega arith)
      refl (omega arith)

abbrev crowded : World
crowded = record uninitialised { heap = (5, crowd) ∷ [] }

scan_archetypes-removed_example :
    let a = (remove_entity 1 crowd).0 in
    ((scan_archetypes (1 ∷ []) 2 (5 ∷ []) (store 5 a crowded, [])).1 ≡ [])
    × ((q : Entity) → archetype_view a q ≡ (if 1 == q then none else archetype_view crowd q))
unfolding find vortaris_ecs.Prelude.Map.insert add_entity grow_column grow set_version
scan_archetypes-removed_example =
    scan_archetypes-removed (1 ∷ []) 2 crowded 5 1 0 [] crowd-IsValid refl (refl, tt)
