-- ===== src/Tests/Parts.antt =====
-- The parts of the world: columns, archetypes, queries, the registry, handles, the log and the batch.
use text.Mathlib.TextEquality.{eq_iff}
use vortaris_ecs.Prelude.{
  ℕ, ◌+◌, ◌<◌, ◌≤◌, ◌%◌, ◌^◌, ◌≡◌, refl, true, false, none, some, List, [], ◌∷◌, nat_eq, ids_eq,
  length, arith, Option, Bool, ltb, inl, inr,
}
use vortaris_ecs.Prelude.Map.{find}
use vortaris_ecs.Archetype.{Archetype, Query, matches, remove_entity, add_entity}
use vortaris_ecs.Archetype.Addition.{add_entity-view, new_line}
use vortaris_ecs.Archetype.Columns.{zip_columns}
use vortaris_ecs.Archetype.Matching.{matches_lem}
use vortaris_ecs.Archetype.Refine.{view, remove_entity-view}
use vortaris_ecs.Column.{Column, fresh, init, append, swap_remove, ensure_versions}
use vortaris_ecs.Column.Bounds.{Step-IsValid, swap_removes, appends, inits, IsValid as IsColumn}
use vortaris_ecs.Entity.{slot}
use vortaris_ecs.Observers.{
  ObserverCallback, ObserverDispatch, dispatch, deliver, wants, passes, event_bit,
  add as add_observer, remove as remove_observer, clear as no_observers,
}
use vortaris_ecs.Observers.Delivery.{remove-add, dispatch-add}
use vortaris_ecs.Serialization.{le_bytes, write_bytes, read_le}
use vortaris_ecs.Serialization.Roundtrip.{read_le-write_bytes}
use vortaris_ecs.Query.{Ptr, QueryCache, no_queries, match, register_new_archetype, erase_archetype}
use vortaris_ecs.Query.Cache.{
  Consistent, selected, match-selected, register_new_archetype-Consistent,
  erase_archetype-Consistent,
}
use vortaris_ecs.Schema.{ComponentSchema}
use vortaris_ecs.Schema.Registry.{schema_of_name, empty_registry, register_component, schema_of}
use vortaris_ecs.Schema.Registry.Lookup.{register_component_lem}
use vortaris_ecs.Tests.{three, three-IsValid, pos, reg}
use vortaris_ecs.World.{World, ObserverEventType, deref, bump_tick}
use vortaris_ecs.World.ChangeLog.{log_change, change_log_lower_bound}
use vortaris_ecs.World.ChangeLog.Search.{IsBound, change_log_lower_bound-IsBound}
use vortaris_ecs.World.ChangeLog.Sorted.{IsOrderly, log_change-IsOrderly}
use vortaris_ecs.World.Collision.{create_entity_preassigned-repeats}
use vortaris_ecs.World.Copies.{copy_shared-find, merged}
use vortaris_ecs.World.Deferred.{apply_ops}
use vortaris_ecs.World.Deferred.FinalSet.{wrote, net_fate, apply_ops-eager}
use vortaris_ecs.World.Entities.{create_entity, create_entity_preassigned}
use vortaris_ecs.World.Growth.{new_archetype-IsSound}
use vortaris_ecs.World.Lifecycle.{uninitialised}
use vortaris_ecs.World.Moves.{copy_shared, new_archetype}

-- A column of two rows.
abbrev pair : Column
pair = append (3 ∷ 4 ∷ []) (append (1 ∷ 2 ∷ []) (init 2 1 fresh))

abbrev tracked : Column
tracked = ensure_versions 7 pair

apply_ops-eager_example :
    net_fate 1 (
      apply_ops
        (record { type = 1; add = false; bytes = [] }
          ∷ record { type = 1; add = true; bytes = 5 ∷ [] }
          ∷ [])
        (record { final_set = 1 ∷ 2 ∷ []; last_add_data = [] }))
    ≡ wrote (5 ∷ [])
apply_ops-eager_example =
    apply_ops-eager
      (record { type = 1; add = false; bytes = [] }
        ∷ record { type = 1; add = true; bytes = 5 ∷ [] }
        ∷ [])
      1 (1 ∷ 2 ∷ [])

copy_shared-find_example :
    find 2
      (zip_columns (2 ∷ []) (copy_shared ((1, pair) ∷ (2, tracked) ∷ []) 1 ((2, tracked) ∷ []) 0))
    ≡ merged (some tracked) 1 (some tracked) 0
unfolding find
copy_shared-find_example =
    copy_shared-find 0 0 2 ((1, pair) ∷ (2, tracked) ∷ []) ((2, tracked) ∷ []) 1 0
      (omega arith, (omega arith, tt)) (omega arith, tt)

abbrev any_with_one : Query
any_with_one = record { all = 1 ∷ []; any = []; none = [] }

pub no_queries-Consistent :
    (deref : Ptr → Archetype) (ps : List Ptr) → Consistent deref ps no_queries
unfolding find
no_queries-Consistent deref ps = record { keys = tt; entries = λ key q h. ground (arith, h) }

match-selected_example :
    ((match (deref three) any_with_one (1 ∷ 2 ∷ []) no_queries).1
      ≡ selected (deref three) (1 ∷ 2 ∷ []) any_with_one)
    × Consistent
        (deref three)
        (1 ∷ 2 ∷ [])
        (match (deref three) any_with_one (1 ∷ 2 ∷ []) no_queries).0
match-selected_example =
    match-selected (deref three) (1 ∷ 2 ∷ []) no_queries
      (no_queries-Consistent (deref three) (1 ∷ 2 ∷ [])) any_with_one

abbrev filled : QueryCache
filled = (match (deref three) any_with_one (1 ∷ []) no_queries).0

filled-Consistent : Consistent (deref three) (1 ∷ []) filled
filled-Consistent =
    (match-selected (deref three) (1 ∷ []) no_queries (no_queries-Consistent (deref three) (1 ∷ []))
      any_with_one).1

register_new_archetype-Consistent_example :
    Consistent (deref three) (1 ∷ 2 ∷ []) (register_new_archetype (deref three) 2 filled)
register_new_archetype-Consistent_example =
    register_new_archetype-Consistent (deref three) (1 ∷ []) 2 filled filled-Consistent

erase_archetype-Consistent_example : Consistent (deref three) [] (erase_archetype 1 filled)
unfolding vortaris_ecs.Prelude.keep_if
erase_archetype-Consistent_example =
    erase_archetype-Consistent (deref three) (1 ∷ []) 1 filled filled-Consistent

remove_entity-view_example : view (remove_entity 1 (deref three 2)).0 1 ≡ none
remove_entity-view_example = remove_entity-view 1 1 (deref three 2) (three-IsValid.sound 2)

abbrev with_one : Archetype
with_one = new_archetype reg (1 ∷ [])

matches_lem_example : matches any_with_one with_one ≡ true
unfolding new_archetype vortaris_ecs.Prelude.all vortaris_ecs.Prelude.any
matches_lem_example =
    matches_lem any_with_one with_one (new_archetype-IsSound reg (1 ∷ []) (omega arith, tt))

add_entity-view_example :
    ((add_entity 5 9 with_one).1 ≡ 0)
    × (view (add_entity 5 9 with_one).0 5 ≡ some (new_line 9 with_one))
unfolding new_archetype find
add_entity-view_example =
    add_entity-view 5 5 9 with_one (new_archetype-IsSound reg (1 ∷ []) (omega arith, tt)) refl

register_component_lem_example :
    let r = register_component pos empty_registry in
    let s : ComponentSchema = record pos { type_id = 1 } in
    (r.1 ≡ 1)
    × (schema_of r.0 r.1 ≡ some s)
    × (schema_of_name r.0 "pos" ≡ some s)
    × ((id : ℕ) → id ≤ 0 → schema_of r.0 id ≡ schema_of empty_registry id)
unfolding find
register_component_lem_example =
    register_component_lem pos empty_registry (λ e. ground (arith, (eq_iff "pos" "").1 e)) refl
      (omega arith)

fresh-IsValid : IsColumn fresh
fresh-IsValid = record { fits = omega arith; versioned = λ h. ground (arith, h); plain = λ h. refl }

pair-IsValid : IsColumn pair
pair-IsValid =
    Step-IsValid (appends (3 ∷ 4 ∷ []))
      (Step-IsValid (appends (1 ∷ 2 ∷ [])) (Step-IsValid (inits 2 1) fresh-IsValid))

Step-IsValid_example : IsColumn (swap_remove 0 pair)
unfolding append init
Step-IsValid_example = Step-IsValid (swap_removes 0 (omega arith)) pair-IsValid

-- A world that has logged a write.
abbrev written_once : World
written_once = log_change 1 1 (bump_tick uninitialised).change_tick (bump_tick uninitialised)

uninitialised-IsOrderly : IsOrderly uninitialised
uninitialised-IsOrderly = record {
  sorted = λ i j h k. absurd (omega arith);
  past = λ i h. absurd (omega arith);
  bounded = omega arith;
}

log_change-IsOrderly_example :
    IsOrderly (log_change 1 1 (bump_tick written_once).change_tick (bump_tick written_once))
log_change-IsOrderly_example =
    log_change-IsOrderly written_once 1 1
      (log_change-IsOrderly uninitialised 1 1 uninitialised-IsOrderly)

change_log_lower_bound-IsBound_example :
    IsBound written_once.change_log 1 (change_log_lower_bound written_once 1)
change_log_lower_bound-IsBound_example =
    change_log_lower_bound-IsBound written_once 1
      ((log_change-IsOrderly uninitialised 1 1 uninitialised-IsOrderly).sorted)

-- A world whose next free slot is 0, at another generation.
abbrev recycled : World
recycled = record uninitialised { free_slots = 0 ∷ []; slot_generations = 5 ∷ [] }

create_entity_preassigned-repeats_example :
    ((create_entity_preassigned 1 recycled).1 ≡ 1)
    × ((create_entity (create_entity_preassigned 1 recycled).0).1 ≡ 1)
unfolding slot find
create_entity_preassigned-repeats_example =
    create_entity_preassigned-repeats recycled 1 [] (omega arith) (omega arith) refl refl

read_le-write_bytes_example :
    read_le 4
      (record (write_bytes
        (7 ∷ [])
        (write_bytes (le_bytes 4 70000) (record { bytes = 9 ∷ []; pos = 1 }))) { pos = 1 })
    ≡ some (
      70000,
      record (write_bytes
          (7 ∷ [])
          (write_bytes (le_bytes 4 70000) (record { bytes = 9 ∷ []; pos = 1 }))) { pos = 5 },
    )
read_le-write_bytes_example =
    read_le-write_bytes 4 70000 (7 ∷ []) (record { bytes = 9 ∷ []; pos = 1 }) (omega arith)

abbrev watcher : ObserverCallback
watcher = record {
  id = 0;
  fn = some 4;
  event_mask = 1;
  component_filter = [];
  watch_all = true;
  custom_name = "";
}

abbrev watched : ObserverDispatch
watched = (add_observer watcher no_observers).0

remove-add_example :
    (remove_observer (add_observer watcher watched).1 (add_observer watcher watched).0).callbacks
    ≡ watched.callbacks
unfolding add_observer
remove-add_example = remove-add watcher watched (omega arith, tt)

dispatch-add_example :
    (dispatch ObserverEventType.added 1 1 "" (add_observer watcher watched).0).0 ≡ 4 ∷ 4 ∷ []
unfolding add_observer dispatch deliver wants passes event_bit
dispatch-add_example = dispatch-add ObserverEventType.added 1 1 "" watcher watched
