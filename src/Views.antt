-- ===== src/Views.antt =====
-- core/world.h: the templates over component types, `for_each`, `View` and `ChangeView`.
--
-- A template's types are their ids, in the order in which they are written. A loop is the list of its calls: the
-- entity and, for each type, what stands in the row of the column that the call is given. The callback does not
-- change rows or archetypes, which the guard on iterations refuses; what it writes into its row no later call reads.
pub mod Calls
pub mod Steady
pub mod Hidden
use vortaris_ecs.Prelude.{
  ℕ, zero, suc, ◌+◌, Bool, true, false, not, ◌&&◌, ◌||◌, Option, none, some, List, [], ◌∷◌, ◌++◌,
  map, ltb, leb, ◌==◌, nat_eq, ids_beq, if◌then◌else◌, length, drop, any, all,
}
use vortaris_ecs.Archetype.{Archetype, Query, has_component, column, get_enabled}
use vortaris_ecs.Column.{Column, Row, ensure_versions, row_changed_since, top_version}
use vortaris_ecs.Entity.{Entity, ComponentTypeId}
use vortaris_ecs.Query.{Ptr, match}
use vortaris_ecs.World.{
  World, ChangeLogEntry, among, begin_iteration, deref, end_iteration, is_alive, store,
}
use vortaris_ecs.World.ChangeLog.{change_log_lower_bound}
use vortaris_ecs.World.Components.{has, row_in, update_column}
use vortaris_ecs.World.Deferred.{sort_ids}
use vortaris_ecs.World.Entities.{insert_unique}

abbrev pub Call : Type 0
Call = Entity × List (Option Row)

-- `detail::for_each_row`: the ids name the columns, one after the other.
abbrev pub for_each_row : Archetype → List ComponentTypeId → ℕ → List (Option Row)
for_each_row a p_ids row = map (λ t. row_in row (column a t)) p_ids

unfoldable pub call_rows : Archetype → List ComponentTypeId → ℕ → List Entity → List Call
call_rows a p_ids row [] = []
call_rows a p_ids row (e ∷ es) = (e, for_each_row a p_ids row) ∷ call_rows a p_ids (suc row) es

unfoldable pub call_enabled : Archetype → List ComponentTypeId → ℕ → List Entity → List Call
call_enabled a p_ids row [] = []
call_enabled a p_ids row (e ∷ es) =
    if get_enabled row a
    then (e, for_each_row a p_ids row) ∷ call_enabled a p_ids (suc row) es
    else call_enabled a p_ids (suc row) es

unfoldable pub call_all : World → List ComponentTypeId → List Ptr → List Call
unfolding call_rows
call_all w p_ids [] = []
call_all w p_ids (p ∷ ps) =
    call_rows (deref w p) p_ids 0 (deref w p).entities ++ call_all w p_ids ps

unfoldable pub call_all_enabled : World → List ComponentTypeId → List Ptr → List Call
unfolding call_enabled
call_all_enabled w p_ids [] = []
call_all_enabled w p_ids (p ∷ ps) =
    call_enabled (deref w p) p_ids 0 (deref w p).entities ++ call_all_enabled w p_ids ps

-- `q.all` sorted, and nothing else.
abbrev pub query_of : List ComponentTypeId → Query
query_of ids = record { all = ids; any = []; none = [] }

-- `query_cache_.match(q, archetype_list_)`.
abbrev pub matched : Query → World → World × List Ptr
matched q w =
    let r = match (deref w) q w.archetype_list w.query_cache in
    (record w { query_cache = r.0 }, r.1)

-- Both loops hand the sorted ids on.
unfoldable pub for_each : List ComponentTypeId → World → World × List Call
unfolding sort_ids call_all match
for_each ids w =
    let s_ids = sort_ids ids in
    let r = matched (query_of s_ids) w in
    (end_iteration (begin_iteration r.0), call_all r.0 s_ids r.1)

unfoldable pub for_each_enabled : List ComponentTypeId → World → World × List Call
unfolding sort_ids call_all_enabled match
for_each_enabled ids w =
    let s_ids = sort_ids ids in
    let r = matched (query_of s_ids) w in
    (end_iteration (begin_iteration r.0), call_all_enabled r.0 s_ids r.1)

-- `View::each` and `View::count` of a view with a world.
unfoldable pub each : List ComponentTypeId → World → World × List Call
unfolding sort_ids call_all match
each ids w =
    let r = matched (query_of (sort_ids ids)) w in
    (end_iteration (begin_iteration r.0), call_all r.0 ids r.1)

unfoldable pub count_rows : World → List Ptr → ℕ
count_rows w [] = 0
count_rows w (p ∷ ps) = length (deref w p).entities + count_rows w ps

unfoldable pub count : List ComponentTypeId → World → World × ℕ
unfolding sort_ids count_rows match
count ids w = let r = matched (query_of (sort_ids ids)) w in (r.0, count_rows r.0 r.1)

pub record ChangeView : Type 0 where
  pub ids : List ComponentTypeId
  pub baseline : ℕ
  pub log_pos : ℕ
  pub log_gen : ℕ
  pub warmed_up : Bool
  pub last_arches : List Ptr

-- `World::changes`.
abbrev pub changes : List ComponentTypeId → World → ChangeView
changes ids w = record {
  ids = ids;
  baseline = w.change_tick;
  log_pos = 0;
  log_gen = 0;
  warmed_up = false;
  last_arches = [];
}

-- The columns of the watched components keep versions from now on.
unfoldable pub stamp : List ComponentTypeId → ℕ → Archetype → Archetype
unfolding update_column
stamp [] tick a = a
stamp (t ∷ ts) tick a =
    stamp ts tick (if has_component a t then update_column t (λ c. ensure_versions tick c) a else a)

abbrev pub top_of : Option Column → ℕ
top_of none = 0
top_of (some c) = top_version c

abbrev pub changed_in : ℕ → ℕ → Option Column → Bool
changed_in row baseline none = false
changed_in row baseline (some c) = row_changed_since row baseline c

-- Has a column of the archetype a version above the baseline?
unfoldable pub moved_on : List ComponentTypeId → ℕ → Archetype → Bool
unfolding any
moved_on ids baseline a = any (λ t. has_component a t && ltb baseline (top_of (column a t))) ids

-- `if (changed && seen.insert(e).second) out.push_back(e)`.
unfoldable pub scan_rows :
    List ComponentTypeId → ℕ → Archetype → ℕ → List Entity → List Entity → List Entity
unfolding any
scan_rows ids baseline a row [] out = out
scan_rows ids baseline a row (e ∷ es) out = scan_rows ids baseline a (suc row) es (
    if any (λ t. has_component a t && changed_in row baseline (column a t)) ids
    then insert_unique e out
    else out)

-- Layer (a).
unfoldable pub scan_archetypes :
    List ComponentTypeId → ℕ → List Ptr → World × List Entity → World × List Entity
unfolding stamp moved_on scan_rows
scan_archetypes ids baseline [] r = r
scan_archetypes ids baseline (p ∷ ps) r =
    let a = stamp ids r.0.change_tick (deref r.0 p) in
    scan_archetypes ids baseline ps (
      store p a r.0,
      if moved_on ids baseline a then scan_rows ids baseline a 0 a.entities r.1 else r.1,
    )

-- `_matches_all`.
abbrev pub matches_all : World → List ComponentTypeId → Entity → Bool
matches_all w ids e = all (λ t. has w e t) ids

-- Does layer (b) report the entity of this entry?
abbrev pub reports : World → ChangeView → ChangeLogEntry → Bool
reports w v x =
    ltb v.baseline x.tick
    && (any (λ t. x.comp == t) v.ids && (is_alive w x.entity && matches_all w v.ids x.entity))

-- Layer (b), from a position of the log on.
unfoldable pub read_log : World → ChangeView → List ChangeLogEntry → List Entity → List Entity
unfolding all any
read_log w v [] out = out
read_log w v (x ∷ xs) out =
    read_log w v xs (if reports w v x then insert_unique x.entity out else out)

-- A first take, another set of archetypes, or a log that was compacted.
abbrev pub log_invalidated : ChangeView → World → Bool
log_invalidated v w = not (w.change_log_generation == v.log_gen)

abbrev pub need_layer_a : ChangeView → World → List Ptr → Bool
need_layer_a v w arches =
    (not v.warmed_up || log_invalidated v w) || not (ids_beq v.last_arches arches)

-- A view with a world.
unfoldable pub take : ChangeView → World → ChangeView × (World × List Entity)
unfolding scan_archetypes read_log sort_ids match change_log_lower_bound
take v w =
    let r = matched (query_of (sort_ids v.ids)) w in
    let a =
      if need_layer_a v r.0 r.1
      then scan_archetypes v.ids v.baseline r.1 (r.0, [])
      else (r.0, []) in
    let start =
      if not v.warmed_up || log_invalidated v r.0
      then change_log_lower_bound a.0 v.baseline
      else v.log_pos in
    (
      record v {
        baseline = a.0.change_tick;
        log_pos = length a.0.change_log;
        log_gen = r.0.change_log_generation;
        warmed_up = true;
        last_arches = r.1;
      },
      (a.0, sort_ids (read_log a.0 v (drop start a.0.change_log) a.1)),
    )
