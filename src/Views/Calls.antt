-- ===== src/Views/Calls.antt =====
-- core/world.h: what the loops call.
use vortaris_ecs.Prelude.{
  ℕ, suc, ◌+◌, ◌≡◌, refl, ap, ap₂, sym, ◌∙◌, false, some, List, [], ◌∷◌, ◌++◌, map, length, arith,
  length-append, nat_eq, ◌==◌, get_elem?,
}
use vortaris_ecs.Archetype.{Archetype, column, column_index, has_component}
use vortaris_ecs.Entity.{Entity, ComponentTypeId}
use vortaris_ecs.Query.{Ptr, QueryCache, match}
use vortaris_ecs.Query.Cache.{Consistent, selected, match-selected}
use vortaris_ecs.World.{World, deref, location}
use vortaris_ecs.World.Components.{get_raw, component_at, row_in}
use vortaris_ecs.World.Deferred.{sort_ids}
use vortaris_ecs.World.Invariant.{IsValid, at}
use vortaris_ecs.Views.{
  Call, for_each_row, call_rows, call_all, query_of, for_each, each, count_rows, count,
}

-- The entities of the archetypes in a list, one archetype behind the other.
abbrev pub members : World → List Ptr → List Entity
members w [] = []
members w (p ∷ ps) = (deref w p).entities ++ members w ps

-- A call with what `get_raw` reads of the entity's components.
abbrev pub raw_call : World → List ComponentTypeId → Entity → Call
raw_call w ids e = (e, map (λ t. get_raw w e t) ids)

guarded : (a : Archetype) (t : ComponentTypeId) (r : ℕ) → component_at a t r ≡ row_in r (column a t)
unfolding component_at column column_index has_component
guarded a t r = ground arith

map-append {ℓ κ} :
    {A : Type ℓ} {B : Type κ} (f : A → B) (xs ys : List A) → map f (xs ++ ys) ≡ map f xs ++ map f ys
map-append f [] ys = refl
map-append f (x ∷ xs) ys = ap (◌∷◌ (f x)) (map-append f xs ys)

module _ (w : World) (valid : IsValid w) where
  -- A row of an archetype is the entity's.
  row-get_raw :
      (p : Ptr) (k : ℕ) (e : Entity) (t : ComponentTypeId)
      → get_elem? (deref w p).entities k ≡ some e
      → row_in k (column (deref w p) t) ≡ get_raw w e t
  unfolding get_raw
  row-get_raw p k e t there =
      let indexed = (valid.sound p).covered e k there in
      let found : location w e ≡ some (at p k) = valid.hosted p e k indexed in
      let real : (e == 0) ≡ false = ground (arith, indexed, (valid.sound p).real) in
      rw (get_raw, real, found) (sym (guarded (deref w p) t k))

  row-raw_call :
      (p : Ptr) (k : ℕ) (e : Entity) (ids : List ComponentTypeId)
      → get_elem? (deref w p).entities k ≡ some e
      → for_each_row (deref w p) ids k ≡ map (λ t. get_raw w e t) ids
  row-raw_call p k e [] there = refl
  row-raw_call p k e (t ∷ ids) there =
      ap₂ ◌∷◌ (row-get_raw p k e t there) (row-raw_call p k e ids there)

  -- The calls from a row of an archetype on.
  call_rows-raw :
      (p : Ptr) (ids : List ComponentTypeId) (k : ℕ) (es : List Entity)
      → ((i : ℕ) → get_elem? (deref w p).entities (k + i) ≡ get_elem? es i)
      → call_rows (deref w p) ids k es ≡ map (raw_call w ids) es
  unfolding call_rows
  call_rows-raw p ids k [] h = refl
  call_rows-raw p ids k (e ∷ es) h =
      let here : get_elem? (deref w p).entities k ≡ some e =
        ap (get_elem? (deref w p).entities) {y = k + 0} (omega arith) ∙ h 0 in
      ap₂ (λ r rs. (e, r) ∷ rs) (row-raw_call p k e ids here)
        (call_rows-raw p ids (suc k) es
          (λ i. ap (get_elem? (deref w p).entities) {y = k + suc i} (omega arith) ∙ h (suc i)))

  call_all-raw :
      (c : QueryCache) (ids : List ComponentTypeId) (ps : List Ptr)
      → call_all (record w { query_cache = c }) ids ps ≡ map (raw_call w ids) (members w ps)
  unfolding call_all
  call_all-raw c ids [] = refl
  call_all-raw c ids (p ∷ ps) =
      ap₂ ◌++◌
        (call_rows-raw p ids 0 (deref w p).entities
          (λ i. ap (get_elem? (deref w p).entities) {x = 0 + i} {y = i} (omega arith)))
        (call_all-raw c ids ps)
      ∙ sym (map-append (raw_call w ids) (deref w p).entities (members w ps))

length-members :
    (w : World) (c : QueryCache) (ps : List Ptr)
    → count_rows (record w { query_cache = c }) ps ≡ length (members w ps)
unfolding count_rows
length-members w c [] = refl
length-members w c (p ∷ ps) =
    ap (λ n. length (deref w p).entities + n) (length-members w c ps)
    ∙ sym (length-append (deref w p).entities (members w ps))

-- In a valid world with a consistent query cache, let the members be the entities of the archetypes that have all
-- the types, in the order of the list of archetypes. `for_each` calls with each member and what `get_raw` reads of
-- its components in the ascending order of their ids; a view calls with each member and what `get_raw` reads
-- of its components in the order in which the types are written, and counts the members.
pub for_each-get_raw :
    (ids : List ComponentTypeId) (w : World)
    → IsValid w
    → Consistent (deref w) w.archetype_list w.query_cache
    → let es = members w (selected (deref w) w.archetype_list (query_of (sort_ids ids))) in
      ((for_each ids w).1 ≡ map (raw_call w (sort_ids ids)) es)
      × ((each ids w).1 ≡ map (raw_call w ids) es)
      × ((count ids w).1 ≡ length es)
unfolding for_each each count match
for_each-get_raw ids w valid cache =
    let r = match (deref w) (query_of (sort_ids ids)) w.archetype_list w.query_cache in
    let same =
      (match-selected (deref w) w.archetype_list w.query_cache cache (query_of (sort_ids ids))).0 in
    (
      call_all-raw w valid r.0 (sort_ids ids) r.1
          ∙ ap (λ ps. map (raw_call w (sort_ids ids)) (members w ps)) same,
      call_all-raw w valid r.0 ids r.1 ∙ ap (λ ps. map (raw_call w ids) (members w ps)) same,
      length-members w r.0 r.1 ∙ ap (λ ps. length (members w ps)) same,
    )
