-- ===== src/World/Writes.antt =====
-- core/world.cpp: `add_raw` where the entity has the component.
use vortaris_ecs.Prelude.{
  ℕ, zero, suc, ◌<◌, ◌≡◌, refl, sym, ap, ◌∙◌, Bool, true, false, ◌&&◌, some, List, [], ◌∷◌, ◌==◌,
  nat_eq, nat_beq_iff, if◌then◌else◌, length, arith, Option-cases, Bool-cases, inl, inr, get_elem?,
  set, get_elem?-set_self, get_elem?-set_ne, length-set, get_elem?-lt, get_elem?_within,
}
use vortaris_ecs.Prelude.Map.{find, insert}
use vortaris_ecs.Entity.{Entity, ComponentTypeId}
use vortaris_ecs.Column.{Column, mark_changed, write_row}
use vortaris_ecs.Column.Bounds.{mark_changed-IsValid, write_row-IsValid}
use vortaris_ecs.Archetype.{Archetype, has_component, column_index, column}
use vortaris_ecs.Archetype.Columns.{zip_columns, columns_of, column-find, find-set}
use vortaris_ecs.Archetype.Invariant.{IsValid as IsSound, Parallel, Sized}
use vortaris_ecs.Archetype.Matching.{column_index_lem, has_component-member}
use vortaris_ecs.World.{World, EntityLocation, deref, location, bump_tick, store}
use vortaris_ecs.World.ChangeLog.{log_change}
use vortaris_ecs.World.Carries.Rows.{reads-row, find-height}
use vortaris_ecs.World.Components.{get_raw, overwrite, update_column, row_in, write_component}
use vortaris_ecs.World.Invariant.{Heap, Placed, IsValid, at, behind, behind-insert}
use vortaris_ecs.World.Migration.{columns-Placed}
use vortaris_ecs.World.Reads.{reads, says, get_raw-reads}

-- The column that a write changes, and where it is.
record Found (a : Archetype) (t : ComponentTypeId) : Type 0 where
  pub index : ℕ
  pub old : Column
  pub by_id : column_index a t ≡ some index
  pub there : get_elem? a.columns index ≡ some old
  pub named : get_elem? a.component_ids index ≡ some t
  pub found : find t (columns_of a) ≡ some old

column-at :
    (a : Archetype) (t : ComponentTypeId) (i : ℕ) (c : Column)
    → column_index a t ≡ some i
    → get_elem? a.columns i ≡ some c
    → column a t ≡ some c
unfolding column
column-at a t i c k g = rw (k, g, column) refl

find_column :
    (a : Archetype) (t : ComponentTypeId) → IsSound a → has_component a t ≡ true → Found a t
find_column a t v has =
    let (i, k, n) = (column_index_lem a t v).1 (sym (has_component-member a t v) ∙ has) in
    let (c, g) =
      get_elem?_within a.columns i (omega (arith, get_elem?-lt a.component_ids i t n, v.width)) in
    record {
      index = i;
      old = c;
      by_id = k;
      there = g;
      named = n;
      found = sym (column-find a t v) ∙ column-at a t i c k g;
    }

set-Parallel :
    (m : ℕ) (cs : List Column) (i : ℕ) (c d : Column)
    → Parallel m cs
    → get_elem? cs i ≡ some c
    → (Sized m c → Sized m d)
    → Parallel m (set cs i d)
set-Parallel m [] i c d p g f = tt
set-Parallel m (x ∷ cs) zero c d p g f = let s = f (ground (arith, p.0, p.1, g)) in (s.0, s.1, p.2)
set-Parallel m (x ∷ cs) (suc i) c d p g f = (p.0, p.1, set-Parallel m cs i c d p.2 g f)

-- The change of a column that a write makes.
abbrev change : ℕ → ℕ → List ℕ → Column → Column
change row tick bytes c = mark_changed row tick (write_row row (some bytes) c)

change-rows :
    (row tick : ℕ) (bytes : List ℕ) (c : Column)
    → (change row tick bytes c).rows ≡ set c.rows row (some bytes)
unfolding mark_changed write_row
change-rows row tick bytes c = ground arith

change-Sized :
    (row tick m : ℕ) (bytes : List ℕ) (c : Column) → Sized m c → Sized m (change row tick bytes c)
change-Sized row tick m bytes c s = (
  ap length (change-rows row tick bytes c) ∙ length-set c.rows row (some bytes) ∙ s.0,
  mark_changed-IsValid row tick (write_row row (some bytes) c)
      (write_row-IsValid row (some bytes) c s.1),
)

log_change-rows :
    (e : Entity) (t : ComponentTypeId) (k : ℕ) (w : World)
    → ((log_change e t k w).heap ≡ w.heap)
      × ((log_change e t k w).entity_locations ≡ w.entity_locations)
unfolding log_change
log_change-rows e t k w = ground arith

bump_tick-rows :
    (w : World)
    → ((bump_tick w).heap ≡ w.heap) × ((bump_tick w).entity_locations ≡ w.entity_locations)
unfolding bump_tick
bump_tick-rows w = ground arith

logged :
    (b : Bool) (e : Entity) (t : ComponentTypeId) (k : ℕ) (w : World)
    → ((if◌then◌else◌ {A = World} b (log_change e t k w) w).heap ≡ w.heap)
      × ((if◌then◌else◌ {A = World} b (log_change e t k w) w).entity_locations ≡ w.entity_locations)
logged true e t k w = log_change-rows e t k w
logged false e t k w = (refl, refl)

overwrite-rows :
    (w : World) (e : Entity) (t : ComponentTypeId) (loc : EntityLocation) (bytes : List ℕ)
    → ((overwrite e t loc bytes w).heap
        ≡ insert loc.archetype
            (update_column t
              (change loc.row (bump_tick w).change_tick bytes)
              (behind w.heap loc.archetype))
            w.heap)
      × ((overwrite e t loc bytes w).entity_locations ≡ w.entity_locations)
unfolding overwrite write_component
overwrite-rows w e t loc bytes =
    let b = bump_tick-rows w in
    let l = logged _ e t _ (
      store loc.archetype
        (update_column t (change loc.row (bump_tick w).change_tick bytes)
          (deref (bump_tick w) loc.archetype))
        (bump_tick w)) in
    (l.0 ∙ rw b.0 refl, l.1 ∙ b.1)

update_column-found :
    (a : Archetype) (t : ComponentTypeId) (f : Column → Column) (k : Found a t)
    → update_column t f a ≡ record a { columns = set a.columns k.index (f k.old) }
unfolding update_column
update_column-found a t f k = rw (k.by_id, k.there, update_column) refl

and-false : (b : Bool) → (b && false) ≡ false
and-false true = refl
and-false false = refl

and-true : (b : Bool) → (b && true) ≡ b
and-true true = refl
and-true false = refl

module _ (w : World) (e : Entity) (t : ComponentTypeId) (loc : EntityLocation) (bytes : List ℕ)
    (valid : IsValid w) (located : location w e ≡ some loc)
    (has : has_component (deref w loc.archetype) t ≡ true) where
  abbrev host : Archetype
  host = behind w.heap loc.archetype

  abbrev written : Column → Column
  written = change loc.row (bump_tick w).change_tick bytes

  target : Found host t
  target = find_column host t (valid.sound loc.archetype) has

  abbrev columns : List Column
  columns = set host.columns target.index (written target.old)

  overwrite-heap :
      (overwrite e t loc bytes w).heap
      ≡ insert loc.archetype (record host { columns = columns }) w.heap
  overwrite-heap =
      (overwrite-rows w e t loc bytes).0
      ∙ ap (λ a. insert loc.archetype a w.heap) (update_column-found host t written target)

  columns-fit :
      Parallel (length host.entities) columns × (length columns ≡ length host.component_ids)
  columns-fit = (
    set-Parallel (length host.entities) host.columns target.index target.old (written target.old)
        (valid.sound loc.archetype).height target.there
        (change-Sized loc.row (bump_tick w).change_tick (length host.entities) bytes target.old),
    length-set host.columns target.index (written target.old) ∙ (valid.sound loc.archetype).width,
  )

  -- The write of a component that a located entity has keeps a valid world valid.
  pub overwrite-IsValid : IsValid (overwrite e t loc bytes w)
  overwrite-IsValid =
      rw (overwrite-heap, (overwrite-rows w e t loc bytes).1)
        (columns-Placed w.heap w.entity_locations loc.archetype columns valid columns-fit)

  abbrev after : Heap
  after = insert loc.archetype (record host { columns = columns }) w.heap

  after-Placed : Placed after w.entity_locations
  after-Placed = columns-Placed w.heap w.entity_locations loc.archetype columns valid columns-fit

  after_host : behind after loc.archetype ≡ record host { columns = columns }
  after_host =
      behind-insert loc.archetype loc.archetype (record host { columns = columns }) w.heap
      ∙ rw ((nat_beq_iff loc.archetype loc.archetype).1 refl) refl

  columns-find :
      (u : ComponentTypeId)
      → find u (zip_columns host.component_ids columns)
        ≡ (if t == u then some (written target.old) else find u (columns_of host))
  columns-find u =
      let v = valid.sound loc.archetype in
      find-set 0 t u host.component_ids host.columns target.index (written target.old) v.ids v.width
        target.named

  row-inside : loc.row < length target.old.rows
  row-inside =
      let v = valid.sound loc.archetype in
      let k =
        get_elem?-lt host.entities loc.row e
          (v.indexed e loc.row (valid.located e loc.archetype loc.row located)) in
      let m =
        find-height t (length host.entities) host.component_ids host.columns target.old v.height
          target.found in
      omega (arith, k, m)

  -- Entities with one row are one.
  row-apart :
      (q : Entity) (k : ℕ) → location w q ≡ some (at loc.archetype k) → (k == loc.row) ≡ (e == q)
  row-apart q k there =
      let v = valid.sound loc.archetype in
      let a = v.indexed q k (valid.located q loc.archetype k there) in
      let b = v.indexed e loc.row (valid.located e loc.archetype loc.row located) in
      elim (Bool-cases (e == q)) [
        | inl same ↦ ground (arith, there, located)
        | inr other ↦ ground (arith, a, b)
      ]

  cell-after :
      (b : Bool) (k : ℕ)
      → (k == loc.row) ≡ b
      → get_elem? (written target.old).rows k
        ≡ (if b then some (some bytes) else get_elem? target.old.rows k)
  cell-after true k hit =
      let here : k ≡ loc.row = (nat_beq_iff k loc.row).0 hit in
      rw (change-rows loc.row (bump_tick w).change_tick bytes target.old, here)
        (get_elem?-set_self target.old.rows loc.row (some bytes) row-inside)
  cell-after false k miss =
      rw (change-rows loc.row (bump_tick w).change_tick bytes target.old)
        (get_elem?-set_ne target.old.rows loc.row k (some bytes) (ground arith))

  in-host :
      (q : Entity) (u : ComponentTypeId) (k : ℕ)
      → location w q ≡ some (at loc.archetype k)
      → row_in k (find u (zip_columns host.component_ids columns))
        ≡ (if (e == q) && (t == u) then some (some bytes) else row_in k (find u (columns_of host)))
  in-host q u k there = elim (Bool-cases (t == u)) [
    | inr other ↦ rw (columns-find u, other, and-false (e == q)) refl
    | inl same ↦
        let this : find u (columns_of host) ≡ some target.old =
          ap (λ x. find x (columns_of host)) (sym ((nat_beq_iff t u).0 same)) ∙ target.found in
        rw (columns-find u, same, this, and-true (e == q))
          (cell-after (e == q) k (row-apart q k there))
  ]

  after-reads :
      (q : Entity) (u : ComponentTypeId)
      → reads after w.entity_locations q u
        ≡ (if (e == q) && (t == u) then some (some bytes) else reads w.heap w.entity_locations q u)
  after-reads q u = elim (Option-cases (location w q)) [
    | inl dead ↦
        let other : (e == q) ≡ false = ground (arith, located, dead) in rw (dead, other) refl
    | inr (at_q, there) ↦ elim (Bool-cases (loc.archetype == at_q.archetype)) [
      | inr away ↦
          let other : (e == q) ≡ false = ground (arith, located, there, away) in
          rw (there, other)
            (ap (λ a. says a q u) {y = behind w.heap at_q.archetype}
              (behind-insert loc.archetype at_q.archetype (record host { columns = columns }) w.heap
                ∙ rw away refl))
      | inl here ↦
          let here' : location w q ≡ some (at loc.archetype at_q.row) =
            there
            ∙ ap (λ p. some (at p at_q.row))
                (sym ((nat_beq_iff loc.archetype at_q.archetype).0 here)) in
          reads-row after w.entity_locations q u loc.archetype at_q.row after-Placed here'
          ∙ rw after_host (in-host q u at_q.row here')
          ∙ ap (λ x. if (e == q) && (t == u) then some (some bytes) else x)
              (sym (reads-row w.heap w.entity_locations q u loc.archetype at_q.row valid here'))
    ]
  ]

  -- After `add_raw` wrote a component that the entity has, `get_raw` finds the bytes there, and of every other
  -- component and of every other entity what it found before.
  pub overwrite-get_raw :
      (q : Entity) (u : ComponentTypeId)
      → get_raw (overwrite e t loc bytes w) q u
        ≡ (if (e == q) && (t == u) then some (some bytes) else get_raw w q u)
  overwrite-get_raw q u =
      rw
        (
          get_raw-reads (overwrite e t loc bytes w) q u overwrite-IsValid,
          get_raw-reads w q u valid,
          overwrite-heap,
          (overwrite-rows w e t loc bytes).1,
        )
        (after-reads q u)
