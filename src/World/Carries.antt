-- ===== src/World/Carries.antt =====
-- core/world.cpp: what an entity's components hold after it moved between archetypes.
pub mod Rows
use vortaris_ecs.Prelude.{
  ℕ, zero, suc, ◌+◌, ◌^◌, ◌<◌, ◌≡◌, refl, sym, ap, ◌∙◌, true, false, Option, none, some, List, [],
  ◌∷◌, map, ◌==◌, nat_eq, nat_beq_iff, if◌then◌else◌, length, arith, Option-cases, Bool-cases, inl,
  inr, get_elem?, get_or, get_elem?_within, get_elem?-lt,
}
use vortaris_ecs.Prelude.Map.{Map, find, insert, find-insert, is_some}
use vortaris_ecs.Entity.{Entity, ComponentTypeId}
use vortaris_ecs.Column.{Column, Row}
use vortaris_ecs.Archetype.{Archetype, has_component}
use vortaris_ecs.Archetype.Addition.{new_line}
use vortaris_ecs.Archetype.Columns.{zip_columns, has_component-find}
use vortaris_ecs.Archetype.Invariant.{IsValid as IsSound, Parallel}
use vortaris_ecs.Query.{Ptr}
use vortaris_ecs.World.{World, EntityLocation, deref, location, in_iteration}
use vortaris_ecs.World.Components.{move_entity, row_in, get_raw}
use vortaris_ecs.World.Copies.{copied-find, merged, merged-other, merged-copied}
use vortaris_ecs.World.Invariant.{
  Heap, Locations, Placed, IsValid, at, behind, behind-insert, relocate,
}
use vortaris_ecs.World.Migration
use vortaris_ecs.World.Reads.{
  reads, says, pick, row_in-pick, reads-add, reads-remove, get_raw-reads,
}
use vortaris_ecs.World.Carries.Rows.{
  content, reads-extends, reads-row, pick-new, content-get_elem?, none-some, find-height,
}

module _ (w : World) (e : Entity) (from to : Ptr) (from_row : ℕ) (valid : IsValid w)
    (apart : (from == to) ≡ false) (found : location w e ≡ some (at from from_row))
    (room : length (behind w.heap to).entities + 1 < 2 ^ 32) where
  abbrev host : Archetype
  host = Migration.hosted w e from to from_row

  abbrev new_row : ℕ
  new_row = Migration.host_row w e from to from_row

  abbrev copies : List Column
  copies = Migration.copied w e from to from_row

  abbrev joined : Heap
  joined = insert to host (Migration.gone_heap w e from to from_row valid apart found room)

  abbrev joined_locations : Locations
  joined_locations =
      insert e (at to new_row)
        (Migration.gone_locations w e from to from_row valid apart found room)

  abbrev sources : Map ComponentTypeId Column
  sources = zip_columns (behind w.heap from).component_ids (behind w.heap from).columns

  joined-Placed : Placed joined joined_locations
  joined-Placed = Migration.joined-Placed w e from to from_row valid apart found room

  joined_to : behind joined to ≡ host
  joined_to = Migration.joined_to w e from to from_row valid apart found room

  abbrev after : Heap
  after = insert to (record (behind joined to) { columns = copies }) joined

  after-Placed : Placed after joined_locations
  after-Placed = Migration.copied-Placed w e from to from_row valid apart found room

  host-IsSound : IsSound host
  host-IsSound = Migration.hosted-IsSound w e from to from_row valid apart found room

  from_same : behind (Migration.hosted_heap w e from to from_row) from ≡ behind w.heap from
  from_same =
      let other : (to == from) ≡ false = ground arith in
      behind-insert to from host w.heap ∙ rw other refl

  hosted_to : behind (Migration.hosted_heap w e from to from_row) to ≡ host
  hosted_to = Migration.hosted_to w e from to from_row valid apart found room

  source-IsSound : IsSound (behind w.heap from)
  source-IsSound = valid.sound from

  -- The column of an id after the walk.
  copies-find :
      (t : ComponentTypeId)
      → find t (zip_columns host.component_ids copies)
        ≡ merged
            (find t sources)
            from_row
            (find t (zip_columns host.component_ids host.columns))
            new_row
  copies-find t =
      rw (hosted_to, from_same)
        (copied-find t (behind w.heap from).component_ids host.component_ids
          (behind w.heap from).columns host.columns from_row new_row source-IsSound.ids
          host-IsSound.ids host-IsSound.width)

  after_to : behind after to ≡ record host { columns = copies }
  after_to =
      behind-insert to to (record (behind joined to) { columns = copies }) joined
      ∙ rw ((nat_beq_iff to to).1 refl, joined_to) refl

  -- What the copies say of a row.
  after-row :
      (q : Entity) (t : ComponentTypeId) (k : ℕ)
      → find q joined_locations ≡ some (at to k)
      → reads after joined_locations q t
        ≡ row_in k (
            merged
              (find t sources)
              from_row
              (find t (zip_columns host.component_ids host.columns))
              new_row)
  after-row q t k there =
      reads-row after joined_locations q t to k after-Placed there
      ∙ rw after_to (ap (row_in k) (copies-find t))

  joined-row :
      (q : Entity) (t : ComponentTypeId) (k : ℕ)
      → find q joined_locations ≡ some (at to k)
      → reads joined joined_locations q t
        ≡ row_in k (find t (zip_columns host.component_ids host.columns))
  joined-row q t k there =
      reads-row joined joined_locations q t to k joined-Placed there ∙ rw joined_to refl

  at_new : find e joined_locations ≡ some (at to new_row)
  at_new =
      find-insert e e (at to new_row)
        (Migration.gone_locations w e from to from_row valid apart found room)
      ∙ rw ((nat_beq_iff e e).1 refl) refl

  -- No other entity is in the new row.
  row-apart :
      (q : Entity) (k : ℕ)
      → find q joined_locations ≡ some (at to k)
      → (e == q) ≡ false
      → (k == new_row) ≡ false
  row-apart q k there other =
      let s = joined-Placed.sound to in
      let a = s.indexed q k (joined-Placed.located q to k there) in
      let b = s.indexed e new_row (joined-Placed.located e to new_row at_new) in
      elim (Bool-cases (k == new_row)) [ inr off ↦ off | inl on ↦ ground (arith, a, b) ]

  others :
      (q : Entity) (t : ComponentTypeId)
      → (e == q) ≡ false
      → reads after joined_locations q t ≡ reads joined joined_locations q t
  others q t other = elim (Option-cases (find q joined_locations)) [
    | inl dead ↦ rw dead refl
    | inr (loc, there) ↦ elim (Bool-cases (to == loc.archetype)) [
      | inr away ↦ rw there (
          ap (λ a. says a q t) {y = behind joined loc.archetype}
            (behind-insert to loc.archetype (record (behind joined to) { columns = copies }) joined
              ∙ rw away refl))
      | inl here ↦
          let at_to : find q joined_locations ≡ some (at to loc.row) =
            there ∙ ap (λ p. some (at p loc.row)) (sym ((nat_beq_iff to loc.archetype).0 here)) in
          after-row q t loc.row at_to
          ∙ merged-other (find t sources) (find t (zip_columns host.component_ids host.columns))
              from_row new_row loc.row (row-apart q loc.row at_to other)
          ∙ sym (joined-row q t loc.row at_to)
    ]
  ]

  joined-reads :
      (q : Entity) (t : ComponentTypeId)
      → reads joined joined_locations q t ≡ (
          if e == q
          then pick t
              (behind w.heap to).component_ids
              (new_line w.change_tick (behind w.heap to)).cells
          else (if e == q then none else reads w.heap w.entity_locations q t))
  joined-reads q t =
      rw (Migration.to_same w e from to from_row valid apart found room) at (
        reads-add (Migration.gone_heap w e from to from_row valid apart found room)
          (Migration.gone_locations w e from to from_row valid apart found room)
          (Migration.left-Placed w e from to from_row valid apart found room) e q t to w.change_tick
          (Migration.nowhere w e from to from_row valid apart found room))
      ∙ ap
          (λ x.
            if e == q
            then pick t (behind w.heap to).component_ids
                (new_line w.change_tick (behind w.heap to)).cells
            else x)
          (reads-remove w.heap w.entity_locations valid e q t from from_row found)

  -- Is the component in the archetype moved to?
  new-row-says :
      (t : ComponentTypeId)
      → row_in new_row (find t (zip_columns host.component_ids host.columns))
        ≡ (if has_component (behind w.heap to) t then some none else none)
  new-row-says t =
      sym (joined-row e t new_row at_new)
      ∙ joined-reads e t
      ∙ rw
          (
            (nat_beq_iff e e).1 refl,
            pick-new t w.change_tick (behind w.heap to).component_ids (behind w.heap to).columns,
            has_component-find (behind w.heap to) t (valid.sound to),
          )
          refl

  new_row-inside :
      (t : ComponentTypeId) (x : Column)
      → find t (zip_columns host.component_ids host.columns) ≡ some x
      → new_row < length x.rows
  new_row-inside t x f =
      let height =
        find-height t (length host.entities) host.component_ids host.columns x host-IsSound.height
          f in
      let s = joined-Placed.sound to in
      let a = s.indexed e new_row (joined-Placed.located e to new_row at_new) in
      let k = rw joined_to at (get_elem?-lt (behind joined to).entities new_row e a) in
      omega (arith, height, k)

  carried :
      (t : ComponentTypeId)
      → reads after joined_locations e t ≡ (
          if has_component (behind w.heap to) t
          then some (content (reads w.heap w.entity_locations e t))
          else none)
  carried t =
      after-row e t new_row at_new
      ∙ elim (Option-cases (find t (zip_columns host.component_ids host.columns))) [
        | inl absent ↦
            let says_none = rw absent at (new-row-says t) in
            elim (Bool-cases (has_component (behind w.heap to) t)) [
              | inr lacks ↦ rw (absent, lacks) refl
              | inl has ↦ absurd (none-some (rw has at says_none))
            ]
        | inr (x, there) ↦
            let (v, inside) = get_elem?_within x.rows new_row (new_row-inside t x there) in
            let says_some = rw there at (new-row-says t) in
            let here : has_component (behind w.heap to) t ≡ true =
              elim (Bool-cases (has_component (behind w.heap to) t)) [
                | inl has ↦ has
                | inr lacks ↦ absurd (none-some (sym (rw (lacks, inside) at says_some)))
              ] in
            rw (here, reads-row w.heap w.entity_locations e t from from_row valid found, there)
              (elim (Option-cases (find t sources)) [
                | inl fresh ↦ rw fresh (says_some ∙ rw here refl)
                | inr (c, shared) ↦ rw shared (
                    merged-copied c x from_row new_row (new_row-inside t x there)
                    ∙ ap some (sym (content-get_elem? c.rows from_row)))
              ])
      ]

  -- Everything that is read after the move.
  pub after-reads :
      (q : Entity) (t : ComponentTypeId)
      → reads after joined_locations q t ≡ (
          if e == q
          then (if has_component (behind w.heap to) t
              then some (content (reads w.heap w.entity_locations e t))
              else none)
          else reads w.heap w.entity_locations q t)
  after-reads q t = elim (Bool-cases (e == q)) [
    | inl same ↦
        let k : e ≡ q = (nat_beq_iff e q).0 same in
        rw same (ap (λ x. reads after joined_locations x t) (sym k) ∙ carried t)
    | inr other ↦ rw other (others q t other ∙ joined-reads q t ∙ rw other refl)
  ]

  -- What is read of the world as the code leaves it.
  pub moved-reads :
      (q : Entity) (t : ComponentTypeId)
      → reads
          (insert from
            (Migration.evicted w e from to from_row).0
            (Migration.copied_heap w e from to from_row))
          (insert e
            (at to new_row)
            (relocate (Migration.evicted w e from to from_row).1 from_row w.entity_locations))
          q
          t
        ≡ reads after joined_locations q t
  moved-reads q t = sym (
      reads-extends _ _ _ _ q t (Migration.same_heap w e from to from_row valid apart found room)
        (Migration.same_locations w e from to from_row valid apart found room q))

-- Where `move_entity` moves an entity of a valid world to another archetype with room, outside an iteration, the entity has the components of the archetype moved to: the ones it
-- had hold what they held, the others hold nothing yet; every other entity reads as before.
pub move_entity-get_raw :
    (w : World) (e q : Entity) (t : ComponentTypeId) (to : Ptr) (loc : EntityLocation)
    → IsValid w
    → length (deref w to).entities + 1 < 2 ^ 32
    → in_iteration w ≡ false
    → location w e ≡ some loc
    → (loc.archetype == to) ≡ false
    → get_raw (move_entity e to w).0 q t ≡ (
        if e == q
        then (if has_component (deref w to) t then some (content (get_raw w e t)) else none)
        else get_raw w q t)
move_entity-get_raw w e q t to loc valid room calm found apart =
    rw
      (
        get_raw-reads (move_entity e to w).0 q t (Migration.move_entity-IsValid w e to valid room),
        get_raw-reads w q t valid,
        get_raw-reads w e t valid,
      )
      (rows
        ∙ moved-reads w e loc.archetype to loc.row valid apart found room q t
        ∙ after-reads w e loc.archetype to loc.row valid apart found room q t)
  where
    rows :
        reads (move_entity e to w).0.heap (move_entity e to w).0.entity_locations q t
        ≡ reads
            (insert loc.archetype
              (Migration.evicted w e loc.archetype to loc.row).0
              (Migration.copied_heap w e loc.archetype to loc.row))
            (insert e (at to (Migration.host_row w e loc.archetype to loc.row)) (
              relocate
                (Migration.evicted w e loc.archetype to loc.row).1
                loc.row
                w.entity_locations))
            q
            t
    rows =
        let (h, l) = Migration.move_entity-rows w e to loc valid calm found apart in rw (h, l) refl
