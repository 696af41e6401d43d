-- ===== src/World/Migration.antt =====
-- core/world.cpp: the move of an entity between archetypes keeps the locations and the rows in step.
use vortaris_ecs.Prelude.{
  ℕ, ◌+◌, ◌^◌, ◌<◌, ◌≡◌, ◌≢◌, refl, sym, ap, ◌∙◌, true, false, none, some, List, ◌==◌, nat_eq,
  nat_beq_iff, length, arith, Option-cases, Bool-cases, inl, inr, u32,
}
use vortaris_ecs.Prelude.Map.{find, insert, erase, find-insert, find-erase}
use vortaris_ecs.Entity.{Entity}
use vortaris_ecs.Column.{Column}
use vortaris_ecs.Archetype.{Archetype, add_entity, remove_entity}
use vortaris_ecs.Archetype.Columns.{zip_columns}
use vortaris_ecs.Archetype.Invariant.{IsValid as IsSound, Parallel}
use vortaris_ecs.Query.{Ptr}
use vortaris_ecs.World.{
  World, EntityLocation, deref, location, locate, store, in_iteration, is_alive,
}
use vortaris_ecs.World.Components.{move_entity}
use vortaris_ecs.World.Copies.{copied-Parallel}
use vortaris_ecs.World.Invariant.{
  Heap, Locations, Placed, IsValid, at, behind, relocate, behind-insert, add-Placed, remove-Placed,
  row_of, moved-located, moved-relocate,
}
use vortaris_ecs.World.Moves.{
  copy_shared, copy_row, evict_entity, host_entity, move_entity_to, fix_moved,
}
use vortaris_ecs.World.Preserves.{invalidate_cache-SameRows, SameRows-IsValid}

-- Only what a look-up finds counts.
pub Placed-extends :
    (h h' : Heap) (l l' : Locations)
    → ((p : Ptr) → behind h p ≡ behind h' p)
    → ((q : Entity) → find q l ≡ find q l')
    → Placed h l
    → Placed h' l'
Placed-extends h h' l l' hs ls valid = record {
  sound = λ p. rw (← hs p) (valid.sound p);
  located = λ e p r f. rw (← hs p) (valid.located e p r (ls e ∙ f));
  hosted = λ p e r f. sym (ls e) ∙ valid.hosted p e r (rw (hs p) f);
}

-- The erasure before a removal, or an insertion after it: one is as good as the other.
relocate_under :
    (e m q : Entity) (p : Ptr) (r : ℕ) (x : EntityLocation) (l : Locations)
    → (m ≢ 0 → (e ≢ m) × ((k : ℕ) × (find m l ≡ some (at p k))))
    → find q (insert e x (relocate m r (erase e l))) ≡ find q (insert e x (relocate m r l))
relocate_under e m q p r x l there = elim (Bool-cases (m == 0)) [
  | inl nothing ↦
      rw (nothing)
        (ground (arith, find-insert e q x (erase e l), find-insert e q x l, find-erase e q l))
  | inr moved ↦
      let (other, (k, f)) = there (ground arith) in
      let kept : find m (erase e l) ≡ some (at p k) = ground (arith, find-erase e m l, f) in
      rw (moved, kept, f)
        (ground (
          arith,
          find-insert e q x (insert m (at p r) (erase e l)),
          find-insert e q x (insert m (at p r) l),
          find-insert m q (at p r) (erase e l),
          find-insert m q (at p r) l,
          find-erase e q l,
        ))
]

-- An archetype whose columns alone are others, as sound and as high.
pub columns-Placed :
    (h : Heap) (l : Locations) (p : Ptr) (cs : List Column)
    → Placed h l
    → vortaris_ecs.Archetype.Invariant.Parallel (length (behind h p).entities) cs
      × (length cs ≡ length (behind h p).component_ids)
    → Placed (insert p (record (behind h p) { columns = cs }) h) l
columns-Placed h l p cs valid fits = record {
  sound = λ q. elim (Bool-cases (p == q)) [
    | inl same ↦
        let v = valid.sound p in
        rw (behind-insert p q a h, same)
          (record {
            ids = v.ids;
            width = fits.1;
            height = fits.0;
            flags = v.flags;
            small = v.small;
            indexed = v.indexed;
            covered = v.covered;
            real = v.real;
          })
    | inr other ↦ rw (behind-insert p q a h, other) (valid.sound q)
  ];
  located = λ e q r f. rw (same_rows q e) (valid.located e q r f);
  hosted = λ q e r f. valid.hosted q e r (sym (same_rows q e) ∙ f);
}
  where
    a : Archetype
    a = record (behind h p) { columns = cs }

    same_rows : (q : Ptr) (e : Entity) → row_of (insert p a h) q e ≡ row_of h q e
    same_rows q e = elim (Bool-cases (p == q)) [
      | inl same ↦
          let k : p ≡ q = (nat_beq_iff p q).0 same in
          rw (behind-insert p q a h, same) (ap (λ x. row_of h x e) k)
      | inr other ↦ rw (behind-insert p q a h, other) refl
    ]

-- The locations and the heap of a move, step by step as the code makes them.
module _ (w : World) (e : Entity) (from to : Ptr) (from_row : ℕ) where
  abbrev pub hosted : Archetype
  hosted = (add_entity e w.change_tick (behind w.heap to)).0

  abbrev pub host_row : ℕ
  host_row = u32 (length (behind w.heap to).entities)

  abbrev pub hosted_heap : Heap
  hosted_heap = insert to hosted w.heap

  abbrev pub copied : List Column
  copied =
      copy_shared
        (zip_columns (behind hosted_heap from).component_ids (behind hosted_heap from).columns)
        from_row (zip_columns (behind hosted_heap to).component_ids (behind hosted_heap to).columns)
        host_row

  abbrev pub copied_heap : Heap
  copied_heap = insert to (record (behind hosted_heap to) { columns = copied }) hosted_heap

  abbrev pub copied_world : World
  copied_world = store to (record (behind hosted_heap to) { columns = copied }) (store to hosted w)

  abbrev pub evicted : Archetype × Entity
  evicted = remove_entity e (behind copied_heap from)

  fix_moved-step :
      (m : Entity) (r : ℕ) (v : World)
      → ((fix_moved m r v).heap ≡ v.heap)
        × ((fix_moved m r v).entity_locations ≡ relocate m r v.entity_locations)
        × ((fix_moved m r v).iteration_depth ≡ v.iteration_depth)
  unfolding fix_moved
  fix_moved-step m r v = ground arith

  pub move_entity_to-rows :
      ((move_entity_to e from to from_row w).0.heap ≡ insert from evicted.0 copied_heap)
      × ((move_entity_to e from to from_row w).0.entity_locations
          ≡ relocate evicted.1 from_row w.entity_locations)
      × ((move_entity_to e from to from_row w).1 ≡ host_row)
  unfolding move_entity_to host_entity copy_row evict_entity add_entity
  move_entity_to-rows =
      let s = fix_moved-step evicted.1 from_row (store from evicted.0 copied_world) in
      (s.0, s.1, refl)

  module _ (valid : IsValid w) (apart : (from == to) ≡ false)
      (found : location w e ≡ some (at from from_row))
      (room : length (behind w.heap to).entities + 1 < 2 ^ 32) where
    abbrev pub gone : Archetype × Entity
    gone = remove_entity e (behind w.heap from)

    apart' : (to == from) ≡ false
    apart' = ground arith

    pub from_same : behind copied_heap from ≡ behind w.heap from
    from_same =
        behind-insert to from (record (behind hosted_heap to) { columns = copied }) hosted_heap
        ∙ rw (apart', behind-insert to from hosted w.heap, apart') refl

    pub moved_where :
        gone.1 ≢ 0 → (e ≢ gone.1) × ((k : ℕ) × (find gone.1 w.entity_locations ≡ some (at from k)))
    moved_where = moved-located w.heap w.entity_locations valid e from from_row found

    -- The same worlds, in the order of a removal and an addition.
    abbrev pub gone_heap : Heap
    gone_heap = insert from gone.0 w.heap

    abbrev pub gone_locations : Locations
    gone_locations = relocate gone.1 from_row (erase e w.entity_locations)

    pub to_same : behind gone_heap to ≡ behind w.heap to
    to_same = behind-insert from to gone.0 w.heap ∙ rw apart refl

    pub left-Placed : Placed gone_heap gone_locations
    left-Placed = remove-Placed w.heap w.entity_locations valid e from from_row found

    pub real : e ≢ 0
    real = ground (arith, valid.located e from from_row found, (valid.sound from).real)

    pub nowhere : find e gone_locations ≡ none
    nowhere =
        moved-relocate w.heap w.entity_locations valid e from from_row found e
        ∙ rw ((nat_beq_iff e e).1 refl) refl

    pub joined-Placed :
        Placed (insert to hosted gone_heap) (insert e (at to host_row) gone_locations)
    joined-Placed = rw to_same at (
        add-Placed gone_heap gone_locations left-Placed e w.change_tick to real nowhere
          (rw to_same room))

    pub joined_to : behind (insert to hosted gone_heap) to ≡ hosted
    joined_to = behind-insert to to hosted gone_heap ∙ rw ((nat_beq_iff to to).1 refl) refl

    pub hosted_to : behind hosted_heap to ≡ hosted
    hosted_to = behind-insert to to hosted w.heap ∙ rw ((nat_beq_iff to to).1 refl) refl

    pub hosted-IsSound : IsSound hosted
    hosted-IsSound = rw joined_to at (joined-Placed.sound to)

    copied_fits :
        Parallel (length hosted.entities) copied × (length copied ≡ length hosted.component_ids)
    copied_fits = rw hosted_to (
        copied-Parallel
          (zip_columns (behind hosted_heap from).component_ids (behind hosted_heap from).columns)
          hosted.component_ids hosted.columns from_row host_row (length hosted.entities)
          hosted-IsSound.width hosted-IsSound.height)

    pub copied-Placed :
        Placed
          (insert to
            (record (behind (insert to hosted gone_heap) to) { columns = copied })
            (insert to hosted gone_heap))
          (insert e (at to host_row) gone_locations)
    copied-Placed =
        columns-Placed (insert to hosted gone_heap) (insert e (at to host_row) gone_locations) to
          copied joined-Placed (rw joined_to copied_fits)

    pub same_heap :
        (p : Ptr)
        → behind
            (insert to
              (record (behind (insert to hosted gone_heap) to) { columns = copied })
              (insert to hosted gone_heap))
            p
          ≡ behind (insert from evicted.0 copied_heap) p
    same_heap p =
        rw
          (
            behind-insert to p
                (record (behind (insert to hosted gone_heap) to) { columns = copied })
                (insert to hosted gone_heap),
            behind-insert to p hosted gone_heap,
            behind-insert from p gone.0 w.heap,
            behind-insert from p evicted.0 copied_heap,
            behind-insert to p (record (behind hosted_heap to) { columns = copied }) hosted_heap,
            behind-insert to p hosted w.heap,
            joined_to,
            from_same,
            hosted_to,
          )
          (ground arith)

    pub same_locations :
        (q : Entity)
        → find q (insert e (at to host_row) gone_locations)
          ≡ find q (insert e (at to host_row) (relocate evicted.1 from_row w.entity_locations))
    same_locations q =
        relocate_under e gone.1 q from from_row (at to host_row) w.entity_locations moved_where
        ∙ ap
            (λ a. find q (
              insert e (at to host_row)
                (relocate (remove_entity e a).1 from_row w.entity_locations)))
            (sym from_same)

    pub moved-Placed :
        Placed
          (insert from evicted.0 copied_heap)
          (insert e (at to host_row) (relocate evicted.1 from_row w.entity_locations))
    moved-Placed = Placed-extends _ _ _ _ same_heap same_locations copied-Placed

-- `move_entity` keeps a valid world valid, whether it moves the entity or refuses, where the target has room
-- for one more row.
pub move_entity-IsValid :
    (w : World) (e : Entity) (to : Ptr)
    → IsValid w
    → length (deref w to).entities + 1 < 2 ^ 32
    → IsValid (move_entity e to w).0
unfolding move_entity
move_entity-IsValid w e to valid room = elim (Bool-cases (is_alive w e)) [
  | inr dead ↦ rw (dead, move_entity) valid
  | inl alive ↦ elim (Bool-cases (in_iteration w)) [
    | inl busy ↦ rw (alive, busy, move_entity) valid
    | inr calm ↦ elim (Option-cases (location w e)) [
      | inl lost ↦ rw (alive, calm, lost, move_entity) valid
      | inr (loc, found) ↦ elim (Bool-cases (loc.archetype == to)) [
        | inl same ↦ rw (alive, calm, found, same, move_entity) valid
        | inr apart ↦
            let (h, l, row) = move_entity_to-rows w e loc.archetype to loc.row in
            rw (alive, calm, found, apart, move_entity)
              (SameRows-IsValid (invalidate_cache-SameRows _)
                (rw (row, h, l) (moved-Placed w e loc.archetype to loc.row valid apart found room)))
      ]
    ]
  ]
]

pub alive-located :
    (w : World) (e : Entity) (loc : EntityLocation)
    → IsValid w
    → location w e ≡ some loc
    → is_alive w e ≡ true
unfolding is_alive
alive-located w e loc valid found =
    ground
      (arith, valid.located e loc.archetype loc.row found, (valid.sound loc.archetype).real, found)

-- What a move that goes through writes.
pub move_entity-rows :
    (w : World) (e : Entity) (to : Ptr) (loc : EntityLocation)
    → IsValid w
    → in_iteration w ≡ false
    → location w e ≡ some loc
    → (loc.archetype == to) ≡ false
    → ((move_entity e to w).0.heap
        ≡ insert loc.archetype
            (evicted w e loc.archetype to loc.row).0
            (copied_heap w e loc.archetype to loc.row))
      × ((move_entity e to w).0.entity_locations
          ≡ insert e
              (at to (host_row w e loc.archetype to loc.row))
              (relocate (evicted w e loc.archetype to loc.row).1 loc.row w.entity_locations))
unfolding move_entity
move_entity-rows w e to loc valid calm found apart =
    let (h, l, row) = move_entity_to-rows w e loc.archetype to loc.row in
    let s = invalidate_cache-SameRows (
      locate e to (move_entity_to e loc.archetype to loc.row w).1
        (move_entity_to e loc.archetype to loc.row w).0) in
    rw (alive-located w e loc valid found, calm, found, apart, move_entity)
      (s.heap ∙ h, s.locations ∙ rw (row, l) refl)
