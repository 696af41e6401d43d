-- ===== src/Network/Replication/Tracking.antt =====
-- network/network_sync.cpp: what the server tracks, marks dirty and is about to send.
use vortaris_ecs.Prelude.{
  ℕ, ◌≡◌, ◌⊎◌, refl, sym, ◌∙◌, Bool, true, false, not, ◌&&◌, ◌||◌, List, [], ◌∷◌, ◌++◌, ◌==◌,
  nat_eq, if◌then◌else◌, any, keep_if, Bool-cases, inl, inr, arith, length,
}
use vortaris_ecs.Prelude.Map
use vortaris_ecs.Prelude.Map.{Map, find, find-insert, find-erase}
use vortaris_ecs.Query.{Ptr}
use vortaris_ecs.Entity.{Entity, ComponentTypeId}
use vortaris_ecs.Schema.Registry.{ComponentRegistry}
use vortaris_ecs.Scheduler.{Clock}
use vortaris_ecs.World.{World, among, deref, is_alive}
use vortaris_ecs.World.Sets.{among-insert_unique}
use vortaris_ecs.World.Components.{get_entity_component_types}
use vortaris_ecs.World.Entities.{insert_unique}
use vortaris_ecs.Network.Plan.{is_networked}
use vortaris_ecs.Network.Packets.Spawns.{new_buffer}
use vortaris_ecs.Network.Replication.{
  SnapshotReplication, erase_from, set_of, make_dirty, track, make_clean, untrack,
  on_entity_component_added, on_entity_component_changed, on_entity_component_removed, seed_rows,
  seed_archetypes, seed_from_world,
}
use vortaris_ecs.Network.Replication.Delta.{
  Entities, send_entity, send_entities, send_components, build_delta, list_or_empty,
}

-- Entities with dirty components are tracked.
abbrev pub IsTracking : {T : Type 0} → SnapshotReplication T → Type 0
IsTracking s = (e : Entity) → Map.contains e s.dirty ≡ true → among e s.tracked ≡ true

pub among-erase_from :
    (e x : ℕ) (xs : List ℕ) → among e (erase_from xs x) ≡ (among e xs && not (x == e))
unfolding any keep_if
among-erase_from e x [] = ground arith
among-erase_from e x (y ∷ xs) = ground (arith, among-erase_from e x xs)

module _ {T : Type 0} (reg : ComponentRegistry) where
  make_dirty-IsTracking :
      (e : Entity) (t : ComponentTypeId) (s : SnapshotReplication T)
      → among e s.tracked ≡ true
      → IsTracking s
      → IsTracking (make_dirty reg e t s)
  make_dirty-IsTracking e t s there v q h =
      ground
        (arith, there, v q, h, find-insert e q (insert_unique t (set_of (find e s.dirty))) s.dirty)

  track-IsTracking :
      (e : Entity) (s : SnapshotReplication T) → IsTracking s → IsTracking (track reg e s)
  track-IsTracking e s v q h = ground (arith, among-insert_unique q e s.tracked, v q h)

  make_clean-IsTracking :
      (e : Entity) (t : ComponentTypeId) (s : SnapshotReplication T)
      → IsTracking s
      → IsTracking (make_clean reg e t s)
  make_clean-IsTracking e t s v = elim (Bool-cases (Map.contains e s.dirty)) [
    | inl some_set ↦ rw some_set (λ q h. ground (
      arith,
      some_set,
      v q,
      v e,
      h,
      find-insert e q (erase_from (set_of (find e s.dirty)) t) s.dirty,
    ))
    | inr no_set ↦ rw no_set v
  ]

  untrack-IsTracking :
      (e : Entity) (s : SnapshotReplication T) → IsTracking s → IsTracking (untrack reg e s)
  untrack-IsTracking e s v q h =
      ground (arith, v q, h, find-erase e q s.dirty, among-erase_from q e s.tracked)

  seed_row-IsTracking :
      (e : Entity) (s : SnapshotReplication T)
      → IsTracking s
      → IsTracking (if among e s.tracked then s else track reg e s)
  seed_row-IsTracking e s v = elim (Bool-cases (among e s.tracked)) [
    | inl old ↦ rw old v
    | inr new ↦ rw new (rw new at (track-IsTracking e s v))
  ]

  seed_rows-IsTracking :
      (es : List Entity) (s : SnapshotReplication T)
      → IsTracking s
      → IsTracking (seed_rows reg es s)
  seed_rows-IsTracking [] s v = v
  seed_rows-IsTracking (e ∷ es) s v = seed_rows-IsTracking es _ (seed_row-IsTracking e s v)

  seed_archetypes-IsTracking :
      (w : World) (ps : List Ptr) (s : SnapshotReplication T)
      → IsTracking s
      → IsTracking (seed_archetypes reg w ps s)
  seed_archetypes-IsTracking w [] s v = v
  seed_archetypes-IsTracking w (p ∷ ps) s v =
      seed_archetypes-IsTracking w ps _
        (elim (Bool-cases (any (is_networked reg) (deref w p).component_ids)) [
          | inl net ↦ rw net (seed_rows-IsTracking (deref w p).entities s v)
          | inr skipped ↦ rw skipped v
        ])

  pub added-IsTracking :
      (live : Bool) (e : Entity) (t : ComponentTypeId) (s : SnapshotReplication T)
      → IsTracking s
      → IsTracking (on_entity_component_added reg live e t s)
  unfolding on_entity_component_added
  added-IsTracking live e t s v = elim (Bool-cases (not live || not (is_networked reg t))) [
    | inl ignored ↦ rw (on_entity_component_added, ignored) v
    | inr heard ↦ elim (Bool-cases (among e s.tracked)) [
      | inl known ↦
          rw (on_entity_component_added, heard, known) (make_dirty-IsTracking e t s known v)
      | inr new ↦ rw (on_entity_component_added, heard, new) (rw new at (track-IsTracking e s v))
    ]
  ]

  pub changed-IsTracking :
      (live : Bool) (e : Entity) (t : ComponentTypeId) (s : SnapshotReplication T)
      → IsTracking s
      → IsTracking (on_entity_component_changed reg live e t s)
  unfolding on_entity_component_changed
  changed-IsTracking live e t s v = elim (Bool-cases (not live || not (is_networked reg t))) [
    | inl ignored ↦ rw (on_entity_component_changed, ignored) v
    | inr heard ↦ elim (Bool-cases (among e s.tracked)) [
      | inl known ↦
          rw (on_entity_component_changed, heard, known) (make_dirty-IsTracking e t s known v)
      | inr unknown ↦ rw (on_entity_component_changed, heard, unknown) v
    ]
  ]

  pub removed-IsTracking :
      (live : Bool) (w : World) (e : Entity) (t : ComponentTypeId) (s : SnapshotReplication T)
      → IsTracking s
      → IsTracking (on_entity_component_removed reg live w e t s)
  unfolding on_entity_component_removed
  removed-IsTracking live w e t s v = elim (Bool-cases (not live || not (is_networked reg t))) [
    | inl ignored ↦ rw (on_entity_component_removed, ignored) v
    | inr heard ↦
        let s' = make_clean reg e t s in
        elim (Bool-cases
          (among e s'.tracked && not (any (is_networked reg) (get_entity_component_types w e)))) [
            | inl last ↦
                rw (on_entity_component_removed, heard, last)
                  (untrack-IsTracking e s' (make_clean-IsTracking e t s v))
            | inr more ↦
                rw (on_entity_component_removed, heard, more) (make_clean-IsTracking e t s v)
          ]
  ]

  pub seed_from_world-IsTracking :
      (server : Bool) (w : World) (s : SnapshotReplication T)
      → IsTracking s
      → IsTracking (seed_from_world reg server w s)
  unfolding seed_from_world
  seed_from_world-IsTracking false w s v = v
  seed_from_world-IsTracking true w s v = seed_archetypes-IsTracking w w.archetype_list s v

-- The entities of the first are among those of the second.
abbrev pub Within : Map Entity (List ComponentTypeId) → Map Entity (List ComponentTypeId) → Type 0
Within m n = (q : Entity) → Map.contains q m ≡ true → Map.contains q n ≡ true

contains-append :
    (q e : Entity) (ts : List ComponentTypeId) (m : Map Entity (List ComponentTypeId))
    → Map.contains q (m ++ (e, ts) ∷ []) ≡ (Map.contains q m || e == q)
unfolding find
contains-append q e ts [] = ground arith
contains-append q e ts ((j, v) ∷ m) = ground (arith, contains-append q e ts m)

module _ {T : Type 0} (clock : Clock T) (hundredths : ℕ → T) (elapsed : T) (reg : ComponentRegistry)
    (unwritten : List ℕ) (w : World) where
  send_entity-left :
      (e : Entity) (ts : List ComponentTypeId) (r : Entities T)
      → ((send_entity clock hundredths elapsed reg unwritten w e ts r).dirty ≡ r.dirty)
        ⊎ ((left : List ComponentTypeId) × ((send_entity clock hundredths elapsed reg unwritten w e
                ts r).dirty
              ≡ r.dirty ++ (e, left) ∷ []))
  unfolding send_entity
  send_entity-left e ts r =
      let c = send_components clock hundredths elapsed reg unwritten w e ts (record {
        comp_buf = new_buffer;
        ncomp = 0;
        left = [];
        times = list_or_empty (find e r.next_send_tick);
      }) in
      elim (Bool-cases (not (is_alive w e))) [
        | inl dead ↦ rw (send_entity, dead) (inl refl)
        | inr alive ↦ elim (Bool-cases (length c.left == 0)) [
          | inl none_left ↦ rw (send_entity, alive, none_left) (inl refl)
          | inr some_left ↦ rw (send_entity, alive, some_left) (inr (c.left, refl))
        ]
      ]

  send_entity-dirty :
      (q e : Entity) (ts : List ComponentTypeId) (r : Entities T)
      → Map.contains q (send_entity clock hundredths elapsed reg unwritten w e ts r).dirty ≡ true
      → (Map.contains q r.dirty || e == q) ≡ true
  send_entity-dirty q e ts r h = elim (send_entity-left e ts r) [
    | inl same ↦ let h' = rw same at h in ground (arith, h')
    | inr (left, more) ↦ sym (contains-append q e left r.dirty) ∙ rw more at h
  ]

  send_entities-dirty :
      (q : Entity) (m : Map Entity (List ComponentTypeId)) (r : Entities T)
      → Map.contains q (send_entities clock hundredths elapsed reg unwritten w m r).dirty ≡ true
      → (Map.contains q r.dirty || Map.contains q m) ≡ true
  unfolding send_entities find
  send_entities-dirty q [] r h = ground (arith, h)
  send_entities-dirty q ((e, ts) ∷ m) r h = ground (
    arith,
    send_entities-dirty q m (send_entity clock hundredths elapsed reg unwritten w e ts r) h,
    send_entity-dirty q e ts r,
  )

  -- What is left after a delta was dirty before.
  pub build_delta-Within :
      (s : SnapshotReplication T)
      → Within (build_delta clock hundredths elapsed reg unwritten w s).0.dirty s.dirty
  unfolding build_delta find
  build_delta-Within s q h = send_entities-dirty q s.dirty _ h
