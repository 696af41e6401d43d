-- ===== src/Scheduler/Cache.antt =====
-- gdscript/vecs_scheduler.cpp: the cache of orders.
use vortaris_ecs.Prelude.{
  ◌≡◌, refl, sym, ◌∙◌, false, not, Option, none, some, List, [], ◌∷◌, ◌==◌, nat_eq, string_eq,
  arith, length, Bool-cases, Option-cases, inl, inr, keep_if, String,
}
use vortaris_ecs.Prelude.Map.{Map, find, insert, erase, find-insert, find-erase}
use vortaris_ecs.Query.{Ptr}
use vortaris_ecs.Schema.Registry.{ComponentRegistry}
use vortaris_ecs.World.{World}
use vortaris_ecs.Scheduler.{
  Clock, Node, SystemScheduler, group_of, is_none, add_system, remove_system, without, sorted,
  recompute_order, ordered, visit, visit_all, process, or_zero,
}

some_inj : {A : Type 0} {a b : A} → some a ≡ some b → a ≡ b
some_inj h = cc

still_cached :
    (g key : String) (c : Map String (List Ptr)) (v : List Ptr)
    → find key (erase g c) ≡ some v
    → ((g == key) ≡ false) × (find key c ≡ some v)
still_cached g key c v h = elim (Bool-cases (g == key)) [
  | inl same ↦ let gone : none ≡ some v = rw (find-erase g key c, same) at h in absurd (cc)
  | inr other ↦ (other, rw (find-erase g key c, other) at h)
]

module _ {T : Type 0} (nodes : Ptr → Node T) where
  -- Every order in the cache is that of the systems that the group has now.
  abbrev pub IsFresh : SystemScheduler T → Type 0
  IsFresh s =
      (key : String) (v : List Ptr)
      → find key s.order_cache ≡ some v
      → (systems : List Ptr) × ((find key s.systems_by_group ≡ some systems)
          × (v ≡ sorted nodes systems))

  add_system-IsFresh :
      (p : Ptr) (s : SystemScheduler T) → IsFresh s → IsFresh (add_system nodes p s)
  unfolding add_system
  add_system-IsFresh p s fresh key v h =
      let (other, old) = still_cached (nodes p).group key s.order_cache v h in
      let (systems, (f, e)) = fresh key v old in
      (systems, (rw (find-insert (nodes p).group key, other) f, e))

  find-without :
      (g key : String) (p : Ptr) (o : Option (List Ptr)) (m : Map String (List Ptr))
      → (g == key) ≡ false
      → find key (without nodes g p o m) ≡ find key m
  find-without g key p none m other = refl
  find-without g key p (some v) m other =
      let left = keep_if (λ x. not (x == p)) v in
      elim (Bool-cases (length left == 0)) [
        | inl none_left ↦ rw (none_left, find-erase g key, other) refl
        | inr some_left ↦ rw (some_left, find-insert g key, other) refl
      ]

  remove_system-IsFresh :
      (p : Ptr) (s : SystemScheduler T) → IsFresh s → IsFresh (remove_system nodes p s)
  unfolding remove_system
  remove_system-IsFresh p s fresh key v h =
      let g = (nodes p).group in
      let (other, old) = still_cached g key s.order_cache v h in
      let (systems, (f, e)) = fresh key v old in
      (systems, (find-without g key p (find g s.systems_by_group) s.systems_by_group other ∙ f, e))

  recompute_absent :
      (group : String) (s : SystemScheduler T)
      → find group s.systems_by_group ≡ none
      → recompute_order nodes group s ≡ record s { order_cache = erase group s.order_cache }
  unfolding recompute_order
  recompute_absent group s e = rw (recompute_order, e) refl

  recompute_present :
      (group : String) (s : SystemScheduler T) (systems : List Ptr)
      → find group s.systems_by_group ≡ some systems
      → recompute_order nodes group s
        ≡ record s { order_cache = insert group (sorted nodes systems) s.order_cache }
  unfolding recompute_order
  recompute_present group s systems e = rw (recompute_order, e) refl

  recompute_order-IsFresh :
      (group : String) (s : SystemScheduler T) → IsFresh s → IsFresh (recompute_order nodes group s)
  recompute_order-IsFresh group s fresh = elim (Option-cases (find group s.systems_by_group)) [
    | inl absent ↦
        rw (recompute_absent group s absent)
          (λ key v h. fresh key v (still_cached group key s.order_cache v h).1)
    | inr (systems, present) ↦ rw (recompute_present group s systems present) (λ key v h.
        let h' = rw (find-insert group key) at h in
        elim (Bool-cases (group == key)) [
          | inl same ↦
              let name : group ≡ key = (string_eq.beq_iff group key).0 same in
              let now : sorted nodes systems ≡ v = some_inj (rw same at h') in
              (systems, (rw name at present, sym now))
          | inr other ↦ fresh key v (rw other at h')
        ])
  ]

  ordered-IsFresh :
      (group : String) (s : SystemScheduler T) → IsFresh s → IsFresh (ordered nodes group s).0
  unfolding ordered
  ordered-IsFresh group s fresh = elim (Bool-cases (is_none (find group s.order_cache))) [
    | inl missing ↦ rw missing (recompute_order-IsFresh group s fresh)
    | inr cached ↦ rw cached fresh
  ]

  -- What `ordered` answers with in a fresh cache is the order of the systems that the group has.
  ordered_current :
      (group : String) (s : SystemScheduler T) (systems : List Ptr)
      → IsFresh s
      → find group s.systems_by_group ≡ some systems
      → (ordered nodes group s).1 ≡ sorted nodes systems
  unfolding ordered
  ordered_current group s systems fresh there = elim (Option-cases (find group s.order_cache)) [
    | inl missing ↦
        rw
          (
            missing,
            recompute_present group s systems there,
            find-insert group group,
            (string_eq.beq_iff group group).1 refl,
          )
          refl
    | inr (v, cached) ↦
        let (now, (f, e)) = fresh group v cached in
        rw (cached, cached, e, some_inj (sym f ∙ there)) refl
  ]

  module _ (clock : Clock T) (reg : ComponentRegistry) where
    -- A run changes the times alone.
    visit-order_cache :
        (elapsed delta : T) (p : Ptr) (r : SystemScheduler T × World)
        → ((visit nodes clock reg elapsed delta p r).0.order_cache ≡ r.0.order_cache)
          × ((visit nodes clock reg elapsed delta p r).0.systems_by_group ≡ r.0.systems_by_group)
    unfolding visit
    visit-order_cache elapsed delta p r = (ground arith, ground arith)

    visit_all-IsFresh :
        (elapsed delta : T) (ps : List Ptr) (r : SystemScheduler T × World)
        → IsFresh r.0
        → IsFresh (visit_all nodes clock reg elapsed delta ps r).0
    unfolding visit_all
    visit_all-IsFresh elapsed delta [] r fresh = fresh
    visit_all-IsFresh elapsed delta (p ∷ ps) r fresh =
        let (c, g) = visit-order_cache elapsed delta p r in
        visit_all-IsFresh elapsed delta ps (visit nodes clock reg elapsed delta p r)
          (λ key v h. let (systems, (f, e)) = fresh key v (rw c at h) in (systems, (rw g f, e)))

    process-IsFresh :
        (delta : T) (group : String) (r : SystemScheduler T × World)
        → IsFresh r.0
        → IsFresh (process nodes clock reg delta group r).0
    unfolding process
    process-IsFresh delta group r fresh =
        let elapsed = clock.add (or_zero nodes clock reg (find group r.0.elapsed_by_group)) delta in
        let s : SystemScheduler T = record (r.0) {
          elapsed_by_group = insert group elapsed r.0.elapsed_by_group;
        } in
        elim (Bool-cases (length (group_of (find group s.systems_by_group)) == 0)) [
          | inl idle ↦ rw (process, idle) fresh
          | inr busy ↦
              rw (process, busy)
                (visit_all-IsFresh elapsed delta (ordered nodes group s).1
                  ((ordered nodes group s).0, r.1) (ordered-IsFresh group s fresh))
        ]

  -- The cache of orders is never stale: adding a system, removing one and running a group keep every cached order
  -- that of the systems the group has, and in such a cache `ordered` answers with the order of the group's systems.
  -- The groups of the nodes do not change.
  pub scheduler-IsFresh :
      (clock : Clock T) (reg : ComponentRegistry) (s : SystemScheduler T)
      → IsFresh s
      → ((p : Ptr) → IsFresh (add_system nodes p s) × IsFresh (remove_system nodes p s))
        × (((delta : T) (group : String) (w : World)
              → IsFresh (process nodes clock reg delta group (s, w)).0)
            × ((group : String) (systems : List Ptr)
                → find group s.systems_by_group ≡ some systems
                → (ordered nodes group s).1 ≡ sorted nodes systems))
  scheduler-IsFresh clock reg s fresh = (
    λ p. (add_system-IsFresh p s fresh, remove_system-IsFresh p s fresh),
    (
      λ delta group w. process-IsFresh clock reg delta group (s, w) fresh,
      λ group systems f. ordered_current group s systems fresh f,
    ),
  )
