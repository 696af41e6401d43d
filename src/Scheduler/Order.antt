-- ===== src/Scheduler/Order.antt =====
-- gdscript/vecs_scheduler.cpp: the order of a group of systems.
use vortaris_ecs.Prelude.{
  ℕ, zero, suc, ◌+◌, ◌-◌, ◌≤◌, ◌<◌, ◌≡◌, refl, ap, sym, ◌∙◌, List, [], ◌∷◌, ltb, ◌==◌, nat_eq,
  if◌then◌else◌, arith, length, Bool-cases, inl, inr, get_or, append-nil, String,
}
use vortaris_ecs.Scheduler.Graph.{
  Graph, SystemDep, Walk, index_names, kahn, ready, blocked, start, order_indices, graph_of,
}
use vortaris_ecs.Scheduler.Sums.{
  occurrences, occurrences-append, total, total-same, total-change, total_ones,
}
use vortaris_ecs.Scheduler.Kahn.{Inv, Respected, kahn-Inv, positive, waiting}
use vortaris_ecs.Scheduler.Edges.{IsGraph, AllEdges, graph_of-IsGraph}

occurrences-blocked :
    (i j : ℕ) (ds : List ℕ)
    → occurrences j (blocked i ds) ≡ (if ltb j i then 0 else positive (get_or ds (j - i) 0))
unfolding blocked
occurrences-blocked i j [] = ground arith
occurrences-blocked i j (d ∷ ds) = elim (Bool-cases (j == i)) [
  | inl here ↦
      let z : j - i ≡ 0 = ground (arith, here) in
      rw z (ground (arith, here, occurrences-blocked (suc i) j ds))
  | inr other ↦ elim (Bool-cases (ltb j i)) [
    | inl below ↦ ground (arith, other, below, occurrences-blocked (suc i) j ds)
    | inr above ↦
        let z : j - i ≡ suc (j - suc i) = ground (arith, other, above) in
        rw z (ground (arith, other, above, occurrences-blocked (suc i) j ds))
  ]
]

-- 1 where a system is free of edges, 0 elsewhere.
abbrev free : ℕ → ℕ
free d = if d == 0 then 1 else 0

occurrences-ready :
    (i j : ℕ) (ds : List ℕ)
    → occurrences j (ready i ds)
      ≡ (if ltb j i then 0 else (if ltb (j - i) (length ds) then free (get_or ds (j - i) 0) else 0))
unfolding ready
occurrences-ready i j [] = ground arith
occurrences-ready i j (d ∷ ds) = elim (Bool-cases (j == i)) [
  | inl here ↦
      let z : j - i ≡ 0 = ground (arith, here) in
      rw z (ground (arith, here, occurrences-ready (suc i) j ds))
  | inr other ↦ elim (Bool-cases (ltb j i)) [
    | inl below ↦ ground (arith, other, below, occurrences-ready (suc i) j ds)
    | inr above ↦
        let z : j - i ≡ suc (j - suc i) = ground (arith, other, above) in
        rw z (ground (arith, other, above, occurrences-ready (suc i) j ds))
  ]
]

total_plus : (n : ℕ) (f g : ℕ → ℕ) → total n f + total n g ≡ total n (λ k. f k + g k)
total_plus zero f g = refl
total_plus (suc n) f g = omega (arith, total_plus n f g)

total_nothing : (n : ℕ) → total n (λ a. 0) ≡ 0
total_nothing zero = refl
total_nothing (suc n) = omega (arith, total_nothing n)

pub get_or_beyond : (xs : List ℕ) (i : ℕ) → length xs ≤ i → get_or xs i 0 ≡ 0
get_or_beyond [] i h = refl
get_or_beyond (x ∷ xs) zero h = absurd (omega (arith, h))
get_or_beyond (x ∷ xs) (suc i) h = get_or_beyond xs i (omega (arith, h))

blocked_none : (i : ℕ) (ds : List ℕ) → ((j : ℕ) → get_or ds j 0 ≡ 0) → blocked i ds ≡ []
unfolding blocked
blocked_none i [] h = refl
blocked_none i (d ∷ ds) h = ground (arith, h 0, blocked_none (suc i) ds (λ j. h (suc j)))

-- A list of indices below a bound is as long as their occurrences.
length-total :
    (n : ℕ) (xs : List ℕ)
    → ((j : ℕ) → n ≤ j → occurrences j xs ≡ 0)
    → length xs ≡ total n (λ j. occurrences j xs)
length-total n [] h = sym (total_nothing n)
length-total n (x ∷ xs) h =
    let below : x < n = ground (arith, h x) in
    omega (
      arith,
      length-total n xs (λ j l. omega (arith, h j l)),
      total-change n x 1 (λ j. occurrences j xs) (λ j. occurrences j (x ∷ xs)) below (ground arith)
          (λ k o. ground (arith, o)),
    )

at_start :
    (j : ℕ) (ds : List ℕ)
    → occurrences j (ready 0 ds) ≡ (if ltb j (length ds) then free (get_or ds j 0) else 0)
at_start j ds =
    let z : j - 0 ≡ j = omega arith in
    let o = rw z at (occurrences-ready 0 j ds) in ground (arith, o)

module _ (n : ℕ) (g : Graph) (v : IsGraph n g) where
  start-Inv : Inv g.out_edges n (start g) []
  start-Inv = record {
    size = v.size;
    once = λ j l. ground (arith, at_start j g.indegree, l, v.size);
    inside = λ j l. ground (arith, at_start j g.indegree, l, v.size);
    degree = λ j l. v.degree j l ∙ omega arith;
    shared = omega (
      arith,
      length-total n (ready 0 g.indegree) (λ j l. ground (arith, at_start j g.indegree, l, v.size)),
      total_plus n (λ j. occurrences j (ready 0 g.indegree))
          (λ j. positive (get_or g.indegree j 0)),
      total-same n (λ j. occurrences j (ready 0 g.indegree) + positive (get_or g.indegree j 0))
          (λ j. 1) (λ j l. ground (arith, at_start j g.indegree, l, v.size)),
      total_ones n,
    );
  }

  -- The walk at its end.
  abbrev done : Walk
  done = kahn g.out_edges (length g.indegree) (start g)

  done-Inv : Inv g.out_edges n done [] × ((done.queue ≡ []) × Respected g.out_edges n [] done.order)
  done-Inv =
      kahn-Inv g.out_edges n v.bounded (length g.indegree) (start g) (omega (arith, v.size))
        start-Inv tt

  order_indices-occurrences : (j : ℕ) → occurrences j (order_indices g) ≡ (if ltb j n then 1 else 0)
  unfolding order_indices
  order_indices-occurrences j =
      let (i, (e, r)) = done-Inv in
      let z : j - 0 ≡ j = omega arith in
      let b = rw z at (occurrences-blocked 0 j done.indegree) in
      let q = ap (occurrences j) e in
      let both = occurrences-append j done.order (blocked 0 done.indegree) in
      elim (Bool-cases (ltb j n)) [
        | inl in_range ↦ ground (arith, both, b, q, i.once j, in_range)
        | inr beyond ↦
            ground (arith, both, b, q, i.inside j, beyond, i.size, get_or_beyond done.indegree j)
      ]

  -- Where the edges lead upwards in some ranking, no system is left when the queue is empty.
  module _ (rank : ℕ → ℕ)
      (upwards : (a j : ℕ)
        → a < n
        → 0 < occurrences j (get_or g.out_edges a [])
        → rank a < rank j) where
    released : (r j : ℕ) → rank j < r → j < n → get_or done.indegree j 0 ≡ 0
    released zero j h l = absurd (omega (arith, h))
    released (suc r) j h l =
        let (i, (e, o)) = done-Inv in
        i.degree j l
        ∙ omega (
          arith,
          total-same n (waiting g.out_edges done.order j) (λ a. 0)
              (λ a la.
                ground
                  (arith, upwards a j la, released r a, la, h, i.once a la, ap (occurrences a) e)),
          total_nothing n,
        )

    order_Respected : Respected g.out_edges n [] (order_indices g)
    unfolding order_indices
    order_Respected =
        let (i, (e, r)) = done-Inv in
        let none_left = blocked_none 0 done.indegree (λ j. elim (Bool-cases (ltb j n)) [
          | inl l ↦ released (suc (rank j)) j (omega arith) (ground (arith, l))
          | inr l ↦ get_or_beyond done.indegree j (ground (arith, l, i.size))
        ]) in
        rw (none_left, append-nil done.order) r

-- The loop needs no more rounds than there are systems, whatever their names and dependencies: then its queue is empty.
pub kahn-finishes :
    (names : List String) (deps : List (List SystemDep))
    → length deps ≡ length names
    → let g = graph_of names deps in (kahn g.out_edges (length names) (start g)).queue ≡ []
kahn-finishes names deps h =
    let v = (graph_of-IsGraph names deps h).0 in
    let g = graph_of names deps in rw v.size at (done-Inv (length names) g v).1.0

-- The order has every system of the group exactly once and nothing else, whatever the names and dependencies,
-- cycles among them included.
pub order_indices-graph_of :
    (names : List String) (deps : List (List SystemDep))
    → length deps ≡ length names
    → (j : ℕ)
    → occurrences j (order_indices (graph_of names deps)) ≡ (if ltb j (length names) then 1 else 0)
order_indices-graph_of names deps h =
    order_indices-occurrences (length names) (graph_of names deps) (graph_of-IsGraph names deps h).0

-- Where the constraints have no cycle, which a ranking that rises along every edge shows, every constraint on a
-- known system has its edge, and in the order each system stands behind all systems with an edge to it.
pub order_indices-Respected :
    (names : List String) (deps : List (List SystemDep)) (rank : ℕ → ℕ)
    → length deps ≡ length names
    → ((a j : ℕ)
        → a < length names
        → 0 < occurrences j (get_or (graph_of names deps).out_edges a [])
        → rank a < rank j)
    → AllEdges (index_names 0 names []) 0 deps (graph_of names deps)
      × Respected
          (graph_of names deps).out_edges
          (length names)
          []
          (order_indices (graph_of names deps))
order_indices-Respected names deps rank h up =
    let (v, edges) = graph_of-IsGraph names deps h in
    (edges, order_Respected (length names) (graph_of names deps) v rank up)
