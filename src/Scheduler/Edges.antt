-- ===== src/Scheduler/Edges.antt =====
-- gdscript/vecs_scheduler.cpp: the graph that is built from the names and the dependencies.
use vortaris_ecs.Prelude.{
  ℕ, zero, suc, ◌+◌, ◌≤◌, ◌<◌, ◌≡◌, refl, sym, ◌∙◌, Option, none, some, List, [], ◌∷◌, ◌++◌, ◌==◌,
  nat_eq, string_eq, if◌then◌else◌, arith, length, Bool-cases, inl, inr, get_or, get_or-set,
  length-set, replicate, get_or-replicate, length-replicate, String,
}
use vortaris_ecs.Prelude.Map
use vortaris_ecs.Prelude.Map.{Map, find-insert}
use vortaris_ecs.Scheduler.Graph.{
  SystemOrder, SystemDep, Graph, index_names, add_edge, add_dep, add_deps, add_all, graph_of,
}
use vortaris_ecs.Scheduler.Sums.{occurrences, occurrences-append, total, total-same, total-change}

index_names-Named :
    (n i : ℕ) (names : List String) (m : Map String ℕ)
    → i + length names ≤ n
    → ((s : String) (j : ℕ) → Map.find s m ≡ some j → j < n)
    → (s : String) (j : ℕ) → Map.find s (index_names i names m) ≡ some j
    → j < n
unfolding index_names
index_names-Named n i [] m h v s j f = v s j f
index_names-Named n i (name ∷ names) m h v s j f =
    index_names-Named n (suc i) names (Map.insert name i m) (omega (arith, h))
      (λ s' j' f'. ground (arith, h, f', find-insert name s' i m, v s' j')) s j f

-- The degree of a system is the number of the edges to it, and edges lead to systems.
pub record IsGraph (n : ℕ) (g : Graph) : Type 0 where
  pub size : length g.indegree ≡ n
  pub sources : length g.out_edges ≡ n
  pub degree :
      (j : ℕ)
      → j < n
      → get_or g.indegree j 0 ≡ total n (λ a. occurrences j (get_or g.out_edges a []))
  pub bounded : (a j : ℕ) → 0 < occurrences j (get_or g.out_edges a []) → j < n

-- No edge is lost.
abbrev pub Grown : Graph → Graph → Type 0
Grown g h =
    (a j : ℕ)
    → 0 < occurrences j (get_or g.out_edges a [])
    → 0 < occurrences j (get_or h.out_edges a [])

module _ (n : ℕ) where
  module _ (from to : ℕ) (g : Graph) (hf : from < n) (ht : to < n) (v : IsGraph n g) where
    out_after :
        (a : ℕ)
        → get_or (add_edge from to g).out_edges a []
          ≡ (if from == a then get_or g.out_edges from [] ++ to ∷ [] else get_or g.out_edges a [])
    unfolding add_edge
    out_after a =
        get_or-set g.out_edges from a (get_or g.out_edges from [] ++ to ∷ []) []
          (omega (arith, hf, v.sources))

    edges_after :
        (a j : ℕ)
        → occurrences j (get_or (add_edge from to g).out_edges a [])
          ≡ occurrences j (get_or g.out_edges a [])
            + (if from == a then (if to == j then 1 else 0) else 0)
    edges_after a j = elim (Bool-cases (from == a)) [
      | inl here ↦
          let same : from ≡ a = ground (arith, here) in
          rw (out_after a, here, sym same)
            (occurrences-append j (get_or g.out_edges from []) (to ∷ []) ∙ omega arith)
      | inr other ↦ rw (out_after a, other) (omega arith)
    ]

    add_edge-IsGraph : IsGraph n (add_edge from to g)
    unfolding add_edge
    add_edge-IsGraph = record {
      size = length-set g.indegree to (get_or g.indegree to 0 + 1) ∙ v.size;
      sources = length-set g.out_edges from (get_or g.out_edges from [] ++ to ∷ []) ∙ v.sources;
      degree = λ j l.
          let changed =
            total-change n from (if to == j then 1 else 0)
              (λ a. occurrences j (get_or g.out_edges a []))
              (λ a. occurrences j (get_or (add_edge from to g).out_edges a [])) hf
              (ground (arith, edges_after from j)) (λ a o. ground (arith, edges_after a j, o)) in
          ground (
            arith,
            changed,
            v.degree j l,
            get_or-set g.indegree to j (get_or g.indegree to 0 + 1) 0 (omega (arith, ht, v.size)),
          );
      bounded = λ a j o. ground (arith, edges_after a j, o, v.bounded a j, ht);
    }

    add_edge-Grown : Grown g (add_edge from to g)
    add_edge-Grown a j o = omega (arith, o, edges_after a j)

    -- The new edge is there.
    add_edge-edge : 0 < occurrences to (get_or (add_edge from to g).out_edges from [])
    add_edge-edge = ground (arith, edges_after from to)

-- The edge that a dependency on a known system asks for.
abbrev pub Edge : SystemOrder → ℕ → Option ℕ → Graph → Type 0
Edge order i none g = Unit {0}
Edge SystemOrder.any i (some j) g = Unit {0}
Edge SystemOrder.after i (some j) g = 0 < occurrences i (get_or g.out_edges j [])
Edge SystemOrder.before i (some j) g = 0 < occurrences j (get_or g.out_edges i [])

Edge-Grown :
    (order : SystemOrder) (i : ℕ) (o : Option ℕ) (g h : Graph)
    → Grown g h
    → Edge order i o g
    → Edge order i o h
Edge-Grown order i none g h m e = tt
Edge-Grown SystemOrder.any i (some j) g h m e = tt
Edge-Grown SystemOrder.after i (some j) g h m e = m j i e
Edge-Grown SystemOrder.before i (some j) g h m e = m i j e

-- The edges of all dependencies of a system.
abbrev pub Edges : Map String ℕ → ℕ → List SystemDep → Graph → Type 0
Edges m i [] g = Unit {0}
Edges m i (d ∷ ds) g = Edge d.order i (Map.find d.target m) g × Edges m i ds g

Edges-Grown :
    (m : Map String ℕ) (i : ℕ) (ds : List SystemDep) (g h : Graph)
    → Grown g h
    → Edges m i ds g
    → Edges m i ds h
Edges-Grown m i [] g h r e = tt
Edges-Grown m i (d ∷ ds) g h r e =
    (Edge-Grown d.order i (Map.find d.target m) g h r e.0, Edges-Grown m i ds g h r e.1)

-- The edges of all systems, from an index on.
abbrev pub AllEdges : Map String ℕ → ℕ → List (List SystemDep) → Graph → Type 0
AllEdges m i [] g = Unit {0}
AllEdges m i (ds ∷ dss) g = Edges m i ds g × AllEdges m (suc i) dss g

module _ (n : ℕ) where
  add_dep-IsGraph :
      (o : Option ℕ) (order : SystemOrder) (i : ℕ) (g : Graph)
      → i < n
      → ((j : ℕ) → o ≡ some j → j < n)
      → IsGraph n g
      → IsGraph n (add_dep o order i g)
        × (Grown g (add_dep o order i g) × Edge order i o (add_dep o order i g))
  add_dep-IsGraph none order i g h b v = (v, (λ a j e. e, tt))
  add_dep-IsGraph (some j) SystemOrder.any i g h b v = (v, (λ a k e. e, tt))
  add_dep-IsGraph (some j) SystemOrder.after i g h b v =
      let l = b j refl in
      (add_edge-IsGraph n j i g l h v, (add_edge-Grown n j i g l h v, add_edge-edge n j i g l h v))
  add_dep-IsGraph (some j) SystemOrder.before i g h b v =
      let l = b j refl in
      (add_edge-IsGraph n i j g h l v, (add_edge-Grown n i j g h l v, add_edge-edge n i j g h l v))

  module _ (m : Map String ℕ) (named : (s : String) (j : ℕ) → Map.find s m ≡ some j → j < n) where
    add_deps-IsGraph :
        (i : ℕ) (ds : List SystemDep) (g : Graph)
        → i < n
        → IsGraph n g
        → IsGraph n (add_deps m i ds g)
          × (Grown g (add_deps m i ds g) × Edges m i ds (add_deps m i ds g))
    unfolding add_deps
    add_deps-IsGraph i [] g h v = (v, (λ a j e. e, tt))
    add_deps-IsGraph i (d ∷ ds) g h v =
        let o = Map.find d.target m in
        let one = add_dep-IsGraph o d.order i g h (named d.target) v in
        let rest = add_deps-IsGraph i ds (add_dep o d.order i g) h one.0 in
        (
          rest.0,
          (
            λ a j e. rest.1.0 a j (one.1.0 a j e),
            (Edge-Grown d.order i o _ _ rest.1.0 one.1.1, rest.1.1),
          ),
        )

    add_all-IsGraph :
        (i : ℕ) (dss : List (List SystemDep)) (g : Graph)
        → i + length dss ≤ n
        → IsGraph n g
        → IsGraph n (add_all m i dss g)
          × (Grown g (add_all m i dss g) × AllEdges m i dss (add_all m i dss g))
    unfolding add_all
    add_all-IsGraph i [] g h v = (v, (λ a j e. e, tt))
    add_all-IsGraph i (ds ∷ dss) g h v =
        let one = add_deps-IsGraph i ds g (omega (arith, h)) v in
        let rest = add_all-IsGraph (suc i) dss (add_deps m i ds g) (omega (arith, h)) one.0 in
        (
          rest.0,
          (
            λ a j e. rest.1.0 a j (one.1.0 a j e),
            (Edges-Grown m i ds _ _ rest.1.0 one.1.1, rest.1.1),
          ),
        )

total_nothing : (n : ℕ) → total n (λ a. 0) ≡ 0
total_nothing zero = refl
total_nothing (suc n) = omega (arith, total_nothing n)

no_edges : (n a j : ℕ) → occurrences j (get_or (replicate n []) a []) ≡ 0
no_edges zero a j = refl
no_edges (suc n) zero j = refl
no_edges (suc n) (suc a) j = no_edges n a j

nothing : (s : String) (j : ℕ) → Map.find {V = ℕ} s [] ≡ some j → ⊥
unfolding Map.find
nothing s j f = cc

-- The graph has the edges of the dependencies, and counts them.
pub graph_of-IsGraph :
    (names : List String) (deps : List (List SystemDep))
    → length deps ≡ length names
    → IsGraph (length names) (graph_of names deps)
      × AllEdges (index_names 0 names []) 0 deps (graph_of names deps)
unfolding graph_of
graph_of-IsGraph names deps h =
    let n = length names in
    let empty : Graph = record { indegree = replicate n 0; out_edges = replicate n [] } in
    let v : IsGraph n empty = record {
      size = length-replicate {A = ℕ} n 0;
      sources = length-replicate {A = List ℕ} n [];
      degree = λ j l. ground (
        arith,
        get_or-replicate {A = ℕ} n j 0 0,
        total-same n (λ a. occurrences j (get_or (replicate n []) a [])) (λ a. 0)
            (λ k l'. no_edges n k j),
        total_nothing n,
      );
      bounded = λ a j o. absurd (omega (arith, o, no_edges n a j));
    } in
    let all =
      add_all-IsGraph n (index_names 0 names [])
        (index_names-Named n 0 names [] (omega arith) (λ s j f. absurd (nothing s j f))) 0 deps
        empty (omega (arith, h)) v in
    (all.0, all.1.1)
