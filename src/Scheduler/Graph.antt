-- ===== src/Scheduler/Graph.antt =====
-- gdscript/vecs_scheduler.cpp: the order of a group's systems, from their names and dependencies.
--
-- A system stands for its index in the group. A count of `indegree` is an int that the code decrements; the count is
-- positive whenever it does, which the module Kahn proves.
use vortaris_ecs.Prelude.{
  ℕ, zero, suc, ◌+◌, ◌-◌, Option, none, some, List, [], ◌∷◌, ◌++◌, ltb, ◌==◌, nat_eq, string_eq,
  if◌then◌else◌, length, get_or, set, replicate, String,
}
use vortaris_ecs.Prelude.Map
use vortaris_ecs.Prelude.Map.{Map}
use vortaris_ecs.Query.{Ptr}

pub data SystemOrder : Type 0 where
  any after before : SystemOrder

pub record SystemDep : Type 0 where
  pub order : SystemOrder
  pub target : String

-- Index of each name, from an index on: a later system of the same name takes it over.
unfoldable pub index_names : ℕ → List String → Map String ℕ → Map String ℕ
index_names i [] name_to_idx = name_to_idx
index_names i (name ∷ names) name_to_idx = index_names (suc i) names (Map.insert name i name_to_idx)

pub record Graph : Type 0 where
  pub indegree : List ℕ
  pub out_edges : List (List ℕ)

-- `out_edges[from].push_back(to); ++indegree[to]`.
unfoldable pub add_edge : ℕ → ℕ → Graph → Graph
add_edge from to g = record {
  indegree = set g.indegree to (get_or g.indegree to 0 + 1);
  out_edges = set g.out_edges from (get_or g.out_edges from [] ++ to ∷ []);
}

-- The constraint between a system and another one.
abbrev pub constrain : SystemOrder → ℕ → ℕ → Graph → Graph
constrain SystemOrder.any i j g = g
constrain SystemOrder.after i j g = add_edge j i g
constrain SystemOrder.before i j g = add_edge i j g

-- A dependency of a system; an unknown target is no constraint.
abbrev pub add_dep : Option ℕ → SystemOrder → ℕ → Graph → Graph
add_dep none order i g = g
add_dep (some j) order i g = constrain order i j g

unfoldable pub add_deps : Map String ℕ → ℕ → List SystemDep → Graph → Graph
unfolding add_edge
add_deps name_to_idx i [] g = g
add_deps name_to_idx i (d ∷ ds) g =
    add_deps name_to_idx i ds (add_dep (Map.find d.target name_to_idx) d.order i g)

-- The loop over the systems, from an index on.
unfoldable pub add_all : Map String ℕ → ℕ → List (List SystemDep) → Graph → Graph
unfolding add_deps
add_all name_to_idx i [] g = g
add_all name_to_idx i (ds ∷ dss) g = add_all name_to_idx (suc i) dss (add_deps name_to_idx i ds g)

unfoldable pub graph_of : List String → List (List SystemDep) → Graph
unfolding add_all index_names
graph_of names deps =
    add_all (index_names 0 names []) 0 deps
      (record { indegree = replicate (length names) 0; out_edges = replicate (length names) [] })

-- The indices whose count is 0 and those whose count is not, from an index on.
unfoldable pub ready : ℕ → List ℕ → List ℕ
ready i [] = []
ready i (d ∷ ds) = if d == 0 then i ∷ ready (suc i) ds else ready (suc i) ds

unfoldable pub blocked : ℕ → List ℕ → List ℕ
blocked i [] = []
blocked i (d ∷ ds) = if ltb 0 d then i ∷ blocked (suc i) ds else blocked (suc i) ds

pub record Walk : Type 0 where
  pub indegree : List ℕ
  pub queue : List ℕ
  pub order : List ℕ

-- `if (--indegree[j] == 0) queue.push_back(j)`.
unfoldable pub release_one : ℕ → Walk → Walk
release_one j k = record k {
  indegree = set k.indegree j (get_or k.indegree j 0 - 1);
  queue = if get_or k.indegree j 0 == 1 then k.queue ++ j ∷ [] else k.queue;
}

unfoldable pub release : List ℕ → Walk → Walk
unfolding release_one
release [] k = k
release (j ∷ js) k = release js (release_one j k)

-- The front of the queue is popped into the order.
abbrev pub pop_front : List (List ℕ) → Walk → List ℕ → Walk
pop_front out_edges k [] = k
pop_front out_edges k (i ∷ rest) =
    release (get_or out_edges i []) (record k { queue = rest; order = k.order ++ i ∷ [] })

-- The while loop, on fuel.
unfoldable pub kahn : List (List ℕ) → ℕ → Walk → Walk
unfolding release
kahn out_edges zero k = k
kahn out_edges (suc fuel) k = kahn out_edges fuel (pop_front out_edges k k.queue)

abbrev pub start : Graph → Walk
start g = record { indegree = g.indegree; queue = ready 0 g.indegree; order = [] }

-- The loop and the fallback for cycles: one round for each system is fuel enough.
unfoldable pub order_indices : Graph → List ℕ
unfolding kahn ready blocked
order_indices g =
    let k = kahn g.out_edges (length g.indegree) (start g) in k.order ++ blocked 0 k.indegree

-- `sorted.push_back(systems[i])` for each index.
abbrev pub pick : List Ptr → List ℕ → List Ptr
pick systems [] = []
pick systems (i ∷ is) = get_or systems i 0 ∷ pick systems is

unfoldable pub order_of : List Ptr → List String → List (List SystemDep) → List Ptr
unfolding order_indices graph_of
order_of systems names deps = pick systems (order_indices (graph_of names deps))
