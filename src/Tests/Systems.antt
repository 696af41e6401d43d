-- ===== src/Tests/Systems.antt =====
-- gdscript/vecs_scheduler.cpp for three systems, of which the first runs after the second and the third before it.
use vortaris_ecs.Prelude.{
  ℕ, zero, suc, ◌+◌, ◌<◌, ◌≡◌, refl, true, false, none, some, List, [], ◌∷◌, ltb, ◌==◌, nat_eq,
  string_eq, arith, String, Bool-cases, inl, inr, get_or,
}
use vortaris_ecs.Prelude.Map.{find, insert}
use vortaris_ecs.Query.{Ptr}
use vortaris_ecs.Schema.Registry.{empty_registry}
use vortaris_ecs.Scheduler.{
  Clock, Node, SystemScheduler, FlushMode, sorted, ordered, add_system, remove_system, process,
}
use vortaris_ecs.Scheduler.Cache.{IsFresh, scheduler-IsFresh}
use vortaris_ecs.Scheduler.Graph.{
  SystemOrder, SystemDep, kahn, start, graph_of, order_indices, index_names, add_all, add_deps,
  add_edge,
}
use vortaris_ecs.Scheduler.Edges.{AllEdges}
use vortaris_ecs.Scheduler.Kahn.{Respected}
use vortaris_ecs.Scheduler.Order.{kahn-finishes, order_indices-graph_of, order_indices-Respected}
use vortaris_ecs.Scheduler.Sums.{occurrences}

abbrev names : List String
names = "move" ∷ "input" ∷ "spawn" ∷ []

abbrev deps : List (List SystemDep)
deps =
    (record { order = SystemOrder.after; target = "input" } ∷ [])
    ∷ []
    ∷ (record { order = SystemOrder.before; target = "move" } ∷ [])
    ∷ []

abbrev rank : ℕ → ℕ
rank zero = 1
rank (suc n) = 0

kahn-finishes_example :
    (kahn (graph_of names deps).out_edges 3 (start (graph_of names deps))).queue ≡ []
kahn-finishes_example = kahn-finishes names deps refl

order_indices-graph_of_example : occurrences 0 (order_indices (graph_of names deps)) ≡ 1
order_indices-graph_of_example = order_indices-graph_of names deps refl 0

upwards :
    (a j : ℕ)
    → a < 3
    → 0 < occurrences j (get_or (graph_of names deps).out_edges a [])
    → rank a < rank j
unfolding graph_of index_names add_all add_deps add_edge find insert
upwards zero j h e = absurd (omega (arith, e))
upwards (suc zero) zero h e = omega arith
upwards (suc zero) (suc j) h e = absurd (ground (arith, e))
upwards (suc (suc zero)) zero h e = omega arith
upwards (suc (suc zero)) (suc j) h e = absurd (ground (arith, e))
upwards (suc (suc (suc a))) j h e = absurd (omega (arith, h))

order_indices-Respected_example :
    AllEdges (index_names 0 names []) 0 deps (graph_of names deps)
    × Respected (graph_of names deps).out_edges 3 [] (order_indices (graph_of names deps))
order_indices-Respected_example = order_indices-Respected names deps rank refl upwards

abbrev seconds : Clock ℕ
seconds = record { zero_time = 0; add = λ a b. a + b; less = ltb }

abbrev node : Ptr → Node ℕ
node p = record {
  group = "physics";
  system_name = "move";
  deps = [];
  active = true;
  paused = false;
  tick_interval = 2;
  flush_mode = FlushMode.manual;
  handle = λ delta w. w;
}

-- A scheduler whose order is in the cache.
abbrev warm : SystemScheduler ℕ
warm = record {
  systems_by_group = ("physics", 7 ∷ []) ∷ [];
  order_cache = ("physics", sorted node (7 ∷ [])) ∷ [];
  next_run = [];
  elapsed_by_group = [];
}

warm-IsFresh : IsFresh node warm
unfolding find
warm-IsFresh key v h = elim (Bool-cases ("physics" == key)) [
  | inl same ↦ (7 ∷ [], (rw same refl, let e = rw (find, same) at h in cc))
  | inr other ↦ let e : none ≡ some v = rw (find, other) at h in absurd cc
]

scheduler-IsFresh_example :
    ((p : Ptr) → IsFresh node (add_system node p warm) × IsFresh node (remove_system node p warm))
    × (((delta : ℕ) (group : String) (w : vortaris_ecs.World.World)
          → IsFresh node (process node seconds empty_registry delta group (warm, w)).0)
        × ((group : String) (systems : List Ptr)
            → find group warm.systems_by_group ≡ some systems
            → (ordered node group warm).1 ≡ sorted node systems))
scheduler-IsFresh_example = scheduler-IsFresh node seconds empty_registry warm warm-IsFresh
