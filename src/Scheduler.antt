-- ===== src/Scheduler.antt =====
-- gdscript/vecs_scheduler.cpp and core/system_types.h: groups of systems, their order and their runs.
--
-- A system is a node, reached through a pointer, a number; the properties that the code reads of the node, and what
-- its `handle` does to the world, come from the `Node` behind the pointer. Seconds are the numbers of a `Clock`.
pub mod Graph
pub mod Sums
pub mod Kahn
pub mod Edges
pub mod Order
pub mod Cache
use vortaris_ecs.Prelude.{
  ℕ, zero, suc, ◌+◌, Bool, true, false, not, ◌||◌, Option, none, some, List, [], ◌∷◌, ◌++◌, map,
  ◌==◌, nat_eq, string_eq, if◌then◌else◌, length, keep_if, String,
}
use vortaris_ecs.Prelude.Map
use vortaris_ecs.Prelude.Map.{Map}
use vortaris_ecs.Commands.{execute}
use vortaris_ecs.Query.{Ptr}
use vortaris_ecs.Schema.Registry.{ComponentRegistry}
use vortaris_ecs.World.{World}
use vortaris_ecs.Scheduler.Graph.{SystemDep, order_of}

abbrev pub flush_command_buffers : ComponentRegistry → World → World
flush_command_buffers reg w = execute reg w

pub data FlushMode : Type 0 where
  per_system per_group manual : FlushMode

-- `double`, as the code computes with it.
pub record Clock (T : Type 0) : Type 0 where
  pub zero_time : T
  pub add : T → T → T
  pub less : T → T → Bool

pub record Node (T : Type 0) : Type 0 where
  pub group : String
  pub system_name : String
  pub deps : List SystemDep
  pub active : Bool
  pub paused : Bool
  pub tick_interval : T
  pub flush_mode : FlushMode
  pub handle : T → World → World

pub record SystemScheduler (T : Type 0) : Type 0 where
  pub systems_by_group : Map String (List Ptr)
  pub order_cache : Map String (List Ptr)
  pub next_run : Map Ptr T
  pub elapsed_by_group : Map String T

-- `operator[]` of the map, and an absent vector.
abbrev pub group_of : Option (List Ptr) → List Ptr
group_of none = []
group_of (some v) = v

abbrev pub is_none {ℓ} : {A : Type ℓ} → Option A → Bool
is_none none = true
is_none (some a) = false

module _ {T : Type 0} (nodes : Ptr → Node T) where
  -- The pointer is not null.
  unfoldable pub add_system : Ptr → SystemScheduler T → SystemScheduler T
  add_system p_sys s =
      let key = (nodes p_sys).group in
      record s {
        systems_by_group =
            Map.insert key (group_of (Map.find key s.systems_by_group) ++ p_sys ∷ [])
              s.systems_by_group;
        order_cache = Map.erase key s.order_cache;
      }

  -- The group without the system; an emptied group goes.
  abbrev pub without :
      String → Ptr → Option (List Ptr) → Map String (List Ptr) → Map String (List Ptr)
  without key p_sys none groups = groups
  without key p_sys (some v) groups =
      let left = keep_if (λ x. not (x == p_sys)) v in
      if length left == 0 then Map.erase key groups else Map.insert key left groups

  unfoldable pub remove_system : Ptr → SystemScheduler T → SystemScheduler T
  unfolding keep_if
  remove_system p_sys s =
      let key = (nodes p_sys).group in
      record s {
        systems_by_group = without key p_sys (Map.find key s.systems_by_group) s.systems_by_group;
        order_cache = Map.erase key s.order_cache;
        next_run = Map.erase p_sys s.next_run;
      }

  -- The systems of a group in the order of their run.
  unfoldable pub sorted : List Ptr → List Ptr
  unfolding order_of
  sorted systems =
      order_of systems (map (λ p. (nodes p).system_name) systems)
        (map (λ p. (nodes p).deps) systems)

  unfoldable pub recompute_order : String → SystemScheduler T → SystemScheduler T
  unfolding sorted
  recompute_order p_group s = elim (Map.find p_group s.systems_by_group) [
    | none ↦ record s { order_cache = Map.erase p_group s.order_cache }
    | some systems ↦ record s { order_cache = Map.insert p_group (sorted systems) s.order_cache }
  ]

  unfoldable pub ordered : String → SystemScheduler T → SystemScheduler T × List Ptr
  unfolding recompute_order
  ordered p_group s =
      let s' = if is_none (Map.find p_group s.order_cache) then recompute_order p_group s else s in
      (s', group_of (Map.find p_group s'.order_cache))

  module _ (clock : Clock T) (reg : ComponentRegistry) where
    abbrev pub or_zero : Option T → T
    or_zero none = clock.zero_time
    or_zero (some t) = t

    -- `mode == VECSSystem::PER_SYSTEM` and `mode == VECSSystem::PER_GROUP`.
    abbrev pub flushes_alone : FlushMode → Bool
    flushes_alone FlushMode.per_system = true
    flushes_alone _ = false

    abbrev pub flushes_group : FlushMode → Bool
    flushes_group FlushMode.per_group = true
    flushes_group _ = false

    -- `handle`, and the flush of PER_SYSTEM.
    abbrev pub run_system : T → Ptr → World → World
    run_system p_delta p w =
        let w' = (nodes p).handle p_delta w in
        if flushes_alone (nodes p).flush_mode then flush_command_buffers reg w' else w'

    -- The body of the loop for one system.
    unfoldable pub visit : T → T → Ptr → SystemScheduler T × World → SystemScheduler T × World
    visit elapsed p_delta p r =
        let node = nodes p in
        if not node.active || node.paused
        then r
        else (if clock.less clock.zero_time node.tick_interval
            then (if clock.less elapsed
                  (clock.add (or_zero (Map.find p r.0.next_run)) node.tick_interval)
                then r
                else (
                  record (r.0) { next_run = Map.insert p elapsed r.0.next_run },
                  run_system p_delta p r.1,
                ))
            else (r.0, run_system p_delta p r.1))

    unfoldable pub visit_all :
        T → T → List Ptr → SystemScheduler T × World → SystemScheduler T × World
    unfolding visit
    visit_all elapsed p_delta [] r = r
    visit_all elapsed p_delta (p ∷ ps) r = visit_all elapsed p_delta ps (visit elapsed p_delta p r)

    -- PER_GROUP: the first such system flushes, and the loop is left.
    unfoldable pub flush_group : List Ptr → World → World
    flush_group [] w = w
    flush_group (p ∷ ps) w =
        if flushes_group (nodes p).flush_mode then flush_command_buffers reg w else flush_group ps w

    unfoldable pub process : T → String → SystemScheduler T × World → SystemScheduler T × World
    unfolding ordered visit_all flush_group
    process p_delta p_group r =
        let elapsed = clock.add (or_zero (Map.find p_group r.0.elapsed_by_group)) p_delta in
        let s = record (r.0) {
          elapsed_by_group = Map.insert p_group elapsed r.0.elapsed_by_group;
        } in
        if length (group_of (Map.find p_group s.systems_by_group)) == 0
        then (s, r.1)
        else (let o = ordered p_group s in
            let done = visit_all elapsed p_delta o.1 (o.0, r.1) in (done.0, flush_group o.1 done.1))

-- `clear`.
abbrev pub cleared : {T : Type 0} → SystemScheduler T
cleared = record { systems_by_group = []; order_cache = []; next_run = []; elapsed_by_group = [] }

abbrev pub count_systems : Map String (List Ptr) → ℕ
count_systems [] = 0
count_systems (g ∷ gs) = length g.1 + count_systems gs

abbrev pub system_count : {T : Type 0} → SystemScheduler T → ℕ
system_count s = count_systems s.systems_by_group

abbrev pub collect : Map String (List Ptr) → List Ptr
collect [] = []
collect (g ∷ gs) = g.1 ++ collect gs

abbrev pub collect_systems : {T : Type 0} → SystemScheduler T → List Ptr
collect_systems s = collect s.systems_by_group
