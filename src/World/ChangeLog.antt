-- ===== src/World/ChangeLog.antt =====
-- core/world.h and core/world.cpp: the log of writes to tracked columns, and the search in it.
pub mod Sorted
pub mod Search
use vortaris_ecs.Prelude.{
  ℕ, zero, suc, ◌+◌, ◌-◌, ◌/◌, ◌^◌, ◌≤◌, ◌<◌, ◌≡◌, Bool, true, false, Option, none, some, List, [],
  ◌∷◌, ◌++◌, ltb, leb, if◌then◌else◌, length, get_elem?, drop, u64,
}
use vortaris_ecs.Entity.{Entity, ComponentTypeId}
use vortaris_ecs.World.{World, ChangeLogEntry}

abbrev pub change_log_soft_cap : ℕ
change_log_soft_cap = 2 ^ 16

unfoldable pub compact_change_log : World → World
compact_change_log w = record w {
  change_log = drop (length w.change_log / 2) w.change_log;
  change_log_generation = u64 (w.change_log_generation + 1);
}

unfoldable pub log_change : Entity → ComponentTypeId → ℕ → World → World
unfolding compact_change_log
log_change p_e p_t p_tick w =
    let w' = record w {
      change_log = w.change_log ++ record { entity = p_e; comp = p_t; tick = p_tick } ∷ [];
    } in
    if ltb change_log_soft_cap (length w'.change_log) then compact_change_log w' else w'

-- `change_log_[i].tick`; the search reads only within the log.
abbrev pub tick_at : List ChangeLogEntry → ℕ → ℕ
tick_at [] i = 0
tick_at (x ∷ xs) zero = x.tick
tick_at (x ∷ xs) (suc i) = tick_at xs i

-- The loop of `change_log_lower_bound`, on fuel: an upper bound on the rounds left.
unfoldable pub search_log : ℕ → List ChangeLogEntry → ℕ → ℕ → ℕ → ℕ
search_log zero log p_tick lo hi = lo
search_log (suc fuel) log p_tick lo hi = elim (ltb lo hi) [
  | false ↦ lo
  | true ↦
      let mid = lo + (hi - lo) / 2 in
      elim (leb (tick_at log mid) p_tick) [
        | true ↦ search_log fuel log p_tick (mid + 1) hi
        | false ↦ search_log fuel log p_tick lo mid
      ]
]

unfoldable pub change_log_lower_bound : World → ℕ → ℕ
unfolding search_log
change_log_lower_bound w p_tick =
    search_log (length w.change_log) w.change_log p_tick 0 (length w.change_log)
