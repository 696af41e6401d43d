-- ===== src/World/ChangeLog/Sorted.antt =====
-- core/world.cpp: the log of writes stays sorted by tick, behind the clock, and bounded.
use vortaris_ecs.Prelude.{
  ℕ, zero, suc, ◌+◌, ◌-◌, ◌/◌, ◌≤◌, ◌<◌, ◌≡◌, List, [], ◌∷◌, ◌++◌, ltb, length, drop, arith,
  Bool-cases, inl, inr, if◌then◌else◌, length-append,
}
use vortaris_ecs.Entity.{Entity, ComponentTypeId}
use vortaris_ecs.World.{World, ChangeLogEntry, bump_tick}
use vortaris_ecs.World.ChangeLog.{tick_at, log_change, compact_change_log, change_log_soft_cap}
use vortaris_ecs.World.ChangeLog.Search.{InOrder}

-- Sorted, not ahead of the clock, and within the cap.
pub record IsOrderly (w : World) : Type 0 where
  pub sorted : InOrder w.change_log
  pub past : (i : ℕ) → i < length w.change_log → tick_at w.change_log i ≤ w.change_tick
  pub bounded : length w.change_log ≤ change_log_soft_cap

tick_at-append :
    (log : List ChangeLogEntry) (x : ChangeLogEntry) (i : ℕ)
    → i ≤ length log
    → tick_at (log ++ x ∷ []) i ≡ (if ltb i (length log) then tick_at log i else x.tick)
tick_at-append [] x zero h = ground arith
tick_at-append [] x (suc i) h = absurd (omega arith)
tick_at-append (y ∷ log) x zero h = ground arith
tick_at-append (y ∷ log) x (suc i) h = ground (arith, tick_at-append log x i (omega arith))

tick_at-drop :
    (n : ℕ) (log : List ChangeLogEntry) (i : ℕ) → tick_at (drop n log) i ≡ tick_at log (n + i)
tick_at-drop zero log i = ground arith
tick_at-drop (suc n) [] i = ground arith
tick_at-drop (suc n) (x ∷ log) i = ground (arith, tick_at-drop n log i)

append-InOrder :
    (log : List ChangeLogEntry) (x : ChangeLogEntry)
    → InOrder log
    → ((i : ℕ) → i < length log → tick_at log i ≤ x.tick)
    → InOrder (log ++ x ∷ [])
append-InOrder log x s p i j h k = ground (
  arith,
  length-append log (x ∷ []),
  tick_at-append log x i (ground (arith, length-append log (x ∷ []))),
  tick_at-append log x j (ground (arith, length-append log (x ∷ []))),
  s i j,
  p i,
)

length-drop : (n : ℕ) (log : List ChangeLogEntry) → length (drop n log) ≡ length log - n
length-drop zero log = ground arith
length-drop (suc n) [] = ground arith
length-drop (suc n) (x ∷ log) = ground (arith, length-drop n log)

drop-InOrder : (n : ℕ) (log : List ChangeLogEntry) → InOrder log → InOrder (drop n log)
drop-InOrder n log s i j h k =
    rw (tick_at-drop n log i, tick_at-drop n log j)
      (s (n + i) (n + j) (omega arith) (ground (arith, length-drop n log)))

-- The log once the cap is seen to.
abbrev capped : List ChangeLogEntry → List ChangeLogEntry
capped log = if ltb change_log_soft_cap (length log) then drop (length log / 2) log else log

log_change-capped :
    (e : Entity) (t : ComponentTypeId) (k : ℕ) (w : World)
    → ((log_change e t k w).change_log
        ≡ capped (w.change_log ++ record { entity = e; comp = t; tick = k } ∷ []))
      × ((log_change e t k w).change_tick ≡ w.change_tick)
unfolding log_change compact_change_log
log_change-capped e t k w = ground arith

abbrev Behind : ℕ → List ChangeLogEntry → Type 0
Behind c log = (i : ℕ) → i < length log → tick_at log i ≤ c

capped-all :
    (log : List ChangeLogEntry) (c : ℕ)
    → InOrder log
    → Behind c log
    → length log ≤ change_log_soft_cap + 1
    → InOrder (capped log) × Behind c (capped log) × (length (capped log) ≤ change_log_soft_cap)
capped-all log c s p l = elim (Bool-cases (ltb change_log_soft_cap (length log))) [
  | inr small ↦ rw small (s, p, ground arith)
  | inl large ↦ rw large (
    drop-InOrder (length log / 2) log s,
    λ i h.
        rw (tick_at-drop (length log / 2) log i)
          (p (length log / 2 + i) (ground (arith, length-drop (length log / 2) log))),
    ground (arith, length-drop (length log / 2) log),
  )
]

bump_tick-log :
    (w : World)
    → ((bump_tick w).change_log ≡ w.change_log) × (w.change_tick ≤ (bump_tick w).change_tick)
unfolding bump_tick
bump_tick-log w = ground arith

append-Behind :
    (log : List ChangeLogEntry) (x : ChangeLogEntry) (c : ℕ)
    → Behind c log
    → x.tick ≤ c
    → Behind c (log ++ x ∷ [])
append-Behind log x c p k i h = ground (
  arith,
  length-append log (x ∷ []),
  tick_at-append log x i (ground (arith, length-append log (x ∷ []))),
  p i,
)

-- A write that is logged at the bumped clock keeps the log sorted, not ahead of the clock, and within the cap,
-- also when the clock is spent or the log is cut.
pub log_change-IsOrderly :
    (w : World) (e : Entity) (t : ComponentTypeId)
    → IsOrderly w
    → IsOrderly (log_change e t (bump_tick w).change_tick (bump_tick w))
log_change-IsOrderly w e t o =
    let c = (bump_tick w).change_tick in
    let x : ChangeLogEntry = record { entity = e; comp = t; tick = c } in
    let (same, later) = bump_tick-log w in
    let (log, clock) = log_change-capped e t c (bump_tick w) in
    let old : Behind c w.change_log = λ i h. omega (arith, o.past i h, later) in
    let all =
      capped-all (w.change_log ++ x ∷ []) c (append-InOrder w.change_log x o.sorted old)
        (append-Behind w.change_log x c old (omega arith))
        (omega (arith, o.bounded, length-append w.change_log (x ∷ []))) in
    record {
      sorted = rw (log, same) all.0;
      past = rw (clock, log, same) all.1;
      bounded = rw (log, same) all.2;
    }
