-- ===== src/World/ChangeLog/Search.antt =====
-- core/world.h, `change_log_lower_bound`: the binary search in the log.
use vortaris_ecs.Prelude.{
  ℕ, zero, suc, ◌+◌, ◌-◌, ◌/◌, ◌≤◌, ◌<◌, List, ltb, leb, length, arith, Bool-cases, inl, inr,
}
use vortaris_ecs.World.{World, ChangeLogEntry}
use vortaris_ecs.World.ChangeLog.{tick_at, search_log, change_log_lower_bound}

-- The log is sorted by tick.
abbrev pub InOrder : List ChangeLogEntry → Type 0
InOrder log = (i j : ℕ) → i ≤ j → j < length log → tick_at log i ≤ tick_at log j

-- The entries from an index on are those after a tick.
pub record IsBound (log : List ChangeLogEntry) (t r : ℕ) : Type 0 where
  pub within : r ≤ length log
  pub before : (i : ℕ) → i < r → tick_at log i ≤ t
  pub after : (i : ℕ) → r ≤ i → i < length log → t < tick_at log i

-- Halving stays inside the interval.
mid-lt : (lo hi : ℕ) → lo < hi → (lo ≤ lo + (hi - lo) / 2) × (lo + (hi - lo) / 2 < hi)
mid-lt lo hi h = (omega arith, omega arith)

module _ (log : List ChangeLogEntry) (t : ℕ) (sorted : InOrder log) where
  search_log-IsBound :
      (fuel lo hi : ℕ)
      → hi ≤ length log
      → lo ≤ hi
      → hi ≤ lo + fuel
      → ((i : ℕ) → i < lo → tick_at log i ≤ t)
      → ((i : ℕ) → hi ≤ i → i < length log → t < tick_at log i)
      → IsBound log t (search_log fuel log t lo hi)
  unfolding search_log
  search_log-IsBound zero lo hi w l f b a = record {
    within = omega arith;
    before = b;
    after = λ i h k. a i (omega arith) k;
  }
  search_log-IsBound (suc fuel) lo hi w l f b a = elim (Bool-cases (ltb lo hi)) [
    | inr done ↦
        rw (done, search_log)
          (record { within = omega arith; before = b; after = λ i h k. a i (ground arith) k })
    | inl more ↦
        let (m, n) = mid-lt lo hi (ground arith) in
        elim (Bool-cases (leb (tick_at log (lo + (hi - lo) / 2)) t)) [
          | inl up ↦
              rw (more, search_log, up)
                (search_log-IsBound fuel (lo + (hi - lo) / 2 + 1) hi w (omega arith) (omega arith)
                  (λ i h. ground (arith, sorted i (lo + (hi - lo) / 2) (omega arith) (omega arith)))
                  a)
          | inr down ↦
              rw (more, search_log, down)
                (search_log-IsBound fuel lo (lo + (hi - lo) / 2) (omega arith) m (omega arith) b
                  (λ i h k. ground (arith, sorted (lo + (hi - lo) / 2) i h k)))
        ]
  ]

-- On a log sorted by tick, `change_log_lower_bound` splits the log: the entries before its answer have
-- ticks up to the given one, the entries from it on later ticks. The length of the log bounds the rounds.
pub change_log_lower_bound-IsBound :
    (w : World) (t : ℕ) → InOrder w.change_log → IsBound w.change_log t (change_log_lower_bound w t)
unfolding change_log_lower_bound
change_log_lower_bound-IsBound w t sorted =
    search_log-IsBound w.change_log t sorted (length w.change_log) 0 (length w.change_log)
      (omega arith) (omega arith) (omega arith) (λ i h. absurd (omega arith))
      (λ i h k. absurd (omega arith))
