-- ===== src/Network/Plan.antt =====
-- network/network_sync.cpp: the replication plan of a schema's fields.
--
-- The intervals 0.0, 0.05, 0.1 and 0.5 are hundredths of a second, and `none` is the answer -1.
pub mod Buckets
pub mod Secret
use vortaris_ecs.Prelude.{
  ℕ, Bool, true, false, not, ◌&&◌, ◌||◌, Option, none, some, List, [], ◌∷◌, ◌++◌, map, ltb, leb,
  ◌==◌, nat_eq, if◌then◌else◌, length, any, replicate,
}
use vortaris_ecs.Entity.{ComponentTypeId}
use vortaris_ecs.Schema.{SyncPriority, FieldDescriptor, ComponentSchema}
use vortaris_ecs.Schema.Registry.{ComponentRegistry, schema_of}

unfoldable pub priority_interval : SyncPriority → Option ℕ
priority_interval SyncPriority.realtime = some 0
priority_interval SyncPriority.high = some 5
priority_interval SyncPriority.medium = some 10
priority_interval SyncPriority.low = some 50
priority_interval SyncPriority.spawn_only = none
priority_interval SyncPriority.local = none

unfoldable pub is_local : SyncPriority → Bool
is_local SyncPriority.local = true
is_local _ = false

-- `f.is_networked && f.sync_priority != SYNC_LOCAL`.
abbrev pub is_sent : FieldDescriptor → Bool
is_sent f = f.is_networked && not (is_local f.sync_priority)

-- `net ? priority_interval(f.sync_priority) : -1.0`.
unfoldable pub interval_of : FieldDescriptor → Option ℕ
unfolding priority_interval is_local
interval_of f = if is_sent f then priority_interval f.sync_priority else none

-- The fastest interval among the networked fields, from the fastest one so far.
abbrev pub faster : Option ℕ → Option ℕ → Option ℕ
faster fastest none = fastest
faster none (some iv) = some iv
faster (some best) (some iv) = if ltb iv best then some iv else some best

unfoldable pub fastest_of : Option ℕ → List FieldDescriptor → Option ℕ
fastest_of fastest [] = fastest
fastest_of fastest (f ∷ fs) =
    fastest_of
      (if f.is_networked then faster fastest (priority_interval f.sync_priority) else fastest) fs

unfoldable pub component_interval : ComponentRegistry → ComponentTypeId → Option ℕ
unfolding fastest_of
component_interval reg p_t = elim (schema_of reg p_t) [
  | none ↦ none
  | some s ↦ fastest_of none s.fields
]

pub record FieldSyncPlan : Type 0 where
  pub spawn_mask : List Bool
  pub bucket_intervals : List ℕ
  pub bucket_masks : List (List Bool)
  pub any_delta : Bool

-- `if (iv >= 0.0 && find(...) == end) push_back(iv)`.
abbrev pub note_interval : Option ℕ → List ℕ → List ℕ
note_interval none ivs = ivs
note_interval (some iv) ivs = if any (λ x. x == iv) ivs then ivs else ivs ++ iv ∷ []

unfoldable pub distinct_intervals : List ℕ → List FieldDescriptor → List ℕ
unfolding interval_of any
distinct_intervals ivs [] = ivs
distinct_intervals ivs (f ∷ fs) = distinct_intervals (note_interval (interval_of f) ivs) fs

-- `std::sort`.
unfoldable pub insert_interval : ℕ → List ℕ → List ℕ
insert_interval iv [] = iv ∷ []
insert_interval iv (x ∷ xs) = if leb iv x then iv ∷ x ∷ xs else x ∷ insert_interval iv xs

unfoldable pub sort_intervals : List ℕ → List ℕ
unfolding insert_interval
sort_intervals [] = []
sort_intervals (iv ∷ ivs) = insert_interval iv (sort_intervals ivs)

-- `net && priority_interval(f.sync_priority) == iv`.
abbrev pub is_at : ℕ → Option ℕ → Bool
is_at iv none = false
is_at iv (some x) = x == iv

abbrev pub bucket_mask : List FieldDescriptor → ℕ → List Bool
bucket_mask fs iv = map (λ f. is_at iv (interval_of f)) fs

unfoldable pub plan_of : List FieldDescriptor → FieldSyncPlan
unfolding distinct_intervals sort_intervals
plan_of fs =
    let intervals = sort_intervals (distinct_intervals [] fs) in
    record {
      spawn_mask = map is_sent fs;
      bucket_intervals = intervals;
      bucket_masks = map (bucket_mask fs) intervals;
      any_delta = not (length intervals == 0);
    }

-- The plan of a component; the static cache keeps what this computes.
unfoldable pub sync_plan_for : ComponentRegistry → ComponentTypeId → FieldSyncPlan
unfolding plan_of
sync_plan_for reg p_t = elim (schema_of reg p_t) [
  | none ↦ record { spawn_mask = []; bucket_intervals = []; bucket_masks = []; any_delta = false }
  | some s ↦ plan_of s.fields
]

-- `VECSSnapshotReplication::is_networked`.
unfoldable pub is_networked : ComponentRegistry → ComponentTypeId → Bool
unfolding any is_local
is_networked reg p_t = elim (schema_of reg p_t) [
  | none ↦ false
  | some s ↦ s.is_networked && any (λ f. not (is_local f.sync_priority)) s.fields
]
