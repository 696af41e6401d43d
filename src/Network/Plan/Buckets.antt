-- ===== src/Network/Plan/Buckets.antt =====
-- network/network_sync.cpp: the buckets of a replication plan.
use vortaris_ecs.Prelude.{
  ℕ, ◌<◌, ◌≡◌, refl, ◌∙◌, Bool, true, false, ◌||◌, Option, none, some, List, [], ◌∷◌, ◌++◌, leb,
  ◌==◌, nat_eq, any, arith, Bool-cases, inl, inr,
}
use vortaris_ecs.Schema.{FieldDescriptor}
use vortaris_ecs.Network.Plan.{
  interval_of, is_at, note_interval, distinct_intervals, insert_interval, sort_intervals, plan_of,
}

-- Is the number in the list?
abbrev holds : ℕ → List ℕ → Bool
holds iv ivs = any (λ x. x == iv) ivs

-- Has a field this interval?
abbrev pub used : ℕ → List FieldDescriptor → Bool
used iv fs = any (λ f. is_at iv (interval_of f)) fs

abbrev pub Ascending : List ℕ → Type 0
Ascending [] = Unit {0}
Ascending (x ∷ xs) = ((y : ℕ) → any (λ z. z == y) xs ≡ true → x < y) × Ascending xs

abbrev Different : List ℕ → Type 0
Different [] = Unit {0}
Different (x ∷ xs) = (holds x xs ≡ false) × Different xs

holds-append : (iv x : ℕ) (ivs : List ℕ) → holds iv (ivs ++ x ∷ []) ≡ (holds iv ivs || x == iv)
unfolding any
holds-append iv x [] = ground arith
holds-append iv x (y ∷ ivs) = ground (arith, holds-append iv x ivs)

append-Different :
    (x : ℕ) (ivs : List ℕ) → holds x ivs ≡ false → Different ivs → Different (ivs ++ x ∷ [])
unfolding any
append-Different x [] h d = (refl, tt)
append-Different x (y ∷ ivs) h d =
    (ground (arith, h, d.0, holds-append y x ivs), append-Different x ivs (ground (arith, h)) d.1)

holds-note :
    (iv : ℕ) (o : Option ℕ) (ivs : List ℕ)
    → holds iv (note_interval o ivs) ≡ (holds iv ivs || is_at iv o)
unfolding any
holds-note iv none ivs = ground arith
holds-note iv (some x) ivs = elim (Bool-cases (holds x ivs)) [
  | inl old ↦ rw old (grind (arith, old, Bool-cases))
  | inr new ↦ rw new (holds-append iv x ivs)
]

note-Different : (o : Option ℕ) (ivs : List ℕ) → Different ivs → Different (note_interval o ivs)
note-Different none ivs d = d
note-Different (some x) ivs d = elim (Bool-cases (holds x ivs)) [
  | inl old ↦ rw old d
  | inr new ↦ rw new (append-Different x ivs new d)
]

holds-distinct_intervals :
    (iv : ℕ) (ivs : List ℕ) (fs : List FieldDescriptor)
    → holds iv (distinct_intervals ivs fs) ≡ (holds iv ivs || used iv fs)
unfolding distinct_intervals any
holds-distinct_intervals iv ivs [] = ground arith
holds-distinct_intervals iv ivs (f ∷ fs) = ground (
  arith,
  holds-distinct_intervals iv (note_interval (interval_of f) ivs) fs,
  holds-note iv (interval_of f) ivs,
)

distinct_intervals-Different :
    (ivs : List ℕ) (fs : List FieldDescriptor)
    → Different ivs
    → Different (distinct_intervals ivs fs)
unfolding distinct_intervals
distinct_intervals-Different ivs [] d = d
distinct_intervals-Different ivs (f ∷ fs) d =
    distinct_intervals-Different (note_interval (interval_of f) ivs) fs
      (note-Different (interval_of f) ivs d)

holds-insert_interval :
    (y iv : ℕ) (xs : List ℕ) → holds y (insert_interval iv xs) ≡ (iv == y || holds y xs)
unfolding insert_interval any
holds-insert_interval y iv [] = ground arith
holds-insert_interval y iv (x ∷ xs) = ground (arith, holds-insert_interval y iv xs)

insert_interval-Ascending :
    (iv : ℕ) (xs : List ℕ) → holds iv xs ≡ false → Ascending xs → Ascending (insert_interval iv xs)
unfolding insert_interval any
insert_interval-Ascending iv [] h a = (λ y e. ground (arith, e), tt)
insert_interval-Ascending iv (x ∷ xs) h a = elim (Bool-cases (leb iv x)) [
  | inl first ↦ rw first (λ y e. ground (arith, first, h, e, a.0 y), a)
  | inr later ↦ rw later (
    λ y e. ground (arith, later, e, a.0 y, holds-insert_interval y iv xs),
    insert_interval-Ascending iv xs (ground (arith, h)) a.1,
  )
]

holds-sort_intervals : (y : ℕ) (xs : List ℕ) → holds y (sort_intervals xs) ≡ holds y xs
unfolding sort_intervals any
holds-sort_intervals y [] = refl
holds-sort_intervals y (x ∷ xs) =
    ground (arith, holds-sort_intervals y xs, holds-insert_interval y x (sort_intervals xs))

sort_intervals-Ascending : (xs : List ℕ) → Different xs → Ascending (sort_intervals xs)
unfolding sort_intervals
sort_intervals-Ascending [] d = tt
sort_intervals-Ascending (x ∷ xs) d =
    insert_interval-Ascending x (sort_intervals xs) (holds-sort_intervals x xs ∙ d.0)
      (sort_intervals-Ascending xs d.1)

-- The intervals of a plan's buckets ascend strictly, and an interval has a bucket exactly where some field that is
-- replicated in deltas has it.
pub plan_of-Ascending :
    (fs : List FieldDescriptor)
    → Ascending (plan_of fs).bucket_intervals
      × ((iv : ℕ) → any (λ x. x == iv) (plan_of fs).bucket_intervals ≡ used iv fs)
unfolding plan_of
plan_of-Ascending fs = (
  sort_intervals-Ascending (distinct_intervals [] fs) (distinct_intervals-Different [] fs tt),
  λ iv. holds-sort_intervals iv (distinct_intervals [] fs) ∙ holds-distinct_intervals iv [] fs,
)
