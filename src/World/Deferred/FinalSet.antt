-- ===== src/World/Deferred/FinalSet.antt =====
-- core/world.cpp, `_commit_deferred_move`: the net effect of an entity's queued operations.
use vortaris_ecs.Prelude.{
  ℕ, ◌≡◌, refl, ◌∙◌, ap, true, not, ◌&&◌, ◌||◌, Option, none, some, List, [], ◌∷◌, ◌++◌, ◌==◌,
  nat_eq, if◌then◌else◌, any, keep_if, arith, Bool-cases, inl, inr,
}
use vortaris_ecs.Prelude.Map.{find, find-insert}
use vortaris_ecs.Entity.{ComponentTypeId}
use vortaris_ecs.World.{PendingComponentOp, among}
use vortaris_ecs.World.Entities.{insert_unique}
use vortaris_ecs.World.Deferred.{Net, apply_op, apply_ops, insert_id, sort_ids}

-- What becomes of a component: it is not there, it keeps what it had, or it holds what was written.
pub data Fate : Type 0 where
  absent kept : Fate
  wrote : List ℕ → Fate

-- The operations one after the other, as without a batch.
abbrev pub eager_op : PendingComponentOp → ComponentTypeId → Fate → Fate
eager_op op t f = if op.type == t then (if op.add then wrote op.bytes else absent) else f

abbrev pub eager : List PendingComponentOp → ComponentTypeId → Fate → Fate
eager [] t f = f
eager (op ∷ ops) t f = eager ops t (eager_op op t f)

abbrev pub written : Option (List ℕ) → Fate
written none = kept
written (some b) = wrote b

-- What the commit makes of a component: it is in the final set or not, and is written or not.
abbrev pub net_fate : ComponentTypeId → Net → Fate
net_fate t n = if among t n.final_set then written (find t n.last_add_data) else absent

among-append : (t x : ℕ) (ys : List ℕ) → among t (ys ++ x ∷ []) ≡ (among t ys || (x == t))
unfolding any
among-append t x [] = ground arith
among-append t x (y ∷ ys) = ground (arith, among-append t x ys)

among-same : (t x : ℕ) (ys : List ℕ) → (x == t) ≡ true → among x ys ≡ among t ys
unfolding any
among-same t x [] h = refl
among-same t x (y ∷ ys) h = ground (arith, among-same t x ys h)

pub among-insert_unique :
    (t x : ℕ) (ys : List ℕ) → among t (insert_unique x ys) ≡ (among t ys || (x == t))
among-insert_unique t x ys = ground (arith, among-append t x ys, among-same t x ys)

pub among-keep_if :
    (t x : ℕ) (ys : List ℕ)
    → among t (keep_if (λ y. not (y == x)) ys) ≡ (among t ys && not (x == t))
unfolding any keep_if
among-keep_if t x [] = refl
among-keep_if t x (y ∷ ys) = ground (arith, among-keep_if t x ys)

apply_op-eager :
    (op : PendingComponentOp) (t : ComponentTypeId) (n : Net)
    → net_fate t (apply_op op n) ≡ eager_op op t (net_fate t n)
unfolding apply_op
apply_op-eager op t n = elim (Bool-cases op.add) [
  | inl adds ↦
      rw
        (
          adds,
          apply_op,
          among-insert_unique t op.type n.final_set,
          find-insert op.type t op.bytes n.last_add_data,
        )
        (ground arith)
  | inr removes ↦ rw (removes, apply_op, among-keep_if t op.type n.final_set) (ground arith)
]

apply_ops-net :
    (ops : List PendingComponentOp) (t : ComponentTypeId) (n : Net)
    → net_fate t (apply_ops ops n) ≡ eager ops t (net_fate t n)
unfolding apply_ops
apply_ops-net [] t n = refl
apply_ops-net (op ∷ ops) t n =
    apply_ops-net ops t (apply_op op n) ∙ ap (eager ops t) (apply_op-eager op t n)

-- The one net move of the commit gives every component what the queued operations, one after the other,
-- give it: gone after a last remove, the data of a last add, and as it was where no operation names it.
pub apply_ops-eager :
    (ops : List PendingComponentOp) (t : ComponentTypeId) (original : List ComponentTypeId)
    → net_fate t (apply_ops ops (record { final_set = original; last_add_data = [] }))
      ≡ eager ops t (if among t original then kept else absent)
unfolding find
apply_ops-eager ops t original =
    apply_ops-net ops t (record { final_set = original; last_add_data = [] })

pub among-insert_id : (t x : ℕ) (ys : List ℕ) → among t (insert_id x ys) ≡ ((x == t) || among t ys)
unfolding any insert_id
among-insert_id t x [] = ground arith
among-insert_id t x (y ∷ ys) = ground (arith, among-insert_id t x ys)

pub among-sort_ids : (t : ℕ) (xs : List ℕ) → among t (sort_ids xs) ≡ among t xs
unfolding any sort_ids
among-sort_ids t [] = refl
among-sort_ids t (x ∷ xs) = ground (arith, among-insert_id t x (sort_ids xs), among-sort_ids t xs)
