-- ===== src/World/Sets.antt =====
-- Sets of entities as lists: `set.insert`.
use vortaris_ecs.Prelude.{
  ℕ, ◌≡◌, ◌||◌, List, [], ◌∷◌, ◌++◌, ◌==◌, nat_eq, any, Bool-cases, inl, inr, arith,
}
use vortaris_ecs.World.{among}
use vortaris_ecs.World.Entities.{insert_unique}

among-append : (e x : ℕ) (xs : List ℕ) → among e (xs ++ x ∷ []) ≡ (among e xs || x == e)
unfolding any
among-append e x [] = ground arith
among-append e x (y ∷ xs) = ground (arith, among-append e x xs)

pub among-insert_unique :
    (e x : ℕ) (xs : List ℕ) → among e (insert_unique x xs) ≡ (among e xs || x == e)
unfolding any
among-insert_unique e x xs = elim (Bool-cases (among x xs)) [
  | inl old ↦ rw old (grind (arith, old, Bool-cases))
  | inr new ↦ rw new (among-append e x xs)
]
