-- ===== src/Archetype/Matching.antt =====
-- core/archetype.cpp: the searches in the sorted component ids, and the matching of queries.
use vortaris_ecs.Prelude.{
  ℕ, ◌≤◌, ◌≡◌, refl, Bool, true, false, not, ◌&&◌, ◌||◌, none, some, List, [], ◌∷◌, ◌==◌, nat_eq,
  length, get_elem?, any, all, arith, fun_ext,
}
use vortaris_ecs.Entity.{ComponentTypeId}
use vortaris_ecs.Archetype.{
  Archetype, Query, lower_bound, found_at, has_component, column_index, matches,
}
use vortaris_ecs.Archetype.Invariant.{IsValid, Ascends}

-- Membership, one element after the other.
abbrev pub member : List ComponentTypeId → ComponentTypeId → Bool
member ids t = any (λ x. x == t) ids

member_below : (n t : ℕ) (ids : List ComponentTypeId) → Ascends n ids → t ≤ n → member ids t ≡ false
unfolding any
member_below n t [] s h = refl
member_below n t (x ∷ xs) s h = ground (arith, member_below x t xs s.1)

found_at-member :
    (n t : ℕ) (ids : List ComponentTypeId) → Ascends n ids → found_at ids t ≡ member ids t
unfolding found_at any
found_at-member n t [] s = refl
found_at-member n t (x ∷ xs) s = ground (arith, found_at-member x t xs s.1, member_below x t xs s.1)

found_at-get_elem? :
    (ids : List ComponentTypeId) (t : ComponentTypeId)
    → found_at ids t ≡ true
    → get_elem? ids (lower_bound ids t) ≡ some t
unfolding found_at
found_at-get_elem? [] t h = cc
found_at-get_elem? (x ∷ xs) t h = ground (arith, found_at-get_elem? xs t)

-- The binary search of `has_component` finds exactly the ids in the archetype.
pub has_component-member :
    (a : Archetype) (t : ComponentTypeId) → IsValid a → has_component a t ≡ member a.component_ids t
unfolding has_component
has_component-member a t v = found_at-member 0 t a.component_ids v.ids

-- `column_index` fails exactly for a component that the archetype lacks, and else gives its position.
pub column_index_lem :
    (a : Archetype) (t : ComponentTypeId)
    → IsValid a
    → ((member a.component_ids t ≡ false) → column_index a t ≡ none)
      × ((member a.component_ids t ≡ true)
          → (i : ℕ) × (column_index a t ≡ some i) × (get_elem? a.component_ids i ≡ some t))
unfolding column_index
column_index_lem a t v =
    let e = found_at-member 0 t a.component_ids v.ids in
    (
      λ h. ground (arith, e),
      λ h. (
        lower_bound a.component_ids t,
        ground (arith, e),
        found_at-get_elem? a.component_ids t (ground (arith, e)),
      ),
    )

has_component-members : (a : Archetype) → IsValid a → has_component a ≡ member a.component_ids
has_component-members a v = fun_ext (λ t. has_component-member a t v)

-- An archetype matches when it has all of `all`, at least one of `any` unless that is empty, and none
-- of `none`.
pub matches_lem :
    (q : Query) (a : Archetype)
    → IsValid a
    → matches q a ≡ (
        all (member a.component_ids) q.all
        && ((length q.any == 0 || any (member a.component_ids) q.any)
            && not (any (member a.component_ids) q.none)))
unfolding matches
matches_lem q a v = rw (has_component-members a v) (ground arith)
