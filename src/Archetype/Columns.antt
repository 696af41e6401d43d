-- ===== src/Archetype/Columns.antt =====
-- core/archetype.cpp: an archetype's columns as a map from component ids.
use vortaris_ecs.Prelude.{
  ℕ, zero, suc, ◌≤◌, ◌<◌, ◌≡◌, refl, Bool, Option, none, some, List, [], ◌∷◌, ◌==◌, nat_eq,
  if◌then◌else◌, length, get_elem?, set, arith,
}
use vortaris_ecs.Prelude.Map.{Map, find, is_some}
use vortaris_ecs.Entity.{ComponentTypeId}
use vortaris_ecs.Column.{Column}
use vortaris_ecs.Archetype.{Archetype, lower_bound, found_at, has_component, column_index, column}
use vortaris_ecs.Archetype.Invariant.{IsValid, Ascends}

-- Component ids with their columns, which stand in parallel vectors.
abbrev pub zip_columns : List ComponentTypeId → List Column → Map ComponentTypeId Column
zip_columns [] cs = []
zip_columns (t ∷ ts) [] = []
zip_columns (t ∷ ts) (c ∷ cs) = (t, c) ∷ zip_columns ts cs

abbrev pub columns_of : Archetype → Map ComponentTypeId Column
columns_of a = zip_columns a.component_ids a.columns

pub find_below :
    (n t : ℕ) (ids : List ComponentTypeId) (cs : List Column)
    → Ascends n ids
    → t ≤ n
    → find t (zip_columns ids cs) ≡ none
unfolding find
find_below n t [] cs s h = refl
find_below n t (x ∷ xs) [] s h = refl
find_below n t (x ∷ xs) (c ∷ cs) s h = ground (arith, find_below x t xs cs s.1)

abbrev indexed : Bool → List Column → ℕ → Option Column
indexed found cs i = if found then get_elem? cs i else none

indexed-find :
    (n t : ℕ) (ids : List ComponentTypeId) (cs : List Column)
    → Ascends n ids
    → length cs ≡ length ids
    → indexed (found_at ids t) cs (lower_bound ids t) ≡ find t (zip_columns ids cs)
unfolding find found_at
indexed-find n t [] [] s l = refl
indexed-find n t [] (c ∷ cs) s l = absurd (omega arith)
indexed-find n t (x ∷ xs) [] s l = absurd (omega arith)
indexed-find n t (x ∷ xs) (c ∷ cs) s l =
    ground (arith, indexed-find x t xs cs s.1, find_below x t xs cs s.1)

-- The binary search and the vector of columns read the map.
pub column-find :
    (a : Archetype) (t : ComponentTypeId) → IsValid a → column a t ≡ find t (columns_of a)
unfolding column column_index
column-find a t v = ground (arith, indexed-find 0 t a.component_ids a.columns v.ids v.width)

found_at-find :
    (n t : ℕ) (ids : List ComponentTypeId) (cs : List Column)
    → Ascends n ids
    → length cs ≡ length ids
    → found_at ids t ≡ is_some (find t (zip_columns ids cs))
unfolding find found_at
found_at-find n t [] [] s l = refl
found_at-find n t [] (c ∷ cs) s l = absurd (omega arith)
found_at-find n t (x ∷ xs) [] s l = absurd (omega arith)
found_at-find n t (x ∷ xs) (c ∷ cs) s l =
    ground (arith, found_at-find x t xs cs s.1, find_below x t xs cs s.1)

pub has_component-find :
    (a : Archetype) (t : ComponentTypeId)
    → IsValid a
    → has_component a t ≡ is_some (find t (columns_of a))
unfolding has_component
has_component-find a t v = found_at-find 0 t a.component_ids a.columns v.ids v.width

pub Ascends-get_elem :
    (n i t : ℕ) (ids : List ComponentTypeId) → Ascends n ids → get_elem? ids i ≡ some t → n < t
Ascends-get_elem n i t [] s g = ground arith
Ascends-get_elem n zero t (x ∷ xs) s g = ground arith
Ascends-get_elem n (suc i) t (x ∷ xs) s g = omega (arith, Ascends-get_elem x i t xs s.1 g, s.0)

-- A write of one column, at the index of its id.
pub find-set :
    (n t u : ℕ) (ids : List ComponentTypeId) (cs : List Column) (i : ℕ) (c : Column)
    → Ascends n ids
    → length cs ≡ length ids
    → get_elem? ids i ≡ some t
    → find u (zip_columns ids (set cs i c))
      ≡ (if t == u then some c else find u (zip_columns ids cs))
unfolding find
find-set n t u [] cs i c s l g = cc
find-set n t u (x ∷ xs) [] i c s l g = absurd (omega arith)
find-set n t u (x ∷ xs) (d ∷ cs) zero c s l g = ground arith
find-set n t u (x ∷ xs) (d ∷ cs) (suc i) c s l g =
    ground
      (arith, find-set x t u xs cs i c s.1, find_below x t xs cs s.1, Ascends-get_elem x i t xs s.1)
