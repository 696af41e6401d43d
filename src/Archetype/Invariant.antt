-- ===== src/Archetype/Invariant.antt =====
-- core/archetype.cpp: the arrays of an archetype stay parallel, and rows and entities in step.
use vortaris_ecs.Prelude.{
  ℕ, suc, ◌+◌, ◌^◌, ◌<◌, ◌≡◌, refl, none, some, List, [], ◌∷◌, map, nat_eq, length, get_elem?, ap,
  u32, arith, length-append, get_elem?-append_one, get_elem?-lt, ◌≢◌,
}
use vortaris_ecs.Prelude.Map.{find, find-insert}
use vortaris_ecs.Entity.{Entity, ComponentTypeId}
use vortaris_ecs.Column.{Column, grow, set_version, swap_remove, pop_back}
use vortaris_ecs.Column
use vortaris_ecs.Column.Bounds
use vortaris_ecs.Column.Bounds.{
  grow-IsValid, set_version-IsValid, swap_remove-IsValid, pop_back-IsValid,
}
use vortaris_ecs.Column.Cells.{grow-rows, set_version-rows}
use vortaris_ecs.Archetype.{Archetype, add_entity, grow_column}

-- Strictly ascending, from above `n`.
abbrev pub Ascends : ℕ → List ComponentTypeId → Type 0
Ascends n [] = Unit {0}
Ascends n (t ∷ ts) = (n < t) × Ascends t ts

-- Every column is valid and has `n` rows.
abbrev pub Parallel : ℕ → List Column → Type 0
Parallel n [] = Unit {0}
Parallel n (c ∷ cs) = (length c.rows ≡ n) × Column.Bounds.IsValid c × Parallel n cs

pub record IsValid (a : Archetype) : Type 0 where
  pub ids : Ascends 0 a.component_ids
  pub width : length a.columns ≡ length a.component_ids
  pub height : Parallel (length a.entities) a.columns
  pub flags : length a.enabled ≡ length a.entities
  pub small : length a.entities < 2 ^ 32
  -- A row that the index names holds the entity, and each row is named.
  pub indexed :
      (e : Entity) (r : ℕ) → find e a.entity_to_row ≡ some r → get_elem? a.entities r ≡ some e
  pub covered :
      (e : Entity) (r : ℕ) → get_elem? a.entities r ≡ some e → find e a.entity_to_row ≡ some r
  pub real : find 0 a.entity_to_row ≡ none

pub length-map {ℓ κ} :
    {A : Type ℓ} {B : Type κ} (f : A → B) (xs : List A) → length (map f xs) ≡ length xs
length-map f [] = refl
length-map f (x ∷ xs) = ap suc (length-map f xs)

-- One column of `n` rows.
abbrev pub Sized : ℕ → Column → Type 0
Sized n c = (length c.rows ≡ n) × Column.Bounds.IsValid c

pub map-Parallel :
    (f : Column → Column) (m n : ℕ) (cs : List Column)
    → ((c : Column) → Sized m c → Sized n (f c))
    → Parallel m cs
    → Parallel n (map f cs)
map-Parallel f m n [] h p = tt
map-Parallel f m n (c ∷ cs) h (l, v, p) =
    let s = h c (l, v) in (s.0, s.1, map-Parallel f m n cs h p)

grow_column-Sized : (row t n : ℕ) (c : Column) → Sized n c → Sized (n + 1) (grow_column row t c)
unfolding grow_column
grow_column-Sized row t n c s = ground (
  arith,
  grow-rows c s.1,
  grow-IsValid c s.1,
  set_version-rows (grow c) row t,
  set_version-IsValid row t (grow c),
)

module _ (a : Archetype) (valid : IsValid a) where
  pub row_of-lt : (e : Entity) (r : ℕ) → find e a.entity_to_row ≡ some r → r < length a.entities
  row_of-lt e r h = get_elem?-lt a.entities r e (valid.indexed e r h)

  pub add_entity-IsValid :
      (e t : ℕ)
      → e ≢ 0
      → find e a.entity_to_row ≡ none
      → length a.entities + 1 < 2 ^ 32
      → IsValid (add_entity e t a).0
  unfolding add_entity
  add_entity-IsValid e t real new room = record {
    ids = valid.ids;
    width = rw length-map valid.width;
    height =
        rw (length-append a.entities (e ∷ []))
          (map-Parallel _ _ _ a.columns (λ c s. grow_column-Sized _ t _ c s) valid.height);
    flags =
        omega
          (arith, length-append a.enabled (1 ∷ []), length-append a.entities (e ∷ []), valid.flags);
    small = omega (arith, length-append a.entities (e ∷ []));
    indexed = λ q r h. ground (
      arith,
      find-insert e q (u32 (length a.entities)) a.entity_to_row,
      valid.indexed q r,
      get_elem?-append_one a.entities r e,
      row_of-lt q r,
    );
    covered = λ q r h. ground (
      arith,
      find-insert e q (u32 (length a.entities)) a.entity_to_row,
      valid.covered q r,
      get_elem?-append_one a.entities r e,
      get_elem?-lt a.entities r q,
    );
    real = ground (arith, find-insert e 0 (u32 (length a.entities)) a.entity_to_row);
  }
