-- ===== src/World/Copies.antt =====
-- core/world.cpp: the merge walk of `_move_entity_to` copies exactly the shared components.
use vortaris_ecs.Prelude.{
  ℕ, suc, ◌≤◌, ◌<◌, ◌≡◌, refl, ◌∙◌, false, Option, none, some, List, [], ◌∷◌, map, compare,
  Ordering, ◌==◌, nat_eq, length, get_or, set, arith, ltb, ◌&&◌, if◌then◌else◌, zero,
  get_elem?-set_self, get_elem?-set_ne, length-set, ap,
}
use vortaris_ecs.Prelude.Map.{Map, find}
use vortaris_ecs.Entity.{ComponentTypeId}
use vortaris_ecs.Column.{Column, write_row, set_version, version_at}
use vortaris_ecs.Column.Bounds.{write_row-IsValid, set_version-IsValid}
use vortaris_ecs.Column.Cells.{set_version-rows}
use vortaris_ecs.Archetype.Invariant.{Ascends, Sized, Parallel}
use vortaris_ecs.Archetype.Columns.{zip_columns}
use vortaris_ecs.World.Components.{row_in}
use vortaris_ecs.World.Moves.{copy_cell, copy_shared}

-- Ascending keys.
abbrev pub Rising : ℕ → Map ComponentTypeId Column → Type 0
Rising n [] = Unit {0}
Rising n ((t, c) ∷ m) = (n < t) × Rising t m

pub find-Rising : (n u : ℕ) (m : Map ComponentTypeId Column) → Rising n m → u ≤ n → find u m ≡ none
unfolding find
find-Rising n u [] s h = refl
find-Rising n u ((t, c) ∷ m) s h = ground (arith, find-Rising t u m s.1)

-- A column with a row written over by a row of another one, and with its version where both keep versions.
abbrev pub overwritten : Column → ℕ → Column → ℕ → Column
overwritten c from_row x new_row =
    let v = get_or c.versions from_row 0 in
    let both = x.tracking && (c.tracking && ltb new_row (length x.versions)) in
    record x {
      rows = set x.rows new_row (get_or c.rows from_row none);
      versions = if both then set x.versions new_row v else x.versions;
      max_version = if both && ltb x.max_version v then v else x.max_version;
    }

get_or_beyond : (xs : List ℕ) (i : ℕ) → ltb i (length xs) ≡ false → get_or xs i 0 ≡ 0
get_or_beyond [] i h = refl
get_or_beyond (x ∷ xs) zero h = absurd (ground (arith, h))
get_or_beyond (x ∷ xs) (suc i) h = get_or_beyond xs i (ground (arith, h))

copy_cell-overwritten : (c x : Column) (fr nr : ℕ) → copy_cell c fr x nr ≡ overwritten c fr x nr
unfolding copy_cell write_row set_version version_at
copy_cell-overwritten c x fr nr = ground (arith, get_or_beyond c.versions fr)

-- The column of an id after the walk.
abbrev pub merged : Option Column → ℕ → Option Column → ℕ → Option Column
merged src from_row none new_row = none
merged none from_row (some x) new_row = some x
merged (some c) from_row (some x) new_row = some (overwritten c from_row x new_row)

merged_none : (o : Option Column) (fr nr : ℕ) → o ≡ merged none fr o nr
merged_none none fr nr = refl
merged_none (some x) fr nr = refl

-- Ids of a map from ids to columns, which the walk leaves alone.
abbrev pub keys : Map ComponentTypeId Column → List ComponentTypeId
keys m = map (λ x. x.0) m

zip_all : (dst : Map ComponentTypeId Column) → zip_columns (keys dst) (map (λ x. x.1) dst) ≡ dst
zip_all [] = refl
zip_all ((t, c) ∷ m) = ap (◌∷◌ (t, c)) (zip_all m)

-- One round, with what the rounds behind it give.
walk_step :
    (t u e : ℕ) (c x : Column) (src dst : Map ComponentTypeId Column) (fr nr : ℕ)
    (skipped kept shared : List Column)
    → Rising t src
    → Rising e dst
    → find u (zip_columns (e ∷ keys dst) skipped)
      ≡ merged (find u src) fr (find u ((e, x) ∷ dst)) nr
    → find u (zip_columns (keys dst) kept) ≡ merged (find u ((t, c) ∷ src)) fr (find u dst) nr
    → find u (zip_columns (keys dst) shared) ≡ merged (find u src) fr (find u dst) nr
    → find u (
        zip_columns (e ∷ keys dst) (elim (compare t e) [
          | Ordering.lt ↦ skipped
          | Ordering.gt ↦ x ∷ kept
          | Ordering.eq ↦ copy_cell c fr x nr ∷ shared
        ]))
      ≡ merged (find u ((t, c) ∷ src)) fr (find u ((e, x) ∷ dst)) nr
unfolding find
walk_step t u e c x src dst fr nr skipped kept shared s d p q r =
    ground (arith, find-Rising t u src s, find-Rising e u dst d, copy_cell-overwritten c x fr nr)

-- The merge walk over ascending ids: a component that both archetypes have gets the source's row, and its
-- version where both keep them; every other column of the destination stays.
pub copy_shared-find :
    (n k u : ℕ) (src dst : Map ComponentTypeId Column) (from_row new_row : ℕ)
    → Rising n src
    → Rising k dst
    → find u (zip_columns (keys dst) (copy_shared src from_row dst new_row))
      ≡ merged (find u src) from_row (find u dst) new_row
unfolding copy_shared find
copy_shared-find n k u [] dst fr nr s d = rw (zip_all dst) (merged_none (find u dst) fr nr)
copy_shared-find n k u ((t, c) ∷ src) [] fr nr s d = refl
copy_shared-find n k u ((t, c) ∷ src) ((e, x) ∷ dst) fr nr s d =
    walk_step t u e c x src dst fr nr (copy_shared src fr ((e, x) ∷ dst) nr)
      (copy_shared ((t, c) ∷ src) fr dst nr) (copy_shared src fr dst nr) s.1 d.1
      (copy_shared-find t k u src ((e, x) ∷ dst) fr nr s.1 d)
      (copy_shared-find n e u ((t, c) ∷ src) dst fr nr s d.1)
      (copy_shared-find t e u src dst fr nr s.1 d.1)

zip-Rising :
    (n : ℕ) (ids : List ComponentTypeId) (cs : List Column)
    → Ascends n ids
    → Rising n (zip_columns ids cs)
zip-Rising n [] cs s = tt
zip-Rising n (t ∷ ts) [] s = tt
zip-Rising n (t ∷ ts) (c ∷ cs) s = (s.0, zip-Rising t ts cs s.1)

keys-zip :
    (ids : List ComponentTypeId) (cs : List Column)
    → length cs ≡ length ids
    → keys (zip_columns ids cs) ≡ ids
keys-zip [] [] l = refl
keys-zip [] (c ∷ cs) l = absurd (omega arith)
keys-zip (t ∷ ts) [] l = absurd (omega arith)
keys-zip (t ∷ ts) (c ∷ cs) l = ap (◌∷◌ t) (keys-zip ts cs (omega arith))

pub copied-find :
    (u : ℕ) (src_ids dst_ids : List ComponentTypeId) (src dst : List Column) (from_row new_row : ℕ)
    → Ascends 0 src_ids
    → Ascends 0 dst_ids
    → length dst ≡ length dst_ids
    → find u (
        zip_columns dst_ids
          (copy_shared (zip_columns src_ids src) from_row (zip_columns dst_ids dst) new_row))
      ≡ merged
          (find u (zip_columns src_ids src))
          from_row
          (find u (zip_columns dst_ids dst))
          new_row
copied-find u src_ids dst_ids src dst fr nr s d l =
    let e = keys-zip dst_ids dst l in
    rw e at (
      copy_shared-find 0 0 u (zip_columns src_ids src) (zip_columns dst_ids dst) fr nr
        (zip-Rising 0 src_ids src s) (zip-Rising 0 dst_ids dst d))

copy_cell-Sized : (c x : Column) (fr nr m : ℕ) → Sized m x → Sized m (copy_cell c fr x nr)
unfolding copy_cell write_row
copy_cell-Sized c x fr nr m s = ground (
  arith,
  length-set x.rows nr (get_or c.rows fr none),
  write_row-IsValid nr (get_or c.rows fr none) x,
  set_version-rows (write_row nr (get_or c.rows fr none) x) nr (version_at fr c),
  set_version-IsValid nr (version_at fr c) (write_row nr (get_or c.rows fr none) x),
)

-- The walk keeps the number and the sizes of the destination's columns.
abbrev pub AllSized : ℕ → Map ComponentTypeId Column → Type 0
AllSized m [] = Unit {0}
AllSized m ((t, c) ∷ cs) = Sized m c × AllSized m cs

abbrev Walked : ℕ → Map ComponentTypeId Column → List Column → Type 0
Walked m dst cs = Parallel m cs × (length cs ≡ length dst)

Walked-map :
    (m : ℕ) (dst : Map ComponentTypeId Column) → AllSized m dst → Walked m dst (map (λ x. x.1) dst)
Walked-map m [] a = (tt, refl)
Walked-map m ((t, c) ∷ dst) a = let r = Walked-map m dst a.1 in ((a.0.0, a.0.1, r.0), ap suc r.1)

Walked-step :
    (o : Ordering) (e : ComponentTypeId) (c x : Column) (dst : Map ComponentTypeId Column)
    (fr nr m : ℕ) (skipped kept shared : List Column)
    → Sized m x
    → Walked m ((e, x) ∷ dst) skipped
    → Walked m dst kept
    → Walked m dst shared
    → Walked m ((e, x) ∷ dst) (elim o [
      | Ordering.lt ↦ skipped
      | Ordering.gt ↦ x ∷ kept
      | Ordering.eq ↦ copy_cell c fr x nr ∷ shared
    ])
Walked-step Ordering.lt e c x dst fr nr m skipped kept shared s p q r = p
Walked-step Ordering.gt e c x dst fr nr m skipped kept shared s p q r =
    ((s.0, s.1, q.0), ap suc q.1)
Walked-step Ordering.eq e c x dst fr nr m skipped kept shared s p q r =
    let k = copy_cell-Sized c x fr nr m s in ((k.0, k.1, r.0), ap suc r.1)

copied-Walked :
    (src dst : Map ComponentTypeId Column) (fr nr m : ℕ)
    → AllSized m dst
    → Walked m dst (copy_shared src fr dst nr)
unfolding copy_shared
copied-Walked [] dst fr nr m a = Walked-map m dst a
copied-Walked ((t, c) ∷ src) [] fr nr m a = (tt, refl)
copied-Walked ((t, c) ∷ src) ((e, x) ∷ dst) fr nr m a =
    Walked-step (compare t e) e c x dst fr nr m _ _ _ a.0
      (copied-Walked src ((e, x) ∷ dst) fr nr m a) (copied-Walked ((t, c) ∷ src) dst fr nr m a.1)
      (copied-Walked src dst fr nr m a.1)

zip-AllSized :
    (m : ℕ) (ids : List ComponentTypeId) (cs : List Column)
    → Parallel m cs
    → AllSized m (zip_columns ids cs)
zip-AllSized m [] cs p = tt
zip-AllSized m (t ∷ ts) [] p = tt
zip-AllSized m (t ∷ ts) (c ∷ cs) p = ((p.0, p.1), zip-AllSized m ts cs p.2)

length-zip :
    (ids : List ComponentTypeId) (cs : List Column)
    → length cs ≡ length ids
    → length (zip_columns ids cs) ≡ length ids
length-zip [] cs l = refl
length-zip (t ∷ ts) [] l = absurd (omega arith)
length-zip (t ∷ ts) (c ∷ cs) l = ap suc (length-zip ts cs (omega arith))

pub copied-Parallel :
    (src : Map ComponentTypeId Column) (ids : List ComponentTypeId) (dst : List Column)
    (fr nr m : ℕ)
    → length dst ≡ length ids
    → Parallel m dst
    → let cs = copy_shared src fr (zip_columns ids dst) nr in
      Parallel m cs × (length cs ≡ length ids)
copied-Parallel src ids dst fr nr m l p =
    let r = copied-Walked src (zip_columns ids dst) fr nr m (zip-AllSized m ids dst p) in
    (r.0, r.1 ∙ length-zip ids dst l)

-- What the walk leaves in a row.
pub merged-other :
    (os od : Option Column) (fr nr k : ℕ)
    → (k == nr) ≡ false
    → row_in k (merged os fr od nr) ≡ row_in k od
merged-other os none fr nr k h = refl
merged-other none (some x) fr nr k h = refl
merged-other (some c) (some x) fr nr k h =
    get_elem?-set_ne x.rows nr k (get_or c.rows fr none) (ground arith)

pub merged-copied :
    (c x : Column) (fr nr : ℕ)
    → nr < length x.rows
    → row_in nr (merged (some c) fr (some x) nr) ≡ some (get_or c.rows fr none)
merged-copied c x fr nr h = (get_elem?-set_self x.rows nr (get_or c.rows fr none) h)
