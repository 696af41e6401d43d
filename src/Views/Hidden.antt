-- ===== src/Views/Hidden.antt =====
-- core/world.h and core/column.h: what layer (a) of `ChangeView::take` sees of an archetype that lost a row.
use vortaris_ecs.Prelude.{
  ℕ, zero, suc, ◌<◌, ◌≡◌, refl, ap, true, false, none, some, List, [], ◌∷◌, map, length, get_elem?,
  set, ◌∙◌, nat_beq_iff, arith, Option-cases, Bool-cases, inl, inr, any, nat_eq, ◌==◌,
  if◌then◌else◌,
}
use vortaris_ecs.Prelude.Map.{find}
use vortaris_ecs.Archetype.{
  Archetype, column, column_index, has_component, remove_entity, drop_row, fill_row,
}
use vortaris_ecs.Archetype.Invariant.{IsValid, Sized, Parallel}
use vortaris_ecs.Archetype.Refine.{view, remove_entity-view}
use vortaris_ecs.Archetype.Removal.{remove_row_cases}
use vortaris_ecs.Column.{Column, ensure_versions, pop_back, swap_remove, shrink, top_version}
use vortaris_ecs.Entity.{Entity, ComponentTypeId}
use vortaris_ecs.Query.{Ptr}
use vortaris_ecs.Views.{stamp, moved_on, scan_archetypes, top_of}
use vortaris_ecs.World.{World, deref, store}
use vortaris_ecs.World.Components.{update_column}
use vortaris_ecs.World.Invariant.{behind-insert}

-- Every column keeps versions.
abbrev pub AllTracked : List Column → Type 0
AllTracked [] = Unit {0}
AllTracked (c ∷ cs) = (c.tracking ≡ true) × AllTracked cs

-- Every column keeps versions and reports 0 as the highest.
abbrev Quiet : List Column → Type 0
Quiet [] = Unit {0}
Quiet (c ∷ cs) = (c.tracking ≡ true) × (c.max_version ≡ 0) × Quiet cs

Quiet-map :
    (f : Column → Column) (n : ℕ) (cs : List Column)
    → ((c : Column)
        → Sized n c
        → c.tracking ≡ true
        → ((f c).tracking ≡ true) × ((f c).max_version ≡ 0))
    → Parallel n cs
    → AllTracked cs
    → Quiet (map f cs)
Quiet-map f n [] h p t = tt
Quiet-map f n (c ∷ cs) h (l, v, p) (t, ts) =
    let k = h c (l, v) t in (k.0, k.1, Quiet-map f n cs h p ts)

pop_back-quiet :
    (c : Column)
    → 0 < length c.rows
    → c.tracking ≡ true
    → ((pop_back c).tracking ≡ true) × ((pop_back c).max_version ≡ 0)
unfolding pop_back shrink
pop_back-quiet c h t = ground (arith, h, t)

swap_remove-quiet :
    (i : ℕ) (c : Column)
    → c.tracking ≡ true
    → ((swap_remove i c).tracking ≡ true) × ((swap_remove i c).max_version ≡ 0)
unfolding swap_remove shrink
swap_remove-quiet i c t = ground (arith, t)

-- A removal quiets every column.
removed-Quiet :
    (e : Entity) (row : ℕ) (a : Archetype)
    → IsValid a
    → find e a.entity_to_row ≡ some row
    → AllTracked a.columns
    → Quiet (remove_entity e a).0.columns
unfolding remove_entity drop_row fill_row
removed-Quiet e row a valid at t =
    let (last, end, which) = remove_row_cases a valid e row at in
    elim which [
      | inl (same, run) ↦
          rw (at, remove_entity, run)
            (Quiet-map pop_back (length a.entities) a.columns
              (λ c s k. pop_back-quiet c (omega (arith, end, s.0)) k) valid.height t)
      | inr (inner, run) ↦
          rw (at, remove_entity, run)
            (Quiet-map (swap_remove row) (length a.entities) a.columns
              (λ c s k. swap_remove-quiet row c k) valid.height t)
    ]

Quiet-get_elem? :
    (cs : List Column) (i : ℕ) (c : Column)
    → Quiet cs
    → get_elem? cs i ≡ some c
    → (c.tracking ≡ true) × (c.max_version ≡ 0)
Quiet-get_elem? [] i c q h = absurd (ground (arith, h))
Quiet-get_elem? (x ∷ cs) zero c q h = ground (arith, q.0, q.1, h)
Quiet-get_elem? (x ∷ cs) (suc i) c q h = Quiet-get_elem? cs i c q.2 h

set_same : (cs : List Column) (i : ℕ) (c : Column) → get_elem? cs i ≡ some c → set cs i c ≡ cs
set_same [] i c h = refl
set_same (x ∷ cs) zero c h = ground (arith, h)
set_same (x ∷ cs) (suc i) c h = ap (◌∷◌ x) (set_same cs i c h)

ensure_versions-tracked : (tick : ℕ) (c : Column) → c.tracking ≡ true → ensure_versions tick c ≡ c
unfolding ensure_versions
ensure_versions-tracked tick c t = ground (arith, t)

module _ (a : Archetype) (q : Quiet a.columns) where
  quiet-top : (t : ComponentTypeId) → top_of (column a t) ≡ 0
  unfolding column top_version
  quiet-top t = elim (Option-cases (column_index a t)) [
    | inl none_there ↦ rw (column, none_there) refl
    | inr (i, there) ↦ elim (Option-cases (get_elem? a.columns i)) [
      | inl out ↦ rw (column, there, out) refl
      | inr (c, found) ↦
          let k = Quiet-get_elem? a.columns i c q found in
          rw (column, there, found) (ground (arith, k))
    ]
  ]

  quiet-moved_on : (ids : List ComponentTypeId) (b : ℕ) → moved_on ids b a ≡ false
  unfolding moved_on any
  quiet-moved_on [] b = refl
  quiet-moved_on (t ∷ ts) b = ground (arith, quiet-top t, quiet-moved_on ts b)

  quiet-update :
      (t : ComponentTypeId) (tick : ℕ) → update_column t (λ c. ensure_versions tick c) a ≡ a
  unfolding update_column
  quiet-update t tick = elim (Option-cases (column_index a t)) [
    | inl none_there ↦ rw (update_column, none_there) refl
    | inr (i, there) ↦ elim (Option-cases (get_elem? a.columns i)) [
      | inl out ↦ rw (update_column, there, out) refl
      | inr (c, found) ↦
          let k = (Quiet-get_elem? a.columns i c q found).0 in
          rw (update_column, there, found, ensure_versions-tracked tick c k)
            (ap (λ cs. record a { columns = cs }) (set_same a.columns i c found))
    ]
  ]

  quiet-watched :
      (t : ComponentTypeId) (tick : ℕ)
      → (if has_component a t then update_column t (λ c. ensure_versions tick c) a else a) ≡ a
  quiet-watched t tick = elim (Bool-cases (has_component a t)) [
    | inl has ↦ rw has (quiet-update t tick)
    | inr lacks ↦ rw lacks refl
  ]

  quiet-stamp : (ids : List ComponentTypeId) (tick : ℕ) → stamp ids tick a ≡ a
  unfolding stamp update_column
  quiet-stamp [] tick = refl
  quiet-stamp (t ∷ ts) tick = ap (stamp ts tick) (quiet-watched t tick) ∙ quiet-stamp ts tick

-- The first layer of a change view misses an archetype that lost a row: where all its columns keep versions, the
-- layer reports no row of it, whatever the view's ids and baseline are, although the removal leaves the line of
-- every other entity, its versions among it, as it was.
pub scan_archetypes-removed :
    (ids : List ComponentTypeId) (b : ℕ) (w : World) (p : Ptr) (e : Entity) (row : ℕ)
    (out : List Entity)
    → IsValid (deref w p)
    → find e (deref w p).entity_to_row ≡ some row
    → AllTracked (deref w p).columns
    → let a = (remove_entity e (deref w p)).0 in
      ((scan_archetypes ids b (p ∷ []) (store p a w, out)).1 ≡ out)
      × ((q : Entity) → view a q ≡ (if e == q then none else view (deref w p) q))
unfolding scan_archetypes
scan_archetypes-removed ids b w p e row out valid at tracked =
    let a = (remove_entity e (deref w p)).0 in
    let quiet = removed-Quiet e row (deref w p) valid at tracked in
    let here : deref (store p a w) p ≡ a =
      behind-insert p p a w.heap ∙ rw ((nat_beq_iff p p).1 refl) refl in
    (
      rw (here, quiet-stamp a quiet ids w.change_tick, quiet-moved_on a quiet ids b) refl,
      λ q. remove_entity-view e q (deref w p) valid,
    )
