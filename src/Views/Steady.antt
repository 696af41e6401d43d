-- ===== src/Views/Steady.antt =====
-- core/world.h: what `ChangeView::take` reports from the log.
use vortaris_ecs.Prelude.{
  ◌≡◌, ◌∙◌, true, false, ◌&&◌, ◌||◌, List, [], ◌∷◌, ◌==◌, nat_eq, ids_beq, ids_beq_iff, drop, any,
  arith, Bool-cases, inl, inr,
}
use vortaris_ecs.Entity.{Entity}
use vortaris_ecs.World.Sets.{among-insert_unique}
use vortaris_ecs.World.{World, ChangeLogEntry, among, is_alive}
use vortaris_ecs.World.Components.{has}
use vortaris_ecs.World.Deferred.{sort_ids}
use vortaris_ecs.World.Deferred.FinalSet.{among-sort_ids}
use vortaris_ecs.World.Entities.{insert_unique}
use vortaris_ecs.Views.{ChangeView, matched, query_of, reports, read_log, take, log_invalidated}

among-read_log :
    (e : Entity) (w : World) (v : ChangeView) (xs : List ChangeLogEntry) (out : List Entity)
    → among e (read_log w v xs out) ≡ (among e out || any (λ x. reports w v x && x.entity == e) xs)
unfolding read_log any
among-read_log e w v [] out = ground arith
among-read_log e w v (x ∷ xs) out = elim (Bool-cases (reports w v x)) [
  | inl told ↦ rw told (
      among-read_log e w v xs (insert_unique x.entity out)
      ∙ ground (arith, among-insert_unique e x.entity out))
  | inr silent ↦ rw silent (among-read_log e w v xs out)
]

-- A view that took before, with the same archetypes and an unbroken log, reports exactly the entities of the entries
-- since then whose tick is above its baseline, whose component it watches, and which live and have all its
-- components.
pub take_steady :
    (v : ChangeView) (w : World) (e : Entity)
    → v.warmed_up ≡ true
    → v.log_gen ≡ w.change_log_generation
    → v.last_arches ≡ (matched (query_of (sort_ids v.ids)) w).1
    → among e (take v w).1.1
      ≡ any (λ x. reports w v x && x.entity == e) (drop v.log_pos w.change_log)
unfolding take is_alive has any
take_steady v w e warm same arches =
    let r = matched (query_of (sort_ids v.ids)) w in
    let kept : log_invalidated v r.0 ≡ false = ground (arith, same) in
    let known : ids_beq v.last_arches r.1 ≡ true = (ids_beq_iff v.last_arches r.1).1 arches in
    rw (take, warm, kept, known)
      (among-sort_ids e
          (read_log r.0 (record v { warmed_up = true }) (drop v.log_pos w.change_log) [])
        ∙ among-read_log e r.0 (record v { warmed_up = true }) (drop v.log_pos w.change_log) [])
