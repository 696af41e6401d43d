-- ===== src/Observers/Delivery.antt =====
-- core/observer_dispatch.cpp: registering, unregistering and delivering.
use Prim.Native.String.{String}
use vortaris_ecs.Prelude.{
  ℕ, ◌<◌, ◌≡◌, refl, ap, ◌∙◌, false, not, none, some, List, [], ◌∷◌, ◌++◌, ◌==◌, nat_eq,
  nat_beq_iff, if◌then◌else◌, keep_if, arith, keep_if-append, append-nil,
}
use vortaris_ecs.Entity.{Entity, ComponentTypeId}
use vortaris_ecs.Observers.{
  ObserverCallback, ObserverDispatch, add, remove, deliver, dispatch, wants, passes,
}
use vortaris_ecs.World.{ObserverEventType}

-- Every id was given out.
abbrev pub Issued : ℕ → List ObserverCallback → Type 0
Issued n [] = Unit {0}
Issued n (cb ∷ cbs) = (cb.id < n) × Issued n cbs

Issued-keep_if :
    (n : ℕ) (cbs : List ObserverCallback)
    → Issued n cbs
    → keep_if (λ cb. not (cb.id == n)) cbs ≡ cbs
unfolding keep_if
Issued-keep_if n [] i = refl
Issued-keep_if n (cb ∷ cbs) i =
    let other : (cb.id == n) ≡ false = ground (arith, i.0) in
    rw other (ap (◌∷◌ cb) (Issued-keep_if n cbs i.1))

-- Where all ids were given out below the next one, removing the id that `add` returned takes out what it put
-- in, and nothing else.
pub remove-add :
    (cb : ObserverCallback) (d : ObserverDispatch)
    → Issued d.next_id d.callbacks
    → (remove (add cb d).1 (add cb d).0).callbacks ≡ d.callbacks
unfolding add remove keep_if
remove-add cb d i =
    keep_if-append (λ c. not (c.id == d.next_id)) d.callbacks (record cb { id = d.next_id } ∷ [])
    ∙ rw (Issued-keep_if d.next_id d.callbacks i, (nat_beq_iff d.next_id d.next_id).1 refl)
        (append-nil d.callbacks)

deliver-append :
    (type : ObserverEventType) (c : ComponentTypeId) (n : String) (xs ys : List ObserverCallback)
    → deliver type c n (xs ++ ys) ≡ deliver type c n xs ++ deliver type c n ys
unfolding deliver
deliver-append type c n [] ys = refl
deliver-append type c n (x ∷ xs) ys = ground (arith, deliver-append type c n xs ys)

alone :
    (type : ObserverEventType) (c : ComponentTypeId) (n : String) (cb : ObserverCallback) (id : ℕ)
    → deliver type c n (record cb { id = id } ∷ [])
      ≡ (if wants type c n cb then (elim cb.fn [ none ↦ [] | some fn ↦ fn ∷ [] ]) else [])
unfolding deliver wants passes
alone ObserverEventType.added c n cb id = refl
alone ObserverEventType.removed c n cb id = refl
alone ObserverEventType.changed c n cb id = refl
alone ObserverEventType.matched c n cb id = refl
alone ObserverEventType.unmatched c n cb id = refl
alone ObserverEventType.custom c n cb id = refl

-- An event reaches the observers in the order in which they were added: a new observer is called last, where
-- it wants the event, and changes nothing of the calls before.
pub dispatch-add :
    (type : ObserverEventType) (e : Entity) (c : ComponentTypeId) (n : String)
    (cb : ObserverCallback) (d : ObserverDispatch)
    → (dispatch type e c n (add cb d).0).0
      ≡ (dispatch type e c n d).0
        ++ (if wants type c n cb then (elim cb.fn [ none ↦ [] | some fn ↦ fn ∷ [] ]) else [])
unfolding dispatch add deliver wants passes
dispatch-add type e c n cb d =
    deliver-append type c n d.callbacks (record cb { id = d.next_id } ∷ [])
    ∙ ap (◌++◌ (deliver type c n d.callbacks)) (alone type c n cb d.next_id)
