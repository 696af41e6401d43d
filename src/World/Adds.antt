-- ===== src/World/Adds.antt =====
-- core/world.cpp: `add_raw`, where it writes a component that the entity has.
use vortaris_ecs.Prelude.{
  ℕ, ◌≡◌, refl, Bool, true, false, ◌&&◌, Option, some, List, ◌==◌, nat_eq, if◌then◌else◌,
}
use vortaris_ecs.Entity.{Entity, ComponentTypeId}
use vortaris_ecs.Schema.{ComponentSchema}
use vortaris_ecs.Schema.Registry.{ComponentRegistry, schema_of}
use vortaris_ecs.Archetype.{has_component}
use vortaris_ecs.World.{World, EntityLocation, location, deref, is_alive}
use vortaris_ecs.World.Components.{add_raw, add_now, overwrite, bytes_of, get_raw}
use vortaris_ecs.World.Invariant.{IsValid}
use vortaris_ecs.World.Migration.{alive-located}
use vortaris_ecs.World.Writes.{overwrite-get_raw}

if-false : {A : Type 0} (b : Bool) (x y : A) → b ≡ false → (if b then x else y) ≡ y
if-false b x y h = rw h refl

if-true : {A : Type 0} (b : Bool) (x y : A) → b ≡ true → (if b then x else y) ≡ x
if-true b x y h = rw h refl

add_now-overwrites :
    (reg : ComponentRegistry) (w : World) (e : Entity) (t : ComponentTypeId) (s : ComponentSchema)
    (bytes : Option (List ℕ)) (loc : EntityLocation)
    → location w e ≡ some loc
    → has_component (deref w loc.archetype) t ≡ true
    → add_now reg e t s bytes w ≡ overwrite e t loc (bytes_of s bytes) w
unfolding add_now
add_now-overwrites reg w e t s bytes loc found has = rw (found, add_now) (if-true _ _ _ has)

add_raw-now :
    (reg : ComponentRegistry) (w : World) (e : Entity) (t : ComponentTypeId) (s : ComponentSchema)
    (bytes : Option (List ℕ))
    → is_alive w e ≡ true
    → schema_of reg t ≡ some s
    → w.defer_moves ≡ false
    → add_raw reg e t bytes w ≡ add_now reg e t s bytes w
unfolding add_raw
add_raw-now reg w e t s bytes alive known eager = rw (alive, known, add_raw) (if-false _ _ _ eager)

-- In a valid world outside a batch, `add_raw` of a registered component that a located entity has leaves the given bytes there, cut to
-- the size of the component, or zeros where none are given; every other component of the entity and every
-- other entity reads as before, also during an iteration.
pub add_raw-get_raw :
    (reg : ComponentRegistry) (w : World) (e q : Entity) (t u : ComponentTypeId)
    (s : ComponentSchema) (bytes : Option (List ℕ)) (loc : EntityLocation)
    → IsValid w
    → schema_of reg t ≡ some s
    → w.defer_moves ≡ false
    → location w e ≡ some loc
    → has_component (deref w loc.archetype) t ≡ true
    → get_raw (add_raw reg e t bytes w) q u
      ≡ (if (e == q) && (t == u) then some (some (bytes_of s bytes)) else get_raw w q u)
add_raw-get_raw reg w e q t u s bytes loc valid known eager found has =
    rw
      (
        add_raw-now reg w e t s bytes (alive-located w e loc valid found) known eager,
        add_now-overwrites reg w e t s bytes loc found has,
      )
      (overwrite-get_raw w e t loc (bytes_of s bytes) valid found has q u)
