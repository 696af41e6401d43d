-- ===== src/Schema/Registry/Lookup.antt =====
-- core/component_registry.cpp: what is registered is found again.
use text.Mathlib.TextEquality.{eq_iff}
use text.Mathlib.TextPositions.{eq_refl}
use vortaris_ecs.Prelude.{
  ◌+◌, ◌-◌, ◌≤◌, ◌<◌, ◌≡◌, ◌≢◌, refl, none, some, List, [], ◌∷◌, ◌++◌, ◌==◌, nat_eq, string_eq,
  if◌then◌else◌, length, arith, get_elem?-append_one, length-append, get_elem?_beyond, u32, ◌^◌,
}
use vortaris_ecs.Prelude.Map.{find, insert, find-insert}
use vortaris_ecs.Entity.{ComponentTypeId}
use vortaris_ecs.Schema.{ComponentSchema}
use vortaris_ecs.Schema.Registry.{
  ComponentRegistry, register_component, schema_at, schema_of, schema_of_name,
}

-- The registry after a registration that succeeds.
registered :
    (p : ComponentSchema) (reg : ComponentRegistry)
    → p.type_name ≢ ""
    → find p.type_name reg.id_by_name ≡ none
    → length reg.schemas + 1 < 2 ^ 32
    → let id = length reg.schemas + 1 in
      register_component p reg ≡ (
        record {
          schemas = reg.schemas ++ record p { type_id = id } ∷ [];
          id_by_name = insert p.type_name id reg.id_by_name;
        },
        id,
      )
unfolding register_component
registered p reg named new room =
    let small : u32 (length reg.schemas + 1) ≡ length reg.schemas + 1 = omega arith in
    ground (arith, small, new, eq_iff p.type_name "")

append-schema_at :
    (s : ComponentSchema) (ss : List ComponentSchema) (id : ComponentTypeId)
    → schema_at (ss ++ s ∷ []) id ≡ (if id == length ss + 1 then some s else schema_at ss id)
unfolding schema_at
append-schema_at s ss id = ground (
  arith,
  length-append ss (s ∷ []),
  get_elem?-append_one ss (id - 1) s,
  get_elem?_beyond ss (id - 1),
)

-- Registering a schema under a new name that is not empty gives the next id, and that id and the name
-- lead to the schema; every id that was known keeps its schema.
pub register_component_lem :
    (p : ComponentSchema) (reg : ComponentRegistry)
    → p.type_name ≢ ""
    → find p.type_name reg.id_by_name ≡ none
    → length reg.schemas + 1 < 2 ^ 32
    → let r = register_component p reg in
      let s : ComponentSchema = record p { type_id = length reg.schemas + 1 } in
      (r.1 ≡ length reg.schemas + 1)
      × (schema_of r.0 r.1 ≡ some s)
      × (schema_of_name r.0 p.type_name ≡ some s)
      × ((id : ComponentTypeId) → id ≤ length reg.schemas → schema_of r.0 id ≡ schema_of reg id)
unfolding schema_of_name
register_component_lem p reg named new room = rw (registered p reg named new room) (
  refl,
  found,
  rw (find-insert p.type_name p.type_name (length reg.schemas + 1) reg.id_by_name, schema_of_name)
      (rw eq_refl found),
  λ id h. rw append-schema_at (ground arith),
)
  where
    found :
        let id = length reg.schemas + 1 in
        schema_at (reg.schemas ++ record p { type_id = id } ∷ []) id
        ≡ some (record p { type_id = id })
    found = rw append-schema_at (ground arith)
