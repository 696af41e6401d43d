-- ===== src/Snapshot/Accepted.antt =====
-- serialization/snapshot.cpp: a snapshot that was written passes the check of a load.
use vortaris_ecs.Prelude.{
  ℕ, suc, ◌^◌, ◌<◌, ◌≡◌, refl, ap, sym, ◌∙◌, true, Option, none, some, List, [], ◌∷◌, ◌++◌, nat_eq,
  length, arith, append_assoc,
}
use vortaris_ecs.Archetype.{Archetype}
use vortaris_ecs.Column.{Column}
use vortaris_ecs.Entity.{Entity, ComponentTypeId}
use vortaris_ecs.Schema.{ComponentSchema}
use vortaris_ecs.Schema.Registry.{ComponentRegistry, schema_of}
use vortaris_ecs.Serialization.{BinaryBuffer, le_bytes, write_bytes}
use vortaris_ecs.Serialization.Component.Sizes.{
  Fit, payloads, length-payloads, write_fields-payloads, write_twice, write_nothing,
}
use vortaris_ecs.World.{World, entity_count}
use vortaris_ecs.World.Components.{row_in}
use vortaris_ecs.Network.Packets.{skip}
use vortaris_ecs.Network.Packets.Accepted.{Item, flat, ReadsAll, skip-Ahead, entity_bytes}
use vortaris_ecs.Network.Replication.Ticks.{sort_archetypes}
use vortaris_ecs.Snapshot.{
  snapshot_version, cell_bytes, write_cell, write_cells, write_rows, write_archetypes,
  serialize_world_snapshot, check_component, check_snapshot,
}
use vortaris_ecs.Snapshot.Checked.{
  Listing, bytes_of, GoodIds, AllRead, append-AllRead, both-Acceptable, checked,
}

-- The bytes of a component behind its type id.
abbrev body_of : Option ComponentSchema → List ℕ → List ℕ
body_of none inst = []
body_of (some s) inst = payloads s.fields [] inst

module _ (reg : ComponentRegistry) (unwritten : List ℕ) where
  -- The bytes of a cell, and what is written of a row.
  abbrev inst_at : ℕ → Column → List ℕ
  inst_at row c = cell_bytes unwritten (row_in row (some c))

  abbrev pub cell_items : ℕ → List ComponentTypeId → List Column → List Item
  cell_items row [] cs = []
  cell_items row (t ∷ ts) [] = []
  cell_items row (t ∷ ts) (c ∷ cs) =
      (t, body_of (schema_of reg t) (inst_at row c)) ∷ cell_items row ts cs

  -- Every component of a row has a column and a schema, whose fields lie within its bytes.
  abbrev pub Whole : ℕ → List ComponentTypeId → List Column → Type 0
  Whole row [] cs = Unit {0}
  Whole row (t ∷ ts) [] = ⊥
  Whole row (t ∷ ts) (c ∷ cs) =
      ((t < 2 ^ 32)
        × ((s : ComponentSchema) × ((schema_of reg t ≡ some s)
              × Fit (length (inst_at row c)) s.fields)))
      × Whole row ts cs

  abbrev pub row_listing : Archetype → ℕ → List Entity → List (Entity × List Item)
  row_listing a row [] = []
  row_listing a row (e ∷ es) =
      (e, cell_items row a.component_ids a.columns) ∷ row_listing a (suc row) es

  abbrev pub WholeRows : Archetype → ℕ → List Entity → Type 0
  WholeRows a row [] = Unit {0}
  WholeRows a row (e ∷ es) = Whole row a.component_ids a.columns × WholeRows a (suc row) es

  -- What a snapshot lists, archetype by archetype.
  abbrev pub listing : List Archetype → List (Entity × List Item)
  listing [] = []
  listing (a ∷ rest) = row_listing a 0 a.entities ++ listing rest

  abbrev pub WholeArchetypes : List Archetype → Type 0
  WholeArchetypes [] = Unit {0}
  WholeArchetypes (a ∷ rest) = WholeRows a 0 a.entities × WholeArchetypes rest

  length-cell_items :
      (row : ℕ) (ts : List ComponentTypeId) (cs : List Column)
      → Whole row ts cs
      → length (cell_items row ts cs) ≡ length ts
  length-cell_items row [] cs v = refl
  length-cell_items row (t ∷ ts) [] v = elim v [ ]
  length-cell_items row (t ∷ ts) (c ∷ cs) v = ap suc (length-cell_items row ts cs v.1)

  cell_items-ReadsAll :
      (row : ℕ) (ts : List ComponentTypeId) (cs : List Column)
      → Whole row ts cs
      → ReadsAll (check_component reg) (cell_items row ts cs)
  cell_items-ReadsAll row [] cs v = tt
  cell_items-ReadsAll row (t ∷ ts) [] v = tt
  cell_items-ReadsAll row (t ∷ ts) (c ∷ cs) v =
      let (small, (s, (known, fit))) = v.0 in
      let l = length-payloads s.fields [] (inst_at row c) fit in
      (
        (
          omega (arith, small),
          λ b rest a.
              rw (check_component, known)
                (ap (λ n. skip n b) (sym l)
                  ∙ skip-Ahead (payloads s.fields [] (inst_at row c)) b rest (rw known at a)),
        ),
        cell_items-ReadsAll row ts cs v.1,
      )

  write_cells-items :
      (row : ℕ) (ts : List ComponentTypeId) (cs : List Column) (b : BinaryBuffer)
      → Whole row ts cs
      → write_cells reg unwritten row ts cs b ≡ write_bytes (flat (cell_items row ts cs)) b
  unfolding write_cells write_cell
  write_cells-items row [] cs b v = sym (write_nothing b)
  write_cells-items row (t ∷ ts) [] b v = elim v [ ]
  write_cells-items row (t ∷ ts) (c ∷ cs) b v =
      let (small, (s, (known, fit))) = v.0 in
      let inst = inst_at row c in
      let bytes = payloads s.fields [] inst in
      let one : write_cell reg unwritten t inst b ≡ write_bytes (le_bytes 4 t ++ bytes) b =
        rw (write_cell, known)
          (write_fields-payloads s.fields [] inst (write_bytes (le_bytes 4 t) b)
            ∙ write_twice (le_bytes 4 t) bytes b) in
      rw (known, one)
        (write_cells-items row ts cs (write_bytes (le_bytes 4 t ++ bytes) b) v.1
          ∙ write_twice (le_bytes 4 t ++ bytes) (flat (cell_items row ts cs)) b)

  write_rows-listing :
      (a : Archetype) (row : ℕ) (es : List Entity) (b : BinaryBuffer)
      → WholeRows a row es
      → write_rows reg unwritten a row es b ≡ write_bytes (bytes_of (row_listing a row es)) b
  unfolding write_rows
  write_rows-listing a row [] b v = sym (write_nothing b)
  write_rows-listing a row (e ∷ es) b v =
      let xs = cell_items row a.component_ids a.columns in
      let ncomp = le_bytes 2 (length a.component_ids) in
      let count = length-cell_items row a.component_ids a.columns v.0 in
      let head = write_bytes ncomp (write_bytes (le_bytes 8 e) b) in
      let one : write_cells reg unwritten row a.component_ids a.columns head
          ≡ write_bytes (entity_bytes 2 e xs) b =
        write_cells-items row a.component_ids a.columns head v.0
        ∙ write_twice ncomp (flat xs) (write_bytes (le_bytes 8 e) b)
        ∙ write_twice (le_bytes 8 e) (ncomp ++ flat xs) b
        ∙ ap (λ n. write_bytes (le_bytes 8 e ++ (le_bytes 2 n ++ flat xs)) b) (sym count) in
      rw one (
        write_rows-listing a (suc row) es (write_bytes (entity_bytes 2 e xs) b) v.1
        ∙ write_twice (entity_bytes 2 e xs) (bytes_of (row_listing a (suc row) es)) b)

  bytes_of-append : (xs ys : Listing) → bytes_of (xs ++ ys) ≡ bytes_of xs ++ bytes_of ys
  bytes_of-append [] ys = refl
  bytes_of-append (x ∷ xs) ys =
      ap (λ z. entity_bytes 2 x.0 x.1 ++ z) (bytes_of-append xs ys)
      ∙ sym (append_assoc (entity_bytes 2 x.0 x.1) (bytes_of xs) (bytes_of ys))

  write_archetypes-listing :
      (archetypes : List Archetype) (b : BinaryBuffer)
      → WholeArchetypes archetypes
      → write_archetypes reg unwritten archetypes b ≡ write_bytes (bytes_of (listing archetypes)) b
  unfolding write_archetypes
  write_archetypes-listing [] b v = sym (write_nothing b)
  write_archetypes-listing (a ∷ rest) b v =
      let here = bytes_of (row_listing a 0 a.entities) in
      rw (write_rows-listing a 0 a.entities b v.0) (
        write_archetypes-listing rest (write_bytes here b) v.1
        ∙ write_twice here (bytes_of (listing rest)) b
        ∙ ap (λ z. write_bytes z b)
            (sym (bytes_of-append (row_listing a 0 a.entities) (listing rest))))

  row_listing-AllRead :
      (a : Archetype) (row : ℕ) (es : List Entity)
      → WholeRows a row es
      → AllRead reg (row_listing a row es)
  row_listing-AllRead a row [] v = tt
  row_listing-AllRead a row (e ∷ es) v = (
    cell_items-ReadsAll row a.component_ids a.columns v.0,
    row_listing-AllRead a (suc row) es v.1,
  )

  listing-AllRead :
      (archetypes : List Archetype) → WholeArchetypes archetypes → AllRead reg (listing archetypes)
  listing-AllRead [] v = tt
  listing-AllRead (a ∷ rest) v =
      append-AllRead reg (row_listing a 0 a.entities) (listing rest)
        (row_listing-AllRead a 0 a.entities v.0) (listing-AllRead rest v.1)

  -- The snapshot of a world passes the check of a load by the same registry: where every component of every row has a
  -- column and a schema whose fields lie within its bytes, the ids are of 64 bits, acceptable and different, there are
  -- fewer than 2 ^ 16 components to an entity, and the world counts its entities, of which there are fewer than 2 ^ 32.
  pub check_snapshot-serialize_world_snapshot :
      (w : World)
      → WholeArchetypes (sort_archetypes w w.archetype_list)
      → GoodIds [] (listing (sort_archetypes w w.archetype_list))
      → entity_count w ≡ length (listing (sort_archetypes w w.archetype_list))
      → length (listing (sort_archetypes w w.archetype_list)) < 2 ^ 32
      → check_snapshot reg
          (record (serialize_world_snapshot reg unwritten w (record { bytes = []; pos = 0 })) {
            pos = 0;
          })
        ≡ true
  unfolding serialize_world_snapshot write_bytes
  check_snapshot-serialize_world_snapshot w v ok count small =
      let xs = listing (sort_archetypes w w.archetype_list) in
      checked reg xs (serialize_world_snapshot reg unwritten w (record { bytes = []; pos = 0 }))
        (ap (λ b. b.bytes)
            (write_archetypes-listing (sort_archetypes w w.archetype_list) _ v
              ∙ ap
                  (λ n. write_bytes (bytes_of xs) (
                    write_bytes (le_bytes 4 n)
                      (write_bytes (le_bytes 2 snapshot_version) (record { bytes = []; pos = 0 }))))
                  count)
          ∙ append_assoc (le_bytes 2 snapshot_version) (le_bytes 4 (length xs)) (bytes_of xs))
        (both-Acceptable reg [] xs ok (listing-AllRead (sort_archetypes w w.archetype_list) v))
        small
