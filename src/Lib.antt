-- ===== src/Lib.antt =====
-- VortarisECS: the core of an entity component system for Godot.
--
-- An entity is a 64-bit handle of a slot and a generation. The entities with one set of components share an
-- archetype (src/core/archetype.cpp), which has a row for each entity and a column of bytes for each component
-- (src/core/column.h). A query (src/core/query.cpp) selects archetypes by their sets, and a cache keeps the
-- selections. Schemas and ids of components are in the registry (src/core/component_registry.cpp). The world
-- (src/core/world.cpp) owns all of these: it maps each entity to an archetype and a row, moves rows between
-- archetypes, logs writes for change views, and defers a batch of operations that the command buffer
-- (src/core/command_buffer.cpp) executes. A scheduler (src/gdscript/vecs_scheduler.cpp) orders the systems of a
-- group and runs them on the world. A world is saved to a snapshot (src/serialization/snapshot.cpp), and a server
-- sends its changes to clients (src/network/network_sync.cpp). Observers (src/core/observer_dispatch.cpp) are told of changes.
--
-- The files and the code:
-- Prelude: Booleans, lists, association lists and arithmetic that all the parts share.
-- Entity: src/core/entity.h, `slot`, `generation`, and the `handle` of `_alloc_entity_id`.
-- Column: src/core/column.h, a function for each method; below it what the methods keep (Bounds), the versions
-- of change tracking (Versions), and the rows after a removal (Cells).
-- Archetype: src/core/archetype.cpp and the matching of src/core/query.cpp. `Archetype.Invariant.IsValid` says
-- that the arrays are parallel and the index exact; `view` is the abstract archetype, a partial map from
-- entities to lines of flag, bytes and versions.
-- Query: src/core/query.cpp, the signatures and the cache.
-- Schema: src/core/component_schema.h and, in Schema.Registry, src/core/component_registry.cpp.
-- World: the state of src/core/world.h; its children follow src/core/world.cpp: Ids, Entities, Moves,
-- Components, Deferred, ChangeLog and Lifecycle. Archetypes live on a heap, a map from pointers, since the
-- code shares them between the world, its lists and its locations. `World.Invariant.IsValid` says that each
-- archetype is sound, and that the map of locations and the rows of the archetypes agree. `reads` is the
-- abstract world, a partial map from entities and components to contents, and `get_raw` reads it.
-- Views: the loops and views of src/core/world.h, on ids in place of types.
-- Commands: src/core/command_buffer.cpp.
-- Observers: src/core/observer_dispatch.cpp.
-- Scheduler: src/gdscript/vecs_scheduler.cpp; Graph is the order of `recompute_order`, Kahn, Edges and Order its
-- proofs, Cache the cache of orders. Systems are nodes given by a parameter, and seconds the numbers of a Clock.
-- Serialization: src/serialization/binary_buffer.cpp; below it Component is src/serialization/component_serializer.cpp
-- on components as lists of bytes.
-- Snapshot: src/serialization/snapshot.cpp, its writer and the check; Load is the second pass.
-- Network: src/network/network_sync.cpp; Plan is what is replicated of a schema, Mask the field masks, Packets the
-- check of packets, Replication the state of a server, its Delta and its Ticks, Client what a client does with packets.
-- Tests: a small world, and each theorem at it.
--
-- A row that was added and not yet written has the content `none`, since the code leaves its memory as it is.
-- Unsigned integers are native numbers with the wrap-around written out. A pointer that is not on the heap is
-- never followed by the code; the model then has a blank archetype. Unordered maps and sets are lists in the
-- order of insertion. The loop of the binary search has the length of the log as fuel, of which a round
-- needs at most one, and the loop that orders systems a round for each system; all other loops are structural. Rows are counted in 32 bits, so theorems on added rows
-- ask for room.
--
-- Not modelled: addresses and alignment of memory; the wrappers that turn a C++ type into an id; what a read
-- writes behind a buffer; the transport of the network, and the bindings to GDScript, which stand on Godot's types; the payloads of
-- events; what a system's script does to the scheduler while it runs. Memory that nothing has written holds bytes
-- that are a parameter where it is sent or saved. The interval of a priority is in hundredths of a second. The sizes of Godot's types are a parameter of the layout of a schema. What a callback
-- does to the world is a later call of the world's operations, after the operation that called it.
pub mod Prelude
pub mod Column
pub mod Entity
pub mod Archetype
pub mod Query
pub mod Schema
pub mod World
pub mod Commands
pub mod Observers
pub mod Serialization
pub mod Network
pub mod Scheduler
pub mod Snapshot
pub mod Views
pub mod Tests
