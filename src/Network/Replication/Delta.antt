-- ===== src/Network/Replication/Delta.antt =====
-- network/network_sync.cpp: `build_delta`, the due fields of the dirty components.
use vortaris_ecs.Prelude.{
  ℕ, suc, ◌+◌, ◌%◌, ◌^◌, Bool, true, not, ◌&&◌, ◌||◌, Option, none, some, List, [], ◌∷◌, ◌++◌, ◌==◌,
  nat_eq, ltb, if◌then◌else◌, length,
}
use vortaris_ecs.Prelude.Map
use vortaris_ecs.Prelude.Map.{Map}
use vortaris_ecs.Column.{Row}
use vortaris_ecs.Entity.{Entity, ComponentTypeId}
use vortaris_ecs.Schema.{ComponentSchema}
use vortaris_ecs.Schema.Registry.{ComponentRegistry, schema_of}
use vortaris_ecs.Scheduler.{Clock}
use vortaris_ecs.Serialization.{
  BinaryBuffer, write_u8, write_u16, write_u32, write_u64, write_bytes, overwrite_u32,
}
use vortaris_ecs.Serialization.Component.{serialize_component_fields}
use vortaris_ecs.World.{World, is_alive}
use vortaris_ecs.World.Components.{has, get_raw}
use vortaris_ecs.Network.Mask.{write_field_mask}
use vortaris_ecs.Network.Packets.{sync_version}
use vortaris_ecs.Network.Packets.Spawns.{new_buffer, held_by}
use vortaris_ecs.Network.Plan.{is_networked, sync_plan_for}
use vortaris_ecs.Network.Replication.{SnapshotReplication}

-- What the loop over the buckets of a component has come to.
pub record Records (T : Type 0) : Type 0 where
  pub rec_buf : BinaryBuffer
  pub nrec : ℕ
  pub ticks : List T
  pub all_sent : Bool

-- What the loop over the components of an entity has come to: the set that is left is dirty still.
pub record Components (T : Type 0) : Type 0 where
  pub comp_buf : BinaryBuffer
  pub ncomp : ℕ
  pub left : List ComponentTypeId
  pub times : Map ComponentTypeId (List T)

pub record Entities (T : Type 0) : Type 0 where
  pub out : BinaryBuffer
  pub n : ℕ
  pub dirty : Map Entity (List ComponentTypeId)
  pub next_send_tick : Map Entity (Map ComponentTypeId (List T))

-- `operator[]` of the two maps of send times.
abbrev pub list_or_empty {ℓ} : {A : Type ℓ} → Option (List A) → List A
list_or_empty none = []
list_or_empty (some xs) = xs

-- The head of the times, 0.0 where they were resized, and the rest.
abbrev pub time_at {ℓ} : {A : Type ℓ} → A → List A → A
time_at z [] = z
time_at z (t ∷ ts) = t

abbrev pub times_after {ℓ} : {A : Type ℓ} → List A → List A
times_after [] = []
times_after (t ∷ ts) = ts

module _ {T : Type 0} (clock : Clock T) (hundredths : ℕ → T) (elapsed_time : T) where
  -- The bucket's index, its mask, and the fields that it lets through.
  abbrev pub write_record : ComponentSchema → List ℕ → ℕ → List Bool → BinaryBuffer → BinaryBuffer
  write_record s inst b mask buf =
      serialize_component_fields s inst mask (write_field_mask mask (write_u8 b buf))

  -- The loop over the buckets, from an index on, with the send times of these buckets.
  unfoldable pub send_buckets :
      ComponentSchema → List ℕ → ℕ → List ℕ → List (List Bool) → List T → BinaryBuffer → Records T
  send_buckets s inst b [] masks ticks buf = record {
    rec_buf = buf;
    nrec = 0;
    ticks = ticks;
    all_sent = true;
  }
  send_buckets s inst b (iv ∷ ivs) [] ticks buf = record {
    rec_buf = buf;
    nrec = 0;
    ticks = ticks;
    all_sent = true;
  }
  send_buckets s inst b (iv ∷ ivs) (mask ∷ masks) ticks buf =
      let due = not (clock.less elapsed_time (time_at clock.zero_time ticks)) in
      let rest =
        send_buckets s inst (suc b) ivs masks (times_after ticks)
          (if due then write_record s inst b mask buf else buf) in
      record rest {
        nrec = if due then suc rest.nrec else rest.nrec;
        ticks =
            (if due then clock.add elapsed_time (hundredths iv) else time_at clock.zero_time ticks)
            ∷ rest.ticks;
        all_sent = due && rest.all_sent;
      }

  module _ (reg : ComponentRegistry) (unwritten : List ℕ) (w : World) where
    -- A null pointer and a missing schema are not reached: the component is there and replicated.
    abbrev pub records_of :
        ComponentTypeId → Option ComponentSchema → Option Row → List T → Records T
    records_of t none row ticks = record {
      rec_buf = new_buffer;
      nrec = 0;
      ticks = ticks;
      all_sent = true;
    }
    records_of t (some s) none ticks = record {
      rec_buf = new_buffer;
      nrec = 0;
      ticks = ticks;
      all_sent = true;
    }
    records_of t (some s) (some row) ticks =
        let plan = sync_plan_for reg t in
        send_buckets s (held_by unwritten row) 0 plan.bucket_intervals plan.bucket_masks ticks
          new_buffer

    -- The component's records behind its id and their count, which is a byte.
    abbrev pub write_records : ComponentTypeId → Records T → BinaryBuffer → BinaryBuffer
    write_records t r buf = write_bytes r.rec_buf.bytes (write_u8 r.nrec (write_u32 t buf))

    -- `++ncomp` on a byte.
    abbrev pub count_sent : ℕ → ℕ → ℕ
    count_sent nrec ncomp = if nrec % 2 ^ 8 == 0 then ncomp else (ncomp + 1) % 2 ^ 8

    unfoldable pub send_component : Entity → ComponentTypeId → Components T → Components T
    unfolding send_buckets
    send_component e t c =
        if not (is_networked reg t) || not (has w e t)
        then c
        else (if not (sync_plan_for reg t).any_delta
            then c
            else (let r =
                  records_of t (schema_of reg t) (get_raw w e t)
                    (list_or_empty (Map.find t c.times)) in
                record {
                  comp_buf =
                      if r.nrec % 2 ^ 8 == 0 then c.comp_buf else write_records t r c.comp_buf;
                  ncomp = count_sent r.nrec c.ncomp;
                  left = if r.all_sent then c.left else c.left ++ t ∷ [];
                  times = Map.insert t r.ticks c.times;
                }))

    unfoldable pub send_components : Entity → List ComponentTypeId → Components T → Components T
    unfolding send_component
    send_components e [] c = c
    send_components e (t ∷ ts) c = send_components e ts (send_component e t c)

    -- `next_send_tick_[e]` comes into being when a component of the entity is looked at.
    abbrev pub keep_times :
        Entity
        → Map ComponentTypeId (List T)
        → Map Entity (Map ComponentTypeId (List T))
        → Map Entity (Map ComponentTypeId (List T))
    keep_times e [] next = next
    keep_times e (x ∷ xs) next = Map.insert e (x ∷ xs) next

    unfoldable pub send_entity : Entity → List ComponentTypeId → Entities T → Entities T
    unfolding send_components
    send_entity e ts r =
        if not (is_alive w e)
        then r
        else (let c = send_components e ts (record {
          comp_buf = new_buffer;
          ncomp = 0;
          left = [];
          times = list_or_empty (Map.find e r.next_send_tick);
        }) in
            record {
              out =
                  if c.ncomp == 0
                  then r.out
                  else write_bytes c.comp_buf.bytes (write_u8 c.ncomp (write_u64 e r.out));
              n = if c.ncomp == 0 then r.n else (r.n + 1) % 2 ^ 32;
              dirty = if length c.left == 0 then r.dirty else r.dirty ++ (e, c.left) ∷ [];
              next_send_tick = keep_times e c.times r.next_send_tick;
            })

    unfoldable pub send_entities : Map Entity (List ComponentTypeId) → Entities T → Entities T
    unfolding send_entity
    send_entities [] r = r
    send_entities ((e, ts) ∷ rest) r = send_entities rest (send_entity e ts r)

    -- The packet is empty where nothing is due.
    unfoldable pub build_delta : SnapshotReplication T → SnapshotReplication T × BinaryBuffer
    unfolding send_entities overwrite_u32
    build_delta s =
        let head = write_u16 sync_version new_buffer in
        let r = send_entities s.dirty (record {
          out = write_u32 0 head;
          n = 0;
          dirty = [];
          next_send_tick = s.next_send_tick;
        }) in
        (
          record s { dirty = r.dirty; next_send_tick = r.next_send_tick },
          if ltb 0 r.n then overwrite_u32 head.pos r.n r.out else new_buffer,
        )
