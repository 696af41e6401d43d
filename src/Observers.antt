-- ===== src/Observers.antt =====
-- core/observer_dispatch.h and core/observer_dispatch.cpp: observers, and the events that reach them.
--
-- A callback's function is known by a number, and is `none` where the std::function is empty. The shared
-- snapshot of the code is the list: a dispatch walks the list that it started with. The payload is Godot's.
pub mod Delivery
use Prim.Native.String.{String}
use vortaris_ecs.Prelude.{
  ℕ, ◌+◌, ◌/◌, ◌%◌, ◌^◌, Bool, true, false, not, ◌&&◌, ◌||◌, Option, none, some, List, [], ◌∷◌,
  ◌++◌, ◌==◌, nat_eq, string_eq, if◌then◌else◌, length, keep_if,
}
use vortaris_ecs.Entity.{Entity, ComponentTypeId}
use vortaris_ecs.World.{ObserverEventType, among}

pub record ObserverCallback : Type 0 where
  pub id : ℕ
  pub fn : Option ℕ
  pub event_mask : ℕ
  pub component_filter : List ComponentTypeId
  pub watch_all : Bool
  pub custom_name : String

pub record ObserverDispatch : Type 0 where
  pub callbacks : List ObserverCallback
  pub next_id : ℕ

unfoldable pub event_bit : ObserverEventType → ℕ
event_bit ObserverEventType.added = 1
event_bit ObserverEventType.removed = 2
event_bit ObserverEventType.changed = 4
event_bit ObserverEventType.matched = 8
event_bit ObserverEventType.unmatched = 16
event_bit ObserverEventType.custom = 32

unfoldable pub add : ObserverCallback → ObserverDispatch → ObserverDispatch × ℕ
add p_cb d = (
  record {
    callbacks = d.callbacks ++ record p_cb { id = d.next_id } ∷ [];
    next_id = d.next_id + 1;
  },
  d.next_id,
)

abbrev pub clear : ObserverDispatch
clear = record { callbacks = []; next_id = 1 }

unfoldable pub remove : ℕ → ObserverDispatch → ObserverDispatch
remove p_id d = record d { callbacks = keep_if (λ cb. not (cb.id == p_id)) d.callbacks }

-- The test on the name of a custom event, and on the component of any other.
unfoldable pub passes : ObserverEventType → ComponentTypeId → String → ObserverCallback → Bool
passes ObserverEventType.custom p_comp p_event_name cb =
    cb.custom_name == "" || cb.custom_name == p_event_name
passes type p_comp p_event_name cb =
    cb.watch_all
    || length cb.component_filter == 0
    || not (p_comp == 0) && among p_comp cb.component_filter

-- The two `continue`s of the loop. `event_mask & bit` is not 0 where the bit of the mask is set.
unfoldable pub wants : ObserverEventType → ComponentTypeId → String → ObserverCallback → Bool
unfolding event_bit passes
wants type p_comp p_event_name cb =
    not (cb.event_mask / event_bit type % 2 == 0) && passes type p_comp p_event_name cb

-- The loop, with the functions that it calls, in order.
unfoldable pub deliver :
    ObserverEventType → ComponentTypeId → String → List ObserverCallback → List ℕ
unfolding wants
deliver type p_comp p_event_name [] = []
deliver type p_comp p_event_name (cb ∷ cbs) =
    let rest = deliver type p_comp p_event_name cbs in
    if wants type p_comp p_event_name cb
    then (elim cb.fn [ none ↦ rest | some fn ↦ fn ∷ rest ])
    else rest

-- The functions called, and how many they are.
unfoldable pub dispatch :
    ObserverEventType → Entity → ComponentTypeId → String → ObserverDispatch → List ℕ × ℕ
unfolding deliver
dispatch type p_e p_comp p_event_name d =
    let calls = deliver type p_comp p_event_name d.callbacks in (calls, length calls)
