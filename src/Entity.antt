-- ===== src/Entity.antt =====
-- core/entity.h, core/component_type.h: a handle is its 64-bit id, slot index + 1 in the low half and
-- generation in the high half. Id 0 is "no entity".
use vortaris_ecs.Prelude.{ℕ, ◌+◌, ◌-◌, ◌*◌, ◌/◌, ◌^◌, ◌<◌, ◌≡◌, Bool, not, ◌==◌, nat_eq, u32, arith}

abbrev pub Entity : Type 0
Entity = ℕ

abbrev pub ComponentTypeId : Type 0
ComponentTypeId = ℕ

abbrev pub null : Entity
null = 0

abbrev pub invalid_component_type : ComponentTypeId
invalid_component_type = 0

-- `static_cast<uint32_t>(id & 0xFFFFFFFFu) - 1`, which wraps at the sentinel.
unfoldable pub slot : Entity → ℕ
slot e = u32 (u32 e + 2 ^ 32 - 1)

unfoldable pub generation : Entity → ℕ
generation e = u32 (e / 2 ^ 32)

-- `explicit operator bool`.
abbrev pub is_set : Entity → Bool
is_set e = not (e == 0)

-- The id that `_alloc_entity_id` builds; the two parts do not overlap, so `|` is a sum.
unfoldable pub handle : ℕ → ℕ → Entity
handle idx gen = idx + 1 + gen * 2 ^ 32

-- The slot and the generation of a handle are those that it was built from, for every index below the
-- sentinel and every 32-bit generation, and the handle is a 64-bit value other than 0.
pub handle_fields :
    (idx gen : ℕ)
    → idx < 2 ^ 32 - 1
    → gen < 2 ^ 32
    → (slot (handle idx gen) ≡ idx)
      × (generation (handle idx gen) ≡ gen)
      × (0 < handle idx gen)
      × (handle idx gen < 2 ^ 64)
unfolding slot generation handle
handle_fields idx gen h k = omega arith

-- Conversely a 64-bit id with a slot is rebuilt from its two parts.
pub handle_of_fields :
    (e : Entity) → e < 2 ^ 64 → slot e < 2 ^ 32 - 1 → handle (slot e) (generation e) ≡ e
unfolding slot generation handle
handle_of_fields e h k = omega arith
