-- ===== src/Prelude/Arith.antt =====
-- Arithmetic that the components share: rounding up to a multiple, words.
use Prim.Native.Nat.{ℕ, ◌+◌, ◌-◌, ◌*◌, ◌/◌, ◌%◌, ◌^◌, ◌≤◌, ◌<◌}
use mathlib.Core.Path.{◌≡◌}
use native.Mathlib.Omega.{arith}
use native.Mathlib.Nat.{mod-lt, div-add-mod', mul-mod_left}

abbrev pub u8 : ℕ → ℕ
u8 n = n % 2 ^ 8

abbrev pub u16 : ℕ → ℕ
u16 n = n % 2 ^ 16

abbrev pub u32 : ℕ → ℕ
u32 n = n % 2 ^ 32

abbrev pub u64 : ℕ → ℕ
u64 n = n % 2 ^ 64

abbrev pub round_up : ℕ → ℕ → ℕ
round_up v a = (v + a - 1) / a * a

pub le-round_up : (v a : ℕ) → 0 < a → v ≤ round_up v a
le-round_up v a h = omega (arith, div-add-mod' (v + a - 1) a, mod-lt (v + a - 1) h)

pub round_up-lt : (v a : ℕ) → 0 < a → round_up v a < v + a
round_up-lt v a h = omega (arith, div-add-mod' (v + a - 1) a)

pub round_up-mod : (v a : ℕ) → 0 < a → round_up v a % a ≡ 0
round_up-mod v a h = mul-mod_left _ a
