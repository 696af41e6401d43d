-- ===== src/Prelude/Tests.antt =====
-- Boolean tests on the native numbers, equality as an interface, and the conditional.
use Prim.Native.Nat.{ℕ, ◌≤◌, ◌<◌, compare, Ordering}
use Prim.Native.String.{String}
use mathlib.Core.Path.{◌≡◌, refl}
use mathlib.Core.Logic.{◌↔◌, ◌⊎◌, inl, inr}
use mathlib.Core.Bool.{Bool, true, false, ◌&&◌}
use mathlib.Core.List.{List, [], ◌∷◌}
use mathlib.Core.Option.{Option, none, some}
use native.Mathlib.Omega.{arith}
use text.Mathlib.Text.{◌==◌ as str_beq}
use text.Mathlib.TextEquality.{eq_iff}

abbrev pub ltb : ℕ → ℕ → Bool
ltb a b = elim (compare a b) [ Ordering.lt ↦ true | _ ↦ false ]

abbrev pub leb : ℕ → ℕ → Bool
leb a b = elim (compare a b) [ Ordering.gt ↦ false | _ ↦ true ]

abbrev pub nat_beq : ℕ → ℕ → Bool
nat_beq a b = elim (compare a b) [ Ordering.eq ↦ true | _ ↦ false ]

infix 1 if◌then◌else◌
abbrev pub if◌then◌else◌ {ℓ} : {A : Type ℓ} → Bool → A → A → A
if true then x else y = x
if false then x else y = y

pub ltb→lt : (a b : ℕ) → ltb a b ≡ true → a < b
ltb→lt a b h = ground arith

pub leb→le : (a b : ℕ) → leb a b ≡ true → a ≤ b
leb→le a b h = ground arith

pub nat_beq_iff : (a b : ℕ) → (nat_beq a b ≡ true) ↔ (a ≡ b)
nat_beq_iff a b = (λ h. ground arith, λ h. ground arith)

-- To split on a computed value and keep the equation.
pub Bool-cases : (b : Bool) → (b ≡ true) ⊎ (b ≡ false)
Bool-cases true = inl refl
Bool-cases false = inr refl

pub Option-cases {ℓ} : {A : Type ℓ} (o : Option A) → (o ≡ none) ⊎ ((a : A) × (o ≡ some a))
Option-cases none = inl refl
Option-cases (some a) = inr (a, refl)

-- Keys of maps.
pub record Eq {ℓ} (A : Type ℓ) : Type ℓ where
  pub beq : A → A → Bool
  pub beq_iff : (x y : A) → (beq x y ≡ true) ↔ (x ≡ y)

-- `==` of two vectors of numbers.
unfoldable pub ids_beq : List ℕ → List ℕ → Bool
ids_beq [] [] = true
ids_beq [] (y ∷ ys) = false
ids_beq (x ∷ xs) [] = false
ids_beq (x ∷ xs) (y ∷ ys) = nat_beq x y && ids_beq xs ys

ids_beq→eq : (xs ys : List ℕ) → ids_beq xs ys ≡ true → xs ≡ ys
unfolding ids_beq
ids_beq→eq [] [] h = refl
ids_beq→eq [] (y ∷ ys) h = cc
ids_beq→eq (x ∷ xs) [] h = cc
ids_beq→eq (x ∷ xs) (y ∷ ys) h = ground (arith, ids_beq→eq xs ys)

ids_beq_refl : (xs : List ℕ) → ids_beq xs xs ≡ true
unfolding ids_beq
ids_beq_refl [] = refl
ids_beq_refl (x ∷ xs) = ground (arith, ids_beq_refl xs)

pub ids_beq_iff : (xs ys : List ℕ) → (ids_beq xs ys ≡ true) ↔ (xs ≡ ys)
ids_beq_iff xs ys = (ids_beq→eq xs ys, λ e. rw e (ids_beq_refl ys))

instance abbrev pub ids_eq : Eq (List ℕ)
ids_eq = record { beq = ids_beq; beq_iff = ids_beq_iff }

-- Names are compared as texts.
instance abbrev pub string_eq : Eq String
string_eq = record { beq_iff = eq_iff; beq = str_beq }

-- The test of the code, by the type of its sides.
infix 50 ◌==◌
abbrev pub ◌==◌ {ℓ} : {A : Type ℓ} ⦃e : Eq A⦄ → A → A → Bool
◌==◌ ⦃e⦄ = e.beq

-- Entities, ids and pointers are numbers.
instance abbrev pub nat_eq : Eq ℕ
nat_eq = record { beq_iff = nat_beq_iff; beq = nat_beq }
