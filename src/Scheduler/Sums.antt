-- ===== src/Scheduler/Sums.antt =====
-- Occurrences in a list, and sums over the indices below a bound.
use vortaris_ecs.Prelude.{
  ℕ, zero, suc, ◌+◌, ◌<◌, ◌≡◌, ◌≢◌, refl, List, [], ◌∷◌, ◌++◌, ◌==◌, nat_eq, if◌then◌else◌, arith,
  Bool-cases, inl, inr,
}

abbrev pub occurrences : ℕ → List ℕ → ℕ
occurrences j [] = 0
occurrences j (x ∷ xs) = (if x == j then 1 else 0) + occurrences j xs

pub occurrences-append :
    (j : ℕ) (xs ys : List ℕ) → occurrences j (xs ++ ys) ≡ occurrences j xs + occurrences j ys
occurrences-append j [] ys = omega arith
occurrences-append j (x ∷ xs) ys = omega (arith, occurrences-append j xs ys)

-- The sum of the values at the indices below a bound.
abbrev pub total : ℕ → (ℕ → ℕ) → ℕ
total zero f = 0
total (suc n) f = f n + total n f

pub total-same : (n : ℕ) (f g : ℕ → ℕ) → ((k : ℕ) → k < n → f k ≡ g k) → total n f ≡ total n g
total-same zero f g h = refl
total-same (suc n) f g h =
    omega (arith, h n (omega arith), total-same n f g (λ k l. h k (omega (arith, l))))

-- Where two summands differ at one index, the sums differ by as much.
pub total-change :
    (n i d : ℕ) (f g : ℕ → ℕ)
    → i < n
    → g i ≡ f i + d
    → ((k : ℕ) → k ≢ i → g k ≡ f k)
    → total n g ≡ total n f + d
total-change zero i d f g h e o = absurd (omega (arith, h))
total-change (suc n) i d f g h e o = elim (Bool-cases (i == n)) [
  | inl last ↦
      let same : i ≡ n = ground (arith, last) in
      let here : g n ≡ f n + d = rw same at e in
      omega (arith, here, total-same n g f (λ k l. o k (λ q. absurd (omega (arith, l, q, same)))))
  | inr other ↦
      let below : i < n = ground (arith, other, h) in
      let top : g n ≡ f n = o n (λ q. ground (arith, other, q)) in
      omega (arith, top, total-change n i d f g below e o)
]

-- A sum of 0 has summands 0.
pub total_zero : (n k : ℕ) (f : ℕ → ℕ) → total n f ≡ 0 → k < n → f k ≡ 0
total_zero zero k f e h = absurd (omega (arith, h))
total_zero (suc n) k f e h = elim (Bool-cases (k == n)) [
  | inl last ↦ let same : k ≡ n = ground (arith, last) in rw same (omega (arith, e))
  | inr other ↦ total_zero n k f (omega (arith, e)) (ground (arith, other, h))
]

pub total_ones : (n : ℕ) → total n (λ k. 1) ≡ n
total_ones zero = refl
total_ones (suc n) = omega (arith, total_ones n)
