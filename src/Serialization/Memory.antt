-- ===== src/Serialization/Memory.antt =====
-- The bytes of a component in memory: `memcpy` out of it and into it.
use vortaris_ecs.Prelude.{
  ℕ, zero, suc, ◌+◌, ◌≤◌, ◌≡◌, refl, ap, List, [], ◌∷◌, length, drop, take, arith,
}

-- The `n` bytes at an offset.
abbrev pub slice : ℕ → ℕ → List ℕ → List ℕ
slice offset n inst = take n (drop offset inst)

-- The bytes written over the first ones.
abbrev pub overlay : List ℕ → List ℕ → List ℕ
overlay [] inst = inst
overlay (b ∷ bs) [] = []
overlay (b ∷ bs) (x ∷ inst) = b ∷ overlay bs inst

-- The bytes written over those at an offset.
abbrev pub patch : ℕ → List ℕ → List ℕ → List ℕ
patch zero bs inst = overlay bs inst
patch (suc n) bs [] = []
patch (suc n) bs (x ∷ inst) = x ∷ patch n bs inst

length-overlay : (bs inst : List ℕ) → length (overlay bs inst) ≡ length inst
length-overlay [] inst = refl
length-overlay (b ∷ bs) [] = refl
length-overlay (b ∷ bs) (x ∷ inst) = ap suc (length-overlay bs inst)

pub length-patch : (n : ℕ) (bs inst : List ℕ) → length (patch n bs inst) ≡ length inst
length-patch zero bs inst = length-overlay bs inst
length-patch (suc n) bs [] = refl
length-patch (suc n) bs (x ∷ inst) = ap suc (length-patch n bs inst)

length-take : (n : ℕ) (xs : List ℕ) → n ≤ length xs → length (take n xs) ≡ n
length-take zero xs h = refl
length-take (suc n) [] h = absurd (omega (arith, h))
length-take (suc n) (x ∷ xs) h = ap suc (length-take n xs (omega (arith, h)))

pub length-slice :
    (offset n : ℕ) (inst : List ℕ) → offset + n ≤ length inst → length (slice offset n inst) ≡ n
length-slice zero n inst h = length-take n inst (omega (arith, h))
length-slice (suc offset) n [] h = absurd (omega (arith, h))
length-slice (suc offset) n (x ∷ inst) h = length-slice offset n inst (omega (arith, h))

take-overlay :
    (bs inst : List ℕ) → length bs ≤ length inst → take (length bs) (overlay bs inst) ≡ bs
take-overlay [] inst h = refl
take-overlay (b ∷ bs) [] h = absurd (omega (arith, h))
take-overlay (b ∷ bs) (x ∷ inst) h = ap (◌∷◌ b) (take-overlay bs inst (omega (arith, h)))

-- What was written is read.
pub slice-patch :
    (offset : ℕ) (bs inst : List ℕ)
    → offset + length bs ≤ length inst
    → slice offset (length bs) (patch offset bs inst) ≡ bs
slice-patch zero bs inst h = take-overlay bs inst (omega (arith, h))
slice-patch (suc offset) bs [] h = absurd (omega (arith, h))
slice-patch (suc offset) bs (x ∷ inst) h = slice-patch offset bs inst (omega (arith, h))

take-patch : (n m : ℕ) (bs inst : List ℕ) → n ≤ m → take n (patch m bs inst) ≡ take n inst
take-patch zero m bs inst h = refl
take-patch (suc n) zero bs inst h = absurd (omega (arith, h))
take-patch (suc n) (suc m) bs [] h = refl
take-patch (suc n) (suc m) bs (x ∷ inst) h = ap (◌∷◌ x) (take-patch n m bs inst (omega (arith, h)))

-- What lies before a write stays.
pub slice-patch_before :
    (offset n m : ℕ) (bs inst : List ℕ)
    → offset + n ≤ m
    → slice offset n (patch m bs inst) ≡ slice offset n inst
slice-patch_before zero n m bs inst h = take-patch n m bs inst (omega (arith, h))
slice-patch_before (suc offset) n zero bs inst h = absurd (omega (arith, h))
slice-patch_before (suc offset) n (suc m) bs [] h = refl
slice-patch_before (suc offset) n (suc m) bs (x ∷ inst) h =
    slice-patch_before offset n m bs inst (omega (arith, h))

overlay-take : (n : ℕ) (inst : List ℕ) → overlay (take n inst) inst ≡ inst
overlay-take zero inst = refl
overlay-take (suc n) [] = refl
overlay-take (suc n) (x ∷ inst) = ap (◌∷◌ x) (overlay-take n inst)

-- Writing what is there changes nothing.
pub patch-slice : (offset n : ℕ) (inst : List ℕ) → patch offset (slice offset n inst) inst ≡ inst
patch-slice zero n inst = overlay-take n inst
patch-slice (suc offset) n [] = refl
patch-slice (suc offset) n (x ∷ inst) = ap (◌∷◌ x) (patch-slice offset n inst)
