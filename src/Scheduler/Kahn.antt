-- ===== src/Scheduler/Kahn.antt =====
-- gdscript/vecs_scheduler.cpp: the invariant of the loop that orders the systems.
use vortaris_ecs.Prelude.{
  ℕ, zero, suc, ◌+◌, ◌-◌, ◌≤◌, ◌<◌, ◌≡◌, ◌⊎◌, refl, ap, ◌∙◌, List, [], ◌∷◌, ◌++◌, ◌==◌, nat_eq,
  if◌then◌else◌, arith, length, inl, inr, get_or, set, get_or-set, length-set, length-append,
}
use vortaris_ecs.Scheduler.Graph.{Walk, release_one, release, kahn, pop_front}
use vortaris_ecs.Scheduler.Sums.{occurrences, occurrences-append, total, total-change, total_zero}

abbrev pub positive : ℕ → ℕ
positive d = if d == 0 then 0 else 1

-- The edges of a system that is not ordered yet.
abbrev pub waiting : List (List ℕ) → List ℕ → ℕ → ℕ → ℕ
waiting out order j a = if occurrences a order == 0 then occurrences j (get_or out a []) else 0

module _ (out : List (List ℕ)) (n : ℕ) where
  -- Between two rounds and inside one, where the targets `pending` are still to be released.
  pub record Inv (k : Walk) (pending : List ℕ) : Type 0 where
    pub size : length k.indegree ≡ n
    pub once :
        (j : ℕ)
        → j < n
        → occurrences j k.order + occurrences j k.queue + positive (get_or k.indegree j 0) ≡ 1
    pub inside : (j : ℕ) → n ≤ j → occurrences j k.order + occurrences j k.queue ≡ 0
    pub degree :
        (j : ℕ)
        → j < n
        → get_or k.indegree j 0 ≡ occurrences j pending + total n (waiting out k.order j)
    pub shared :
        length k.order + length k.queue + total n (λ j. positive (get_or k.indegree j 0)) ≡ n

  release_one-Inv :
      (j : ℕ) (js : List ℕ) (k : Walk) → j < n → Inv k (j ∷ js) → Inv (release_one j k) js
  unfolding release_one
  release_one-Inv j js k h v =
      let d = get_or k.indegree j 0 in
      let deg = v.degree j h in
      let at_set = λ (q : ℕ). get_or-set k.indegree j q (d - 1) 0 (omega (arith, h, v.size)) in
      let c : ℕ = if d == 1 then 1 else 0 in
      let fewer =
        total-change n j c (λ q. positive (get_or (set k.indegree j (d - 1)) q 0))
          (λ q. positive (get_or k.indegree q 0)) h (ground (arith, at_set j, deg))
          (λ q o. ground (arith, at_set q, o)) in
      record {
        size = length-set k.indegree j (d - 1) ∙ v.size;
        once = λ q l.
            ground
              (arith, v.once q l, v.once j h, at_set q, deg, occurrences-append q k.queue (j ∷ []));
        inside = λ q l. ground (arith, v.inside q l, h, occurrences-append q k.queue (j ∷ []));
        degree = λ q l. ground (arith, v.degree q l, deg, at_set q);
        shared = ground (arith, fewer, v.shared, length-append k.queue (j ∷ []));
      }

  -- Every edge leads to a system.
  abbrev pub Bounded : List ℕ → Type 0
  Bounded js = (j : ℕ) → 0 < occurrences j js → j < n

  release-Inv : (js : List ℕ) (k : Walk) → Bounded js → Inv k js → Inv (release js k) []
  unfolding release
  release-Inv [] k b v = v
  release-Inv (j ∷ js) k b v =
      release-Inv js (release_one j k) (λ q o. b q (omega (arith, o)))
        (release_one-Inv j js k (b j (ground arith)) v)

  -- The front of the queue has no edge to it from a system that is not ordered yet.
  popped-Inv :
      (i : ℕ) (rest : List ℕ) (k : Walk)
      → k.queue ≡ i ∷ rest
      → Inv k []
      → Inv (record k { queue = rest; order = k.order ++ i ∷ [] }) (get_or out i [])
  popped-Inv i rest k e v =
      let qs = λ (q : ℕ). ap (occurrences q) e in
      let h : i < n = ground (arith, v.inside i, qs i) in
      let first : occurrences i k.order ≡ 0 = ground (arith, v.once i h, qs i) in
      let more = λ (q : ℕ). occurrences-append q k.order (i ∷ []) in
      let gone = λ (q : ℕ).
        total-change n i (occurrences q (get_or out i [])) (waiting out (k.order ++ i ∷ []) q)
          (waiting out k.order q) h (ground (arith, first, more i))
          (λ a o. ground (arith, more a, o)) in
      record {
        size = v.size;
        once = λ q l. ground (arith, v.once q l, qs q, more q);
        inside = λ q l. ground (arith, v.inside q l, qs q, more q);
        degree = λ q l. omega (arith, v.degree q l, gone q);
        shared = omega (arith, v.shared, ap length e, length-append k.order (i ∷ []));
      }

  pop_front-Inv :
      (i : ℕ) (rest : List ℕ) (k : Walk)
      → ((a : ℕ) → Bounded (get_or out a []))
      → k.queue ≡ i ∷ rest
      → Inv k []
      → Inv (pop_front out k (i ∷ rest)) []
  pop_front-Inv i rest k b e v = release-Inv (get_or out i []) _ (b i) (popped-Inv i rest k e v)

release-order : (js : List ℕ) (k : Walk) → (release js k).order ≡ k.order
unfolding release release_one
release-order [] k = refl
release-order (j ∷ js) k = release-order js (release_one j k)

queue-cases : (xs : List ℕ) → (xs ≡ []) ⊎ ((x : ℕ) × ((rest : List ℕ) × (xs ≡ x ∷ rest)))
queue-cases [] = inl refl
queue-cases (x ∷ rest) = inr (x, (rest, refl))

empty_of : (xs : List ℕ) → length xs ≡ 0 → xs ≡ []
empty_of [] h = refl
empty_of (x ∷ xs) h = absurd (omega (arith, h))

-- An empty queue stays empty.
kahn_idle : (out : List (List ℕ)) (fuel : ℕ) (k : Walk) → k.queue ≡ [] → kahn out fuel k ≡ k
unfolding kahn
kahn_idle out zero k e = refl
kahn_idle out (suc fuel) k e =
    ap (λ q. kahn out fuel (pop_front out k q)) e ∙ kahn_idle out fuel k e

-- Systems whose edges come from earlier ones alone.
abbrev pub Respected : List (List ℕ) → ℕ → List ℕ → List ℕ → Type 0
Respected out n seen [] = Unit {0}
Respected out n seen (i ∷ order) =
    ((a : ℕ) → a < n → 0 < occurrences i (get_or out a []) → 0 < occurrences a seen)
    × Respected out n (i ∷ seen) order

append-Respected :
    (out : List (List ℕ)) (n i : ℕ) (seen xs : List ℕ)
    → ((a : ℕ)
        → a < n
        → 0 < occurrences i (get_or out a [])
        → 0 < occurrences a seen + occurrences a xs)
    → Respected out n seen xs
    → Respected out n seen (xs ++ i ∷ [])
append-Respected out n i seen [] h r = (λ a l o. omega (arith, h a l o), tt)
append-Respected out n i seen (x ∷ xs) h r =
    (r.0, append-Respected out n i (x ∷ seen) xs (λ a l o. omega (arith, h a l o)) r.1)

module _ (out : List (List ℕ)) (n : ℕ) (b : (a : ℕ) → Bounded out n (get_or out a [])) where
  popped-Respected :
      (i : ℕ) (rest : List ℕ) (k : Walk)
      → k.queue ≡ i ∷ rest
      → Inv out n k []
      → Respected out n [] k.order
      → Respected out n [] (k.order ++ i ∷ [])
  popped-Respected i rest k e v r =
      let h : i < n = ground (arith, v.inside i, ap (occurrences i) e) in
      let free : total n (waiting out k.order i) ≡ 0 =
        ground (arith, v.once i h, v.degree i h, ap (occurrences i) e) in
      append-Respected out n i [] k.order
        (λ a l o. ground (arith, o, total_zero n a (waiting out k.order i) free l)) r

  -- With a round for each system that is not ordered yet the queue runs empty.
  pub kahn-Inv :
      (fuel : ℕ) (k : Walk)
      → n ≤ fuel + length k.order
      → Inv out n k []
      → Respected out n [] k.order
      → Inv out n (kahn out fuel k) []
        × (((kahn out fuel k).queue ≡ []) × Respected out n [] (kahn out fuel k).order)
  unfolding kahn
  kahn-Inv zero k h v r = (v, (empty_of k.queue (omega (arith, h, v.shared)), r))
  kahn-Inv (suc fuel) k h v r = elim (queue-cases k.queue) [
    | inl empty ↦ rw (kahn_idle out (suc fuel) k empty) (v, (empty, r))
    | inr (i, (rest, e)) ↦
        let o =
          release-order (get_or out i []) (record k { queue = rest; order = k.order ++ i ∷ [] }) in
        let step : kahn out (suc fuel) k ≡ kahn out fuel (pop_front out k (i ∷ rest)) =
          ap (λ q. kahn out fuel (pop_front out k q)) e in
        rw step (
          kahn-Inv fuel (pop_front out k (i ∷ rest))
            (omega (arith, h, ap length o, length-append k.order (i ∷ [])))
            (pop_front-Inv out n i rest k b e v) (rw o (popped-Respected i rest k e v r)))
  ]
