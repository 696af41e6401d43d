-- ===== src/Query/Cache.antt =====
-- core/query.cpp: the cache answers every query as a scan of all archetypes would.
use vortaris_ecs.Prelude.{
  ℕ, ◌≡◌, refl, ◌∙◌, ap, inl, inr, true, not, none, some, List, [], ◌∷◌, ◌++◌, ◌==◌, nat_eq,
  if◌then◌else◌, ids_beq_iff, keep_if, arith, Option-cases, keep_if-append, append-nil,
  keep_if_comm,
}
use vortaris_ecs.Prelude.Map.{Map, find, find-insert, Distinct, insert-Distinct}
use vortaris_ecs.Archetype.{Archetype, Query, matches}
use vortaris_ecs.Query.{
  Ptr, QueryCache, membership_signature, same_query, list_of, push_entry, register_loop,
  register_new_archetype, erase_ptr, erase_archetype, cached, match,
}

-- The archetypes that a query selects, in the order of the list.
abbrev pub selected : (Ptr → Archetype) → List Ptr → Query → List Ptr
selected deref ps q = keep_if (λ p. matches q (deref p)) ps

-- Every cached query has its entry, and that is the query's selection from the list.
pub record Consistent (deref : Ptr → Archetype) (ps : List Ptr) (c : QueryCache) : Type 0 where
  pub keys : Distinct c.cached_queries
  pub entries :
      (key : ℕ) (q : Query)
      → find key c.cached_queries ≡ some q
      → find key c.cache ≡ some (selected deref ps q)

same_query→eq : (p q : Query) → same_query p q ≡ true → p ≡ q
unfolding same_query
same_query→eq p q h =
    ground (arith, ids_beq_iff p.all q.all, ids_beq_iff p.any q.any, ids_beq_iff p.none q.none)

module _ (deref : Ptr → Archetype) (ps : List Ptr) (c : QueryCache)
    (ok : Consistent deref ps c) where
  cached-selected : (q : Query) (r : List Ptr) → cached q c ≡ some r → r ≡ selected deref ps q
  unfolding cached
  cached-selected q r h =
      let key = membership_signature q in
      elim (Option-cases (find key c.cached_queries)) [
        | inl absent ↦ ground (arith, absent)
        | inr (p, found) ↦ ground (arith, found, ok.entries key p found, same_query→eq p q)
      ]

  -- `match` returns the selection of the query, whether it was cached or a collision of signatures hid it,
  -- and keeps the cache consistent.
  pub match-selected :
      (q : Query)
      → ((match deref q ps c).1 ≡ selected deref ps q) × Consistent deref ps (match deref q ps c).0
  unfolding match
  match-selected q = elim (Option-cases (cached q c)) [
    | inr (r, hit) ↦ rw (hit, match) (cached-selected q r hit, ok)
    | inl miss ↦
        rw (miss, match)
          (
            refl,
            record {
              keys = insert-Distinct (membership_signature q) q c.cached_queries ok.keys;
              entries = λ key p h. ground (
                arith,
                find-insert (membership_signature q) key q c.cached_queries,
                find-insert (membership_signature q) key (selected deref ps q) c.cache,
                ok.entries key p,
              );
            },
          )
  ]

-- What the loop makes of an entry.
register_loop-find :
    (pointee : Archetype) (a : Ptr) (key : ℕ) (qs : Map ℕ Query) (cache : Map ℕ (List Ptr))
    → Distinct qs
    → find key (register_loop pointee a qs cache) ≡ elim (find key qs) [
      | none ↦ find key cache
      | some q ↦
          if matches q pointee then some (list_of (find key cache) ++ a ∷ []) else find key cache
    ]
unfolding register_loop push_entry find
register_loop-find pointee a key [] cache d = refl
register_loop-find pointee a key ((k, q) ∷ qs) cache d =
    rw
      (register_loop-find pointee a key qs
        (if matches q pointee then push_entry k a cache else cache) d.1)
      (ground (arith, d.0, find-insert k key (list_of (find k cache) ++ a ∷ []) cache))

-- A new archetype at the end of the list keeps the cache consistent.
pub register_new_archetype-Consistent :
    (deref : Ptr → Archetype) (ps : List Ptr) (a : Ptr) (c : QueryCache)
    → Consistent deref ps c
    → Consistent deref (ps ++ a ∷ []) (register_new_archetype deref a c)
unfolding register_new_archetype keep_if
register_new_archetype-Consistent deref ps a c ok = record {
  keys = ok.keys;
  entries = λ key q h.
      rw
        (
          register_loop-find (deref a) a key c.cached_queries c.cache ok.keys,
          h,
          ok.entries key q h,
          keep_if-append (λ p. matches q (deref p)) ps (a ∷ []),
        )
        (ground (arith, append-nil (selected deref ps q)));
}

erase_ptr-find :
    (a : Ptr) (key : ℕ) (ps : List Ptr) (cache : Map ℕ (List Ptr))
    → find key cache ≡ some ps
    → find key (erase_ptr a cache) ≡ some (keep_if (λ p. not (p == a)) ps)
unfolding erase_ptr find
erase_ptr-find a key ps [] h = cc
erase_ptr-find a key ps ((k, qs) ∷ cache) h = ground (arith, erase_ptr-find a key ps cache)

-- An archetype that is taken out of the list and out of the cache leaves it consistent.
pub erase_archetype-Consistent :
    (deref : Ptr → Archetype) (ps : List Ptr) (a : Ptr) (c : QueryCache)
    → Consistent deref ps c
    → Consistent deref (keep_if (λ p. not (p == a)) ps) (erase_archetype a c)
unfolding erase_archetype
erase_archetype-Consistent deref ps a c ok = record {
  keys = ok.keys;
  entries = λ key q h.
      erase_ptr-find a key (selected deref ps q) c.cache (ok.entries key q h)
      ∙ ap some (keep_if_comm (λ p. not (p == a)) (λ p. matches q (deref p)) ps);
}
