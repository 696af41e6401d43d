-- ===== src/Query.antt =====
-- core/query.h and core/query.cpp: the cache from queries to matching archetypes.
--
-- An archetype pointer is a number, and `deref` is the memory that it points into.
pub mod Cache
use vortaris_ecs.Prelude.{
  ℕ, ◌+◌, ◌*◌, ◌/◌, ◌%◌, ◌^◌, ◌≡◌, Bool, true, false, not, ◌&&◌, Option, none, some, List, [], ◌∷◌,
  ◌++◌, map, bit_and, bit_xor, ◌==◌, nat_eq, if◌then◌else◌, ids_beq, keep_if, u64,
}
use vortaris_ecs.Prelude.Map
use vortaris_ecs.Prelude.Map.{Map}
use vortaris_ecs.Entity.{ComponentTypeId}
use vortaris_ecs.Archetype.{Archetype, Query, matches}

abbrev pub Ptr : Type 0
Ptr = ℕ

abbrev fnv_offset : ℕ
fnv_offset = 14695981039346656037

abbrev fnv_prime : ℕ
fnv_prime = 1099511628211

-- `h ^= b; h *= prime` on 64 bits.
unfoldable pub mix_byte : ℕ → ℕ → ℕ
mix_byte h b = u64 (bit_xor h b * fnv_prime)

-- The four bytes of an id, lowest first.
unfoldable pub mix_id : ℕ → ComponentTypeId → ℕ
unfolding mix_byte
mix_id h v =
    mix_byte
      (mix_byte (mix_byte (mix_byte h (bit_and v 0xFF)) (bit_and (v / 2 ^ 8) 0xFF))
        (bit_and (v / 2 ^ 16) 0xFF))
      (bit_and (v / 2 ^ 24) 0xFF)

unfoldable pub mix_ids : ℕ → List ComponentTypeId → ℕ
unfolding mix_id
mix_ids h [] = h
mix_ids h (v ∷ vs) = mix_ids (mix_id h v) vs

-- `World::_compute_signature`.
unfoldable pub compute_signature : List ComponentTypeId → ℕ
unfolding mix_ids
compute_signature ids = mix_ids fnv_offset ids

unfoldable pub membership_signature : Query → ℕ
unfolding mix_ids mix_byte
membership_signature q =
    let h₁ = mix_ids (mix_byte fnv_offset 1) q.all in
    let h₂ = mix_ids (mix_byte h₁ 2) q.any in mix_ids (mix_byte h₂ 3) q.none

pub record QueryCache : Type 0 where
  pub cache : Map ℕ (List Ptr)
  pub cached_queries : Map ℕ Query

abbrev pub no_queries : QueryCache
no_queries = record { cache = []; cached_queries = [] }

-- The three comparisons of vectors.
unfoldable pub same_query : Query → Query → Bool
same_query p q = ids_beq p.all q.all && (ids_beq p.any q.any && ids_beq p.none q.none)

abbrev list_of : Option (List Ptr) → List Ptr
list_of none = []
list_of (some ps) = ps

-- `cache_[key].push_back(a)`, which makes a missing entry.
unfoldable pub push_entry : ℕ → Ptr → Map ℕ (List Ptr) → Map ℕ (List Ptr)
push_entry key a cache = Map.insert key (list_of (Map.find key cache) ++ a ∷ []) cache

-- The loop over the cached queries.
unfoldable pub register_loop : Archetype → Ptr → Map ℕ Query → Map ℕ (List Ptr) → Map ℕ (List Ptr)
unfolding push_entry
register_loop pointee a [] cache = cache
register_loop pointee a ((key, q) ∷ rest) cache =
    register_loop pointee a rest (if matches q pointee then push_entry key a cache else cache)

unfoldable pub register_new_archetype : (Ptr → Archetype) → Ptr → QueryCache → QueryCache
unfolding register_loop
register_new_archetype deref a c = record c {
  cache = register_loop (deref a) a c.cached_queries c.cache;
}

-- `std::remove` over the vector of every entry.
unfoldable pub erase_ptr : Ptr → Map ℕ (List Ptr) → Map ℕ (List Ptr)
unfolding keep_if
erase_ptr a [] = []
erase_ptr a ((key, ps) ∷ rest) = (key, keep_if (λ p. not (p == a)) ps) ∷ erase_ptr a rest

unfoldable pub erase_archetype : Ptr → QueryCache → QueryCache
unfolding erase_ptr
erase_archetype a c = record c { cache = erase_ptr a c.cache }

unfoldable pub invalidate : QueryCache → QueryCache
invalidate c = no_queries

-- The entry, if the cached query under this key is exactly this one.
unfoldable pub cached : Query → QueryCache → Option (List Ptr)
unfolding membership_signature same_query
cached q c =
    let key = membership_signature q in
    elim (Map.find key c.cache) [
      | none ↦ none
      | some ps ↦ elim (Map.find key c.cached_queries) [
        | none ↦ none
        | some p ↦ if same_query p q then some ps else none
      ]
    ]

unfoldable pub match : (Ptr → Archetype) → Query → List Ptr → QueryCache → QueryCache × List Ptr
unfolding keep_if
match deref q archetypes c =
    let key = membership_signature q in
    elim (cached q c) [
      | some ps ↦ (c, ps)
      | none ↦
          let result = keep_if (λ p. matches q (deref p)) archetypes in
          (
            record {
              cache = Map.insert key result c.cache;
              cached_queries = Map.insert key q c.cached_queries;
            },
            result,
          )
    ]
