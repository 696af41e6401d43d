-- ===== src/Column/Versions.antt =====
-- core/column.h: change tracking, and what a removal does to the highest version.
use vortaris_ecs.Prelude.{
  ℕ, ◌≤◌, [], ◌∷◌, length, get_or-set, get_or-append_one, get_or-replicate, length-append,
  length-replicate, arith, nat_eq, length-set,
}
use vortaris_ecs.Column.{
  Column, grow, ensure_versions, set_version, mark_changed, version_at, top_version,
}
use vortaris_ecs.Column.Bounds.{IsValid}

-- No row's version exceeds the highest version that the column reports.
abbrev pub Covers : Column → Type 0
Covers c = (i : ℕ) → version_at i c ≤ top_version c

module _ (c : Column) (valid : IsValid c) (covers : Covers c) where
  pub grow-Covers : Covers (grow c)
  unfolding grow version_at top_version
  grow-Covers i =
      ground
        (arith, covers i, get_or-append_one c.versions i 0 0, length-append c.versions (0 ∷ []))

  pub set_version-Covers : (j v : ℕ) → Covers (set_version j v c)
  unfolding set_version version_at top_version
  set_version-Covers j v i =
      ground (arith, covers i, get_or-set c.versions j i v 0, length-set c.versions j v)

  pub mark_changed-Covers : (j v : ℕ) → Covers (mark_changed j v c)
  unfolding mark_changed version_at top_version
  mark_changed-Covers j v i =
      ground (arith, covers i, get_or-set c.versions j i v 0, length-set c.versions j v)

  pub ensure_versions-Covers : (t : ℕ) → Covers (ensure_versions t c)
  unfolding ensure_versions version_at top_version
  ensure_versions-Covers t i =
      ground (
        arith,
        covers i,
        get_or-replicate (length c.rows) i t 0,
        length-replicate (length c.rows) t,
      )
