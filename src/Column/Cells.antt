-- ===== src/Column/Cells.antt =====
-- core/column.h: what a row holds, its bytes and its version, after rows come and go.
use vortaris_ecs.Prelude.{
  ℕ, ◌+◌, ◌-◌, ◌<◌, ◌≡◌, Option, none, [], ◌∷◌, ◌==◌, nat_eq, if◌then◌else◌, length, get_elem?, set,
  arith, length-append, length-set, length-drop_last, get_elem?-set, get_elem?-drop_last_if,
  get_or-get_elem?, get_or-set, get_or-drop_last_if,
}
use vortaris_ecs.Column.{
  Column, Row, grow, set_version, shrink, swap_remove, pop_back, version_at, last_row, last_version,
}
use vortaris_ecs.Column.Bounds.{IsValid}

pub record Cell : Type 0 where
  pub content : Option Row
  pub version : ℕ

abbrev pub cell : Column → ℕ → Cell
cell c r = record { content = get_elem? c.rows r; version = version_at r c }

module _ (c : Column) (valid : IsValid c) where
  shrink-cell : (j : ℕ) → j + 1 < length c.rows → cell (shrink c) j ≡ cell c j
  unfolding shrink version_at
  shrink-cell j h = ground (
    arith,
    get_elem?-drop_last_if c.rows j,
    get_or-drop_last_if c.versions j 0,
    length-drop_last c.versions,
  )

  pub pop_back-cell : (j : ℕ) → j + 1 < length c.rows → cell (pop_back c) j ≡ cell c j
  unfolding pop_back
  pop_back-cell j h = ground (arith, shrink-cell j)

  pub pop_back-rows : length (pop_back c).rows ≡ length c.rows - 1
  unfolding pop_back shrink
  pop_back-rows = ground (arith, length-drop_last c.rows)

  pub swap_remove-rows : (i : ℕ) → length (swap_remove i c).rows ≡ length c.rows - 1
  unfolding swap_remove shrink
  swap_remove-rows i = ground (
    arith,
    length-drop_last c.rows,
    length-set c.rows i (last_row c.rows),
    length-drop_last (set c.rows i (last_row c.rows)),
  )

  pub swap_remove-cell :
      (i j : ℕ)
      → i + 1 < length c.rows
      → j + 1 < length c.rows
      → cell (swap_remove i c) j ≡ (if i == j then cell c (length c.rows - 1) else cell c j)
  unfolding swap_remove shrink version_at
  swap_remove-cell i j h k =
      let rs = set c.rows i (last_row c.rows) in
      let vs = set c.versions i (last_version c.versions) in
      ground (
        arith,
        get_elem?-drop_last_if rs j,
        length-set c.rows i (last_row c.rows),
        get_elem?-set c.rows i j (last_row c.rows),
        get_or-get_elem? c.rows (length c.rows - 1) none,
        get_or-drop_last_if vs j 0,
        length-drop_last vs,
        length-set c.versions i (last_version c.versions),
        get_or-set c.versions i j (last_version c.versions) 0,
      )

  -- A row added by `grow` is unwritten; the others stay.
  pub grow-rows : length (grow c).rows ≡ length c.rows + 1
  unfolding grow
  grow-rows = ground (arith, length-append c.rows (none ∷ []))

pub set_version-rows : (c : Column) (i v : ℕ) → (set_version i v c).rows ≡ c.rows
unfolding set_version
set_version-rows c i v = ground arith
