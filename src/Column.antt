-- ===== src/Column.antt =====
-- core/column.h: one component's rows, with the versions of change tracking.
--
-- A row is what the code copies with memcpy: `elem_size_` bytes, or `none` for memory that nothing has
-- written since the row came into being. `size_` is the number of rows. Addresses are not modelled: the
-- buffer is freed and allocated anew (`free_buf`, `realloc_to`) with the rows that the code copies.
pub mod Bounds
pub mod Versions
pub mod Cells
use vortaris_ecs.Prelude.{
  ℕ, suc, ◌+◌, ◌-◌, ◌*◌, ◌/◌, ◌≤◌, ◌<◌, ◌≡◌, Bool, true, false, ◌&&◌, Option, none, some, List, [],
  ◌∷◌, ◌++◌, ltb, ◌==◌, nat_eq, if◌then◌else◌, length, get_elem?, get_or, set, drop_last, last?,
  replicate,
}

abbrev pub Row : Type 0
Row = Option (List ℕ)

pub record Column : Type 0 where
  pub rows : List Row
  pub capacity : ℕ
  pub elem_size : ℕ
  pub elem_align : ℕ
  pub stride : ℕ
  pub versions : List ℕ
  pub max_version : ℕ
  pub tracking : Bool

-- A column that was default-constructed.
abbrev pub fresh : Column
fresh = record {
  rows = [];
  capacity = 0;
  elem_size = 0;
  elem_align = 1;
  stride = 0;
  versions = [];
  max_version = 0;
  tracking = false;
}

unfoldable pub free_buf : Column → Column
free_buf c = record c { rows = []; capacity = 0; versions = []; tracking = false; max_version = 0 }

unfoldable pub init : ℕ → ℕ → Column → Column
unfolding free_buf
init p_elem_size p_elem_align c =
    let align = if ltb 0 p_elem_align then p_elem_align else 1 in
    record (free_buf c) {
      elem_size = p_elem_size;
      elem_align = align;
      stride = (p_elem_size + align - 1) / align * align;
      rows = [];
      capacity = 0;
    }

unfoldable pub realloc_to : ℕ → Column → Column
realloc_to p_new_cap c = record c { capacity = p_new_cap }

unfoldable pub reserve : ℕ → Column → Column
unfolding realloc_to
reserve n c = if ltb c.capacity n then realloc_to n c else c

-- The new row holds whatever the memory held.
unfoldable pub grow : Column → Column
unfolding realloc_to
grow c =
    let c' =
      if length c.rows == c.capacity
      then realloc_to (if c.capacity == 0 then 8 else c.capacity * 2) c
      else c in
    record c' {
      rows = c'.rows ++ none ∷ [];
      versions = if c'.tracking then c'.versions ++ 0 ∷ [] else c'.versions;
    }

-- `memcpy(row(i), src, n)`; the code calls it with a row below `size_`.
unfoldable pub write_row : ℕ → Row → Column → Column
write_row i bytes c = record c { rows = set c.rows i bytes }

unfoldable pub append : List ℕ → Column → Column
unfolding grow write_row
append p_src c = let c' = grow c in write_row (length c'.rows - 1) (some p_src) c'

-- `--size_` and the versions, after the copy of the last row.
unfoldable pub shrink : Column → Column
shrink c = record c {
  rows = drop_last c.rows;
  versions = if c.tracking then drop_last c.versions else c.versions;
  max_version = if c.tracking then 0 else c.max_version;
}

-- What `versions_.back()` and `row(size_ - 1)` read.
abbrev pub last_row : List Row → Row
last_row xs = get_or xs (length xs - 1) none

abbrev pub last_version : List ℕ → ℕ
last_version xs = get_or xs (length xs - 1) 0

unfoldable pub swap_remove : ℕ → Column → Column
unfolding shrink
swap_remove i c =
    let c' =
      if ltb (i + 1) (length c.rows)
      then record c {
        rows = set c.rows i (last_row c.rows);
        versions = if c.tracking then set c.versions i (last_version c.versions) else c.versions;
      }
      else c in
    shrink c'

unfoldable pub pop_back : Column → Column
unfolding shrink
pop_back c = if length c.rows == 0 then c else shrink c

unfoldable pub clear : Column → Column
clear c = record c {
  rows = [];
  versions = if c.tracking then [] else c.versions;
  max_version = if c.tracking then 0 else c.max_version;
}

unfoldable pub ensure_versions : ℕ → Column → Column
ensure_versions p_tick c = if c.tracking then c else record c {
  tracking = true;
  versions = replicate (length c.rows) p_tick;
  max_version = p_tick;
}

unfoldable pub set_version : ℕ → ℕ → Column → Column
set_version i p_version c =
    if c.tracking && ltb i (length c.versions)
    then record c {
      versions = set c.versions i p_version;
      max_version = if ltb c.max_version p_version then p_version else c.max_version;
    }
    else c

unfoldable pub mark_changed : ℕ → ℕ → Column → Column
mark_changed i p_tick c =
    if c.tracking && ltb i (length c.versions)
    then record c {
      versions = set c.versions i p_tick;
      max_version = if ltb c.max_version p_tick then p_tick else c.max_version;
    }
    else c

unfoldable pub row_changed_since : ℕ → ℕ → Column → Bool
row_changed_since i p_baseline c =
    c.tracking && (ltb i (length c.versions) && ltb p_baseline (get_or c.versions i 0))

unfoldable pub version_at : ℕ → Column → ℕ
version_at i c = if c.tracking && ltb i (length c.versions) then get_or c.versions i 0 else 0

-- `max_version()`.
unfoldable pub top_version : Column → ℕ
top_version c = if c.tracking then c.max_version else 0
