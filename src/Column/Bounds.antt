-- ===== src/Column/Bounds.antt =====
-- core/column.h: the sizes that the operations keep in step, and the layout of a row.
use vortaris_ecs.Prelude.{
  ℕ, ◌+◌, ◌%◌, ◌≤◌, ◌<◌, ◌≡◌, true, false, none, List, [], ◌∷◌, length, arith, set, le-round_up,
  round_up-lt, round_up-mod, length-append, length-set, length-drop_last, length-replicate,
}
use vortaris_ecs.Column.{
  Column, Row, init, reserve, grow, write_row, append, shrink, swap_remove, pop_back, clear,
  ensure_versions, set_version, mark_changed, last_row, last_version,
}

-- The rows fit in the buffer, and while tracking is on there is a version for each of them.
pub record IsValid (c : Column) : Type 0 where
  pub fits : length c.rows ≤ c.capacity
  pub versioned : c.tracking ≡ true → length c.versions ≡ length c.rows
  pub plain : c.tracking ≡ false → c.versions ≡ []

pub grow-IsValid : (c : Column) → IsValid c → IsValid (grow c)
unfolding grow
grow-IsValid c v =
    ground (arith, length-append c.rows (none ∷ []), length-append c.versions (0 ∷ []))

pub write_row-IsValid : (i : ℕ) (r : Row) (c : Column) → IsValid c → IsValid (write_row i r c)
unfolding write_row
write_row-IsValid i r c v = ground (arith, length-set c.rows i r)

shrink-IsValid : (c : Column) → IsValid c → IsValid (shrink c)
unfolding shrink
shrink-IsValid c v = ground (arith, length-drop_last c.rows, length-drop_last c.versions)

pub swap_remove-IsValid : (i : ℕ) (c : Column) → IsValid c → IsValid (swap_remove i c)
unfolding swap_remove
swap_remove-IsValid i c v = ground (
  arith,
  length-set c.rows i (last_row c.rows),
  length-drop_last (set c.rows i (last_row c.rows)),
  length-drop_last c.rows,
  length-set c.versions i (last_version c.versions),
  length-drop_last (set c.versions i (last_version c.versions)),
  length-drop_last c.versions,
)

pub pop_back-IsValid : (c : Column) → IsValid c → IsValid (pop_back c)
unfolding pop_back
pop_back-IsValid c v = ground (arith, shrink-IsValid c v)

pub init-IsValid : (size align : ℕ) (c : Column) → IsValid (init size align c)
unfolding init
init-IsValid size align c = ground arith

pub set_version-IsValid : (i t : ℕ) (c : Column) → IsValid c → IsValid (set_version i t c)
unfolding set_version
set_version-IsValid i t c v = ground (arith, length-set c.versions i t)

pub mark_changed-IsValid : (i t : ℕ) (c : Column) → IsValid c → IsValid (mark_changed i t c)
unfolding mark_changed
mark_changed-IsValid i t c v = ground (arith, length-set c.versions i t)

pub ensure_versions-IsValid : (t : ℕ) (c : Column) → IsValid c → IsValid (ensure_versions t c)
unfolding ensure_versions
ensure_versions-IsValid t c v = ground (arith, length-replicate (length c.rows) t)

-- One call of a method. The code removes and writes only rows that are there.
pub data Step (c : Column) : Column → Type 0 where
  inits : (size align : ℕ) → Step c (init size align c)
  reserves : (n : ℕ) → Step c (reserve n c)
  grows : Step c (grow c)
  appends : (src : List ℕ) → Step c (append src c)
  writes : (i : ℕ) (bytes : Row) → i < length c.rows → Step c (write_row i bytes c)
  swap_removes : (i : ℕ) → i < length c.rows → Step c (swap_remove i c)
  pops : Step c (pop_back c)
  clears : Step c (clear c)
  ensures : (t : ℕ) → Step c (ensure_versions t c)
  marks : (i t : ℕ) → Step c (mark_changed i t c)
  sets : (i v : ℕ) → Step c (set_version i v c)

-- Every method keeps the rows within the buffer and, while tracking is on, one version for each row;
-- with tracking off there are no versions.
pub Step-IsValid : {c d : Column} → Step c d → IsValid c → IsValid d
unfolding reserve append clear
Step-IsValid {c} (inits size align) v = init-IsValid size align c
Step-IsValid {c} (reserves n) v = ground arith
Step-IsValid {c} grows v = grow-IsValid c v
Step-IsValid {c} (appends src) v = write_row-IsValid _ _ (grow c) (grow-IsValid c v)
Step-IsValid {c} (writes i bytes h) v = write_row-IsValid i bytes c v
Step-IsValid {c} (swap_removes i h) v = swap_remove-IsValid i c v
Step-IsValid {c} pops v = pop_back-IsValid c v
Step-IsValid {c} clears v = ground arith
Step-IsValid {c} (ensures t) v = ensure_versions-IsValid t c v
Step-IsValid {c} (marks i t) v = mark_changed-IsValid i t c v
Step-IsValid {c} (sets i w) v = set_version-IsValid i w c v

-- `init` rounds the element size up to the alignment: a row holds an element, the distance between rows
-- is a multiple of the alignment, and less than one alignment is wasted.
pub init_stride :
    (size align : ℕ) (c : Column)
    → let d = init size align c in
      (0 < d.elem_align)
      × (size ≤ d.stride)
      × (d.stride < size + d.elem_align)
      × (d.stride % d.elem_align ≡ 0)
unfolding init
init_stride size align c = ground (
  arith,
  le-round_up size align,
  le-round_up size 1,
  round_up-lt size align,
  round_up-lt size 1,
  round_up-mod size align,
  round_up-mod size 1,
)
