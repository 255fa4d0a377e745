-- ===== src/NodeHistory/Rows.antt =====
-- src/utils/node_history.py: the trajectory table under an append and the removal of a node's oldest
-- row.
use meshforge_maps.Base.{
  ◌+◌, ◌-◌, ◌<◌, ◌≡◌, refl, String, none, some, List, [], ◌∷◌, ◌++◌, arith, str_eq, str_eq_iff,
  if◌then◌else◌,
}
use meshforge_maps.NodeHistory.{Row, of_node, last_row, count_rows, delete_oldest}

pub last_row-snoc :
    (k : String) (rows : List Row) (row : Row)
    → last_row k (rows ++ row ∷ []) ≡ (if of_node k row then some row else last_row k rows)
unfolding last_row
last_row-snoc k [] row = ground arith
last_row-snoc k (r ∷ rows) row = ground (arith, last_row-snoc k rows row)

pub count_rows-snoc :
    (k : String) (rows : List Row) (row : Row)
    → count_rows k (rows ++ row ∷ []) ≡ count_rows k rows + (if of_node k row then 1 else 0)
count_rows-snoc k [] row = ground arith
count_rows-snoc k (r ∷ rows) row = ground (arith, count_rows-snoc k rows row)

pub count_rows-delete_oldest :
    (j k : String) (rows : List Row)
    → count_rows k (delete_oldest j rows)
      ≡ (if str_eq j k then count_rows k rows - 1 else count_rows k rows)
unfolding delete_oldest
count_rows-delete_oldest j k [] = ground arith
count_rows-delete_oldest j k (r ∷ rows) = ground (
  arith,
  count_rows-delete_oldest j k rows,
  str_eq_iff j k,
  str_eq_iff r.node_id j,
  str_eq_iff r.node_id k,
)

-- A node has a last row exactly when it has rows.
pub last_row_missing :
    (k : String) (rows : List Row) → last_row k rows ≡ none → count_rows k rows ≡ 0
unfolding last_row
last_row_missing k [] h = refl
last_row_missing k (r ∷ rows) h = ground (arith, last_row_missing k rows)

pub last_row_found :
    (k : String) (rows : List Row) (r : Row) → last_row k rows ≡ some r → 0 < count_rows k rows
unfolding last_row
last_row_found k [] r h = absurd (cc)
last_row_found k (x ∷ rows) r h = ground (arith, last_row_found k rows r)

pub last_row-delete_oldest :
    (j k : String) (rows : List Row)
    → 1 < count_rows j rows
    → last_row k (delete_oldest j rows) ≡ last_row k rows
unfolding last_row delete_oldest
last_row-delete_oldest j k [] h = refl
last_row-delete_oldest j k (r ∷ rows) h = ground (
  arith,
  last_row-delete_oldest j k rows,
  last_row_missing j rows,
  last_row_missing k rows,
  str_eq_iff r.node_id j,
  str_eq_iff r.node_id k,
)
