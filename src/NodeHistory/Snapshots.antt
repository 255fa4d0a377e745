-- ===== src/NodeHistory/Snapshots.antt =====
-- src/utils/node_history.py, `get_snapshot`: what a past snapshot shows of each node.
use meshforge_maps.Base.{
  ℕ, ◌<◌, ◌≡◌, refl, String, true, List, [], ◌∷◌, arith, str_eq_iff, if◌then◌else◌, filter, ltb,
  leb,
}
use meshforge_maps.NodeHistory.{Row, NodeHistoryDb, count_rows, last_row}
use meshforge_maps.NodeHistory.Queries.{listed, latest, get_snapshot}
use meshforge_maps.NodeHistory.Rows.{last_row_missing}

listed_iff : (k : String) (rows : List Row) → listed k rows ≡ ltb 0 (count_rows k rows)
listed_iff k [] = refl
listed_iff k (row ∷ rows) = ground (arith, listed_iff k rows)

last_row-latest : (k : String) (rows : List Row) → last_row k (latest rows) ≡ last_row k rows
unfolding last_row latest
last_row-latest k [] = refl
last_row-latest k (row ∷ rows) = ground (
  arith,
  last_row-latest k rows,
  listed_iff row.node_id rows,
  last_row_missing k rows,
  str_eq_iff row.node_id k,
)

count_rows-latest :
    (k : String) (rows : List Row)
    → count_rows k (latest rows) ≡ (if ltb 0 (count_rows k rows) then 1 else 0)
unfolding latest
count_rows-latest k [] = refl
count_rows-latest k (row ∷ rows) =
    ground (arith, count_rows-latest k rows, listed_iff row.node_id rows, str_eq_iff row.node_id k)

past_lem :
    (d : NodeHistoryDb) (timestamp clock : ℕ)
    → d.connected ≡ true
    → timestamp < clock
    → get_snapshot timestamp clock d
      ≡ latest (filter (λ (row : Row). leb row.timestamp timestamp) d.trajectory)
unfolding get_snapshot
past_lem d timestamp clock on earlier = ground arith

-- A snapshot of the past, from a connected database, shows of each node the row that was written last
-- among its rows up to that time, whether or not it is the latest of them, and shows it once; a node
-- without such a row is not shown.
pub get_snapshot_past :
    (d : NodeHistoryDb) (timestamp clock : ℕ) (k : String)
    → d.connected ≡ true
    → timestamp < clock
    → let past = filter (λ (row : Row). leb row.timestamp timestamp) d.trajectory in
      (last_row k (get_snapshot timestamp clock d) ≡ last_row k past)
      × (count_rows k (get_snapshot timestamp clock d)
          ≡ (if ltb 0 (count_rows k past) then 1 else 0))
get_snapshot_past d timestamp clock k on earlier =
    rw (past_lem d timestamp clock on earlier) (last_row-latest k _, count_rows-latest k _)
