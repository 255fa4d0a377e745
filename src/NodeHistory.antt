-- ===== src/NodeHistory.antt =====
-- src/utils/node_history.py: the database of positions, with its two tables and the caches beside
-- them. sqlite is modelled by its tables: `nodes_current` by its primary key, and `trajectory` as its
-- rows in the order of `id`, which AUTOINCREMENT makes the order of insertion; rows of equal time come
-- in that order from a query. A statement may fail: `Faults` says which ones do, and whether sqlite rolls
-- the transaction back with it, to the tables of the last commit. Without that an uncommitted change
-- stays visible to the connection. Coordinates are floats, and the operations on them and functions of
-- `math`, which may raise ValueError, are parameters. The set-up and migration of the file, its vacuum
-- and its backup are not modelled.
pub mod Methods
pub mod Queries
pub mod Faulty
pub mod Snapshots
pub mod Movement
pub mod Bounds
pub mod Specification
pub mod Refinement
pub mod Caches
pub mod Rows
use meshforge_maps.Base.{
  ℕ, max, ◌+◌, String, Bool, true, false, Option, none, some, List, [], ◌∷◌, ◌++◌, ltb, leb, ◌==◌,
  not, ◌&&◌, ◌||◌, if◌then◌else◌, filter, count, take, get_or, str_eq, length,
}
use meshforge_maps.Int.{ℤ, pos_part}
use meshforge_maps.Float.{Float, lt_float, whole}
use meshforge_maps.Dict.{Dict, lookup, contains, insert}

-- Python's float operations, and `math`; `none` is a ValueError
pub record Arithmetic : Type 0 where
  pub add : Float → Float → Float
  pub sub : Float → Float → Float
  pub mul : Float → Float → Float
  pub divide : Float → Float → Float
  pub radians : Float → Float
  pub sin : Float → Option Float
  pub cos : Float → Option Float
  pub sqrt : Float → Option Float
  pub asin : Float → Option Float

infixl 5 ◌>>=◌
abbrev pub ◌>>=◌ : {A B : Type 0} → Option A → (A → Option B) → Option B
none >>= f = none
some a >>= f = f a

abbrev pub earth_radius_m : Float
earth_radius_m = whole 6_371_000

-- `_haversine_meters`
unfoldable pub haversine_meters : Arithmetic → Float → Float → Float → Float → Option Float
haversine_meters m lat1 lon1 lat2 lon2 = do
  let phi1 = m.radians lat1
  let phi2 = m.radians lat2
  let dphi = m.radians (m.sub lat2 lat1)
  let dlam = m.radians (m.sub lon2 lon1)
  s ← m.sin (m.divide dphi (whole 2))
  c1 ← m.cos phi1
  c2 ← m.cos phi2
  t ← m.sin (m.divide dlam (whole 2))
  root ← m.sqrt (m.add (m.mul s s) (m.mul (m.mul c1 c2) (m.mul t t)))
  angle ← m.asin root
  some (m.mul (m.mul (whole 2) earth_radius_m) angle)

pub record Row : Type 0 where
  pub node_id : String
  pub timestamp : ℕ
  pub latitude : Float
  pub longitude : Float
  pub altitude : Option Float
  pub network : String
  pub snr : Option Float
  pub battery : Option ℤ
  pub name : String

pub record NodeHistoryDb : Type 0 where
  pub retention_seconds : ℕ
  pub move_threshold_meters : Float
  pub trajectory_rows_per_node : ℕ
  pub connected : Bool  -- `_conn` is not None
  pub nodes_current : Dict Row
  pub trajectory : List Row
  pub saved_current : Dict Row  -- the two tables at the last commit
  pub saved_trajectory : List Row
  pub last_traj_pos : Dict (Float × Float)
  pub traj_count : Dict ℕ
  pub cached_obs_count : ℕ
  pub cached_node_count : ℕ
  pub count_cache_time : Option ℕ  -- none is -inf
  pub last_write_error_at : Option ℕ
  pub last_write_error_msg : Option String

-- the constructor, on a file whose tables are these, or on none that opens
unfoldable pub create : ℕ → Float → ℤ → Bool → Dict Row → List Row → NodeHistoryDb
create retention threshold rows_per_node connected current rows = record {
  retention_seconds = retention;
  move_threshold_meters = if lt_float (whole 0) threshold then threshold else whole 0;
  trajectory_rows_per_node = max 1 (pos_part rows_per_node);
  connected = connected;
  nodes_current = current;
  trajectory = rows;
  saved_current = current;
  saved_trajectory = rows;
  last_traj_pos = [];
  traj_count = [];
  cached_obs_count = 0;
  cached_node_count = 0;
  count_cache_time = none;
  last_write_error_at = none;
  last_write_error_msg = none;
}

-- a `sqlite3.Error`, with its text in lower case. On some (FULL, IOERR, BUSY, NOMEM) sqlite may roll
-- the open transaction back by itself.
pub record SqlError : Type 0 where
  pub rolls_back : Bool
  pub operational : Bool
  pub message : String
  pub lowered : String

-- the statements of a write
pub data Stage : Type 0 where
  upsert prime tally append evict commit : Stage

abbrev pub Faults : Type 0
Faults = Stage → Option SqlError

-- how a write ends: with a value, a sqlite3.Error, or a ValueError of `math`
pub data Result (A : Type 0) : Type 0 where
  ok : A → Result A
  sql_error : SqlError → Result A
  value_error : Result A

abbrev pub Exec : Type 0 → Type 0
Exec A = NodeHistoryDb × Result A

abbrev pub chain : {A B : Type 0} → Exec A → (NodeHistoryDb → A → Exec B) → Exec B
chain (d, ok a) f = f d a
chain (d, sql_error e) f = (d, sql_error e)
chain (d, value_error) f = (d, value_error)

-- the tables after an error; what is cached of them stays
abbrev pub after_error : SqlError → NodeHistoryDb → NodeHistoryDb
after_error e d = record d {
  nodes_current = if e.rolls_back then d.saved_current else d.nodes_current;
  trajectory = if e.rolls_back then d.saved_trajectory else d.trajectory;
}

-- a statement that fails, or else goes on
abbrev pub run_sql : {A : Type 0} → Option SqlError → NodeHistoryDb → Exec A → Exec A
run_sql (some e) d next = (after_error e d, sql_error e)
run_sql none d next = next

abbrev pub of_node : String → Row → Bool
of_node node_id row = str_eq row.node_id node_id

-- SELECT … WHERE node_id = ? ORDER BY id DESC LIMIT 1
unfoldable pub last_row : String → List Row → Option Row
last_row node_id [] = none
last_row node_id (row ∷ rows) = elim (last_row node_id rows) [
  | some r ↦ some r
  | none ↦ if of_node node_id row then some row else none
]

-- SELECT COUNT(*) … WHERE node_id = ?
abbrev pub count_rows : String → List Row → ℕ
count_rows node_id rows = count (of_node node_id) rows

-- DELETE … WHERE id = (SELECT MIN(id) … WHERE node_id = ?)
unfoldable pub delete_oldest : String → List Row → List Row
delete_oldest node_id [] = []
delete_oldest node_id (row ∷ rows) =
    if of_node node_id row then rows else row ∷ delete_oldest node_id rows

-- `_upsert_current_locked`
unfoldable pub upsert_current : Row → NodeHistoryDb → NodeHistoryDb
upsert_current row d = record d { nodes_current = insert row.node_id row d.nodes_current }

-- the caches of a node that the database knows
unfoldable pub prime_from : Faults → String → Option Row → NodeHistoryDb → Exec (Unit {0})
prime_from faults node_id none d = (d, ok tt)
prime_from faults node_id (some last) d =
    let d' = record d {
      last_traj_pos = insert node_id (last.latitude, last.longitude) d.last_traj_pos;
    } in
    run_sql (faults tally) d' (
      record d' { traj_count = insert node_id (count_rows node_id d'.trajectory) d'.traj_count },
      ok tt,
    )

unfoldable pub prime_caches : Faults → String → NodeHistoryDb → Exec (Unit {0})
prime_caches faults node_id d =
    if contains node_id d.last_traj_pos
    then (d, ok tt)
    else run_sql (faults prime) d (prime_from faults node_id (last_row node_id d.trajectory) d)

-- whether a row is far enough from the node's last position; `none` is a ValueError
unfoldable pub has_moved : Arithmetic → Float → Option (Float × Float) → Row → Option Bool
has_moved m threshold none row = some true
has_moved m threshold (some (lat, lon)) row = do
  distance ← haversine_meters m lat lon row.latitude row.longitude
  some (not (lt_float distance threshold))

-- INSERT INTO trajectory, and the eviction beyond the cap
unfoldable pub append_row : Faults → Row → NodeHistoryDb → Exec Bool
append_row faults row d = run_sql (faults append) d (
    let d' = record d {
      trajectory = d.trajectory ++ row ∷ [];
      last_traj_pos = insert row.node_id (row.latitude, row.longitude) d.last_traj_pos;
    } in
    let new_count = get_or (lookup row.node_id d'.traj_count) 0 + 1 in
    if ltb d'.trajectory_rows_per_node new_count
    then run_sql (faults evict) d' (
      record d' {
        trajectory = delete_oldest row.node_id d'.trajectory;
        traj_count = insert row.node_id d'.trajectory_rows_per_node d'.traj_count;
      },
      ok true,
    )
    else (record d' { traj_count = insert row.node_id new_count d'.traj_count }, ok true))

abbrev pub append_if : Option Bool → Faults → Row → NodeHistoryDb → Exec Bool
append_if none faults row d = (d, value_error)
append_if (some false) faults row d = (d, ok false)
append_if (some true) faults row d = append_row faults row d

-- `_maybe_append_trajectory_locked`
unfoldable pub maybe_append : Arithmetic → Faults → Row → NodeHistoryDb → Exec Bool
maybe_append m faults row d = chain (prime_caches faults row.node_id d) (λ d' _.
    append_if (has_moved m d'.move_threshold_meters (lookup row.node_id d'.last_traj_pos) row)
      faults row d')

-- the two statements of one observation
unfoldable pub write_row : Arithmetic → Faults → Row → NodeHistoryDb → Exec Bool
write_row m faults row d =
    run_sql (faults upsert) d (maybe_append m faults row (upsert_current row d))
