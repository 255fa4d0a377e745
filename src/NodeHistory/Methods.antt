-- ===== src/NodeHistory/Methods.antt =====
-- src/utils/node_history.py: the public methods that write, and the cached counts. `clock` is
-- `int(time.time())`, `monotonic` is `time.monotonic()`.
use meshforge_maps.Base.{
  ℕ, ◌+◌, ◌-◌, String, Bool, true, false, Option, none, some, List, [], ◌∷◌, ltb, ◌==◌, not, ◌&&◌,
  ◌||◌, if◌then◌else◌, filter, get_or, str_eq, length, is_infix,
}
use meshforge_maps.Int.{ℤ}
use meshforge_maps.Float.{Float}
use meshforge_maps.NodeHistory.{
  Arithmetic, Row, NodeHistoryDb, SqlError, after_error, Stage, Faults, ok, sql_error, value_error,
  Exec, chain, run_sql, write_row,
}

-- the arguments of an observation; an empty id, and a missing coordinate, are what a batch skips
pub record Observation : Type 0 where
  pub node_id : String
  pub lat : Option Float
  pub lon : Option Float
  pub altitude : Option Float
  pub network : String
  pub snr : Option Float
  pub battery : Option ℤ
  pub name : String

abbrev pub row_at : ℕ → Float → Float → Observation → Row
row_at now lat lon o = record {
  node_id = o.node_id;
  timestamp = now;
  latitude = lat;
  longitude = lon;
  altitude = o.altitude;
  network = o.network;
  snr = o.snr;
  battery = o.battery;
  name = o.name;
}

-- the row of an observation in a batch, if it is not skipped
unfoldable pub row_of : ℕ → Observation → Option Row
row_of now o = if str_eq o.node_id "" then none else elim o.lat [
  | none ↦ none
  | some lat ↦ elim o.lon [ none ↦ none | some lon ↦ some (row_at now lat lon o) ]
]

-- `_DISK_FULL_SIGNALS`
abbrev pub disk_full_signals : List String
disk_full_signals = "disk i/o error" ∷ "database or disk is full" ∷ "no space left" ∷ []

abbrev pub any_signal : List String → String → Bool
any_signal [] text = false
any_signal (sig ∷ signals) text = is_infix sig text || any_signal signals text

unfoldable pub is_disk_problem : SqlError → Bool
is_disk_problem e = e.operational && any_signal disk_full_signals e.lowered

-- `_record_write_error`
unfoldable pub record_write_error : ℕ → SqlError → NodeHistoryDb → NodeHistoryDb
record_write_error clock e d =
    if is_disk_problem e
    then record d { last_write_error_at = some clock; last_write_error_msg = some e.message }
    else d

-- the commit, after which the counts are read again if rows were appended
unfoldable pub finish : Option SqlError → Bool → NodeHistoryDb → Exec (Unit {0})
finish fault appended d = run_sql fault d (
  record d {
    saved_current = d.nodes_current;
    saved_trajectory = d.trajectory;
    count_cache_time = if appended then none else d.count_cache_time;
    last_write_error_at = none;
    last_write_error_msg = none;
  },
  ok tt,
)

-- what a caller sees: the value, or a ValueError that passes through
pub data Answer (A : Type 0) : Type 0 where
  returned : A → Answer A
  raised : Answer A

-- `except sqlite3.Error`
abbrev pub handle : {A : Type 0} → ℕ → A → Exec A → NodeHistoryDb × Answer A
handle clock failed (d, ok a) = (d, returned a)
handle clock failed (d, sql_error e) = (record_write_error clock e d, returned failed)
handle clock failed (d, value_error) = (d, raised)

unfoldable pub record_observation :
    Arithmetic → Faults → ℕ → Row → NodeHistoryDb → NodeHistoryDb × Answer Bool
record_observation m faults clock row d =
    if not d.connected
    then (d, returned false)
    else handle clock false (
        chain (write_row m faults row d) (λ d' appended.
          chain (finish (faults Stage.commit) appended d') (λ d'' _. (d'', ok true))))

-- the loop of a batch, each observation with the faults of its statements
unfoldable pub write_all : Arithmetic → ℕ → ℕ → List (Observation × Faults) → NodeHistoryDb → Exec ℕ
write_all m now appended_count [] d = (d, ok appended_count)
write_all m now appended_count ((o, faults) ∷ rest) d =
    let skipped = write_all m now appended_count rest d in
    elim (row_of now o) [
      | none ↦ skipped
      | some row ↦ chain (write_row m faults row d) (λ d' appended.
          write_all m now (if appended then appended_count + 1 else appended_count) rest d')
    ]

unfoldable pub record_observations_batch :
    Arithmetic
    → Option SqlError
    → ℕ
    → List (Observation × Faults)
    → NodeHistoryDb
    → NodeHistoryDb × Answer ℕ
record_observations_batch m commit_fault clock observations d =
    if not d.connected || length observations == 0
    then (d, returned 0)
    else handle clock 0 (
        chain (write_all m clock 0 observations d) (λ d' appended_count.
          chain (finish commit_fault (ltb 0 appended_count) d')
            (λ d'' _. (d'', ok appended_count))))

-- `DELETE FROM trajectory WHERE timestamp < ?`
abbrev pub is_kept : ℕ → Row → Bool
is_kept before row = not (ltb row.timestamp before)

-- int(time.time()) - retention, where a clock below the retention keeps every row
abbrev pub cutoff : Option ℕ → ℕ → NodeHistoryDb → ℕ
cutoff before clock d = get_or before (clock - d.retention_seconds)

unfoldable pub delete_before : ℕ → NodeHistoryDb → NodeHistoryDb × ℕ
delete_before before d =
    let kept = filter (is_kept before) d.trajectory in
    let deleted = length d.trajectory - length kept in
    (
      if ltb 0 deleted
          then record d {
            trajectory = kept;
            saved_current = d.nodes_current;
            saved_trajectory = kept;
            count_cache_time = none;
            last_traj_pos = [];
            traj_count = [];
          }
          else record d {
            trajectory = kept;
            saved_current = d.nodes_current;
            saved_trajectory = kept;
          },
      deleted,
    )

-- a failed DELETE, or a failed commit after it, clears no cache and gives 0
unfoldable pub prune_old_data :
    Option SqlError → Option SqlError → Option ℕ → ℕ → NodeHistoryDb → NodeHistoryDb × ℕ
prune_old_data fault commit_fault before clock d =
    let kept = filter (is_kept (cutoff before clock d)) d.trajectory in
    if not d.connected then (d, 0) else elim fault [
      | some e ↦ (after_error e d, 0)
      | none ↦ elim commit_fault [
        | some e ↦ (after_error e (record d { trajectory = kept }), 0)
        | none ↦ delete_before (cutoff before clock d) d
      ]
    ]

unfoldable pub refresh_count_cache : ℕ → NodeHistoryDb → NodeHistoryDb
refresh_count_cache monotonic d = record d {
  cached_obs_count = length d.trajectory;
  cached_node_count = length d.nodes_current;
  count_cache_time = some monotonic;
}

abbrev pub count_cache_ttl : ℕ
count_cache_ttl = 300

abbrev pub count_fresh : ℕ → NodeHistoryDb → Bool
count_fresh monotonic d = elim d.count_cache_time [
  | none ↦ false
  | some t ↦ ltb monotonic (t + count_cache_ttl)
]

unfoldable pub observation_count : ℕ → NodeHistoryDb → NodeHistoryDb × ℕ
observation_count monotonic d =
    if not d.connected
    then (d, 0)
    else if count_fresh monotonic d
    then (d, d.cached_obs_count)
    else let d' = refresh_count_cache monotonic d in (d', d'.cached_obs_count)

unfoldable pub node_count : ℕ → NodeHistoryDb → NodeHistoryDb × ℕ
node_count monotonic d =
    if not d.connected
    then (d, 0)
    else if count_fresh monotonic d
    then (d, d.cached_node_count)
    else let d' = refresh_count_cache monotonic d in (d', d'.cached_node_count)
