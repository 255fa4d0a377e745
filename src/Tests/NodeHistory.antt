-- ===== src/Tests/NodeHistory.antt =====
-- Runs of the history database, with a stand-in for `math`, and its theorems at concrete inputs.
use meshforge_maps.Base.{
  ℕ, ◌≡◌, refl, String, true, none, some, List, [], ◌∷◌, arith, str_eq_iff, length, filter, leb,
  ltb, if◌then◌else◌, ◌≤◌, ◌*◌,
}
use meshforge_maps.Int.{pos, ◌+ℤ◌, ◌-ℤ◌}
use meshforge_maps.Float.{Float, finite, nan, whole}
use meshforge_maps.Dict.{lookup, insert}
use meshforge_maps.NodeHistory.{
  Arithmetic, Row, NodeHistoryDb, SqlError, Stage, Faults, create, last_row, delete_oldest,
  count_rows, haversine_meters, has_moved, upsert_current, prime_from, prime_caches, append_row,
  maybe_append, write_row,
}
use meshforge_maps.NodeHistory.Methods.{record_observation, finish}
use meshforge_maps.NodeHistory.Queries.{latest, get_snapshot}
use meshforge_maps.NodeHistory.Specification.{tables_of, IsValid, create-IsValid}
use meshforge_maps.NodeHistory.Refinement.{Event, observe, step, run, spec_run, run-refines}
use meshforge_maps.NodeHistory.Bounds.{IsBounded, trajectory_bounded}
use meshforge_maps.NodeHistory.Movement.{Spaced, rows_apart}
use meshforge_maps.NodeHistory.Snapshots.{get_snapshot_past}
use meshforge_maps.NodeHistory.Faulty.{Same, record_observation_others}

abbrev plus : Float → Float → Float
plus (finite a) (finite b) = finite (a +ℤ b)
plus _ _ = nan

abbrev minus : Float → Float → Float
minus (finite a) (finite b) = finite (a -ℤ b)
minus _ _ = nan

-- a flat earth, on which distances are differences
abbrev flat : Arithmetic
flat = record {
  add = plus;
  sub = minus;
  mul = λ x y. y;
  divide = λ x y. x;
  radians = λ x. x;
  sin = some;
  cos = some;
  sqrt = some;
  asin = some;
}

abbrev row : String → ℕ → ℕ → Row
row node_id timestamp degrees = record {
  node_id = node_id;
  timestamp = timestamp;
  latitude = whole degrees;
  longitude = whole 0;
  altitude = none;
  network = "meshtastic";
  snr = none;
  battery = none;
  name = "";
}

abbrev empty : NodeHistoryDb
empty = create 100 (whole 2) (pos 2) true [] []

abbrev visits : List Event
visits =
    observe (row "a" 10 0) 10
    ∷ observe (row "a" 11 1) 11
    ∷ observe (row "b" 12 5) 12
    ∷ observe (row "a" 13 3) 13
    ∷ observe (row "a" 14 6) 14
    ∷ []

abbrev opened : IsValid empty
opened = create-IsValid 100 (whole 2) (pos 2) [] []

-- the second visit is jitter, and the first row goes when the fourth comes
visits_leave :
    (run flat empty visits).0.trajectory ≡ row "b" 12 5 ∷ row "a" 13 3 ∷ row "a" 14 6 ∷ []
unfolding create run step record_observation write_row upsert_current maybe_append prime_caches
    prime_from append_row finish has_moved haversine_meters lookup insert last_row delete_oldest
    ◌+ℤ◌ ◌-ℤ◌
visits_leave = refl

run-refines_example :
    (tables_of (run flat empty visits).0 ≡ (spec_run flat (tables_of empty) visits).0)
    × ((run flat empty visits).1 ≡ (spec_run flat (tables_of empty) visits).1)
    × IsValid (run flat empty visits).0
run-refines_example = run-refines flat empty visits opened

abbrev nothing_stored : IsBounded (tables_of empty)
unfolding create
nothing_stored = record { capped = λ k. omega arith; owned = λ k h. absurd (omega arith) }

trajectory_bounded_example :
    IsBounded (tables_of (run flat empty visits).0)
    × (length (run flat empty visits).0.trajectory
        ≤ length (run flat empty visits).0.nodes_current
          * (run flat empty visits).0.trajectory_rows_per_node)
trajectory_bounded_example = trajectory_bounded flat empty visits opened nothing_stored

abbrev no_rows : Spaced flat empty.move_threshold_meters empty.trajectory
unfolding create
no_rows = λ k. tt

rows_apart_example :
    Spaced flat (run flat empty visits).0.move_threshold_meters (run flat empty visits).0.trajectory
rows_apart_example = rows_apart flat empty visits opened tt no_rows

abbrev stored : NodeHistoryDb
stored = create 100 (whole 2) (pos 5) true [] (row "a" 10 0 ∷ row "b" 12 5 ∷ row "a" 13 3 ∷ [])

get_snapshot_past_example :
    (last_row "a" (get_snapshot 12 50 stored)
      ≡ last_row "a" (filter (λ (r : Row). leb r.timestamp 12) stored.trajectory))
    × (count_rows "a" (get_snapshot 12 50 stored) ≡ (
        if ltb 0 (count_rows "a" (filter (λ (r : Row). leb r.timestamp 12) stored.trajectory))
        then 1
        else 0))
get_snapshot_past_example = get_snapshot_past stored 12 50 "a" (unfold create in refl) (omega arith)

-- rows that are written out of the order of their times: the one that was written last is shown
abbrev disordered : NodeHistoryDb
disordered = create 100 (whole 2) (pos 5) true [] (row "a" 20 0 ∷ row "a" 10 5 ∷ [])

disordered_shows : get_snapshot 30 50 disordered ≡ row "a" 10 5 ∷ []
unfolding get_snapshot latest create
disordered_shows = refl

abbrev full : SqlError
full = record {
  rolls_back = true;
  operational = true;
  message = "database or disk is full";
  lowered = "database or disk is full";
}

-- the append of the trajectory row fails
abbrev disk_full : Faults
disk_full Stage.append = some full
disk_full _ = none

record_observation_others_example :
    Same "b" stored (record_observation flat disk_full 60 (row "a" 60 9) stored).0
record_observation_others_example =
    record_observation_others flat disk_full 60 (row "a" 60 9) stored "b"
      (ground (arith, str_eq_iff "a" "b")) (unfold create in (refl, refl))
