-- ===== src/NodeHistory/Bounds.antt =====
-- src/utils/node_history.py: the size of the database.
use meshforge_maps.Base.{
  ℕ, ◌+◌, ◌*◌, ◌≤◌, ◌<◌, ◌≡◌, refl, String, Bool, true, false, Option, none, some, List, [], ◌∷◌,
  arith, str_eq, str_eq_iff, if◌then◌else◌, length, not, filter, sym,
}
use mathlib.Core.Path.{subst}
use meshforge_maps.Dict.{Dict, lookup, contains, insert, lookup-insert}
use meshforge_maps.NodeHistory.{
  Arithmetic, Row, NodeHistoryDb, of_node, count_rows, last_row, has_moved,
}
use meshforge_maps.NodeHistory.Caches.{pos_of, count_rows-appended}
use meshforge_maps.NodeHistory.Specification.{
  Tables, tables_of, spec_append, spec_write, spec_all_keeps, IsValid,
}
use meshforge_maps.NodeHistory.Refinement.{
  Event, observe, batch, prune, run, spec_step, spec_run, run-refines,
}

-- the rows of the other nodes
abbrev strip : String → List Row → List Row
strip k rows = filter (λ row. not (of_node k row)) rows

length-strip :
    (k : String) (rows : List Row) → length rows ≡ count_rows k rows + length (strip k rows)
length-strip k [] = refl
length-strip k (row ∷ rows) = ground (arith, length-strip k rows)

count_rows-strip :
    (k j : String) (rows : List Row)
    → count_rows j (strip k rows) ≡ (if str_eq k j then 0 else count_rows j rows)
count_rows-strip k j [] = ground arith
count_rows-strip k j (row ∷ rows) = ground (
  arith,
  count_rows-strip k j rows,
  str_eq_iff k j,
  str_eq_iff row.node_id k,
  str_eq_iff row.node_id j,
)

-- Rows of nodes that `current` lists, no more than `cap` of each, are at most `cap` for each of them.
length_bounded :
    (cap : ℕ) (current : Dict Row) (rows : List Row)
    → ((k : String) → count_rows k rows ≤ cap)
    → ((k : String) → 0 < count_rows k rows → contains k current ≡ true)
    → length rows ≤ length current * cap
unfolding lookup
length_bounded cap [] [] capped owned = omega arith
length_bounded cap [] (row ∷ rows) capped owned =
    absurd (ground (arith, owned row.node_id, str_eq_iff row.node_id row.node_id))
length_bounded cap ((k, r) ∷ current) rows capped owned =
    let rest : length (strip k rows) ≤ length current * cap =
      length_bounded cap current (strip k rows)
        (λ j. ground (arith, count_rows-strip k j rows, capped j))
        (λ j some_row. ground (arith, count_rows-strip k j rows, owned j)) in
    omega (arith, rest, length-strip k rows, capped k)

-- No node has more rows than the cap, and each that has rows is in `nodes_current`.
pub record IsBounded (t : Tables) : Type 0 where
  pub capped : (k : String) → count_rows k t.rows ≤ t.cap
  pub owned : (k : String) → 0 < count_rows k t.rows → contains k t.current ≡ true

spec_append-IsBounded :
    (moved : Option Bool) (row : Row) (t : Tables)
    → IsBounded t
    → contains row.node_id t.current ≡ true
    → IsBounded (spec_append moved row t).0
unfolding spec_append
spec_append-IsBounded none row t b there = b
spec_append-IsBounded (some false) row t b there = b
spec_append-IsBounded (some true) row t b there = record {
  capped = λ k. ground (arith, count_rows-appended t.cap row t.rows k, b.capped k);
  owned = λ k some_row. ground (
    arith,
    there,
    some_row,
    count_rows-appended t.cap row t.rows k,
    b.owned k,
    str_eq_iff row.node_id k,
  );
}

spec_write-IsBounded :
    (m : Arithmetic) (row : Row) (t : Tables) → IsBounded t → IsBounded (spec_write m row t).0
unfolding spec_write
spec_write-IsBounded m row t b =
    spec_append-IsBounded (has_moved m t.threshold (pos_of (last_row row.node_id t.rows)) row) row
      (record t { current = insert row.node_id row t.current })
      (record {
        capped = b.capped;
        owned = λ k some_row.
            ground (arith, some_row, b.owned k, lookup-insert row.node_id k row t.current);
      })
      (ground (
        arith,
        lookup-insert row.node_id row.node_id row t.current,
        str_eq_iff row.node_id row.node_id,
      ))

count_rows-filter :
    (p : Row → Bool) (k : String) (rows : List Row)
    → count_rows k (filter p rows) ≤ count_rows k rows
count_rows-filter p k [] = omega arith
count_rows-filter p k (row ∷ rows) = ground (arith, count_rows-filter p k rows)

spec_step-IsBounded :
    (m : Arithmetic) (t : Tables) (e : Event) → IsBounded t → IsBounded (spec_step m t e).0
unfolding spec_step
spec_step-IsBounded m t (observe row clock) b = spec_write-IsBounded m row t b
spec_step-IsBounded m t (batch observations clock) b =
    spec_all_keeps IsBounded m (spec_write-IsBounded m) clock 0 observations t b
spec_step-IsBounded m t (prune before clock) b = record {
  capped = λ k. omega (arith, b.capped k, count_rows-filter _ k t.rows);
  owned = λ k some_row. b.owned k (omega (arith, some_row, count_rows-filter _ k t.rows));
}

spec_run-IsBounded :
    (m : Arithmetic) (t : Tables) (events : List Event)
    → IsBounded t
    → IsBounded (spec_run m t events).0
unfolding spec_run
spec_run-IsBounded m t [] b = b
spec_run-IsBounded m t (e ∷ events) b =
    spec_run-IsBounded m (spec_step m t e).0 events (spec_step-IsBounded m t e b)

-- While no statement fails, a valid database in which no node has more rows than the cap, and each node
-- with rows is in `nodes_current`, stays so whatever is observed and pruned: the trajectory table has
-- at most as many rows as `nodes_current` has nodes, times the cap.
pub trajectory_bounded :
    (m : Arithmetic) (d : NodeHistoryDb) (events : List Event)
    → IsValid d
    → IsBounded (tables_of d)
    → IsBounded (tables_of (run m d events).0)
      × (length (run m d events).0.trajectory
          ≤ length (run m d events).0.nodes_current * (run m d events).0.trajectory_rows_per_node)
trajectory_bounded m d events v b =
    let after : IsBounded (tables_of (run m d events).0) =
      subst IsBounded (sym (run-refines m d events v).0)
        (spec_run-IsBounded m (tables_of d) events b) in
    (after, length_bounded _ _ _ after.capped after.owned)
