-- ===== src/NodeHistory/Faulty.antt =====
-- src/utils/node_history.py: writes whose statements may fail.
use meshforge_maps.Base.{
  ℕ, ◌≡◌, ◌≢◌, ◌∙◌, refl, sym, String, Bool, true, false, Option, none, some, List, [], ◌∷◌, ◌++◌,
  arith, str_eq, str_eq_iff, filter, not, if_both, Bool-cases, inl, inr,
}
use meshforge_maps.Dict.{lookup, insert, lookup-insert, contains}
use meshforge_maps.NodeHistory.{
  Arithmetic, Row, NodeHistoryDb, SqlError, after_error, Stage, Faults, Exec, ok, sql_error,
  value_error, chain, run_sql, of_node, last_row, delete_oldest, prime_from, prime_caches,
  has_moved, append_row, append_if, maybe_append, upsert_current, write_row,
}
use meshforge_maps.NodeHistory.Methods.{
  Answer, handle, record_write_error, is_disk_problem, finish, record_observation,
}

-- What the database holds of `j` has been committed.
abbrev pub Committed : String → NodeHistoryDb → Type 0
Committed j d =
    (lookup j d.saved_current ≡ lookup j d.nodes_current)
    × (filter (of_node j) d.saved_trajectory ≡ filter (of_node j) d.trajectory)

-- Nothing that the database holds of `j` differs, and it is committed.
abbrev pub Same : String → NodeHistoryDb → NodeHistoryDb → Type 0
Same j d d' =
    (lookup j d'.nodes_current ≡ lookup j d.nodes_current)
    × (filter (of_node j) d'.trajectory ≡ filter (of_node j) d.trajectory)
    × (lookup j d'.last_traj_pos ≡ lookup j d.last_traj_pos)
    × (lookup j d'.traj_count ≡ lookup j d.traj_count)
    × Committed j d'

Same-refl : (j : String) (d : NodeHistoryDb) → Committed j d → Same j d d
Same-refl j d s = (refl, refl, refl, refl, s)

Same-trans : (j : String) (d e f : NodeHistoryDb) → Same j d e → Same j e f → Same j d f
Same-trans j d e f h k = (k.0 ∙ h.0, k.1 ∙ h.1, k.2 ∙ h.2, k.3 ∙ h.3, k.4)

-- an error, with or without a rollback
after_error-Same :
    (j : String) (e : SqlError) (d d' : NodeHistoryDb) → Same j d d' → Same j d (after_error e d')
after_error-Same j e d d' h = elim (Bool-cases e.rolls_back) [
  | inl back ↦ rw back (h.4.0 ∙ h.0, h.4.1 ∙ h.1, h.2, h.3, (refl, refl))
  | inr stays ↦ rw stays h
]

filter-snoc_other :
    (j : String) (rows : List Row) (row : Row)
    → of_node j row ≡ false
    → filter (of_node j) (rows ++ row ∷ []) ≡ filter (of_node j) rows
filter-snoc_other j [] row h = ground arith
filter-snoc_other j (r ∷ rows) row h = ground (arith, filter-snoc_other j rows row)

filter-delete_oldest_other :
    (k j : String) (rows : List Row)
    → str_eq k j ≡ false
    → filter (of_node j) (delete_oldest k rows) ≡ filter (of_node j) rows
unfolding delete_oldest
filter-delete_oldest_other k j [] h = refl
filter-delete_oldest_other k j (r ∷ rows) h = ground (
  arith,
  filter-delete_oldest_other k j rows,
  str_eq_iff r.node_id k,
  str_eq_iff r.node_id j,
  str_eq_iff k j,
)

-- what a statement does, if it does not fail
run_sql-Same :
    {A : Type 0} (j : String) (fault : Option SqlError) (d e : NodeHistoryDb) (x : Exec A)
    → Same j d e
    → Same j d x.0
    → Same j d (run_sql fault e x).0
run_sql-Same j none d e x h k = k
run_sql-Same j (some error) d e x h k = after_error-Same j error d e h

chain-Same :
    {A B : Type 0} (j : String) (d : NodeHistoryDb) (x : Exec A) (f : NodeHistoryDb → A → Exec B)
    → Same j d x.0
    → ((e : NodeHistoryDb) (a : A) → Same j d e → Same j d (f e a).0)
    → Same j d (chain x f).0
chain-Same j d (e, ok a) f h next = next e a h
chain-Same j d (e, sql_error error) f h next = h
chain-Same j d (e, value_error) f h next = h

module _ (j : String) where
  prime_from-Same :
      (faults : Faults) (k : String) (last : Option Row) (d : NodeHistoryDb)
      → str_eq k j ≡ false
      → Committed j d
      → Same j d (prime_from faults k last d).0
  unfolding prime_from
  prime_from-Same faults k none d other s = Same-refl j d s
  prime_from-Same faults k (some row) d other s =
      run_sql-Same j (faults Stage.tally) d _ _
        (refl, refl, rw (lookup-insert, other) refl, refl, s)
        (refl, refl, rw (lookup-insert, other) refl, rw (lookup-insert, other) refl, s)

  prime_caches-Same :
      (faults : Faults) (k : String) (d : NodeHistoryDb)
      → str_eq k j ≡ false
      → Committed j d
      → Same j d (prime_caches faults k d).0
  unfolding prime_caches
  prime_caches-Same faults k d other s =
      if_both (λ (x : Exec (Unit {0})). Same j d x.0) (contains k d.last_traj_pos) (d, ok tt) _
        (Same-refl j d s)
        (run_sql-Same j (faults Stage.prime) d d _ (Same-refl j d s)
          (prime_from-Same faults k (last_row k d.trajectory) d other s))

  append_row-Same :
      (faults : Faults) (row : Row) (d : NodeHistoryDb)
      → str_eq row.node_id j ≡ false
      → Committed j d
      → Same j d (append_row faults row d).0
  unfolding append_row
  append_row-Same faults row d other s =
      let written : NodeHistoryDb = record d {
        trajectory = d.trajectory ++ row ∷ [];
        last_traj_pos = insert row.node_id (row.latitude, row.longitude) d.last_traj_pos;
      } in
      let kept : Same j d written = (
        refl,
        filter-snoc_other j d.trajectory row other,
        rw (lookup-insert, other) refl,
        refl,
        (s.0, s.1 ∙ sym (filter-snoc_other j d.trajectory row other)),
      ) in
      run_sql-Same j (faults Stage.append) d d _ (Same-refl j d s) (
        if_both (λ (x : Exec Bool). Same j d x.0) _ _ _
          (run_sql-Same j (faults Stage.evict) d written _ kept (
            refl,
            filter-delete_oldest_other row.node_id j written.trajectory other ∙ kept.1,
            kept.2,
            rw (lookup-insert, other) refl,
            (
              s.0,
              kept.4.1 ∙ sym (filter-delete_oldest_other row.node_id j written.trajectory other),
            ),
          ))
          (refl, kept.1, kept.2, rw (lookup-insert, other) refl, kept.4))

  append_if-Same :
      (moved : Option Bool) (faults : Faults) (row : Row) (d : NodeHistoryDb)
      → str_eq row.node_id j ≡ false
      → Committed j d
      → Same j d (append_if moved faults row d).0
  append_if-Same none faults row d other s = Same-refl j d s
  append_if-Same (some false) faults row d other s = Same-refl j d s
  append_if-Same (some true) faults row d other s = append_row-Same faults row d other s

  write_row-Same :
      (m : Arithmetic) (faults : Faults) (row : Row) (d : NodeHistoryDb)
      → str_eq row.node_id j ≡ false
      → Committed j d
      → Same j d (write_row m faults row d).0
  unfolding write_row maybe_append upsert_current
  write_row-Same m faults row d other s =
      let current : NodeHistoryDb = record d {
        nodes_current = insert row.node_id row d.nodes_current;
      } in
      let kept : Same j d current = (
        rw (lookup-insert, other) refl,
        refl,
        refl,
        refl,
        (s.0 ∙ sym (rw (lookup-insert, other) refl), s.1),
      ) in
      run_sql-Same j (faults Stage.upsert) d d _ (Same-refl j d s) (
        chain-Same j d (prime_caches faults row.node_id current) _
          (Same-trans j d current (prime_caches faults row.node_id current).0 kept
            (prime_caches-Same faults row.node_id current other kept.4))
          (λ e _ h.
            let moved : Option Bool =
              has_moved m e.move_threshold_meters (lookup row.node_id e.last_traj_pos) row in
            Same-trans j d e (append_if moved faults row e).0 h
              (append_if-Same moved faults row e other h.4)))

  record_write_error-Same :
      (clock : ℕ) (error : SqlError) (d : NodeHistoryDb)
      → Committed j d
      → Same j d (record_write_error clock error d)
  unfolding record_write_error
  record_write_error-Same clock error d s =
      if_both (Same j d) (is_disk_problem error) _ d (Same-refl j d s) (Same-refl j d s)

  handle-Same :
      {A : Type 0} (clock : ℕ) (failed : A) (d : NodeHistoryDb) (x : Exec A)
      → Same j d x.0
      → Same j d (handle clock failed x).0
  handle-Same clock failed d (e, ok a) h = h
  handle-Same clock failed d (e, sql_error error) h =
      Same-trans j d e (record_write_error clock error e) h
        (record_write_error-Same clock error e h.4)
  handle-Same clock failed d (e, value_error) h = h

  finish-Same :
      (fault : Option SqlError) (appended : Bool) (d : NodeHistoryDb)
      → Committed j d
      → Same j d (finish fault appended d).0
  unfolding finish
  finish-Same fault appended d s =
      run_sql-Same j fault d d _ (Same-refl j d s) (refl, refl, refl, refl, (refl, refl))

-- Whichever of its statements fail, and whether sqlite rolls the transaction back or not, an observation
-- of one node changes nothing of another whose rows are committed: neither its row in `nodes_current`,
-- nor its rows of the trajectory, nor what is cached of it; and its rows stay committed.
pub record_observation_others :
    (m : Arithmetic) (faults : Faults) (clock : ℕ) (row : Row) (d : NodeHistoryDb) (j : String)
    → row.node_id ≢ j
    → Committed j d
    → Same j d (record_observation m faults clock row d).0
unfolding record_observation
record_observation_others m faults clock row d j apart s =
    let other : str_eq row.node_id j ≡ false = ground (arith, str_eq_iff row.node_id j) in
    if_both (λ (x : NodeHistoryDb × Answer Bool). Same j d x.0) (not d.connected) _ _
      (Same-refl j d s)
      (handle-Same j clock false d _ (
        chain-Same j d (write_row m faults row d) _ (write_row-Same j m faults row d other s)
          (λ e appended h.
            chain-Same j d (finish (faults Stage.commit) appended e) _
              (Same-trans j d e (finish (faults Stage.commit) appended e).0 h
                (finish-Same j (faults Stage.commit) appended e h.4))
              (λ e' _ h'. h'))))
