-- ===== src/ConfigDrift/Totals.antt =====
-- src/utils/config_drift.py: `total_drifts` over any calls.
use meshforge_maps.Base.{
  ℕ, ◌+◌, ◌≡◌, refl, String, List, [], ◌∷◌, arith, leb, ◌==◌, length, length-append, Option-cases,
  if_both, inl, inr,
}
use meshforge_maps.Dict.{Dict, lookup}
use meshforge_maps.ConfigDrift.{
  ConfigValue, Drift, ConfigDriftDetector, append_drift, evict_oldest, make_room, check_new,
  drift_of, compare_fields, check_known, check_current, check_node, remove_node, current_of,
}
use meshforge_maps.ConfigDrift.Invariant.{
  Event, check, remove, step, run, check_current_new, check_current_known,
}
use meshforge_maps.ConfigDrift.Reports.{compare_fields_quiet, compare_fields_drifting}

module _ (str : ConfigValue → String) where
  total-append_drift :
      (node_id : String) (drift : Drift) (d : ConfigDriftDetector)
      → (append_drift node_id drift d).total_drifts ≡ d.total_drifts + 1
  unfolding append_drift
  total-append_drift node_id drift d = refl

  compare_fields_total :
      (node_id : String) (previous : Dict ConfigValue) (now : ℕ) (current : Dict ConfigValue)
      (d : ConfigDriftDetector)
      → (compare_fields str node_id previous now current d).0.total_drifts
        ≡ d.total_drifts + length (compare_fields str node_id previous now current d).1
  compare_fields_total node_id previous now [] d = unfold compare_fields in omega arith
  compare_fields_total node_id previous now ((k, x) ∷ current) d =
      elim (Option-cases (drift_of str node_id previous now k x)) [
        | inl quiet ↦
            rw (compare_fields_quiet str node_id k previous now x current d quiet)
              (compare_fields_total node_id previous now current d)
        | inr (drift, e) ↦
            rw (compare_fields_drifting str node_id k previous now x current d drift e) (
              omega (
                arith,
                compare_fields_total node_id previous now current (append_drift node_id drift d),
                total-append_drift node_id drift d,
              ))
      ]

  -- what a call adds to the total
  abbrev Counts : ConfigDriftDetector → ConfigDriftDetector × List Drift → Type 0
  Counts d (d', drifts) = d'.total_drifts ≡ d.total_drifts + length drifts

  total-make_room : (d : ConfigDriftDetector) → (make_room d).total_drifts ≡ d.total_drifts
  unfolding make_room
  total-make_room d =
      if_both (λ (x : ConfigDriftDetector). x.total_drifts ≡ d.total_drifts)
        (leb d.max_nodes (length d.snapshots)) (evict_oldest d) d
        (unfold evict_oldest in ground arith) refl

  check_current-Counts :
      (node_id : String) (current : Dict ConfigValue) (now : ℕ) (d : ConfigDriftDetector)
      → Counts d (check_current str node_id current now d)
  unfolding check_known check_new
  check_current-Counts node_id current now d = elim (Option-cases (lookup node_id d.snapshots)) [
    | inl fresh ↦
        rw (check_current_new str node_id current now d fresh) (omega (arith, total-make_room d))
    | inr (previous, known) ↦
        rw (check_current_known str node_id current now d previous known)
          (compare_fields_total node_id previous.fields now current d)
  ]

  step-Counts : (d : ConfigDriftDetector) (e : Event) → Counts d (step str d e)
  unfolding step check_node remove_node
  step-Counts d (check node_id fields now) =
      if_both (Counts d) (length (current_of fields) == 0) (d, [])
        (check_current str node_id (current_of fields) now d) (omega arith)
        (check_current-Counts node_id (current_of fields) now d)
  step-Counts d (remove node_id) = omega arith

  -- `total_drifts` counts the drifts that were reported, evicted and removed nodes included.
  pub total_drifts_counts :
      (d : ConfigDriftDetector) (events : List Event)
      → (run str d events).0.total_drifts ≡ d.total_drifts + length (run str d events).1
  unfolding run
  total_drifts_counts d [] = omega arith
  total_drifts_counts d (e ∷ events) = omega (
    arith,
    step-Counts d e,
    total_drifts_counts (step str d e).0 events,
    length-append (step str d e).1 (run str (step str d e).0 events).1,
  )
