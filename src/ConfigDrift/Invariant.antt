-- ===== src/ConfigDrift/Invariant.antt =====
-- src/utils/config_drift.py: what holds of the detector between two calls.
use meshforge_maps.Base.{
  ℕ, ◌≤◌, ◌≡◌, refl, String, true, Option, none, some, List, [], ◌∷◌, ◌++◌, arith, ◌==◌, length,
  Option-cases, if_both, inl, inr,
}
use meshforge_maps.Dict.{Dict, lookup, contains, insert, length-insert}
use meshforge_maps.ConfigDrift.{
  ConfigValue, Snapshot, Drift, ConfigDriftDetector, append_drift, make_room, check_new, drift_of,
  compare_fields, check_known, check_current, check_node, remove_node, current_of, update,
}
use meshforge_maps.ConfigDrift.Validity.{
  IsValid, length-drift_history, drop_node-IsValid, make_room-IsValid, store-IsValid,
  append_drift-IsValid,
}

check_new-IsValid :
    (node_id : String) (current : Dict ConfigValue) (now : ℕ) (d : ConfigDriftDetector)
    → IsValid d
    → IsValid (check_new node_id current now d)
unfolding check_new
check_new-IsValid node_id current now d v =
    let (v', room) = make_room-IsValid d v in
    store-IsValid (make_room d) node_id _ v' (
      ground (
        arith,
        room,
        length-insert node_id (record { fields = current; first_seen = now; last_seen = now })
            (make_room d).snapshots,
      ))

remove_node-IsValid :
    (node_id : String) (d : ConfigDriftDetector) → IsValid d → IsValid (remove_node node_id d)
unfolding remove_node
remove_node-IsValid node_id d v = drop_node-IsValid d node_id v

length-insert_known {ℓ} :
    {V : Type ℓ} (k : String) (x : V) (d : Dict V)
    → contains k d ≡ true
    → length (insert k x d) ≡ length d
length-insert_known k x d there = ground (arith, length-insert k x d)

module _ (str : ConfigValue → String) where
  compare_fields-IsValid :
      (node_id : String) (previous : Dict ConfigValue) (now : ℕ) (current : Dict ConfigValue)
      (d : ConfigDriftDetector)
      → IsValid d
      → contains node_id d.snapshots ≡ true
      → IsValid (compare_fields str node_id previous now current d).0
        × (contains node_id (compare_fields str node_id previous now current d).0.snapshots ≡ true)
  unfolding compare_fields
  compare_fields-IsValid node_id previous now [] d v there = (v, there)
  compare_fields-IsValid node_id previous now ((field, x) ∷ current) d v there =
      elim (drift_of str node_id previous now field x)
        as (λ o.
          IsValid
            (elim o as (λ _. ConfigDriftDetector × List Drift) [
              | none ↦ compare_fields str node_id previous now current d
              | some drift ↦ (
                (compare_fields str node_id previous now current (append_drift node_id drift d)).0,
                drift
                    ∷ (compare_fields str node_id previous now current
                        (append_drift node_id drift d)).1,
              )
            ]).0
          × (contains node_id
                (elim o as (λ _. ConfigDriftDetector × List Drift) [
                  | none ↦ compare_fields str node_id previous now current d
                  | some drift ↦ (
                    (compare_fields str node_id previous now current
                        (append_drift node_id drift d)).0,
                    drift
                        ∷ (compare_fields str node_id previous now current
                            (append_drift node_id drift d)).1,
                  )
                ]).0.snapshots
              ≡ true)) [
                | none ↦ compare_fields-IsValid node_id previous now current d v there
                | some drift ↦
                    compare_fields-IsValid node_id previous now current
                      (append_drift node_id drift d) (append_drift-IsValid d node_id drift v there)
                      (unfold append_drift in there)
              ]

  check_known-IsValid :
      (node_id : String) (current : Dict ConfigValue) (now : ℕ) (previous : Snapshot)
      (d : ConfigDriftDetector)
      → IsValid d
      → contains node_id d.snapshots ≡ true
      → IsValid (check_known str node_id current now previous d).0
  unfolding check_known
  check_known-IsValid node_id current now previous d v there =
      let d' = (compare_fields str node_id previous.fields now current d).0 in
      let (v', there') = compare_fields-IsValid node_id previous.fields now current d v there in
      let seen = record previous { fields = update previous.fields current; last_seen = now } in
      store-IsValid d' node_id seen v'
        (omega (arith, length-insert_known node_id seen d'.snapshots there', v'.bounded))

  pub check_current_new :
      (node_id : String) (current : Dict ConfigValue) (now : ℕ) (d : ConfigDriftDetector)
      → lookup node_id d.snapshots ≡ none
      → check_current str node_id current now d ≡ (check_new node_id current now d, [])
  unfolding check_current
  check_current_new node_id current now d e = rw (check_current, e) refl

  pub check_current_known :
      (node_id : String) (current : Dict ConfigValue) (now : ℕ) (d : ConfigDriftDetector)
      (previous : Snapshot)
      → lookup node_id d.snapshots ≡ some previous
      → check_current str node_id current now d ≡ check_known str node_id current now previous d
  unfolding check_current
  check_current_known node_id current now d previous e = rw (check_current, e) refl

  check_current-IsValid :
      (node_id : String) (current : Dict ConfigValue) (now : ℕ) (d : ConfigDriftDetector)
      → IsValid d
      → IsValid (check_current str node_id current now d).0
  check_current-IsValid node_id current now d v = elim (Option-cases (lookup node_id d.snapshots)) [
    | inl fresh ↦
        rw (check_current_new node_id current now d fresh)
          (check_new-IsValid node_id current now d v)
    | inr (previous, known) ↦
        rw (check_current_known node_id current now d previous known)
          (check_known-IsValid node_id current now previous d v (rw known refl))
  ]

  pub check_node-IsValid :
      (node_id : String) (fields : Dict (Option ConfigValue)) (now : ℕ) (d : ConfigDriftDetector)
      → IsValid d
      → IsValid (check_node str node_id fields now d).0
  unfolding check_node
  check_node-IsValid node_id fields now d v =
      if_both (λ (x : ConfigDriftDetector × List Drift). IsValid x.0)
        (length (current_of fields) == 0) (d, [])
        (check_current str node_id (current_of fields) now d) v
        (check_current-IsValid node_id (current_of fields) now d v)

pub data Event : Type 0 where
  check : String → Dict (Option ConfigValue) → ℕ → Event
  remove : String → Event

unfoldable pub step :
    (ConfigValue → String) → ConfigDriftDetector → Event → ConfigDriftDetector × List Drift
step str d (check node_id fields now) = check_node str node_id fields now d
step str d (remove node_id) = (remove_node node_id d, [])

-- a run, with the drifts that it reports
unfoldable pub run :
    (ConfigValue → String) → ConfigDriftDetector → List Event → ConfigDriftDetector × List Drift
run str d [] = (d, [])
run str d (e ∷ events) =
    let (d', drifts) = step str d e in
    let (d'', later) = run str d' events in (d'', drifts ++ later)

step-IsValid :
    (str : ConfigValue → String) (d : ConfigDriftDetector) (e : Event)
    → IsValid d
    → IsValid (step str d e).0
unfolding step
step-IsValid str d (check node_id fields now) v = check_node-IsValid str node_id fields now d v
step-IsValid str d (remove node_id) v = remove_node-IsValid node_id d v

run-IsValid' :
    (str : ConfigValue → String) (d : ConfigDriftDetector) (events : List Event)
    → IsValid d
    → IsValid (run str d events).0
unfolding run
run-IsValid' str d [] v = v
run-IsValid' str d (e ∷ events) v =
    run-IsValid' str (step str d e).0 events (step-IsValid str d e v)

-- Whatever is checked and removed, a valid detector stays valid: no more nodes than `max_nodes`, a
-- drift history for none but these, and between 1 and `max_history` drifts in each history.
pub detector_stays-IsValid :
    (str : ConfigValue → String) (d : ConfigDriftDetector) (events : List Event)
    → IsValid d
    → IsValid (run str d events).0
      × (length (run str d events).0.drift_history ≤ (run str d events).0.max_nodes)
detector_stays-IsValid str d events v =
    let v' = run-IsValid' str d events v in (v', length-drift_history _ v')
