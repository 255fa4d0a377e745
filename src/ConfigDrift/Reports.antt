-- ===== src/ConfigDrift/Reports.antt =====
-- src/utils/config_drift.py, `check_node`: which drifts it reports.
use meshforge_maps.Base.{
  ℕ, ◌≡◌, refl, ◌∙◌, sym, ap, String, Bool, true, false, Option, none, some, List, [], ◌∷◌, arith,
  ◌==◌, not, ◌||◌, str_eq, str_eq_iff, length, Bool-cases, Option-cases, if_split, inl, inr,
}
use meshforge_maps.Dict.{Dict, lookup, IsDistinct}
use meshforge_maps.ConfigDrift.{
  DriftSeverity, ConfigValue, Drift, ConfigDriftDetector, tracked_fields, is_tracked,
  normalize_value, append_drift, drift_of, drift_with, compare_fields, check_known, check_current,
  check_node, current_of,
}
use meshforge_maps.ConfigDrift.Invariant.{check_current_new, check_current_known}
use meshforge_maps.ConfigDrift.Memory.{
  latest, given, lookup-current_of, field_of, IsDistinct-current_of, field_of-known,
  field_of-unknown, is_empty_lem, check_node_remembers,
}

-- a drift of this field is among the drifts
abbrev pub reported : String → List Drift → Bool
reported k [] = false
reported k (drift ∷ drifts) = str_eq drift.field k || reported k drifts

is_tracked_lem :
    (k : String)
    → is_tracked k ≡ true
    → (severity : DriftSeverity) × (lookup k tracked_fields ≡ some severity)
unfolding is_tracked
is_tracked_lem k h = elim (Option-cases (lookup k tracked_fields)) [
  | inl missing ↦ absurd (ground (arith, missing, h))
  | inr known ↦ known
]

AllTracked : Dict ConfigValue → Type 0
AllTracked [] = Unit
AllTracked ((k, x) ∷ current) = (is_tracked k ≡ true) × AllTracked current

current_of-AllTracked : (fields : Dict (Option ConfigValue)) → AllTracked (current_of fields)
unfolding current_of AllTracked
current_of-AllTracked [] = tt
current_of-AllTracked ((j, none) ∷ fields) = current_of-AllTracked fields
current_of-AllTracked ((j, some x) ∷ fields) =
    if_split AllTracked (is_tracked j) ((j, x) ∷ current_of fields) (current_of fields)
      (λ tracked. (tracked, current_of-AllTracked fields)) (λ other. current_of-AllTracked fields)

module _ (str : ConfigValue → String) where
  -- two readings of a field are there and differ once normalised
  abbrev pub differs : Option ConfigValue → Option ConfigValue → Bool
  differs (some old_value) (some new_value) =
      not (str_eq (normalize_value str old_value) (normalize_value str new_value))
  differs _ _ = false

  drift_of-same :
      (node_id k : String) (previous : Dict ConfigValue) (now : ℕ) (x : ConfigValue)
      → differs (lookup k previous) (some x) ≡ false
      → drift_of str node_id previous now k x ≡ none
  unfolding drift_of
  drift_of-same node_id k previous now x same = elim (Option-cases (lookup k previous)) [
    | inl missing ↦ rw (drift_of, missing) refl
    | inr (old_value, known) ↦
        let equal : str_eq (normalize_value str old_value) (normalize_value str x) ≡ true =
          ground (arith, same, known) in
        rw (drift_of, known) (rw equal refl)
  ]

  -- a field that is tracked and differs drifts
  drift_of-differs :
      (node_id k : String) (previous : Dict ConfigValue) (now : ℕ) (x : ConfigValue)
      → is_tracked k ≡ true
      → differs (lookup k previous) (some x) ≡ true
      → (drift : Drift) × (drift_of str node_id previous now k x ≡ some drift) × (drift.field ≡ k)
  unfolding drift_of
  drift_of-differs node_id k previous now x tracked other =
      elim (Option-cases (lookup k previous)) [
        | inl missing ↦ absurd (ground (arith, other, missing))
        | inr (old_value, known) ↦
            let unequal : str_eq (normalize_value str old_value) (normalize_value str x) ≡ false =
              ground (arith, other, known) in
            let (severity, e) = is_tracked_lem k tracked in
            (
              drift_with node_id k old_value x severity now,
              rw (drift_of, known) (rw unequal (rw e refl)),
              refl,
            )
      ]

  pub compare_fields_quiet :
      (node_id k : String) (previous : Dict ConfigValue) (now : ℕ) (x : ConfigValue)
      (current : Dict ConfigValue) (d : ConfigDriftDetector)
      → drift_of str node_id previous now k x ≡ none
      → compare_fields str node_id previous now ((k, x) ∷ current) d
        ≡ compare_fields str node_id previous now current d
  unfolding compare_fields
  compare_fields_quiet node_id k previous now x current d e = rw (compare_fields, e) refl

  pub compare_fields_drifting :
      (node_id k : String) (previous : Dict ConfigValue) (now : ℕ) (x : ConfigValue)
      (current : Dict ConfigValue) (d : ConfigDriftDetector) (drift : Drift)
      → drift_of str node_id previous now k x ≡ some drift
      → compare_fields str node_id previous now ((k, x) ∷ current) d ≡ (
          let r = compare_fields str node_id previous now current (append_drift node_id drift d) in
          (r.0, drift ∷ r.1))
  unfolding compare_fields
  compare_fields_drifting node_id k previous now x current d drift e = rw (compare_fields, e) refl

  reported-compare_fields :
      (node_id k : String) (previous : Dict ConfigValue) (now : ℕ) (current : Dict ConfigValue)
      (d : ConfigDriftDetector)
      → IsDistinct current
      → AllTracked current
      → reported k (compare_fields str node_id previous now current d).1
        ≡ differs (lookup k previous) (lookup k current)
  unfolding lookup AllTracked
  reported-compare_fields node_id k previous now [] d h tracked =
      unfold compare_fields in ground arith
  reported-compare_fields node_id k previous now ((j, x) ∷ current) d h tracked =
      elim (Bool-cases (differs (lookup j previous) (some x))) [
        | inl other ↦
            let (drift, e, field) = drift_of-differs node_id j previous now x tracked.0 other in
            let rest =
              reported-compare_fields node_id k previous now current (append_drift node_id drift d)
                h.1 tracked.1 in
            rw (compare_fields_drifting node_id j previous now x current d drift e)
              (ground (arith, rest, field, other, str_eq_iff j k, h.0))
        | inr same ↦
            let rest = reported-compare_fields node_id k previous now current d h.1 tracked.1 in
            rw
              (compare_fields_quiet node_id j previous now x current d
                (drift_of-same node_id j previous now x same))
              (ground (arith, rest, same, str_eq_iff j k, h.0))
      ]

  check_current_reports :
      (k node_id : String) (current : Dict ConfigValue) (now : ℕ) (d : ConfigDriftDetector)
      → IsDistinct current
      → AllTracked current
      → reported k (check_current str node_id current now d).1
        ≡ differs (field_of k node_id d) (lookup k current)
  unfolding check_known
  check_current_reports k node_id current now d h tracked =
      elim (Option-cases (lookup node_id d.snapshots)) [
        | inl fresh ↦
            rw (check_current_new str node_id current now d fresh)
              (ground (arith, field_of-unknown k node_id d fresh))
        | inr (previous, known) ↦
            rw (check_current_known str node_id current now d previous known) (
              reported-compare_fields node_id k previous.fields now current d h tracked
              ∙ ap (λ o. differs o (lookup k current))
                  (sym (field_of-known k node_id previous d known)))
      ]

  -- For fields with distinct names, a check reports a field exactly if the node had a value for it,
  -- the call gives one, the field is tracked, and the two differ once normalised; so it reports
  -- nothing for a node that is new.
  pub check_node_reports :
      (k node_id : String) (fields : Dict (Option ConfigValue)) (now : ℕ) (d : ConfigDriftDetector)
      → IsDistinct fields
      → reported k (check_node str node_id fields now d).1
        ≡ differs (field_of k node_id d) (given k fields)
  unfolding check_node
  check_node_reports k node_id fields now d h = rw (← lookup-current_of k fields h) (
      if_split
        (λ (x : ConfigDriftDetector × List Drift).
          reported k x.1 ≡ differs (field_of k node_id d) (lookup k (current_of fields)))
        (length (current_of fields) == 0) (d, [])
        (check_current str node_id (current_of fields) now d)
        (λ empty. ground (arith, is_empty_lem k (current_of fields) empty))
        (λ some_fields.
          check_current_reports k node_id (current_of fields) now d (IsDistinct-current_of fields h)
            (current_of-AllTracked fields)))

  none_reported : (drifts : List Drift) → ((k : String) → reported k drifts ≡ false) → drifts ≡ []
  none_reported [] h = refl
  none_reported (drift ∷ drifts) h =
      absurd (ground (arith, h drift.field, str_eq_iff drift.field drift.field))

  differs-latest :
      (new_value old_value : Option ConfigValue)
      → differs (latest new_value old_value) new_value ≡ false
  differs-latest none none = refl
  differs-latest none (some y) = refl
  differs-latest (some x) old_value =
      ground (arith, str_eq_iff (normalize_value str x) (normalize_value str x))

  -- For fields with distinct names, a second check of a node with the same fields reports nothing,
  -- whatever the first one found.
  pub recheck_quiet :
      (node_id : String) (fields : Dict (Option ConfigValue)) (now later : ℕ)
      (d : ConfigDriftDetector)
      → IsDistinct fields
      → (check_node str node_id fields later (check_node str node_id fields now d).0).1 ≡ []
  recheck_quiet node_id fields now later d h = none_reported _ (λ k.
      check_node_reports k node_id fields later (check_node str node_id fields now d).0 h
      ∙ ap (λ o. differs o (given k fields)) (check_node_remembers str k node_id fields now d h)
      ∙ differs-latest (given k fields) (field_of k node_id d))
