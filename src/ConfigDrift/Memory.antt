-- ===== src/ConfigDrift/Memory.antt =====
-- src/utils/config_drift.py, `check_node`: what it remembers of a node.
use meshforge_maps.Base.{
  ℕ, ◌≡◌, refl, ◌∙◌, sym, ap, String, true, Option, none, some, List, [], ◌∷◌, arith, ◌==◌,
  str_eq_iff, if◌then◌else◌, length, get_or, Option-cases, if_both, if_split, inl, inr,
}
use meshforge_maps.Dict.{Dict, lookup, insert, lookup-insert, lookup-insert_self, IsDistinct}
use meshforge_maps.ConfigDrift.{
  ConfigValue, Snapshot, Drift, ConfigDriftDetector, is_tracked, make_room, check_new,
  compare_fields, check_known, check_current, check_node, current_of, update,
}
use meshforge_maps.ConfigDrift.Invariant.{check_current_new, check_current_known}

-- the latest of two readings of a field
abbrev pub latest : Option ConfigValue → Option ConfigValue → Option ConfigValue
latest none old = old
latest (some x) old = some x

pub lookup-update :
    (k : String) (d other : Dict ConfigValue)
    → IsDistinct other
    → lookup k (update d other) ≡ latest (lookup k other) (lookup k d)
unfolding update lookup
lookup-update k d [] h = refl
lookup-update k d ((j, x) ∷ other) h =
    ground
      (arith, lookup-update k (insert j x d) other h.1, lookup-insert j k x d, str_eq_iff j k, h.0)

-- what a call gives for a field: nothing, for one that is not tracked
abbrev pub given : String → Dict (Option ConfigValue) → Option ConfigValue
given k fields = if is_tracked k then get_or (lookup k fields) none else none

pub lookup-current_of :
    (k : String) (fields : Dict (Option ConfigValue))
    → IsDistinct fields
    → lookup k (current_of fields) ≡ given k fields
unfolding current_of lookup
lookup-current_of k [] h = ground arith
lookup-current_of k ((j, none) ∷ fields) h =
    ground (arith, lookup-current_of k fields h.1, str_eq_iff j k, h.0)
lookup-current_of k ((j, some x) ∷ fields) h =
    ground (arith, lookup-current_of k fields h.1, str_eq_iff j k, h.0)

-- the last known value of a node's field
abbrev pub field_of : String → String → ConfigDriftDetector → Option ConfigValue
field_of k node_id d = elim (lookup node_id d.snapshots) [
  | none ↦ none
  | some s ↦ lookup k s.fields
]

pub IsDistinct-current_of :
    (fields : Dict (Option ConfigValue)) → IsDistinct fields → IsDistinct (current_of fields)
unfolding current_of lookup
IsDistinct-current_of [] h = tt
IsDistinct-current_of ((j, none) ∷ fields) h = IsDistinct-current_of fields h.1
IsDistinct-current_of ((j, some x) ∷ fields) h =
    if_both IsDistinct (is_tracked j) ((j, x) ∷ current_of fields) (current_of fields)
      (ground (arith, lookup-current_of j fields h.1, h.0), IsDistinct-current_of fields h.1)
      (IsDistinct-current_of fields h.1)

field_of-insert :
    (k node_id : String) (s : Snapshot) (d : ConfigDriftDetector)
    → field_of k node_id (record d { snapshots = insert node_id s d.snapshots }) ≡ lookup k s.fields
field_of-insert k node_id s d = rw (lookup-insert_self node_id s d.snapshots, field_of) refl

pub field_of-known :
    (k node_id : String) (s : Snapshot) (d : ConfigDriftDetector)
    → lookup node_id d.snapshots ≡ some s
    → field_of k node_id d ≡ lookup k s.fields
field_of-known k node_id s d e = rw (e, field_of) refl

pub field_of-unknown :
    (k node_id : String) (d : ConfigDriftDetector)
    → lookup node_id d.snapshots ≡ none
    → field_of k node_id d ≡ none
field_of-unknown k node_id d e = rw (e, field_of) refl

pub is_empty_lem :
    (k : String) (current : Dict ConfigValue)
    → (length current == 0) ≡ true
    → lookup k current ≡ none
unfolding lookup
is_empty_lem k [] h = refl
is_empty_lem k (e ∷ current) h = absurd (ground arith)

module _ (str : ConfigValue → String) where
  check_current_remembers :
      (k node_id : String) (current : Dict ConfigValue) (now : ℕ) (d : ConfigDriftDetector)
      → IsDistinct current
      → field_of k node_id (check_current str node_id current now d).0
        ≡ latest (lookup k current) (field_of k node_id d)
  unfolding check_known check_new
  check_current_remembers k node_id current now d h =
      elim (Option-cases (lookup node_id d.snapshots)) [
        | inl fresh ↦ rw (check_current_new str node_id current now d fresh) (
            field_of-insert k node_id
              (record { fields = current; first_seen = now; last_seen = now }) (make_room d)
            ∙ ground (arith, field_of-unknown k node_id d fresh))
        | inr (previous, known) ↦
            rw (check_current_known str node_id current now d previous known) (
              field_of-insert k node_id
                (record previous { fields = update previous.fields current; last_seen = now })
                (compare_fields str node_id previous.fields now current d).0
              ∙ lookup-update k previous.fields current h
              ∙ ap (latest (lookup k current)) (sym (field_of-known k node_id previous d known)))
      ]

  -- For fields with distinct names, after a check every field of the node has the value that the
  -- call gives for it, and its old value where the call gives none, whether the node was known or
  -- not.
  pub check_node_remembers :
      (k node_id : String) (fields : Dict (Option ConfigValue)) (now : ℕ) (d : ConfigDriftDetector)
      → IsDistinct fields
      → field_of k node_id (check_node str node_id fields now d).0
        ≡ latest (given k fields) (field_of k node_id d)
  unfolding check_node
  check_node_remembers k node_id fields now d h = rw (← lookup-current_of k fields h) (
      if_split
        (λ (x : ConfigDriftDetector × List Drift).
          field_of k node_id x.0 ≡ latest (lookup k (current_of fields)) (field_of k node_id d))
        (length (current_of fields) == 0) (d, [])
        (check_current str node_id (current_of fields) now d)
        (λ empty.
          ap (λ o. latest o (field_of k node_id d))
            (sym (is_empty_lem k (current_of fields) empty)))
        (λ some_fields.
          check_current_remembers k node_id (current_of fields) now d
            (IsDistinct-current_of fields h)))
