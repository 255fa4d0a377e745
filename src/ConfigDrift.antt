-- ===== src/ConfigDrift.antt =====
-- src/utils/config_drift.py: the last known configuration of each node, and the changes in it.
-- `str` is Python's `str` on a configuration value, a parameter. A float is finite, in units of 10⁻⁷
-- (`int()` raises on others). The keys `_first_seen` and `_last_seen` of a snapshot, which are not
-- tracked fields, are fields of a record. `now` is the clock value of the call. The callback
-- `on_drift` has no effect on the detector (its exceptions are caught): it gets the drifts that
-- `check_node` returns.
pub mod Validity
pub mod Invariant
pub mod Memory
pub mod Reports
pub mod Totals
use meshforge_maps.Base.{
  ℕ, suc, ◌+◌, ◌*◌, ◌-◌, ◌/◌, ◌%◌, String, Bool, true, false, Option, none, some, List, [], ◌∷◌,
  ◌++◌, ltb, leb, ◌==◌, not, ◌&&◌, ◌||◌, if◌then◌else◌, length, push, get_or, is_some, filter,
  str_eq,
}
use meshforge_maps.Int.{ℤ, pos, negsuc}
use meshforge_maps.Dict.{Dict, lookup, contains, insert, erase}
use meshforge_maps.Dict.Evict.{oldest}

pub data DriftSeverity : Type 0 where
  info warning critical : DriftSeverity

-- `DriftSeverity.value`
abbrev pub severity_value : DriftSeverity → String
severity_value info = "info"
severity_value warning = "warning"
severity_value critical = "critical"

pub data ConfigValue : Type 0 where
  text : String → ConfigValue
  whole : ℤ → ConfigValue
  float : ℤ → ConfigValue  -- in units of 10⁻⁷
  boolean : Bool → ConfigValue

-- `TRACKED_FIELDS`
abbrev pub tracked_fields : Dict DriftSeverity
tracked_fields =
    ("role", warning)
    ∷ ("hardware", warning)
    ∷ ("name", info)
    ∷ ("short_name", info)
    ∷ ("region", critical)
    ∷ ("modem_preset", critical)
    ∷ ("hop_limit", warning)
    ∷ ("tx_power", warning)
    ∷ ("tx_enabled", warning)
    ∷ ("channel_name", critical)
    ∷ ("uplink_enabled", info)
    ∷ ("downlink_enabled", info)
    ∷ []

pub record Snapshot : Type 0 where
  pub fields : Dict ConfigValue
  pub first_seen : ℕ
  pub last_seen : ℕ

pub record Drift : Type 0 where
  pub node_id : String
  pub field : String
  pub old_value : ConfigValue
  pub new_value : ConfigValue
  pub severity : String
  pub timestamp : ℕ

pub record ConfigDriftDetector : Type 0 where
  pub snapshots : Dict Snapshot
  pub drift_history : Dict (List Drift)
  pub max_history : ℕ
  pub max_nodes : ℕ
  pub total_drifts : ℕ

unfoldable pub create : ℕ → ℕ → ConfigDriftDetector
create max_history max_nodes = record {
  snapshots = [];
  drift_history = [];
  max_history = max_history;
  max_nodes = max_nodes;
  total_drifts = 0;
}

abbrev pub float_unit : ℕ
float_unit = 10_000_000

-- int(value), if that is equal to the value
unfoldable pub whole_part : ℤ → Option ℤ
whole_part (pos n) = if n % float_unit == 0 then some (pos (n / float_unit)) else none
whole_part (negsuc n) =
    if suc n % float_unit == 0 then some (negsuc (suc n / float_unit - 1)) else none

-- `k in TRACKED_FIELDS`
unfoldable pub is_tracked : String → Bool
is_tracked k = contains k tracked_fields

-- the keyword arguments that are tracked and not None
unfoldable pub current_of : Dict (Option ConfigValue) → Dict ConfigValue
current_of [] = []
current_of ((k, v) ∷ fields) =
    let rest = current_of fields in
    elim v [ none ↦ rest | some x ↦ if is_tracked k then (k, x) ∷ rest else rest ]

-- `d.update(other)`
unfoldable pub update : Dict ConfigValue → Dict ConfigValue → Dict ConfigValue
update d [] = d
update d ((k, v) ∷ other) = update (insert k v d) other

-- history.append(drift), for a history that is made on the first drift
unfoldable pub append_drift : String → Drift → ConfigDriftDetector → ConfigDriftDetector
append_drift node_id drift d = record d {
  total_drifts = d.total_drifts + 1;
  drift_history =
      insert node_id (push d.max_history (get_or (lookup node_id d.drift_history) []) drift)
        d.drift_history;
}

-- `_evict_oldest_locked`
unfoldable pub evict_oldest : ConfigDriftDetector → ConfigDriftDetector
evict_oldest d = elim (oldest (λ (s : Snapshot). s.last_seen) d.snapshots) [
  | none ↦ d
  | some oldest_id ↦ record d {
    snapshots = erase oldest_id d.snapshots;
    drift_history = erase oldest_id d.drift_history;
  }
]

unfoldable pub make_room : ConfigDriftDetector → ConfigDriftDetector
make_room d = if leb d.max_nodes (length d.snapshots) then evict_oldest d else d

-- the branch of `check_node` on a node without a snapshot
unfoldable pub check_new : String → Dict ConfigValue → ℕ → ConfigDriftDetector → ConfigDriftDetector
check_new node_id current now d =
    let d' = make_room d in
    record d' {
      snapshots =
          insert node_id (record { fields = current; first_seen = now; last_seen = now })
            d'.snapshots;
    }

abbrev pub drift_with : String → String → ConfigValue → ConfigValue → DriftSeverity → ℕ → Drift
drift_with node_id field old_value new_value severity now = record {
  node_id = node_id;
  field = field;
  old_value = old_value;
  new_value = new_value;
  severity = severity_value severity;
  timestamp = now;
}

module _ (str : ConfigValue → String) where
  -- `_normalize_value`
  unfoldable pub normalize_value : ConfigValue → String
  normalize_value (float x) = elim (whole_part x) [ none ↦ str (float x) | some n ↦ str (whole n) ]
  normalize_value v = str v

  -- the drift of one field, if it has one; a field without an old value has none
  unfoldable pub drift_of : String → Dict ConfigValue → ℕ → String → ConfigValue → Option Drift
  drift_of node_id previous now field new_value = elim (lookup field previous) [
    | none ↦ none
    | some old_value ↦
        if str_eq (normalize_value old_value) (normalize_value new_value)
        then none
        else elim (lookup field tracked_fields) [
          | none ↦ none
          | some severity ↦ some (drift_with node_id field old_value new_value severity now)
        ]
  ]

  -- the loop of `check_node` over the current fields
  unfoldable pub compare_fields :
      String
      → Dict ConfigValue
      → ℕ
      → Dict ConfigValue
      → ConfigDriftDetector
      → ConfigDriftDetector × List Drift
  compare_fields node_id previous now [] d = (d, [])
  compare_fields node_id previous now ((field, new_value) ∷ current) d =
      elim (drift_of node_id previous now field new_value) [
        | none ↦ compare_fields node_id previous now current d
        | some drift ↦
            let (d', drifts) =
              compare_fields node_id previous now current (append_drift node_id drift d) in
            (d', drift ∷ drifts)
      ]

  -- the branch of `check_node` on a node with a snapshot
  unfoldable pub check_known :
      String
      → Dict ConfigValue
      → ℕ
      → Snapshot
      → ConfigDriftDetector
      → ConfigDriftDetector × List Drift
  check_known node_id current now previous d =
      let (d', drifts) = compare_fields node_id previous.fields now current d in
      let seen = record previous { fields = update previous.fields current; last_seen = now } in
      (record d' { snapshots = insert node_id seen d'.snapshots }, drifts)

  unfoldable pub check_current :
      String → Dict ConfigValue → ℕ → ConfigDriftDetector → ConfigDriftDetector × List Drift
  check_current node_id current now d = elim (lookup node_id d.snapshots) [
    | none ↦ (check_new node_id current now d, [])
    | some previous ↦ check_known node_id current now previous d
  ]

  unfoldable pub check_node :
      String
      → Dict (Option ConfigValue)
      → ℕ
      → ConfigDriftDetector
      → ConfigDriftDetector × List Drift
  check_node node_id fields now d =
      let current = current_of fields in
      if length current == 0 then (d, []) else check_current node_id current now d

unfoldable pub remove_node : String → ConfigDriftDetector → ConfigDriftDetector
remove_node node_id d = record d {
  snapshots = erase node_id d.snapshots;
  drift_history = erase node_id d.drift_history;
}

unfoldable pub get_node_drift_history : String → ConfigDriftDetector → List Drift
get_node_drift_history node_id d = get_or (lookup node_id d.drift_history) []

-- the two filters of `get_all_drifts`; an empty severity lets every drift through
abbrev pub wanted : Option ℕ → Option String → Drift → Bool
wanted since severity drift =
    not (elim since [ none ↦ false | some t ↦ ltb drift.timestamp t ])
    && elim severity [ none ↦ true | some s ↦ str_eq s "" || str_eq drift.severity s ]

-- sort(key=timestamp, reverse=True), which keeps the order of equal timestamps
unfoldable pub insert_drift : Drift → List Drift → List Drift
insert_drift x [] = x ∷ []
insert_drift x (y ∷ drifts) =
    if leb y.timestamp x.timestamp then x ∷ y ∷ drifts else y ∷ insert_drift x drifts

unfoldable pub sort_drifts : List Drift → List Drift
sort_drifts [] = []
sort_drifts (x ∷ drifts) = insert_drift x (sort_drifts drifts)

unfoldable pub all_drifts : Dict (List Drift) → List Drift
all_drifts [] = []
all_drifts ((node_id, history) ∷ d) = history ++ all_drifts d

unfoldable pub get_all_drifts : Option ℕ → Option String → ConfigDriftDetector → List Drift
get_all_drifts since severity d =
    sort_drifts (filter (wanted since severity) (all_drifts d.drift_history))
