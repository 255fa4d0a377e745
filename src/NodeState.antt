-- ===== src/NodeState.antt =====
-- src/utils/node_state.py: the connectivity state machine of the nodes.
-- Timestamps, intervals and thresholds are whole numbers of one unit of time. A comparison of a
-- difference, `now - seen > limit`, is written `seen + limit < now`, which is the same for any sign of
-- the difference. The ratio of gaps is kept in units of 10⁻⁷. The callback `on_transition` has no
-- effect on the tracker (its exceptions are caught): the calls made to it are returned.
pub mod Classify
pub mod Invariant
pub mod Sweep
pub mod Events
use meshforge_maps.Base.{
  ℕ, suc, ◌+◌, ◌*◌, ◌-◌, String, Bool, true, false, Option, none, some, List, [], ◌∷◌, ltb, leb,
  ◌==◌, not, ◌&&◌, if◌then◌else◌, length, push, filter, count, get_or, map,
}
use meshforge_maps.Dict.{Dict, lookup, contains, insert, erase}
use meshforge_maps.Dict.Evict.{insert_bounded}

pub data NodeState : Type 0 where
  new stable intermittent offline : NodeState

abbrev pub same_state : NodeState → NodeState → Bool
same_state new new = true
same_state stable stable = true
same_state intermittent intermittent = true
same_state offline offline = true
same_state _ _ = false

pub record NodeStateEntry : Type 0 where
  pub node_id : String
  pub state : NodeState
  pub heartbeats : List ℕ
  pub first_seen : ℕ
  pub last_seen : ℕ
  pub transition_count : ℕ
  pub last_transition : ℕ

pub record NodeStateTracker : Type 0 where
  pub expected_interval : ℕ
  pub offline_threshold : ℕ
  pub intermittent_ratio : ℕ  -- in units of 10⁻⁷
  pub heartbeat_window : ℕ
  pub max_nodes : ℕ
  pub nodes : Dict NodeStateEntry
  pub total_transitions : ℕ

abbrev pub ratio_unit : ℕ
ratio_unit = 10_000_000

-- `NodeStateEntry(node_id, timestamp, max_window)`
unfoldable pub new_entry : String → ℕ → ℕ → NodeStateEntry
new_entry node_id timestamp max_window = record {
  node_id = node_id;
  state = new;
  heartbeats = push max_window [] timestamp;
  first_seen = timestamp;
  last_seen = timestamp;
  transition_count = 0;
  last_transition = timestamp;
}

unfoldable pub add_heartbeat : ℕ → ℕ → NodeStateEntry → NodeStateEntry
add_heartbeat timestamp max_window e = record e {
  heartbeats = push max_window e.heartbeats timestamp;
  last_seen = timestamp;
}

-- the number of intervals that are longer than `gap_threshold`
unfoldable pub count_gaps : ℕ → List ℕ → ℕ
count_gaps gap_threshold [] = 0
count_gaps gap_threshold (x ∷ []) = 0
count_gaps gap_threshold (x ∷ y ∷ rest) =
    (if ltb (x + gap_threshold) y then 1 else 0) + count_gaps gap_threshold (y ∷ rest)

-- `gap_ratio` as a fraction: the gaps, over the number of intervals; 0 over 1 without an interval
unfoldable pub gap_ratio : ℕ → NodeStateEntry → ℕ × ℕ
gap_ratio expected_interval e =
    if ltb (length e.heartbeats) 2
    then (0, 1)
    else (count_gaps (expected_interval * 2) e.heartbeats, length e.heartbeats - 1)

-- gaps / intervals >= ratio
abbrev pub at_least : ℕ × ℕ → ℕ → Bool
at_least (gaps, intervals) ratio = leb (ratio * intervals) (gaps * ratio_unit)

-- `_classify`, with the two settings of the tracker that it reads
unfoldable pub classify_by : ℕ → ℕ → NodeStateEntry → NodeState
classify_by expected_interval intermittent_ratio e =
    if ltb (length e.heartbeats) 3
    then new
    else if at_least (gap_ratio expected_interval e) intermittent_ratio
    then intermittent
    else stable

abbrev pub classify : NodeStateTracker → NodeStateEntry → NodeState
classify t e = classify_by t.expected_interval t.intermittent_ratio e

-- a call of `on_transition`: node, old state, new state
abbrev pub Transition : Type 0
Transition = String × NodeState × NodeState

abbrev pub move : NodeState → ℕ → NodeStateEntry → NodeStateEntry
move state now e = record e {
  state = state;
  transition_count = e.transition_count + 1;
  last_transition = now;
}

-- what `record_heartbeat` hands back: the tracker, the two states, and the calls of the callback
pub record Recorded : Type 0 where
  pub tracker : NodeStateTracker
  pub old_state : NodeState
  pub new_state : NodeState
  pub calls : List Transition

-- the branch of `record_heartbeat` on a known node
unfoldable pub record_known : NodeStateTracker → String → ℕ → NodeStateEntry → Recorded
record_known t node_id timestamp entry =
    let entry' = add_heartbeat timestamp t.heartbeat_window entry in
    let new_state = classify t entry' in
    if same_state new_state entry.state
    then record {
      tracker = record t { nodes = insert node_id entry' t.nodes };
      old_state = entry.state;
      new_state = entry.state;
      calls = [];
    }
    else record {
      tracker = record t {
        nodes = insert node_id (move new_state timestamp entry') t.nodes;
        total_transitions = t.total_transitions + 1;
      };
      old_state = entry.state;
      new_state = new_state;
      calls = (node_id, entry.state, new_state) ∷ [];
    }

unfoldable pub record_new : NodeStateTracker → String → ℕ → Recorded
record_new t node_id timestamp = record {
  tracker = record t {
    nodes =
        insert_bounded (λ e. e.last_seen) t.max_nodes node_id
          (new_entry node_id timestamp t.heartbeat_window) t.nodes;
  };
  old_state = new;
  new_state = new;
  calls = [];
}

unfoldable pub record_heartbeat : NodeStateTracker → String → ℕ → Recorded
record_heartbeat t node_id timestamp = elim (lookup node_id t.nodes) [
  | none ↦ record_new t node_id timestamp
  | some entry ↦ record_known t node_id timestamp entry
]

-- now - entry.last_seen > self._offline_threshold, for a node that is not offline yet
abbrev pub goes_offline : ℕ → ℕ → NodeStateEntry → Bool
goes_offline threshold now e = not (same_state e.state offline) && ltb (e.last_seen + threshold) now

-- the loop of `check_offline`
unfoldable pub sweep : ℕ → ℕ → Dict NodeStateEntry → Dict NodeStateEntry × List Transition
sweep threshold now [] = ([], [])
sweep threshold now ((node_id, e) ∷ d) =
    let rest = sweep threshold now d in
    if goes_offline threshold now e
    then ((node_id, move offline now e) ∷ rest.0, (node_id, e.state, offline) ∷ rest.1)
    else ((node_id, e) ∷ rest.0, rest.1)

-- the tracker and the transitions; the ids that the source returns are their first parts
unfoldable pub check_offline : NodeStateTracker → ℕ → NodeStateTracker × List Transition
check_offline t now =
    let (nodes, transitions) = sweep t.offline_threshold now t.nodes in
    (
      record t { nodes = nodes; total_transitions = t.total_transitions + length transitions },
      transitions,
    )

unfoldable pub get_node_state : NodeStateTracker → String → Option NodeState
get_node_state t node_id = elim (lookup node_id t.nodes) [ none ↦ none | some e ↦ some e.state ]

unfoldable pub remove_node : NodeStateTracker → String → NodeStateTracker
remove_node t node_id = record t { nodes = erase node_id t.nodes }

-- the `states` of `get_summary`, one count at a time
unfoldable pub count_state : NodeState → Dict NodeStateEntry → ℕ
count_state s [] = 0
count_state s ((node_id, e) ∷ d) = (if same_state e.state s then 1 else 0) + count_state s d
