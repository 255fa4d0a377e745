-- ===== src/Tests/NodeState.antt =====
-- Runs of src/utils/node_state.py, and its theorems at concrete inputs.
use meshforge_maps.Base.{
  push, ◌+◌, ◌<◌, ◌≡◌, ◌≢◌, ◌↔◌, refl, inr, true, some, List, [], ◌∷◌, arith, if◌then◌else◌,
}
use meshforge_maps.Dict.{lookup, insert}
use meshforge_maps.NodeState.{
  new, stable, offline, NodeStateEntry, NodeStateTracker, add_heartbeat, new_entry, classify_by,
  gap_ratio, count_gaps, record_heartbeat, record_new, record_known, check_offline, sweep,
  get_node_state,
}
use meshforge_maps.Dict.Evict.{insert_bounded}
use meshforge_maps.NodeState.Invariant.{IsValid}
use meshforge_maps.NodeState.Sweep.{reported, check_offline_reports}
use meshforge_maps.NodeState.Events.{Event, heartbeat, check, step, run, run-IsValid}

abbrev empty : NodeStateTracker
empty = record {
  expected_interval = 300;
  offline_threshold = 3600;
  intermittent_ratio = 3_000_000;
  heartbeat_window = 20;
  max_nodes = 2;
  nodes = [];
  total_transitions = 0;
}

abbrev steady : NodeStateEntry
steady = record {
  node_id = "!a";
  state = stable;
  heartbeats = 100 ∷ 400 ∷ 700 ∷ [];
  first_seen = 100;
  last_seen = 700;
  transition_count = 1;
  last_transition = 700;
}

abbrev patchy : NodeStateEntry
patchy = record steady { heartbeats = 100 ∷ 900 ∷ 1700 ∷ []; last_seen = 1700 }

abbrev tracker : NodeStateTracker
tracker = record empty { nodes = ("!a", steady) ∷ [] }

empty-IsValid : IsValid empty
empty-IsValid = record {
  window_pos = omega arith;
  room = omega arith;
  distinct = tt;
  bounded = omega arith;
  entries = tt;
}

tracker-IsValid : IsValid tracker
tracker-IsValid = record {
  window_pos = omega arith;
  room = omega arith;
  distinct = (unfold lookup in refl, tt);
  bounded = omega arith;
  entries = (
    record {
      some_beat = omega arith;
      windowed = omega arith;
      classified = inr (unfold classify_by gap_ratio count_gaps in refl);
    },
    tt,
  );
}

found : lookup "!a" tracker.nodes ≡ some steady
unfolding lookup
found = refl

abbrev events : List Event
events = heartbeat "!a" 100 ∷ heartbeat "!a" 400 ∷ heartbeat "!a" 700 ∷ check 5000 ∷ []

-- new, stable, offline
four_events : (run empty events).1 ≡ ("!a", new, stable) ∷ ("!a", stable, offline) ∷ []
unfolding run step record_heartbeat record_known record_new new_entry add_heartbeat classify_by
    gap_ratio count_gaps check_offline sweep lookup insert insert_bounded push
four_events = refl

run-IsValid_example : IsValid (run empty events).0
run-IsValid_example = run-IsValid empty events empty-IsValid

check_offline_reports_example :
    ((reported "!a" (check_offline tracker 5000).1 ≡ true)
      ↔ ((stable ≢ offline) × (700 + 3600 < 5000)))
    × (get_node_state (check_offline tracker 5000).0 "!a"
        ≡ some (if reported "!a" (check_offline tracker 5000).1 then offline else stable))
check_offline_reports_example = check_offline_reports tracker 5000 "!a" steady tracker-IsValid found
