-- ===== src/NodeState/Events.antt =====
-- src/utils/node_state.py: any sequence of calls on a tracker.
use meshforge_maps.Base.{
  ℕ, ◌+◌, ◌≡◌, ◌≢◌, refl, ap, ◌∙◌, inl, inr, String, none, some, List, [], ◌∷◌, ◌++◌, arith, length,
  length-append, Option-cases, if_split, if_both, get_or,
}
use meshforge_maps.Dict.{Dict, lookup, insert, lookup-insert_self}
use meshforge_maps.Dict.Evict.{insert_bounded}
use meshforge_maps.NodeState.{
  new, offline, same_state, NodeStateEntry, NodeStateTracker, Transition, Recorded, classify,
  classify_by, new_entry, add_heartbeat, move, record_known, record_new, record_heartbeat,
  check_offline, remove_node, get_node_state,
}
use meshforge_maps.NodeState.Classify.{same_state→eq}
use meshforge_maps.NodeState.Invariant.{
  IsValid, state-add_heartbeat, record_heartbeat-IsValid, remove_node-IsValid,
}
use meshforge_maps.NodeState.Sweep.{check_offline-IsValid}

pub data Event : Type 0 where
  heartbeat : String → ℕ → Event
  check : ℕ → Event
  remove : String → Event

-- one call, with the calls of the callback that it makes
unfoldable pub step : NodeStateTracker → Event → NodeStateTracker × List Transition
step t (heartbeat node_id timestamp) =
    let r = record_heartbeat t node_id timestamp in (r.tracker, r.calls)
step t (check now) = check_offline t now
step t (remove node_id) = (remove_node t node_id, [])

unfoldable pub run : NodeStateTracker → List Event → NodeStateTracker × List Transition
run t [] = (t, [])
run t (e ∷ events) =
    let (t', calls) = step t e in let (t'', later) = run t' events in (t'', calls ++ later)

step-IsValid : (t : NodeStateTracker) (e : Event) → IsValid t → IsValid (step t e).0
unfolding step
step-IsValid t (heartbeat node_id timestamp) h = record_heartbeat-IsValid t node_id timestamp h
step-IsValid t (check now) h = check_offline-IsValid t now h
step-IsValid t (remove node_id) h = remove_node-IsValid t node_id h

-- Whatever calls are made, in whatever order and with whatever timestamps, a valid tracker stays
-- valid: its nodes are distinct and no more than `max_nodes`, each has between 1 and
-- `heartbeat_window` heartbeats, and each that is not offline has the state of its heartbeats.
pub run-IsValid :
    (t : NodeStateTracker) (events : List Event) → IsValid t → IsValid (run t events).0
unfolding run
run-IsValid t [] h = h
run-IsValid t (e ∷ events) h = run-IsValid (step t e).0 events (step-IsValid t e h)

record_heartbeat_unknown :
    (t : NodeStateTracker) (node_id : String) (timestamp : ℕ)
    → lookup node_id t.nodes ≡ none
    → record_heartbeat t node_id timestamp ≡ record_new t node_id timestamp
unfolding record_heartbeat
record_heartbeat_unknown t node_id timestamp unknown = rw (unknown, record_heartbeat)

record_heartbeat_known :
    (t : NodeStateTracker) (node_id : String) (timestamp : ℕ) (e : NodeStateEntry)
    → lookup node_id t.nodes ≡ some e
    → record_heartbeat t node_id timestamp ≡ record_known t node_id timestamp e
unfolding record_heartbeat
record_heartbeat_known t node_id timestamp e known = rw (known, record_heartbeat)

abbrev Counts : NodeStateTracker → Recorded → Type 0
Counts t r = r.tracker.total_transitions ≡ t.total_transitions + length r.calls

record_heartbeat-Counts :
    (t : NodeStateTracker) (node_id : String) (timestamp : ℕ)
    → Counts t (record_heartbeat t node_id timestamp)
unfolding record_known record_new
record_heartbeat-Counts t node_id timestamp = elim (Option-cases (lookup node_id t.nodes)) [
  | inl unknown ↦ rw (record_heartbeat_unknown t node_id timestamp unknown) (omega arith)
  | inr (e, known) ↦ rw (record_heartbeat_known t node_id timestamp e known) (
      if_both (Counts t)
        (same_state (classify t (add_heartbeat timestamp t.heartbeat_window e)) e.state) _ _
        (omega arith) (omega arith))
]

step-total :
    (t : NodeStateTracker) (e : Event)
    → (step t e).0.total_transitions ≡ t.total_transitions + length (step t e).1
unfolding step remove_node check_offline
step-total t (heartbeat node_id timestamp) = record_heartbeat-Counts t node_id timestamp
step-total t (check now) = refl
step-total t (remove node_id) = omega arith

-- `total_transitions` counts the calls of the callback, whatever calls are made on the tracker.
pub run-total :
    (t : NodeStateTracker) (events : List Event)
    → (run t events).0.total_transitions ≡ t.total_transitions + length (run t events).1
unfolding run
run-total t [] = omega arith
run-total t (e ∷ events) = omega (
  arith,
  step-total t e,
  run-total (step t e).0 events,
  length-append (step t e).1 (run (step t e).0 events).1,
)

classify-ne-offline : (t : NodeStateTracker) (e : NodeStateEntry) → classify t e ≢ offline
unfolding classify_by
classify-ne-offline t e h = ground arith

-- The two states that `record_heartbeat` hands back: the node's state before (new, if it was not
-- tracked) and its state afterwards.
abbrev Answers : NodeStateTracker → String → Recorded → Type 0
Answers t node_id r =
    (r.old_state ≡ get_or (get_node_state t node_id) new)
    × (get_node_state r.tracker node_id ≡ some r.new_state)
    × (r.new_state ≢ offline)

state-insert :
    (t : NodeStateTracker) (d : Dict NodeStateEntry) (node_id : String) (e : NodeStateEntry) (n : ℕ)
    → get_node_state (record t { nodes = insert node_id e d; total_transitions = n }) node_id
      ≡ some e.state
unfolding get_node_state
state-insert t d node_id e n = rw (lookup-insert_self node_id e d, get_node_state)

record_known-Answers :
    (t : NodeStateTracker) (node_id : String) (timestamp : ℕ) (e : NodeStateEntry)
    → lookup node_id t.nodes ≡ some e
    → Answers t node_id (record_known t node_id timestamp e)
unfolding record_known
record_known-Answers t node_id timestamp e known =
    let e' = add_heartbeat timestamp t.heartbeat_window e in
    let awake = classify-ne-offline t e' in
    let before : e.state ≡ get_or (get_node_state t node_id) new =
      unfold get_node_state in rw (known, get_node_state) in
    if_split (Answers t node_id) (same_state (classify t e') e.state) _ _
      (λ same. (
        before,
        state-insert t t.nodes node_id e' t.total_transitions
            ∙ ap some (state-add_heartbeat timestamp t.heartbeat_window e),
        λ off. awake (same_state→eq _ _ same ∙ off),
      ))
      (λ other. (
        before,
        state-insert t t.nodes node_id (move (classify t e') timestamp e')
            (t.total_transitions + 1),
        awake,
      ))

record_new-Answers :
    (t : NodeStateTracker) (node_id : String) (timestamp : ℕ)
    → lookup node_id t.nodes ≡ none
    → Answers t node_id (record_new t node_id timestamp)
unfolding record_new insert_bounded new_entry
record_new-Answers t node_id timestamp unknown = (
  unfold get_node_state in rw (unknown, get_node_state),
  state-insert t _ node_id _ t.total_transitions,
  λ off. cc,
)

-- After a heartbeat the node is tracked and not offline, whatever it was before; the answer is its
-- state before the call (new, if it was not tracked) and its state afterwards.
pub record_heartbeat_answers :
    (t : NodeStateTracker) (node_id : String) (timestamp : ℕ)
    → let r = record_heartbeat t node_id timestamp in
      (r.old_state ≡ get_or (get_node_state t node_id) new)
      × (get_node_state r.tracker node_id ≡ some r.new_state)
      × (r.new_state ≢ offline)
record_heartbeat_answers t node_id timestamp = elim (Option-cases (lookup node_id t.nodes)) [
  | inl unknown ↦
      rw (record_heartbeat_unknown t node_id timestamp unknown)
        (record_new-Answers t node_id timestamp unknown)
  | inr (e, known) ↦
      rw (record_heartbeat_known t node_id timestamp e known)
        (record_known-Answers t node_id timestamp e known)
]
