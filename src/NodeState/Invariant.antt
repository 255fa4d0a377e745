-- ===== src/NodeState/Invariant.antt =====
-- src/utils/node_state.py: what holds of the tracker between two calls.
use meshforge_maps.Base.{
  ℕ, ◌+◌, ◌≤◌, ◌<◌, ◌≡◌, refl, sym, ◌∙◌, ◌⊎◌, inl, inr, String, true, some, [], arith, List, push,
  length, length-push, Option-cases, if_split,
}
use meshforge_maps.Dict.{
  Dict, lookup, contains, insert, AllValues, AllValues-insert, AllValues-mono, AllValues-erase,
  IsDistinct, IsDistinct-insert, IsDistinct-erase, length-insert, length-erase,
}
use meshforge_maps.Dict.Evict.{
  IsDistinct-insert_bounded, length-insert_bounded, AllValues-insert_bounded,
}
use meshforge_maps.NodeState.{
  NodeState, offline, same_state, NodeStateEntry, NodeStateTracker, new_entry, add_heartbeat,
  classify_by, gap_ratio, classify, move, Recorded, record_known, record_new, record_heartbeat,
  remove_node,
}
use meshforge_maps.NodeState.Classify.{same_state→eq}

-- Between 1 and `heartbeat_window` heartbeats, and a node that is not offline has the state that its
-- heartbeats give.
pub record IsEntry (t : NodeStateTracker) (e : NodeStateEntry) : Type 0 where
  pub some_beat : 0 < length e.heartbeats
  pub windowed : length e.heartbeats ≤ t.heartbeat_window
  pub classified : (e.state ≡ offline) ⊎ (e.state ≡ classify t e)

pub record IsValid (t : NodeStateTracker) : Type 0 where
  pub window_pos : 0 < t.heartbeat_window
  pub room : 0 < t.max_nodes
  pub distinct : IsDistinct t.nodes
  pub bounded : length t.nodes ≤ t.max_nodes
  pub entries : AllValues (IsEntry t) t.nodes

new_entry-IsEntry :
    (t : NodeStateTracker) (node_id : String) (timestamp : ℕ)
    → 0 < t.heartbeat_window
    → IsEntry t (new_entry node_id timestamp t.heartbeat_window)
unfolding new_entry classify_by
new_entry-IsEntry t node_id timestamp pos =
    let one = length-push t.heartbeat_window [] timestamp in
    record {
      some_beat = omega (arith, one);
      windowed = omega (arith, one);
      classified = inr (ground (arith, one));
    }

pub AllValues-nodes :
    (t : NodeStateTracker) (nodes d : Dict NodeStateEntry) (n : ℕ)
    → AllValues (IsEntry t) d
    → AllValues (IsEntry (record t { nodes = nodes; total_transitions = n })) d
AllValues-nodes t nodes d n h =
    AllValues-mono _ _ d
      (λ e ok. record {
        some_beat = ok.some_beat;
        windowed = ok.windowed;
        classified = ok.classified;
      })
      h

length-push_pos : (bound : ℕ) (beats : List ℕ) (x : ℕ) → 0 < bound → 0 < length (push bound beats x)
length-push_pos bound beats x pos = omega (arith, length-push bound beats x)

add_heartbeat-IsEntry :
    (t : NodeStateTracker) (timestamp : ℕ) (e : NodeStateEntry)
    → 0 < t.heartbeat_window
    → let e' = add_heartbeat timestamp t.heartbeat_window e in
      (0 < length e'.heartbeats) × (length e'.heartbeats ≤ t.heartbeat_window)
unfolding add_heartbeat
add_heartbeat-IsEntry t timestamp e pos = (
  omega (arith, length-push t.heartbeat_window e.heartbeats timestamp),
  omega (arith, length-push t.heartbeat_window e.heartbeats timestamp),
)

pub classify-move :
    (t : NodeStateTracker) (s : NodeState) (now : ℕ) (e : NodeStateEntry)
    → classify t (move s now e) ≡ classify t e
unfolding classify_by gap_ratio
classify-move t s now e = refl

pub state-add_heartbeat :
    (timestamp window : ℕ) (e : NodeStateEntry) → (add_heartbeat timestamp window e).state ≡ e.state
unfolding add_heartbeat
state-add_heartbeat timestamp window e = refl

insert-IsValid :
    (t : NodeStateTracker) (node_id : String) (e : NodeStateEntry) (n : ℕ)
    → IsValid t
    → contains node_id t.nodes ≡ true
    → IsEntry t e
    → IsValid (record t { nodes = insert node_id e t.nodes; total_transitions = n })
insert-IsValid t node_id e n h known ok = record {
  window_pos = h.window_pos;
  room = h.room;
  distinct = IsDistinct-insert node_id e t.nodes h.distinct;
  bounded = ground (arith, length-insert node_id e t.nodes, h.bounded);
  entries = AllValues-nodes t _ _ n (AllValues-insert _ node_id e t.nodes ok h.entries);
}

record_known-IsValid :
    (t : NodeStateTracker) (node_id : String) (timestamp : ℕ) (e : NodeStateEntry)
    → IsValid t
    → lookup node_id t.nodes ≡ some e
    → IsValid (record_known t node_id timestamp e).tracker
unfolding record_known
record_known-IsValid t node_id timestamp e h known =
    let e' = add_heartbeat timestamp t.heartbeat_window e in
    let (some_beat, windowed) = add_heartbeat-IsEntry t timestamp e h.window_pos in
    let is_known : contains node_id t.nodes ≡ true = rw known in
    if_split (λ (r : Recorded). IsValid r.tracker) (same_state (classify t e') e.state) _ _
      (λ same. insert-IsValid t node_id e' t.total_transitions h is_known (record {
        some_beat = some_beat;
        windowed = windowed;
        classified =
            inr (state-add_heartbeat timestamp t.heartbeat_window e ∙ sym (same_state→eq _ _ same));
      }))
      (λ other.
        insert-IsValid t node_id (move (classify t e') timestamp e') (t.total_transitions + 1) h
          is_known
          (record {
            some_beat = some_beat;
            windowed = windowed;
            classified = inr (sym (classify-move t _ timestamp e'));
          }))

record_new-IsValid :
    (t : NodeStateTracker) (node_id : String) (timestamp : ℕ)
    → IsValid t
    → IsValid (record_new t node_id timestamp).tracker
unfolding record_new
record_new-IsValid t node_id timestamp h = record {
  window_pos = h.window_pos;
  room = h.room;
  distinct = IsDistinct-insert_bounded _ t.max_nodes node_id _ t.nodes h.distinct;
  bounded = length-insert_bounded _ t.max_nodes node_id _ t.nodes h.room h.distinct h.bounded;
  entries = AllValues-nodes t _ _ t.total_transitions (
      AllValues-insert_bounded _ _ t.max_nodes node_id _ t.nodes
        (new_entry-IsEntry t node_id timestamp h.window_pos) h.entries);
}

-- A heartbeat of any node at any time keeps a valid tracker valid.
pub record_heartbeat-IsValid :
    (t : NodeStateTracker) (node_id : String) (timestamp : ℕ)
    → IsValid t
    → IsValid (record_heartbeat t node_id timestamp).tracker
unfolding record_heartbeat
record_heartbeat-IsValid t node_id timestamp h = elim (Option-cases (lookup node_id t.nodes)) [
  | inl unknown ↦ rw (unknown, record_heartbeat) (record_new-IsValid t node_id timestamp h)
  | inr (e, known) ↦
      rw (known, record_heartbeat) (record_known-IsValid t node_id timestamp e h known)
]

pub remove_node-IsValid :
    (t : NodeStateTracker) (node_id : String) → IsValid t → IsValid (remove_node t node_id)
unfolding remove_node
remove_node-IsValid t node_id h = record {
  window_pos = h.window_pos;
  room = h.room;
  distinct = IsDistinct-erase node_id t.nodes h.distinct;
  bounded = omega (arith, length-erase node_id t.nodes, h.bounded);
  entries = AllValues-nodes t _ _ t.total_transitions (AllValues-erase _ node_id t.nodes h.entries);
}
