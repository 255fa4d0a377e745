-- ===== src/NodeStore/Counts.antt =====
-- src/collectors/mqtt_subscriber.py, `MQTTNodeStore`: how many nodes it holds.
use meshforge_maps.Base.{
  ℕ, suc, ◌+◌, ◌≤◌, ◌<◌, ◌≡◌, String, true, Option, List, [], ◌∷◌, arith, length, leb, Bool-cases,
  inl, inr,
}
use meshforge_maps.Int.{ℤ}
use meshforge_maps.Float.{Float}
use meshforge_maps.Dict.{
  Dict, contains, erase, length-insert, length-erase, length-erase_mem, IsDistinct,
  IsDistinct-erase, IsDistinct-insert,
}
use meshforge_maps.Dict.Evict.{oldest_found, oldest_lem}
use meshforge_maps.NodeStore.{
  Value, Node, Neighbor, NodeStore, seen, put, node_or_new, drop_node, time_or, place,
  update_position, update_nodeinfo, update_telemetry, update_neighbors, stale_ids, drop_all,
  cleanup_stale_nodes, make_room,
}
use meshforge_maps.NodeStore.Eviction.{make_room_idle, make_room_full}

pub data Call : Type 0 where
  position : String → Float → Float → Option ℤ → Option ℕ → ℕ → Call
  nodeinfo : String → String → String → String → String → ℕ → Call
  telemetry : String → Dict (Option Value) → ℕ → Call
  links : String → List Neighbor → Call
  cleanup : ℕ → Call

unfoldable pub apply : NodeStore → Call → NodeStore
apply s (position k lat lon altitude timestamp now) =
    (update_position k lat lon altitude timestamp now s).0
apply s (nodeinfo k long_name short_name hw_model role now) =
    update_nodeinfo k long_name short_name hw_model role now s
apply s (telemetry k fields now) = update_telemetry k fields now s
apply s (links k neighbors) = update_neighbors k neighbors s
apply s (cleanup now) = (cleanup_stale_nodes now s).0

unfoldable pub run : NodeStore → List Call → NodeStore
run s [] = s
run s (c ∷ calls) = run (apply s c) calls

-- the calls that make a node without making room for it
abbrev pub strays : List Call → ℕ
strays [] = 0
strays (nodeinfo k long_name short_name hw_model role now ∷ calls) = suc (strays calls)
strays (telemetry k fields now ∷ calls) = suc (strays calls)
strays (position k lat lon altitude timestamp now ∷ calls) = strays calls
strays (links k neighbors ∷ calls) = strays calls
strays (cleanup now ∷ calls) = strays calls

-- distinct nodes, at most `extra` beyond the bound
pub record IsWithin (bound extra : ℕ) (s : NodeStore) : Type 0 where
  pub room : 0 < s.max_nodes
  pub distinct : IsDistinct s.nodes
  pub limit : s.max_nodes ≡ bound
  pub bounded : length s.nodes ≤ bound + extra

put-IsWithin :
    (bound extra : ℕ) (k : String) (node : Node) (s : NodeStore)
    → IsWithin bound extra s
    → IsWithin bound (suc extra) (put k node s)
put-IsWithin bound extra k node s w = record {
  room = w.room;
  limit = w.limit;
  distinct = IsDistinct-insert k node s.nodes w.distinct;
  bounded = ground (arith, length-insert k node s.nodes, w.bounded);
}

put_known-IsWithin :
    (bound extra : ℕ) (k : String) (node : Node) (s : NodeStore)
    → IsWithin bound extra s
    → contains k s.nodes ≡ true
    → IsWithin bound extra (put k node s)
put_known-IsWithin bound extra k node s w known = record {
  room = w.room;
  limit = w.limit;
  distinct = IsDistinct-insert k node s.nodes w.distinct;
  bounded = ground (arith, length-insert k node s.nodes, w.bounded);
}

drop_node-IsWithin :
    (bound extra : ℕ) (k : String) (s : NodeStore)
    → IsWithin bound extra s
    → IsWithin bound extra (drop_node k s)
drop_node-IsWithin bound extra k s w = record {
  room = w.room;
  limit = w.limit;
  distinct = IsDistinct-erase k s.nodes w.distinct;
  bounded = omega (arith, length-erase k s.nodes, w.bounded);
}

drop_all-IsWithin :
    (bound extra : ℕ) (ids : List String) (s : NodeStore)
    → IsWithin bound extra s
    → IsWithin bound extra (drop_all ids s)
unfolding drop_all
drop_all-IsWithin bound extra [] s w = w
drop_all-IsWithin bound extra (k ∷ ids) s w =
    drop_all-IsWithin bound extra ids (drop_node k s) (drop_node-IsWithin bound extra k s w)

make_room-IsWithin :
    (bound extra : ℕ) (k : String) (node : Node) (s : NodeStore)
    → IsWithin bound extra s
    → IsWithin bound extra (put k node (make_room k s).0)
make_room-IsWithin bound extra k node s w = elim (Bool-cases (contains k s.nodes)) [
  | inl known ↦
      rw (make_room_idle k s (inl known)) (put_known-IsWithin bound extra k node s w known)
  | inr unknown ↦ elim (Bool-cases (leb s.max_nodes (length s.nodes))) [
    | inl full ↦
        let (old, e) = oldest_found seen s.nodes (ground (arith, w.room)) in
        let (gone, found, least) = oldest_lem seen s.nodes old w.distinct e in
        rw (make_room_full k s old unknown (ground arith) e) (record {
          room = w.room;
          limit = w.limit;
          distinct = IsDistinct-insert k node _ (IsDistinct-erase old s.nodes w.distinct);
          bounded = ground (
            arith,
            length-insert k node (erase old s.nodes),
            length-erase_mem old s.nodes,
            found,
            w.bounded,
          );
        })
    | inr free ↦ rw (make_room_idle k s (inr (ground arith))) (record {
      room = w.room;
      limit = w.limit;
      distinct = IsDistinct-insert k node s.nodes w.distinct;
      bounded = ground (arith, length-insert k node s.nodes);
    })
  ]
]

update_position-IsWithin :
    (bound extra : ℕ) (k : String) (lat lon : Float) (altitude : Option ℤ) (timestamp : Option ℕ)
    (now : ℕ) (s : NodeStore)
    → IsWithin bound extra s
    → IsWithin bound extra (update_position k lat lon altitude timestamp now s).0
unfolding update_position
update_position-IsWithin bound extra k lat lon altitude timestamp now s w =
    make_room-IsWithin bound extra k
      (place lat lon altitude (time_or timestamp now) (node_or_new k (make_room k s).0)) s w

grow-IsWithin :
    (bound extra : ℕ) (s : NodeStore) → IsWithin bound extra s → IsWithin bound (extra + 0) s
grow-IsWithin bound extra s w = record {
  room = w.room;
  distinct = w.distinct;
  limit = w.limit;
  bounded = omega (arith, w.bounded);
}

add_one-IsWithin :
    (bound extra : ℕ) (s : NodeStore) → IsWithin bound (suc extra) s → IsWithin bound (extra + 1) s
add_one-IsWithin bound extra s w = record {
  room = w.room;
  distinct = w.distinct;
  limit = w.limit;
  bounded = omega (arith, w.bounded);
}

apply-IsWithin :
    (bound extra : ℕ) (s : NodeStore) (c : Call)
    → IsWithin bound extra s
    → IsWithin bound (extra + strays (c ∷ [])) (apply s c)
unfolding apply update_nodeinfo update_telemetry update_neighbors cleanup_stale_nodes
apply-IsWithin bound extra s (position k lat lon altitude timestamp now) w =
    grow-IsWithin bound extra _
      (update_position-IsWithin bound extra k lat lon altitude timestamp now s w)
apply-IsWithin bound extra s (nodeinfo k long_name short_name hw_model role now) w =
    add_one-IsWithin bound extra _ (put-IsWithin bound extra k _ s w)
apply-IsWithin bound extra s (telemetry k fields now) w =
    add_one-IsWithin bound extra _ (put-IsWithin bound extra k _ s w)
apply-IsWithin bound extra s (links k neighbors) w =
    grow-IsWithin bound extra _
      (record { room = w.room; distinct = w.distinct; limit = w.limit; bounded = w.bounded })
apply-IsWithin bound extra s (cleanup now) w =
    grow-IsWithin bound extra _
      (drop_all-IsWithin bound extra (stale_ids now s.remove_seconds s.nodes) s w)

strays-cons : (c : Call) (calls : List Call) → strays (c ∷ calls) ≡ strays (c ∷ []) + strays calls
strays-cons (position k lat lon altitude timestamp now) calls = omega arith
strays-cons (nodeinfo k long_name short_name hw_model role now) calls = omega arith
strays-cons (telemetry k fields now) calls = omega arith
strays-cons (links k neighbors) calls = omega arith
strays-cons (cleanup now) calls = omega arith

-- Whatever a store of distinct nodes within a positive bound is told, its nodes stay distinct, and there
-- are at most `max_nodes` of them, but for one more for each call of `update_nodeinfo` or
-- `update_telemetry`.
pub store_bounded :
    (bound extra : ℕ) (calls : List Call) (s : NodeStore)
    → IsWithin bound extra s
    → IsWithin bound (extra + strays calls) (run s calls)
unfolding run
store_bounded bound extra [] s w = grow-IsWithin bound extra s w
store_bounded bound extra (c ∷ calls) s w =
    let rest =
      store_bounded bound (extra + strays (c ∷ [])) calls (apply s c)
        (apply-IsWithin bound extra s c w) in
    record {
      room = rest.room;
      distinct = rest.distinct;
      limit = rest.limit;
      bounded = omega (arith, rest.bounded, strays-cons c calls);
    }
