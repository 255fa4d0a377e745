-- ===== src/NodeStore/Growth.antt =====
-- src/collectors/mqtt_subscriber.py, `MQTTNodeStore`: the nodes that come in without a bound.
use meshforge_maps.Base.{ℕ, ◌+◌, ◌≡◌, String, false, List, [], ◌∷◌, arith, str_eq_iff, length}
use meshforge_maps.Dict.{Dict, contains, insert, lookup-insert, length-insert}
use meshforge_maps.NodeStore.{Node, NodeStore, put, node_or_new, identify, update_nodeinfo}
use meshforge_maps.NodeStore.Cleanup.{member}
use meshforge_maps.NodeStore.Counts.{Call, nodeinfo, apply, run}

new_length :
    (k : String) (node : Node) (d : Dict Node)
    → contains k d ≡ false
    → length (insert k node d) ≡ length d + 1
new_length k node d unknown = ground (arith, length-insert k node d)

-- the ids are distinct, and no node of the store has one of them
abbrev pub Unknown : List String → NodeStore → Type 0
Unknown [] s = Unit
Unknown (k ∷ ids) s = (contains k s.nodes ≡ false) × (member k ids ≡ false) × Unknown ids s

-- the identity of each, heard at `now`
abbrev pub introductions : ℕ → List String → List Call
introductions now [] = []
introductions now (k ∷ ids) = nodeinfo k "" "" "" "" now ∷ introductions now ids

Unknown-put :
    (ids : List String) (k : String) (node : Node) (s : NodeStore)
    → member k ids ≡ false
    → Unknown ids s
    → Unknown ids (put k node s)
Unknown-put [] k node s m u = tt
Unknown-put (j ∷ ids) k node s m u = (
  ground (arith, u.0, lookup-insert k j node s.nodes, str_eq_iff j k, str_eq_iff k j),
  u.1,
  Unknown-put ids k node s (ground arith) u.2,
)

-- The bound does not hold of identities: whatever `max_nodes` is, a store that hears of nodes that it does
-- not know, each by its identity, holds them all.
pub nodeinfo_unbounded :
    (ids : List String) (now : ℕ) (s : NodeStore)
    → Unknown ids s
    → length (run s (introductions now ids)).nodes ≡ length s.nodes + length ids
unfolding run apply update_nodeinfo
nodeinfo_unbounded [] now s u = omega arith
nodeinfo_unbounded (k ∷ ids) now s u =
    let node : Node = identify "" "" "" "" now (node_or_new k s) in
    omega (
      arith,
      nodeinfo_unbounded ids now (put k node s) (Unknown-put ids k node s u.1 u.2),
      new_length k node s.nodes u.0,
    )
