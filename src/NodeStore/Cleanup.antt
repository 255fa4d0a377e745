-- ===== src/NodeStore/Cleanup.antt =====
-- src/collectors/mqtt_subscriber.py, `cleanup_stale_nodes`: which nodes it removes.
use meshforge_maps.Base.{
  ℕ, ◌+◌, ◌≡◌, refl, String, Bool, false, Option, none, some, List, [], ◌∷◌, arith, str_eq,
  str_eq_iff, if◌then◌else◌, ltb, ◌||◌,
}
use meshforge_maps.Dict.{Dict, lookup, lookup-erase, IsDistinct}
use meshforge_maps.NodeStore.{
  Node, NodeStore, seen, drop_node, stale_ids, drop_all, cleanup_stale_nodes,
}

abbrev pub member : String → List String → Bool
member k [] = false
member k (j ∷ ids) = str_eq j k || member k ids

abbrev pub is_stale : ℕ → ℕ → Option Node → Bool
is_stale now limit none = false
is_stale now limit (some node) = ltb (seen node + limit) now

member-stale_ids :
    (now limit : ℕ) (d : Dict Node) (k : String)
    → IsDistinct d
    → member k (stale_ids now limit d) ≡ is_stale now limit (lookup k d)
unfolding stale_ids lookup
member-stale_ids now limit [] k h = refl
member-stale_ids now limit ((j, node) ∷ d) k h =
    ground (arith, member-stale_ids now limit d k h.1, str_eq_iff j k, h.0)

nodes-drop_all :
    (ids : List String) (s : NodeStore) (k : String)
    → lookup k (drop_all ids s).nodes ≡ (if member k ids then none else lookup k s.nodes)
unfolding drop_all
nodes-drop_all [] s k = refl
nodes-drop_all (j ∷ ids) s k =
    ground (arith, nodes-drop_all ids (drop_node j s) k, lookup-erase j k s.nodes)

neighbors-drop_all :
    (ids : List String) (s : NodeStore) (k : String)
    → lookup k (drop_all ids s).neighbors ≡ (if member k ids then none else lookup k s.neighbors)
unfolding drop_all
neighbors-drop_all [] s k = refl
neighbors-drop_all (j ∷ ids) s k =
    ground (arith, neighbors-drop_all ids (drop_node j s) k, lookup-erase j k s.neighbors)

-- A cleanup of distinct nodes removes those that were not seen for longer than `remove_seconds`, with
-- their links; every other node, and every other node's links, stay; the callback gets the ids of just
-- the removed ones.
pub cleanup_removes :
    (now : ℕ) (s : NodeStore) (k : String)
    → IsDistinct s.nodes
    → let (s', ids) = cleanup_stale_nodes now s in
      let stale = is_stale now s.remove_seconds (lookup k s.nodes) in
      (lookup k s'.nodes ≡ (if stale then none else lookup k s.nodes))
      × (lookup k s'.neighbors ≡ (if stale then none else lookup k s.neighbors))
      × (member k ids ≡ stale)
unfolding cleanup_stale_nodes
cleanup_removes now s k h =
    let ids = stale_ids now s.remove_seconds s.nodes in
    let e : member k ids ≡ is_stale now s.remove_seconds (lookup k s.nodes) =
      member-stale_ids now s.remove_seconds s.nodes k h in
    rw (nodes-drop_all ids s k, neighbors-drop_all ids s k, e) (refl, refl, refl)
