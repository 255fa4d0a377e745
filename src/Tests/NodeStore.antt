-- ===== src/Tests/NodeStore.antt =====
-- Runs of the node store of src/collectors/mqtt_subscriber.py, and its theorems at concrete inputs.
use meshforge_maps.Base.{
  ℕ, ◌≤◌, ◌≡◌, refl, String, true, Option, none, some, List, [], ◌∷◌, arith, if◌then◌else◌, length,
}
use meshforge_maps.Float.{whole}
use meshforge_maps.Dict.{lookup, AllValues, IsDistinct}
use meshforge_maps.Dict.Evict.{oldest, least}
use meshforge_maps.NodeStore.{
  Node, NodeStore, new_node, seen, update_position, make_room, evict_oldest, place,
  cleanup_stale_nodes,
}
use meshforge_maps.NodeStore.Reads.{classify_snr}
use meshforge_maps.NodeStore.Eviction.{Replaces, update_position_full}
use meshforge_maps.NodeStore.Cleanup.{member, is_stale, cleanup_removes}
use meshforge_maps.NodeStore.Counts.{Call, position, nodeinfo, links, run, IsWithin, store_bounded}
use meshforge_maps.NodeStore.Growth.{introductions, nodeinfo_unbounded}

abbrev node_at : String → ℕ → ℕ → Node
node_at id degrees time = record (new_node id) {
  latitude = some (whole degrees);
  longitude = some (whole degrees);
  last_seen = some time;
  is_online = some true;
}

-- two nodes, and room for no more
abbrev full : NodeStore
full = record {
  nodes = ("!a", node_at "!a" 10 300) ∷ ("!b", node_at "!b" 20 100) ∷ [];
  neighbors =
      (
        "!a",
        record { node_id = "!b"; snr = some (whole 6) }
            ∷ record { node_id = "!c"; snr = none }
            ∷ [],
      )
      ∷ [];
  stale_seconds = 150;
  remove_seconds = 350;
  max_nodes = 2;
}

abbrev full_distinct : IsDistinct full.nodes
unfolding lookup
full_distinct = (refl, (refl, tt))

abbrev third : NodeStore × Option String
third = update_position "!c" (whole 1) (whole 2) none none 400 full

third_evicts : third.1 ≡ some "!b"
unfolding update_position make_room evict_oldest oldest lookup least
third_evicts = refl

good_link : classify_snr (some (whole 6)) ≡ "good"
unfolding classify_snr
good_link = refl

update_position_full_example :
    (old : String) × (gone : Node) × (lookup old full.nodes ≡ some gone)
    × AllValues (λ node. seen gone ≤ seen node) full.nodes
    × Replaces old "!c" (place (whole 1) (whole 2) none 400 (new_node "!c")) full third
update_position_full_example =
    update_position_full "!c" (whole 1) (whole 2) none none 400 full full_distinct
      (unfold lookup in refl) (omega arith) (omega arith)

cleanup_removes_example :
    let (s', ids) = cleanup_stale_nodes 500 full in
    let stale = is_stale 500 full.remove_seconds (lookup "!b" full.nodes) in
    (lookup "!b" s'.nodes ≡ (if stale then none else lookup "!b" full.nodes))
    × (lookup "!b" s'.neighbors ≡ (if stale then none else lookup "!b" full.neighbors))
    × (member "!b" ids ≡ stale)
cleanup_removes_example = cleanup_removes 500 full "!b" full_distinct

abbrev calls : List Call
calls =
    position "!c" (whole 1) (whole 2) none none 400
    ∷ nodeinfo "!d" "Delta" "D" "" "" 410
    ∷ links "!d" []
    ∷ Call.cleanup 500
    ∷ []

abbrev full_within : IsWithin 2 0 full
full_within = record {
  room = omega arith;
  distinct = full_distinct;
  limit = refl;
  bounded = omega arith;
}

store_bounded_example : IsWithin 2 1 (run full calls)
store_bounded_example = store_bounded 2 0 calls full full_within

nodeinfo_unbounded_example :
    length (run full (introductions 400 ("!c" ∷ "!d" ∷ "!e" ∷ []))).nodes ≡ 5
nodeinfo_unbounded_example =
    nodeinfo_unbounded ("!c" ∷ "!d" ∷ "!e" ∷ []) 400 full
      (unfold lookup in (refl, refl, (refl, refl, (refl, refl, tt))))
