-- ===== src/MqttSubscriber/Ranges.antt =====
-- src/collectors/mqtt_subscriber.py: whatever messages come, what the store holds is in range.
use mathlib.Core.Path.{subst}
use meshforge_maps.Base.{
  ℕ, ◌≡◌, String, Option, none, some, arith, not, ◌&&◌, if_both, All, Option-cases, Bool-cases, inl,
  inr, str_eq, get_or, leb, length,
}
use meshforge_maps.Int.{ℤ, pos, negsuc, ◌≤ℤ◌}
use meshforge_maps.Float.{Float, finite}
use meshforge_maps.Dict.{Dict, lookup, contains, lookup-insert, lookup-erase}
use meshforge_maps.Dict.Evict.{oldest}
use meshforge_maps.NodeStore.{
  Value, Node, NodeStore, new_node, node_or_new, put, drop_node, place, identify, measure,
  make_room, time_or, evict_oldest, update_position, update_nodeinfo, update_telemetry,
}
use meshforge_maps.MqttSubscriber.Metrics.{Measured, FieldFits, add_fields-Measured}

-- A latitude and a longitude that are on the globe, in units of 10⁻⁷ degrees.
abbrev pub OnGlobe : Option Float → Option Float → Type 0
OnGlobe none none = Unit
OnGlobe (some (finite lat)) (some (finite lon)) =
    (negsuc 899_999_999 ≤ℤ lat)
    × (lat ≤ℤ pos 900_000_000)
    × (negsuc 1_799_999_999 ≤ℤ lon)
    × (lon ≤ℤ pos 1_800_000_000)
OnGlobe _ _ = ⊥

pub record IsSound (node : Node) : Type 0 where
  pub placed : OnGlobe node.latitude node.longitude
  pub measured : Measured node.telemetry

-- Every node has no place or one on the globe, and no metric out of its range.
abbrev pub AllSound : NodeStore → Type 0
AllSound s = (k : String) (node : Node) → lookup k s.nodes ≡ some node → IsSound node

new-IsSound : (k : String) → IsSound (new_node k)
unfolding lookup
new-IsSound k = record { placed = tt; measured = λ key v e. absurd (cc) }

node_or_new-IsSound : (k : String) (s : NodeStore) → AllSound s → IsSound (node_or_new k s)
node_or_new-IsSound k s a = elim (Option-cases (lookup k s.nodes)) [
  | inl missing ↦ rw missing (new-IsSound k)
  | inr (node, found) ↦ rw found (a k node found)
]

put-AllSound :
    (k : String) (node : Node) (s : NodeStore) → IsSound node → AllSound s → AllSound (put k node s)
put-AllSound k node s sound a j other e = elim (Bool-cases (str_eq k j)) [
  | inl same ↦
      let held : node ≡ other = ground (arith, e, same, lookup-insert k j node s.nodes) in
      subst IsSound held sound
  | inr apart ↦ a j other (ground (arith, e, apart, lookup-insert k j node s.nodes))
]

drop_node-AllSound : (k : String) (s : NodeStore) → AllSound s → AllSound (drop_node k s)
drop_node-AllSound k s a j node e = a j node (ground (arith, e, lookup-erase k j s.nodes))

make_room-AllSound : (k : String) (s : NodeStore) → AllSound s → AllSound (make_room k s).0
unfolding make_room evict_oldest
make_room-AllSound k s a =
    if_both (λ (x : NodeStore × Option String). AllSound x.0)
      (not (contains k s.nodes) && leb s.max_nodes (length s.nodes)) (evict_oldest s) (s, none)
      evicted a
  where
    evicted : AllSound (evict_oldest s).0
    evicted = elim (Option-cases (oldest (λ (n : Node). get_or n.last_seen 0) s.nodes)) [
      | inl empty ↦ rw (evict_oldest, empty) a
      | inr (old, e) ↦ rw (evict_oldest, e) (drop_node-AllSound old s a)
    ]

pub update_position-AllSound :
    (k : String) (lat lon : ℤ) (altitude : Option ℤ) (timestamp : Option ℕ) (now : ℕ)
    (s : NodeStore)
    → OnGlobe (some (finite lat)) (some (finite lon))
    → AllSound s
    → AllSound (update_position k (finite lat) (finite lon) altitude timestamp now s).0
unfolding update_position place
update_position-AllSound k lat lon altitude timestamp now s on a =
    let s' = (make_room k s).0 in
    let a' : AllSound s' = make_room-AllSound k s a in
    put-AllSound k
      (place (finite lat) (finite lon) altitude (time_or timestamp now) (node_or_new k s')) s'
      (record { placed = on; measured = (node_or_new-IsSound k s' a').measured }) a'

pub update_nodeinfo-AllSound :
    (k long_name short_name hw_model role : String) (now : ℕ) (s : NodeStore)
    → AllSound s
    → AllSound (update_nodeinfo k long_name short_name hw_model role now s)
unfolding update_nodeinfo identify
update_nodeinfo-AllSound k long_name short_name hw_model role now s a =
    let old : IsSound (node_or_new k s) = node_or_new-IsSound k s a in
    put-AllSound k (identify long_name short_name hw_model role now (node_or_new k s)) s
      (record { placed = old.placed; measured = old.measured }) a

pub update_telemetry-AllSound :
    (k : String) (fields : Dict (Option Value)) (now : ℕ) (s : NodeStore)
    → All FieldFits fields
    → AllSound s
    → AllSound (update_telemetry k fields now s)
unfolding update_telemetry measure
update_telemetry-AllSound k fields now s fits a =
    let old : IsSound (node_or_new k s) = node_or_new-IsSound k s a in
    put-AllSound k (measure fields now (node_or_new k s)) s
      (record {
        placed = old.placed;
        measured = add_fields-Measured fields (node_or_new k s).telemetry fits old.measured;
      })
      a
