-- ===== src/NodeStore/Reads.antt =====
-- src/collectors/mqtt_subscriber.py, `MQTTNodeStore`: the methods that read the store.
use Prim.Native.String.{◌++◌ as join}
use meshforge_maps.Base.{
  ℕ, ◌+◌, String, Bool, false, Option, none, some, List, [], ◌∷◌, ◌++◌, ltb, if◌then◌else◌, str_eq,
}
use meshforge_maps.Int.{ℤ, negsuc}
use meshforge_maps.Float.{Float, finite, lt_float, whole}
use meshforge_maps.Dict.{Dict, lookup}
use meshforge_maps.Geo.{Coordinate, null, number, validate_coordinates}
use meshforge_maps.NodeStore.{Node, Neighbor, NodeStore, seen}

-- without the leading '!'s
abbrev pub strip_marks : String → String
strip_marks String.[] = String.[]
strip_marks (String.◌∷◌ c s) =
    let rest = strip_marks s in if str_eq (String.◌∷◌ c String.[]) "!" then rest else String.◌∷◌ c s

abbrev pub has_mark : String → Bool
has_mark String.[] = false
has_mark (String.◌∷◌ c s) = str_eq (String.◌∷◌ c String.[]) "!"

-- the other form of an id
abbrev pub other_form : String → String
other_form node_id = if has_mark node_id then strip_marks node_id else join "!" node_id

unfoldable pub get_node : String → NodeStore → Option Node
get_node node_id s = elim (lookup node_id s.nodes) [
  | some node ↦ some node
  | none ↦ lookup (other_form node_id) s.nodes
]

abbrev pub coordinate_of : Option Float → Coordinate
coordinate_of none = null
coordinate_of (some x) = number x

-- validate_coordinates(node.get("latitude"), node.get("longitude"))
abbrev pub coords_of : Node → Option (ℤ × ℤ)
coords_of node =
    validate_coordinates (coordinate_of node.latitude) (coordinate_of node.longitude) false

abbrev pub shown : ℕ → ℕ → Node → Node
shown now stale node =
    if ltb (seen node + stale) now then record node { is_online = some false } else node

unfoldable pub visible : ℕ → ℕ → Dict Node → List Node
visible now stale [] = []
visible now stale ((k, node) ∷ nodes) =
    let rest = visible now stale nodes in
    elim (coords_of node) [ none ↦ rest | some _ ↦ shown now stale node ∷ rest ]

unfoldable pub get_all_nodes : ℕ → NodeStore → List Node
get_all_nodes now s = visible now s.stale_seconds s.nodes

pub record Link : Type 0 where
  pub source : String
  pub target : String
  pub source_at : ℤ × ℤ
  pub target_at : ℤ × ℤ
  pub snr : Option Float

abbrev pub place_of : String → NodeStore → Option (ℤ × ℤ)
place_of node_id s = elim (lookup node_id s.nodes) [ none ↦ none | some node ↦ coords_of node ]

-- the links from one node whose place is known
unfoldable pub links_from : String → ℤ × ℤ → List Neighbor → NodeStore → List Link
links_from source at [] s = []
links_from source at (n ∷ neighbors) s =
    let rest = links_from source at neighbors s in
    elim (place_of n.node_id s) [
      | none ↦ rest
      | some there ↦
          record {
            source = source;
            target = n.node_id;
            source_at = at;
            target_at = there;
            snr = n.snr;
          }
          ∷ rest
    ]

unfoldable pub links_of : Dict (List Neighbor) → NodeStore → List Link
links_of [] s = []
links_of ((node_id, neighbors) ∷ rest) s = elim (place_of node_id s) [
  | none ↦ links_of rest s
  | some at ↦ links_from node_id at neighbors s ++ links_of rest s
]

unfoldable pub get_topology_links : NodeStore → List Link
get_topology_links s = links_of s.neighbors s

-- `_classify_snr`: the quality of a link
unfoldable pub classify_snr : Option Float → String
classify_snr none = "unknown"
classify_snr (some snr) =
    if lt_float (whole 8) snr
    then "excellent"
    else if lt_float (whole 5) snr
    then "good"
    else if lt_float (whole 0) snr
    then "marginal"
    else if lt_float (finite (negsuc 99_999_999)) snr
    then "poor"
    else "bad"
