-- ===== src/NodeStore.antt =====
-- src/collectors/mqtt_subscriber.py, `MQTTNodeStore`: the live nodes, and the links between them.
-- A node is the dictionary of the code as a record: a key that is not there is `none`, and the keys of
-- telemetry stay a dictionary. `now` is the clock of the call; a difference `now - seen > limit` is
-- written `seen + limit < now`. The callback `on_node_removed` has no effect on the store (its
-- exceptions are caught, and it runs outside the lock): the ids that it gets are returned.
pub mod Counts
pub mod Growth
pub mod Reads
pub mod Ids
pub mod Eviction
pub mod Cleanup
pub mod Views
use Prim.Native.String.{◌++◌ as join}
use meshforge_maps.Base.{
  ℕ, zero, suc, ◌+◌, String, Bool, true, false, Option, none, some, List, [], ◌∷◌, ◌++◌, ltb, leb,
  ◌==◌, not, ◌&&◌, ◌||◌, if◌then◌else◌, length, get_or, is_some, str_eq, map,
}
use meshforge_maps.Int.{ℤ, negsuc}
use meshforge_maps.Float.{Float, finite, lt_float, whole}
use meshforge_maps.Dict.{Dict, lookup, contains, insert, erase}
use meshforge_maps.Dict.Evict.{oldest}
use meshforge_maps.Geo.{Coordinate, null, number, validate_coordinates}

pub data Value : Type 0 where
  int : ℤ → Value
  float : Float → Value
  text : String → Value

pub record Node : Type 0 where
  pub id : String
  pub latitude : Option Float
  pub longitude : Option Float
  pub altitude : Option ℤ
  pub last_seen : Option ℕ
  pub is_online : Option Bool
  pub name : Option String
  pub short_name : Option String
  pub hardware : Option String
  pub role : Option String
  pub telemetry : Dict Value

abbrev pub new_node : String → Node
new_node node_id = record {
  id = node_id;
  latitude = none;
  longitude = none;
  altitude = none;
  last_seen = none;
  is_online = none;
  name = none;
  short_name = none;
  hardware = none;
  role = none;
  telemetry = [];
}

pub record Neighbor : Type 0 where
  pub node_id : String
  pub snr : Option Float

pub record NodeStore : Type 0 where
  pub nodes : Dict Node
  pub neighbors : Dict (List Neighbor)
  pub stale_seconds : ℕ
  pub remove_seconds : ℕ
  pub max_nodes : ℕ

unfoldable pub create : ℕ → ℕ → ℕ → NodeStore
create stale_seconds remove_seconds max_nodes = record {
  nodes = [];
  neighbors = [];
  stale_seconds = stale_seconds;
  remove_seconds = remove_seconds;
  max_nodes = max_nodes;
}

-- node.get("last_seen", 0)
abbrev pub seen : Node → ℕ
seen node = get_or node.last_seen 0

-- `dict.setdefault(id, {"id": id})`
abbrev pub node_or_new : String → NodeStore → Node
node_or_new node_id s = get_or (lookup node_id s.nodes) (new_node node_id)

abbrev pub put : String → Node → NodeStore → NodeStore
put node_id node s = record s { nodes = insert node_id node s.nodes }

-- a new value, where one is given
abbrev pub set_if {ℓ} : {A : Type ℓ} → Option A → Option A → Option A
set_if none old = old
set_if (some new) old = some new

-- a text is given if it is not empty
abbrev pub given : String → Option String
given t = if str_eq t "" then none else some t

-- `del nodes[id]` and `neighbors.pop(id, None)`
abbrev pub drop_node : String → NodeStore → NodeStore
drop_node node_id s = record s {
  nodes = erase node_id s.nodes;
  neighbors = erase node_id s.neighbors;
}

-- `_evict_oldest_locked`
unfoldable pub evict_oldest : NodeStore → NodeStore × Option String
evict_oldest s = elim (oldest seen s.nodes) [
  | none ↦ (s, none)
  | some oldest_id ↦ (drop_node oldest_id s, some oldest_id)
]

unfoldable pub make_room : String → NodeStore → NodeStore × Option String
make_room node_id s =
    if not (contains node_id s.nodes) && leb s.max_nodes (length s.nodes)
    then evict_oldest s
    else (s, none)

-- `timestamp or int(time.time())`
abbrev pub time_or : Option ℕ → ℕ → ℕ
time_or none now = now
time_or (some t) now = if t == 0 then now else t

unfoldable pub place : Float → Float → Option ℤ → ℕ → Node → Node
place lat lon altitude time node = record node {
  latitude = some lat;
  longitude = some lon;
  altitude = set_if altitude node.altitude;
  last_seen = some time;
  is_online = some true;
}

-- the id that the callback gets, which is not called for an empty one
unfoldable pub update_position :
    String → Float → Float → Option ℤ → Option ℕ → ℕ → NodeStore → NodeStore × Option String
update_position node_id lat lon altitude timestamp now s =
    let (s', evicted) = make_room node_id s in
    (
      put node_id (place lat lon altitude (time_or timestamp now) (node_or_new node_id s')) s',
      elim evicted [ none ↦ none | some k ↦ given k ],
    )

unfoldable pub identify : String → String → String → String → ℕ → Node → Node
identify long_name short_name hw_model role now node = record node {
  name = set_if (given long_name) node.name;
  short_name = set_if (given short_name) node.short_name;
  hardware = set_if (given hw_model) node.hardware;
  role = set_if (given role) node.role;
  last_seen = some now;
}

unfoldable pub update_nodeinfo :
    String → String → String → String → String → ℕ → NodeStore → NodeStore
update_nodeinfo node_id long_name short_name hw_model role now s =
    put node_id (identify long_name short_name hw_model role now (node_or_new node_id s)) s

-- the keyword arguments that are not None
unfoldable pub add_fields : Dict (Option Value) → Dict Value → Dict Value
add_fields [] telemetry = telemetry
add_fields ((key, none) ∷ fields) telemetry = add_fields fields telemetry
add_fields ((key, some value) ∷ fields) telemetry = add_fields fields (insert key value telemetry)

unfoldable pub measure : Dict (Option Value) → ℕ → Node → Node
measure fields now node = record node {
  telemetry = add_fields fields node.telemetry;
  last_seen = some now;
}

unfoldable pub update_telemetry : String → Dict (Option Value) → ℕ → NodeStore → NodeStore
update_telemetry node_id fields now s = put node_id (measure fields now (node_or_new node_id s)) s

unfoldable pub update_neighbors : String → List Neighbor → NodeStore → NodeStore
update_neighbors node_id neighbors s = record s { neighbors = insert node_id neighbors s.neighbors }

-- the ids of the nodes that were not seen for longer than `remove_seconds`
unfoldable pub stale_ids : ℕ → ℕ → Dict Node → List String
stale_ids now limit [] = []
stale_ids now limit ((k, node) ∷ nodes) =
    let rest = stale_ids now limit nodes in if ltb (seen node + limit) now then k ∷ rest else rest

unfoldable pub drop_all : List String → NodeStore → NodeStore
drop_all [] s = s
drop_all (k ∷ ks) s = drop_all ks (drop_node k s)

-- the ids that are removed, in order: the callback gets them, and their number is returned
unfoldable pub cleanup_stale_nodes : ℕ → NodeStore → NodeStore × List String
cleanup_stale_nodes now s =
    let ids = stale_ids now s.remove_seconds s.nodes in (drop_all ids s, ids)
