-- ===== src/MqttSubscriber/Handlers.antt =====
-- src/collectors/mqtt_subscriber.py: the handlers of the port numbers, and of a JSON message. Each returns
-- the store, and the updates that `_notify_update` is called with, or that it raised. The id that an
-- eviction hands to the store's callback is `NodeStore.update_position`'s.
use Prim.Native.String.{◌++◌ as join}
use meshforge_maps.Base.{
  ℕ, zero, suc, ◌/◌, ◌%◌, String, Bool, true, false, Option, none, some, List, [], ◌∷◌, ◌==◌,
  if◌then◌else◌, map,
}
use meshforge_maps.Int.{ℤ, pos, eqb_ℤ}
use meshforge_maps.Float.{Float, finite}
use meshforge_maps.Dict.{Dict}
use meshforge_maps.Geo.{Coordinate, validate_coordinates}
use meshforge_maps.NodeStore.{
  Neighbor, NodeStore, update_position, update_nodeinfo, update_telemetry, update_neighbors,
}
use meshforge_maps.MqttSubscriber.{
  Reading, whole, Safe, kept, safe_int, Metric, minus, device_metrics, environment_metrics,
  air_quality_metrics, health_metrics, power_metrics, local_stats, host_metrics, read_metrics,
}

-- f"!{n:08x}", for a number of 32 bits
abbrev pub hex_digit : ℕ → String
hex_digit d =
    if d == 0
    then "0"
    else if d == 1
    then "1"
    else if d == 2
    then "2"
    else if d == 3
    then "3"
    else if d == 4
    then "4"
    else if d == 5
    then "5"
    else if d == 6
    then "6"
    else if d == 7
    then "7"
    else if d == 8
    then "8"
    else if d == 9
    then "9"
    else if d == 10
    then "a"
    else if d == 11
    then "b"
    else if d == 12
    then "c"
    else if d == 13
    then "d"
    else if d == 14
    then "e"
    else "f"

abbrev pub hex : ℕ → ℕ → String
hex zero n = ""
hex (suc digits) n = join (hex digits (n / 16)) (hex_digit (n % 16))

unfoldable pub node_name : ℕ → String
node_name n = join "!" (hex 8 n)

-- what a handler does: the store, the updates that are announced, and whether it raised
pub record Effect : Type 0 where
  pub store : NodeStore
  pub updates : List (String × String)
  pub failed : Bool

abbrev pub unchanged : NodeStore → Effect
unchanged s = record { store = s; updates = []; failed = false }

abbrev pub announced : String → String → NodeStore → Effect
announced node_id update s = record { store = s; updates = (node_id, update) ∷ []; failed = false }

abbrev pub broken : NodeStore → Effect
broken s = record { store = s; updates = []; failed = true }

abbrev pub kept_or_none : {A : Type 0} → Safe A → Option A
kept_or_none (kept a) = some a
kept_or_none _ = none

-- `_safe_int` if it is not 0
abbrev pub altitude_of : ℤ → Option ℤ
altitude_of alt =
    if eqb_ℤ alt (pos 0)
    then some (pos 0)
    else kept_or_none (safe_int (minus 500) (pos 100_000) (some (whole alt)))

unfoldable pub handle_position : String → ℤ → ℤ → ℤ → ℕ → NodeStore → Effect
handle_position node_id latitude_i longitude_i altitude now s =
    elim (validate_coordinates (Coordinate.int latitude_i) (Coordinate.int longitude_i) true) [
      | none ↦ unchanged s
      | some (lat, lon) ↦
          announced node_id "position"
            (update_position node_id (finite lat) (finite lon) (altitude_of altitude) none now s).0
    ]

unfoldable pub handle_nodeinfo : String → String → String → String → String → ℕ → NodeStore → Effect
handle_nodeinfo node_id long_name short_name hw_model role now s =
    announced node_id "nodeinfo" (update_nodeinfo node_id long_name short_name hw_model role now s)

-- the groups of metrics that a message may have, in the order in which they are handled
pub record Telemetry : Type 0 where
  pub device : Option (Dict Reading)
  pub environment : Option (Dict Reading)
  pub air_quality : Option (Dict Reading)
  pub health : Option (Dict Reading)
  pub power : Option (Dict Reading)
  pub local : Option (Dict Reading)
  pub host : Option (Dict Reading)

abbrev pub groups_of : Telemetry → List (List Metric × Option (Dict Reading))
groups_of t =
    (device_metrics, t.device)
    ∷ (environment_metrics, t.environment)
    ∷ (air_quality_metrics, t.air_quality)
    ∷ (health_metrics, t.health)
    ∷ (power_metrics, t.power)
    ∷ (local_stats, t.local)
    ∷ (host_metrics, t.host)
    ∷ []

-- the groups one after the other: the ones before an error have been stored
unfoldable pub store_groups :
    String → ℕ → List (List Metric × Option (Dict Reading)) → NodeStore → NodeStore × Bool
store_groups node_id now [] s = (s, false)
store_groups node_id now ((metrics, none) ∷ groups) s = store_groups node_id now groups s
store_groups node_id now ((metrics, some message) ∷ groups) s =
    elim (read_metrics metrics message) [
      | none ↦ (s, true)
      | some fields ↦ store_groups node_id now groups (update_telemetry node_id fields now s)
    ]

unfoldable pub handle_telemetry : String → Telemetry → ℕ → NodeStore → Effect
handle_telemetry node_id t now s =
    let (s', failed) = store_groups node_id now (groups_of t) s in
    if failed then broken s' else announced node_id "telemetry" s'

abbrev pub neighbor_of : ℕ × Float → Neighbor
neighbor_of (n, snr) = record { node_id = node_name n; snr = some snr }

unfoldable pub handle_neighborinfo : String → List (ℕ × Float) → NodeStore → Effect
handle_neighborinfo node_id neighbors s =
    announced node_id "topology" (update_neighbors node_id (map neighbor_of neighbors) s)
