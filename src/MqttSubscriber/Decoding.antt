-- ===== src/MqttSubscriber/Decoding.antt =====
-- src/collectors/mqtt_subscriber.py: the handlers of map reports and of JSON messages, and the port numbers.
use meshforge_maps.Base.{
  ℕ, zero, suc, String, Bool, true, Option, none, some, List, [], ◌∷◌, not, ◌&&◌, ◌||◌,
  if◌then◌else◌, str_eq, get_or, is_some,
}
use meshforge_maps.Int.{ℤ, pos, negsuc, eqb_ℤ}
use meshforge_maps.Float.{Float, finite, whole, le_float, eq_float}
use meshforge_maps.Dict.{Dict}
use meshforge_maps.Geo.{Coordinate, validate_coordinates, scale, degree}
use meshforge_maps.NodeStore.{
  Value, text, NodeStore, update_position, update_nodeinfo, update_telemetry,
}
use meshforge_maps.MqttSubscriber.{Reading, Safe, kept, dropped, overflow, safe_int}
use meshforge_maps.MqttSubscriber.Handlers.{
  node_name, Effect, unchanged, announced, broken, handle_position, handle_nodeinfo, Telemetry,
  handle_telemetry, handle_neighborinfo,
}

-- s[:n]
abbrev pub cap_text : ℕ → String → String
cap_text zero s = String.[]
cap_text (suc n) String.[] = String.[]
cap_text (suc n) (String.◌∷◌ c s) = String.◌∷◌ c (cap_text n s)

pub record MapReport : Type 0 where
  pub long_name : String
  pub short_name : String
  pub hw_model : String
  pub role : String
  pub firmware_version : String
  pub region : String
  pub modem_preset : String
  pub num_online : Option Reading
  pub latitude_i : ℤ
  pub longitude_i : ℤ
  pub altitude : Option ℤ

-- a text that is not empty
abbrev pub text_or_none : String → Option Value
text_or_none t = if str_eq t "" then none else some (text t)

abbrev pub value_of : Safe ℤ → Option Value
value_of (kept n) = some (Value.int n)
value_of _ = none

-- the position of a report, where both numbers are there and valid
unfoldable pub report_position : String → MapReport → ℕ → NodeStore → NodeStore
report_position node_id r now s =
    if eqb_ℤ r.latitude_i (pos 0) || eqb_ℤ r.longitude_i (pos 0)
    then s
    else elim (validate_coordinates (Coordinate.int r.latitude_i) (Coordinate.int r.longitude_i)
        true) [
          | none ↦ s
          | some (lat, lon) ↦
              (update_position node_id (finite lat) (finite lon) r.altitude none now s).0
        ]

abbrev pub report_fields : MapReport → Safe ℤ → Dict (Option Value)
report_fields r online =
    ("firmware_version", text_or_none (cap_text 32 r.firmware_version))
    ∷ ("region", text_or_none (cap_text 16 r.region))
    ∷ ("modem_preset", text_or_none (cap_text 16 r.modem_preset))
    ∷ ("num_online_local_nodes", value_of online)
    ∷ []

abbrev pub store_report : String → MapReport → Safe ℤ → ℕ → NodeStore → NodeStore
store_report node_id r online now s = update_telemetry node_id (report_fields r online) now (
    update_nodeinfo node_id (cap_text 40 r.long_name) (cap_text 8 r.short_name)
      (cap_text 32 r.hw_model) (cap_text 16 r.role) now (report_position node_id r now s))

-- an OverflowError comes before anything is stored
unfoldable pub handle_map_report : String → MapReport → ℕ → NodeStore → Effect
handle_map_report node_id r now s = elim (safe_int (pos 0) (pos 100_000) r.num_online) [
  | overflow ↦ broken s
  | dropped ↦ announced node_id "nodeinfo" (store_report node_id r dropped now s)
  | kept n ↦ announced node_id "nodeinfo" (store_report node_id r (kept n) now s)
]

-- the sender of a JSON message, by its number or its id
pub data Sender : Type 0 where
  number : ℕ → Sender
  id : String → Sender

abbrev pub sender_id : Sender → String
sender_id (number n) = node_name n
sender_id (id node_id) = node_id

-- the fields of a JSON message: its coordinates divided by 1e7, and an altitude that is an integer
pub record JsonMessage : Type 0 where
  pub sender : Sender
  pub msg_type : String
  pub latitude_i : Option Float
  pub longitude_i : Option Float
  pub altitude : Option ℤ
  pub long_name : String
  pub short_name : String
  pub hw_model : String

-- -90 <= lat <= 90 and -180 <= lon <= 180
abbrev pub on_globe : Float → Float → Bool
on_globe lat lon =
    le_float (finite (scale (negsuc 89) degree)) lat
    && le_float lat (whole 90)
    && le_float (finite (scale (negsuc 179) degree)) lon
    && le_float lon (whole 180)

unfoldable pub json_position : JsonMessage → ℕ → NodeStore → NodeStore
json_position j now s =
    let lat = get_or j.latitude_i (whole 0) in
    let lon = get_or j.longitude_i (whole 0) in
    if (str_eq j.msg_type "position" || is_some j.latitude_i)
      && not (eq_float lat (whole 0))
      && not (eq_float lon (whole 0))
      && on_globe lat lon
    then (update_position (sender_id j.sender) lat lon j.altitude none now s).0
    else s

-- `_decode_json`, which announces nothing
unfoldable pub handle_json : JsonMessage → ℕ → NodeStore → Effect
handle_json j now s =
    let s' = json_position j now s in
    unchanged (
      if str_eq j.msg_type "nodeinfo"
      then update_nodeinfo (sender_id j.sender) j.long_name j.short_name j.hw_model "" now s'
      else s')

-- a decoded packet, by its port number
pub data Packet : Type 0 where
  position : ℤ → ℤ → ℤ → Packet
  nodeinfo : String → String → String → String → Packet
  telemetry : Telemetry → Packet
  neighborinfo : List (ℕ × Float) → Packet
  map_report : MapReport → Packet
  other : Packet

unfoldable pub handle : String → Packet → ℕ → NodeStore → Effect
handle node_id (position lat lon altitude) now s = handle_position node_id lat lon altitude now s
handle node_id (nodeinfo long_name short_name hw_model role) now s =
    handle_nodeinfo node_id long_name short_name hw_model role now s
handle node_id (telemetry t) now s = handle_telemetry node_id t now s
handle node_id (neighborinfo neighbors) now s = handle_neighborinfo node_id neighbors s
handle node_id (map_report r) now s = handle_map_report node_id r now s
handle node_id other now s = unchanged s
