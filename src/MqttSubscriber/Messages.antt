-- ===== src/MqttSubscriber/Messages.antt =====
-- src/collectors/mqtt_subscriber.py, `_on_message`: the routing of a message, and its counters. A message
-- comes with what the JSON and protobuf decoders make of its payload.
use meshforge_maps.Base.{ℕ, ◌+◌, String, Bool, List, [], ◌∷◌, ◌++◌, ltb, if◌then◌else◌, is_infix}
use meshforge_maps.NodeStore.{NodeStore}
use meshforge_maps.MqttSubscriber.Handlers.{node_name, Effect, unchanged, broken}
use meshforge_maps.MqttSubscriber.Decoding.{JsonMessage, handle_json, Packet, handle}

-- bytes that are no JSON are passed over; JSON of another shape raises
pub data Json : Type 0 where
  undecodable malformed : Json
  message : JsonMessage → Json

-- a ServiceEnvelope: it raises, is empty or cannot be decrypted, or has a packet of a node's number
pub data Envelope : Type 0 where
  garbage nothing : Envelope
  packet : ℕ → Packet → Envelope

pub record Message : Type 0 where
  pub topic : String
  pub size : ℕ
  pub json : Json
  pub envelope : Envelope

pub record Subscriber : Type 0 where
  pub store : NodeStore
  pub messages_received : ℕ
  pub decrypt_skipped : ℕ
  pub has_proto : Bool  -- the protobuf definitions are installed

abbrev pub max_payload_size : ℕ
max_payload_size = 65_536

unfoldable pub decode_json : Json → ℕ → NodeStore → Effect
decode_json undecodable now s = unchanged s
decode_json malformed now s = broken s
decode_json (message j) now s = handle_json j now s

unfoldable pub decode_protobuf : Envelope → ℕ → NodeStore → Effect
decode_protobuf garbage now s = broken s
decode_protobuf nothing now s = unchanged s
decode_protobuf (packet sender p) now s = handle (node_name sender) p now s

unfoldable pub route : Message → Bool → ℕ → NodeStore → Effect
route m has_proto now s =
    if is_infix "/json/" m.topic
    then decode_json m.json now s
    else if has_proto
    then decode_protobuf m.envelope now s
    else decode_json m.json now s

abbrev pub settle : Subscriber → Effect → Subscriber
settle sub e = record sub {
  store = e.store;
  messages_received = sub.messages_received + 1;
  decrypt_skipped = if e.failed then sub.decrypt_skipped + 1 else sub.decrypt_skipped;
}

-- the subscriber, and the updates that are announced
unfoldable pub on_message : Message → ℕ → Subscriber → Subscriber × List (String × String)
on_message m now sub =
    if ltb max_payload_size m.size
    then (sub, [])
    else let e = route m sub.has_proto now sub.store in (settle sub e, e.updates)

-- messages, with the times at which they come
unfoldable pub run : Subscriber → List (Message × ℕ) → Subscriber × List (String × String)
run sub [] = (sub, [])
run sub ((m, now) ∷ messages) =
    let (sub', updates) = on_message m now sub in
    let (sub'', later) = run sub' messages in (sub'', updates ++ later)
