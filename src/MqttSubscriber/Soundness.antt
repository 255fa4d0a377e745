-- ===== src/MqttSubscriber/Soundness.antt =====
-- src/collectors/mqtt_subscriber.py: JSON and the routing of messages, under the invariant of Ranges; and the
-- counters of the messages.
use meshforge_maps.Base.{
  ℕ, ◌+◌, ◌≤◌, ◌≡◌, String, Bool, true, Option, none, List, [], ◌∷◌, arith, not, ◌&&◌, ◌||◌,
  if◌then◌else◌, if_both, if_split, Bool-cases, inl, inr, str_eq, get_or, is_some, is_infix, ltb,
  count,
}
use meshforge_maps.Int.{ℤ}
use meshforge_maps.Float.{Float, finite, plus_inf, minus_inf, nan, whole, eq_float}
use meshforge_maps.NodeStore.{NodeStore, update_position, update_neighbors}
use meshforge_maps.MqttSubscriber.Handlers.{node_name, Effect, handle_nodeinfo, handle_neighborinfo}
use meshforge_maps.MqttSubscriber.Decoding.{
  sender_id, JsonMessage, on_globe, json_position, handle_json, Packet, position, nodeinfo,
  telemetry, neighborinfo, map_report, other, handle,
}
use meshforge_maps.MqttSubscriber.Messages.{
  Json, undecodable, malformed, message, Envelope, garbage, nothing, packet, Message, Subscriber,
  max_payload_size, decode_json, decode_protobuf, route, on_message, run,
}
use meshforge_maps.MqttSubscriber.Ranges.{
  AllSound, update_position-AllSound, update_nodeinfo-AllSound,
}
use meshforge_maps.MqttSubscriber.Reports.{
  handle_position-AllSound, handle_telemetry-AllSound, handle_map_report-AllSound,
}

-- a position that passes the test of the globe; an infinity or NaN does not
globe-AllSound :
    (k : String) (lat lon : Float) (altitude : Option ℤ) (now : ℕ) (s : NodeStore)
    → on_globe lat lon ≡ true
    → AllSound s
    → AllSound (update_position k lat lon altitude none now s).0
globe-AllSound k (finite lat) (finite lon) altitude now s on a =
    update_position-AllSound k lat lon altitude none now s (ground arith) a
globe-AllSound k (finite lat) plus_inf altitude now s on a = absurd (ground arith)
globe-AllSound k (finite lat) minus_inf altitude now s on a = absurd (ground arith)
globe-AllSound k (finite lat) nan altitude now s on a = absurd (ground arith)
globe-AllSound k plus_inf lon altitude now s on a = absurd (ground arith)
globe-AllSound k minus_inf lon altitude now s on a = absurd (ground arith)
globe-AllSound k nan lon altitude now s on a = absurd (ground arith)

and_last : (a b c d : Bool) → (a && b && c && d) ≡ true → d ≡ true
and_last a b c d h = ground arith

json_position-AllSound :
    (j : JsonMessage) (now : ℕ) (s : NodeStore) → AllSound s → AllSound (json_position j now s)
unfolding json_position
json_position-AllSound j now s a =
    let lat = get_or j.latitude_i (whole 0) in
    let lon = get_or j.longitude_i (whole 0) in
    if_split AllSound
      ((str_eq j.msg_type "position" || is_some j.latitude_i)
        && not (eq_float lat (whole 0))
        && not (eq_float lon (whole 0))
        && on_globe lat lon)
      _ s
      (λ there.
        globe-AllSound (sender_id j.sender) lat lon j.altitude now s
          (and_last (str_eq j.msg_type "position" || is_some j.latitude_i) _ _ (on_globe lat lon)
            there)
          a)
      (λ _. a)

handle_json-AllSound :
    (j : JsonMessage) (now : ℕ) (s : NodeStore) → AllSound s → AllSound (handle_json j now s).store
unfolding handle_json
handle_json-AllSound j now s a =
    let a' : AllSound (json_position j now s) = json_position-AllSound j now s a in
    if_both AllSound (str_eq j.msg_type "nodeinfo") _ (json_position j now s)
      (update_nodeinfo-AllSound (sender_id j.sender) j.long_name j.short_name j.hw_model "" now
        (json_position j now s) a')
      a'

handle-AllSound :
    (k : String) (p : Packet) (now : ℕ) (s : NodeStore)
    → AllSound s
    → AllSound (handle k p now s).store
unfolding handle handle_nodeinfo handle_neighborinfo update_neighbors
handle-AllSound k (position lat lon altitude) now s a =
    handle_position-AllSound k lat lon altitude now s a
handle-AllSound k (nodeinfo long_name short_name hw_model role) now s a =
    update_nodeinfo-AllSound k long_name short_name hw_model role now s a
handle-AllSound k (telemetry t) now s a = handle_telemetry-AllSound k t now s a
handle-AllSound k (neighborinfo neighbors) now s a = a
handle-AllSound k (map_report r) now s a = handle_map_report-AllSound k r now s a
handle-AllSound k other now s a = a

decode_json-AllSound :
    (j : Json) (now : ℕ) (s : NodeStore) → AllSound s → AllSound (decode_json j now s).store
unfolding decode_json
decode_json-AllSound undecodable now s a = a
decode_json-AllSound malformed now s a = a
decode_json-AllSound (message j) now s a = handle_json-AllSound j now s a

decode_protobuf-AllSound :
    (e : Envelope) (now : ℕ) (s : NodeStore) → AllSound s → AllSound (decode_protobuf e now s).store
unfolding decode_protobuf
decode_protobuf-AllSound garbage now s a = a
decode_protobuf-AllSound nothing now s a = a
decode_protobuf-AllSound (packet sender p) now s a = handle-AllSound (node_name sender) p now s a

route-AllSound :
    (m : Message) (has_proto : Bool) (now : ℕ) (s : NodeStore)
    → AllSound s
    → AllSound (route m has_proto now s).store
unfolding route
route-AllSound m has_proto now s a =
    if_both (λ (e : Effect). AllSound e.store) (is_infix "/json/" m.topic)
      (decode_json m.json now s) _ (decode_json-AllSound m.json now s a)
      (if_both (λ (e : Effect). AllSound e.store) has_proto (decode_protobuf m.envelope now s)
        (decode_json m.json now s) (decode_protobuf-AllSound m.envelope now s a)
        (decode_json-AllSound m.json now s a))

on_message-AllSound :
    (m : Message) (now : ℕ) (sub : Subscriber)
    → AllSound sub.store
    → AllSound (on_message m now sub).0.store
unfolding on_message
on_message-AllSound m now sub a =
    if_both (λ (x : Subscriber × List (String × String)). AllSound x.0.store)
      (ltb max_payload_size m.size) (sub, []) _ a (route-AllSound m sub.has_proto now sub.store a)

-- Whatever messages come, protobuf or JSON, valid or not: a store whose nodes have no place or one on the
-- globe, and no metric out of the range of its key, stays such a store.
pub messages_stay-AllSound :
    (sub : Subscriber) (messages : List (Message × ℕ))
    → AllSound sub.store
    → AllSound (run sub messages).0.store
unfolding run
messages_stay-AllSound sub [] a = a
messages_stay-AllSound sub ((m, now) ∷ messages) a =
    messages_stay-AllSound (on_message m now sub).0 messages (on_message-AllSound m now sub a)

-- the messages that are not too large
abbrev pub accepted : List (Message × ℕ) → ℕ
accepted messages = count (λ (m : Message × ℕ). not (ltb max_payload_size m.0.size)) messages

on_message_counts :
    (m : Message) (now : ℕ) (sub : Subscriber)
    → let sub' = (on_message m now sub).0 in
      (sub'.messages_received
        ≡ sub.messages_received + (if not (ltb max_payload_size m.size) then 1 else 0))
      × (sub.decrypt_skipped ≤ sub'.decrypt_skipped)
      × (sub'.decrypt_skipped + sub.messages_received
          ≤ sub.decrypt_skipped + sub'.messages_received)
unfolding on_message
on_message_counts m now sub = elim (Bool-cases (ltb max_payload_size m.size)) [
  | inl large ↦ rw large (omega arith, omega arith, omega arith)
  | inr fits ↦ rw fits (ground arith, ground arith, ground arith)
]

-- Every message that is not too large is counted as received, and as skipped at most once.
pub messages_counted :
    (sub : Subscriber) (messages : List (Message × ℕ))
    → let sub' = (run sub messages).0 in
      (sub'.messages_received ≡ sub.messages_received + accepted messages)
      × (sub.decrypt_skipped ≤ sub'.decrypt_skipped)
      × (sub'.decrypt_skipped ≤ sub.decrypt_skipped + accepted messages)
unfolding run
messages_counted sub [] = (omega arith, omega arith, omega arith)
messages_counted sub ((m, now) ∷ messages) =
    let first = on_message_counts m now sub in
    let rest = messages_counted (on_message m now sub).0 messages in
    (omega (arith, first, rest), omega (arith, first, rest), omega (arith, first, rest))
