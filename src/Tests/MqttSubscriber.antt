-- ===== src/Tests/MqttSubscriber.antt =====
-- Runs of the subscriber of src/collectors/mqtt_subscriber.py, and its theorems at concrete inputs.
use meshforge_maps.Base.{Bool, inr, arith, ℕ, ◌≡◌, refl, true, false, none, some, List, [], ◌∷◌}
use meshforge_maps.Int.{pos}
use meshforge_maps.Float.{plus_inf}
use meshforge_maps.Dict.{lookup}
use meshforge_maps.NodeStore.{NodeStore}
use meshforge_maps.Reconnect.{for_mqtt}
use meshforge_maps.MqttSubscriber.{whole, real, safe, safe_int, overflow, ints}
use meshforge_maps.MqttSubscriber.Handlers.{Telemetry, node_name}
use meshforge_maps.MqttSubscriber.Decoding.{Packet}
use meshforge_maps.MqttSubscriber.Messages.{
  Json, Envelope, Message, Subscriber, run, decode_protobuf,
}
use meshforge_maps.MqttSubscriber.Senders.{Concerns, packet-Concerns}
use meshforge_maps.MqttSubscriber.Topics.{expand, subscriptions}
use meshforge_maps.MqttSubscriber.Ranges.{AllSound}
use meshforge_maps.MqttSubscriber.Soundness.{messages_stay-AllSound}
use meshforge_maps.MqttSubscriber.Loop
use meshforge_maps.MqttSubscriber.Loop.{Loop, running, crashed, Round, held, lost, start, stopped}
use meshforge_maps.MqttSubscriber.Fate.{Failed, loop_fate}

region_topics : subscriptions "msh/US/HI" ≡ "msh/US/HI/2/e/#" ∷ "msh/US/HI/2/json/#" ∷ []
unfolding subscriptions expand
region_topics = refl

full_topic : subscriptions "msh/#" ≡ "msh/#" ∷ []
unfolding subscriptions expand
full_topic = refl

padded : node_name 48_879 ≡ "!0000beef"
unfolding node_name
padded = refl

infinite_level : safe (ints (pos 0) (pos 100)) (some (real plus_inf)) ≡ overflow
unfolding safe safe_int
infinite_level = refl

abbrev empty : NodeStore
empty = record {
  nodes = [];
  neighbors = [];
  stale_seconds = 3600;
  remove_seconds = 7200;
  max_nodes = 10;
}

abbrev subscriber : Subscriber
subscriber = record { store = empty; messages_received = 0; decrypt_skipped = 0; has_proto = true }

abbrev battery : Telemetry
battery = record {
  device = some (("battery_level", whole (pos 88)) ∷ ("voltage", real plus_inf) ∷ []);
  environment = none;
  air_quality = none;
  health = none;
  power = none;
  local = none;
  host = none;
}

abbrev message_of : ℕ → Envelope → Message
message_of size envelope = record {
  topic = "msh/US/2/e/LongFast/!a";
  size = size;
  json = Json.undecodable;
  envelope = envelope;
}

abbrev messages : List (Message × ℕ)
messages =
    (
      message_of 40
          (Envelope.packet 48_879 (Packet.position (pos 213_000_000) (pos 1_570_000_000) (pos 12))),
      100,
    )
    ∷ (message_of 60 (Envelope.packet 48_879 (Packet.telemetry battery)), 101)
    ∷ (message_of 70_000 Envelope.nothing, 102)
    ∷ (message_of 9 Envelope.garbage, 103)
    ∷ []

empty_sound : AllSound empty
unfolding lookup
empty_sound = λ k node e. absurd (cc)

messages_stay-AllSound_example : AllSound (run subscriber messages).0.store
messages_stay-AllSound_example = messages_stay-AllSound subscriber messages empty_sound

-- a connection that held and ended by `stop`, which clears `_running`
abbrev turns : List (Bool × Round × ℕ)
turns = (true, held 100 900, 901) ∷ (false, held 902 903, 904) ∷ []

started : Failed 0 (start 50 empty)
unfolding start
started = record { runs = refl; doubles = refl; times = refl }

stops : (Loop.run (λ d. d) (start 50 empty) turns).status ≡ stopped
stops = loop_fate (λ d. d) 0 (start 50 empty) turns started

-- a loop that failed 1023 times in a row
abbrev worn : Loop
worn = record {
  status = running;
  strategy = record for_mqtt { attempt = 1023 };
  last_cleanup = 50;
  store = empty;
}

-- one failure more is borne, a brief connection does not reset the count, and the next failure raises
abbrev last_turns : List (Bool × Round × ℕ)
last_turns =
    (true, lost 902 true false, 905)
    ∷ (true, held 906 910, 911)
    ∷ (true, lost 912 true false, 915)
    ∷ (true, held 916 1000, 1001)
    ∷ []

loop_fate_example : (Loop.run (λ d. d) worn last_turns).status ≡ crashed
loop_fate_example =
    loop_fate (λ d. d) 1023 worn last_turns (record { runs = refl; doubles = refl; times = refl })

packet-Concerns_example :
    Concerns
      (node_name 48_879)
      (node_name 7)
      empty
      (decode_protobuf (Envelope.packet 48_879 (Packet.telemetry battery)) 100 empty)
packet-Concerns_example =
    packet-Concerns 48_879 7 (Packet.telemetry battery) 100 empty (omega arith) (omega arith)
      (λ e. absurd (omega (arith, e))) (inr (omega arith))
