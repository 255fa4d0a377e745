-- ===== src/EventBus.antt =====
-- src/utils/event_bus.py: publish and subscribe.
-- A callback is a number, and a set of callbacks a list without duplicates, in the order in which the
-- set hands them out. The key `None` of the wildcard subscribers is the empty string, which is the
-- value of no event type. `raises` says which callback raises on which event, a parameter; the
-- callbacks do not call the bus themselves. `calls` are the calls that a publication makes, in order.
-- The payload of an event plays no part in the delivery.
pub mod Sets
pub mod Delivery
use meshforge_maps.Base.{
  ℕ, zero, suc, ◌+◌, String, Bool, true, false, Option, none, some, List, [], ◌∷◌, ◌++◌, ◌==◌,
  if◌then◌else◌, length, get_or, not, ◌||◌,
}
use meshforge_maps.Dict.{Dict, lookup, contains, insert, erase}

pub data EventType : Type 0 where
  node_position node_info node_telemetry node_topology : EventType
  service_up service_down service_degraded : EventType
  data_refreshed alert_fired config_changed : EventType

-- `EventType.value`
abbrev pub type_value : EventType → String
type_value node_position = "node.position"
type_value node_info = "node.info"
type_value node_telemetry = "node.telemetry"
type_value node_topology = "node.topology"
type_value service_up = "service.up"
type_value service_down = "service.down"
type_value service_degraded = "service.degraded"
type_value data_refreshed = "data.refreshed"
type_value alert_fired = "alert.fired"
type_value config_changed = "config.changed"

abbrev pub key_of : Option EventType → String
key_of none = ""
key_of (some event_type) = type_value event_type

pub record EventBus : Type 0 where
  pub subscribers : Dict (List ℕ)
  pub total_published : ℕ
  pub total_delivered : ℕ
  pub total_errors : ℕ

abbrev pub create : EventBus
create = record { subscribers = []; total_published = 0; total_delivered = 0; total_errors = 0 }

abbrev pub member : ℕ → List ℕ → Bool
member c [] = false
member c (d ∷ set) = c == d || member c set

-- `set.add` and `set.discard`
unfoldable pub add : ℕ → List ℕ → List ℕ
add c set = if member c set then set else set ++ c ∷ []

unfoldable pub discard : ℕ → List ℕ → List ℕ
discard c [] = []
discard c (d ∷ set) = let rest = discard c set in if c == d then rest else d ∷ rest

-- the callbacks under a key, none for one that is not there
abbrev pub set_at : String → EventBus → List ℕ
set_at key bus = get_or (lookup key bus.subscribers) []

unfoldable pub subscribe : Option EventType → ℕ → EventBus → EventBus
subscribe event_type callback bus = record bus {
  subscribers =
      insert (key_of event_type) (add callback (set_at (key_of event_type) bus)) bus.subscribers;
}

unfoldable pub unsubscribe : Option EventType → ℕ → EventBus → EventBus
unsubscribe event_type callback bus =
    let key = key_of event_type in
    let left = discard callback (set_at key bus) in
    if length (set_at key bus) == 0 then bus else record bus {
      subscribers =
          if length left == 0 then erase key bus.subscribers else insert key left bus.subscribers;
    }

-- the targets of an event: the subscribers of its type, then those of all events
unfoldable pub targets_of : EventType → EventBus → List ℕ
targets_of event_type bus = set_at (key_of (some event_type)) bus ++ set_at (key_of none) bus

-- `_safe_call`
unfoldable pub safe_call : (ℕ → EventType → Bool) → EventType → ℕ → EventBus → EventBus
safe_call raises event_type callback bus =
    if raises callback event_type
    then record bus { total_errors = bus.total_errors + 1 }
    else record bus { total_delivered = bus.total_delivered + 1 }

unfoldable pub call_all : (ℕ → EventType → Bool) → EventType → List ℕ → EventBus → EventBus × List ℕ
call_all raises event_type [] bus = (bus, [])
call_all raises event_type (callback ∷ targets) bus =
    let (bus', calls) =
      call_all raises event_type targets (safe_call raises event_type callback bus) in
    (bus', callback ∷ calls)

unfoldable pub publish : (ℕ → EventType → Bool) → EventType → EventBus → EventBus × List ℕ
publish raises event_type bus =
    call_all raises event_type (targets_of event_type bus)
      (record bus { total_published = bus.total_published + 1 })

abbrev pub total_length : Dict (List ℕ) → ℕ
total_length [] = 0
total_length ((key, set) ∷ d) = length set + total_length d

unfoldable pub subscriber_count : Option EventType → EventBus → ℕ
subscriber_count none bus = total_length bus.subscribers
subscriber_count (some event_type) bus = length (set_at (key_of (some event_type)) bus)

abbrev pub reset : EventBus → EventBus
reset bus = create
