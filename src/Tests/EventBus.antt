-- ===== src/Tests/EventBus.antt =====
-- Runs of src/utils/event_bus.py, and its theorems at concrete inputs.
use meshforge_maps.Base.{
  ℕ, ◌+◌, ◌≡◌, ◌==◌, refl, Bool, none, some, List, [], ◌∷◌, ◌&&◌, ◌||◌, not, str_eq, length, count,
}
use meshforge_maps.Dict.{lookup, insert, erase}
use meshforge_maps.EventBus.{
  EventType, node_position, alert_fired, key_of, EventBus, create, add, discard, subscribe,
  unsubscribe, targets_of, safe_call, call_all, publish,
}
use meshforge_maps.EventBus.Sets.{
  IsValid, subscribed, Subscription, on, off, follow, follow-IsValid, subscribed-subscribe,
  subscribed-unsubscribe,
}
use meshforge_maps.EventBus.Delivery.{one_if, times, publish_delivers}

create-IsValid : IsValid create
create-IsValid = record { distinct = tt; sets = tt }

abbrev subscriptions : List Subscription
subscriptions =
    on (some node_position) 1
    ∷ on none 2
    ∷ on (some node_position) 2
    ∷ on (some alert_fired) 3
    ∷ off (some alert_fired) 3
    ∷ []

abbrev bus : EventBus
bus = follow create subscriptions

-- the callback 1 raises on every event
abbrev raises : ℕ → EventType → Bool
raises c event_type = c == 1

-- 2 is called twice, 3 is gone
calls_run : (publish raises node_position bus).1 ≡ 1 ∷ 2 ∷ 2 ∷ []
unfolding publish call_all safe_call targets_of follow subscribe unsubscribe add discard lookup
    insert erase
calls_run = refl

subscribed-subscribe_example :
    subscribed 4 none (subscribe (some alert_fired) 4 bus)
    ≡ ((str_eq (key_of (some alert_fired)) (key_of none) && 4 == 4) || subscribed 4 none bus)
subscribed-subscribe_example = subscribed-subscribe 4 4 (some alert_fired) none bus

subscribed-unsubscribe_example :
    subscribed 2 none (unsubscribe (some node_position) 2 bus)
    ≡ (not (str_eq (key_of (some node_position)) (key_of none) && 2 == 2) && subscribed 2 none bus)
subscribed-unsubscribe_example = subscribed-unsubscribe 2 2 (some node_position) none bus

publish_delivers_example :
    let r = publish raises node_position bus in
    (times 2 r.1 ≡ one_if (subscribed 2 (some node_position) bus) + one_if (subscribed 2 none bus))
    × (r.0.total_published ≡ bus.total_published + 1)
    × (r.0.total_errors ≡ bus.total_errors + count (λ c. raises c node_position) r.1)
    × (r.0.total_delivered + r.0.total_errors ≡ bus.total_delivered + bus.total_errors + length r.1)
    × (r.0.subscribers ≡ bus.subscribers)
publish_delivers_example =
    publish_delivers raises node_position bus 2 (follow-IsValid create subscriptions create-IsValid)
