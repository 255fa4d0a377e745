-- ===== src/EventBus/Delivery.antt =====
-- src/utils/event_bus.py, `publish`: who is called, and what is counted.
use meshforge_maps.Base.{
  ℕ, ◌+◌, ◌≡◌, refl, ap, ◌∙◌, Bool, true, false, none, some, List, [], ◌∷◌, ◌++◌, ◌==◌, arith,
  if◌then◌else◌, if_split, length, count,
}
use meshforge_maps.EventBus.{
  EventType, EventBus, type_value, member, set_at, targets_of, safe_call, call_all, publish,
}
use meshforge_maps.EventBus.Sets.{IsValid, IsUnique, subscribed, set_at-IsUnique}

abbrev pub one_if : Bool → ℕ
one_if true = 1
one_if false = 0

abbrev pub times : ℕ → List ℕ → ℕ
times c calls = count (λ d. c == d) calls

times-IsUnique : (c : ℕ) (set : List ℕ) → IsUnique set → times c set ≡ one_if (member c set)
times-IsUnique c [] h = refl
times-IsUnique c (x ∷ set) h = ground (arith, times-IsUnique c set h.1, h.0)

times-append : (c : ℕ) (a b : List ℕ) → times c (a ++ b) ≡ times c a + times c b
times-append c [] b = omega arith
times-append c (x ∷ a) b = omega (arith, times-append c a b)

-- what a round of calls does to the bus
pub record Delivered (raises : ℕ → EventType → Bool) (event_type : EventType) (targets : List ℕ)
    (bus : EventBus) (r : EventBus × List ℕ) : Type 0 where
  pub calls : r.1 ≡ targets
  pub errors : r.0.total_errors ≡ bus.total_errors + count (λ c. raises c event_type) targets
  pub all :
      r.0.total_delivered + r.0.total_errors
      ≡ bus.total_delivered + bus.total_errors + length targets
  pub published : r.0.total_published ≡ bus.total_published
  pub unchanged : r.0.subscribers ≡ bus.subscribers

abbrev Called : (ℕ → EventType → Bool) → EventType → ℕ → EventBus → EventBus → Type 0
Called raises event_type c bus b =
    (b.total_errors ≡ bus.total_errors + (if raises c event_type then 1 else 0))
    × (b.total_delivered + b.total_errors ≡ bus.total_delivered + bus.total_errors + 1)
    × (b.total_published ≡ bus.total_published)
    × (b.subscribers ≡ bus.subscribers)

safe_call-Called :
    (raises : ℕ → EventType → Bool) (event_type : EventType) (c : ℕ) (bus : EventBus)
    → Called raises event_type c bus (safe_call raises event_type c bus)
unfolding safe_call
safe_call-Called raises event_type c bus =
    if_split (Called raises event_type c bus) (raises c event_type)
      (record bus { total_errors = bus.total_errors + 1 })
      (record bus { total_delivered = bus.total_delivered + 1 })
      (λ bad. (rw bad refl, omega arith, refl, refl))
      (λ good. (rw good (omega arith), omega arith, refl, refl))

call_all-Delivered :
    (raises : ℕ → EventType → Bool) (event_type : EventType) (targets : List ℕ) (bus : EventBus)
    → Delivered raises event_type targets bus (call_all raises event_type targets bus)
unfolding call_all
call_all-Delivered raises event_type [] bus = record {
  calls = refl;
  errors = omega arith;
  all = omega arith;
  published = refl;
  unchanged = refl;
}
call_all-Delivered raises event_type (c ∷ targets) bus =
    let (errors', all', published', unchanged') = safe_call-Called raises event_type c bus in
    let rest = call_all-Delivered raises event_type targets (safe_call raises event_type c bus) in
    record {
      calls = ap (λ t. c ∷ t) rest.calls;
      errors = omega (arith, rest.errors, errors');
      all = omega (arith, rest.all, all');
      published = rest.published ∙ published';
      unchanged = rest.unchanged ∙ unchanged';
    }

-- On a valid bus a publication calls every callback once for a subscription to the event's type and
-- once for one to all events, and no other callback, whichever of them raise; it counts itself
-- once, each call that raises as an error and each other call as delivered; and it leaves the
-- subscriptions.
pub publish_delivers :
    (raises : ℕ → EventType → Bool) (event_type : EventType) (bus : EventBus) (c : ℕ)
    → IsValid bus
    → let r = publish raises event_type bus in
      (times c r.1 ≡ one_if (subscribed c (some event_type) bus) + one_if (subscribed c none bus))
      × (r.0.total_published ≡ bus.total_published + 1)
      × (r.0.total_errors ≡ bus.total_errors + count (λ c. raises c event_type) r.1)
      × (r.0.total_delivered + r.0.total_errors
          ≡ bus.total_delivered + bus.total_errors + length r.1)
      × (r.0.subscribers ≡ bus.subscribers)
unfolding publish targets_of
publish_delivers raises event_type bus c v =
    let specific = set_at (type_value event_type) bus in
    let wildcard = set_at "" bus in
    let out =
      call_all-Delivered raises event_type (specific ++ wildcard)
        (record bus { total_published = bus.total_published + 1 }) in
    (
      ap (times c) out.calls
          ∙ times-append c specific wildcard
          ∙ omega (
            arith,
            times-IsUnique c specific (set_at-IsUnique (type_value event_type) bus v),
            times-IsUnique c wildcard (set_at-IsUnique "" bus v),
          ),
      out.published,
      rw out.calls out.errors,
      rw out.calls out.all,
      out.unchanged,
    )
