-- ===== src/AlertEngine/History.antt =====
-- src/utils/alert_engine.py: the alert history, its bound and its ids.
use meshforge_maps.Base.{
  ℕ, ◌+◌, ◌≤◌, ◌≡◌, refl, String, map, Bool, true, Option, none, some, List, [], ◌∷◌, arith, ltb,
  leb, ◌==◌, not, if◌then◌else◌, length, count, filter, if_both,
}
use meshforge_maps.Dict.{Dict}
use meshforge_maps.Float.{Float}
use meshforge_maps.AlertEngine.{
  Alert, AlertRule, AlertEngine, Value, record_alert, fire, evaluate_rule, evaluate_rules, triggers,
  in_cooldown, cooldown_key, default_cooldown, cooldown_cleanup_interval,
}
use meshforge_maps.AlertEngine.Methods.{
  cleanup, cleanup_if_due, evaluate_node, evaluate_offline, fire_offline, offline_alert,
  acknowledge_in, acknowledge, get_active_alerts,
}
use meshforge_maps.AlertEngine.Chronology.{Rising, Below, IsOrdered, record_alert-IsOrdered}

fire-IsOrdered :
    (g : AlertEngine) (rule : AlertRule) (node_id : String) (value : Float) (now : ℕ)
    → IsOrdered g
    → IsOrdered (fire g rule node_id value now).0
unfolding fire
fire-IsOrdered g rule node_id value now v =
    if_both (λ (x : AlertEngine × Option Alert). IsOrdered x.0) _ _ _ v
      (record_alert-IsOrdered g _ now _ v refl)

evaluate_rule-IsOrdered :
    (g : AlertEngine) (rule : AlertRule) (node_id : String) (network : Option Value)
    (context : Dict Value) (now : ℕ)
    → IsOrdered g
    → IsOrdered (evaluate_rule g rule node_id network context now).0
unfolding evaluate_rule
evaluate_rule-IsOrdered g rule node_id network context now v =
    elim (triggers rule network context)
      as (λ o.
        IsOrdered
          (elim o as (λ x. AlertEngine × Option Alert) [
            | none ↦ (g, none)
            | some value ↦ fire g rule node_id value now
          ]).0) [ none ↦ v | some value ↦ fire-IsOrdered g rule node_id value now v ]

pub evaluate_rules-IsOrdered :
    (rules : Dict AlertRule) (g : AlertEngine) (node_id : String) (network : Option Value)
    (context : Dict Value) (now : ℕ)
    → IsOrdered g
    → IsOrdered (evaluate_rules rules g node_id network context now).0
unfolding evaluate_rules
evaluate_rules-IsOrdered [] g node_id network context now v = v
evaluate_rules-IsOrdered ((k, rule) ∷ rules) g node_id network context now v =
    evaluate_rules-IsOrdered rules (evaluate_rule g rule node_id network context now).0 node_id
      network context now (evaluate_rule-IsOrdered g rule node_id network context now v)

cleanup_if_due-IsOrdered :
    (now : ℕ) (g : AlertEngine) → IsOrdered g → IsOrdered (cleanup_if_due now g)
unfolding cleanup_if_due cleanup
cleanup_if_due-IsOrdered now g v =
    if_both IsOrdered (ltb (g.last_cooldown_cleanup + cooldown_cleanup_interval) now)
      (cleanup now g) g
      (record {
        bound_pos = v.bound_pos;
        bounded = v.bounded;
        rising = v.rising;
        below = v.below;
        counted = v.counted;
      })
      v

fire_offline-IsOrdered :
    (g : AlertEngine) (key : String) (now : ℕ) (a : Alert)
    → IsOrdered g
    → a.alert_id ≡ g.alert_counter + 1
    → IsOrdered (fire_offline g key now a).0
unfolding fire_offline
fire_offline-IsOrdered g key now a v id =
    if_both (λ (x : AlertEngine × Option Alert). IsOrdered x.0)
      (in_cooldown g key default_cooldown now) (g, none) (record_alert g key now a, some a) v
      (record_alert-IsOrdered g key now a v id)

evaluate_offline-IsOrdered :
    (g : AlertEngine) (node_id : String) (last_seen threshold now : ℕ)
    → IsOrdered g
    → IsOrdered (evaluate_offline g node_id last_seen threshold now).0
unfolding evaluate_offline
evaluate_offline-IsOrdered g node_id last_seen threshold now v =
    let a = offline_alert g node_id last_seen threshold now in
    let key = cooldown_key node_id "node_offline" in
    if_both (λ (x : AlertEngine × Option Alert). IsOrdered x.0) (leb now (last_seen + threshold))
      (g, none) (fire_offline g key now a) v (fire_offline-IsOrdered g key now a v refl)

-- an acknowledgement changes no id
acknowledge_in-Rising :
    (id low : ℕ) (h : List Alert) → Rising low h → Rising low (acknowledge_in id h).0
unfolding acknowledge_in
acknowledge_in-Rising id low [] r = tt
acknowledge_in-Rising id low (a ∷ h) r =
    if_both (λ (x : List Alert × Bool). Rising low x.0) (a.alert_id == id) _ _ r
      (r.0, acknowledge_in-Rising id a.alert_id h r.1)

acknowledge_in-Below :
    (id high : ℕ) (h : List Alert) → Below high h → Below high (acknowledge_in id h).0
unfolding acknowledge_in
acknowledge_in-Below id high [] r = tt
acknowledge_in-Below id high (a ∷ h) r =
    if_both (λ (x : List Alert × Bool). Below high x.0) (a.alert_id == id) _ _ r
      (r.0, acknowledge_in-Below id high h r.1)

length-acknowledge_in : (id : ℕ) (h : List Alert) → length (acknowledge_in id h).0 ≡ length h
unfolding acknowledge_in
length-acknowledge_in id [] = refl
length-acknowledge_in id (a ∷ h) = ground (arith, length-acknowledge_in id h)

acknowledge-IsOrdered : (id : ℕ) (g : AlertEngine) → IsOrdered g → IsOrdered (acknowledge id g).0
unfolding acknowledge
acknowledge-IsOrdered id g v = record {
  bound_pos = v.bound_pos;
  bounded = omega (arith, length-acknowledge_in id g.history, v.bounded);
  rising = acknowledge_in-Rising id 0 g.history v.rising;
  below = acknowledge_in-Below id _ g.history v.below;
  counted = v.counted;
}

-- the calls that write to the history
pub data Call : Type 0 where
  node : String → Dict Value → Option Float → ℕ → Call
  offline : String → ℕ → ℕ → ℕ → Call
  ack : ℕ → Call

unfoldable pub apply : AlertEngine → Call → AlertEngine
apply g (node node_id props score now) = (evaluate_node g node_id props score now).0
apply g (offline node_id last_seen threshold now) =
    (evaluate_offline g node_id last_seen threshold now).0
apply g (ack id) = (acknowledge id g).0

unfoldable pub run : AlertEngine → List Call → AlertEngine
run g [] = g
run g (c ∷ calls) = run (apply g c) calls

apply-IsOrdered : (g : AlertEngine) (c : Call) → IsOrdered g → IsOrdered (apply g c)
unfolding apply evaluate_node
apply-IsOrdered g (node node_id props score now) v =
    evaluate_rules-IsOrdered _ _ node_id _ _ now (cleanup_if_due-IsOrdered now g v)
apply-IsOrdered g (offline node_id last_seen threshold now) v =
    evaluate_offline-IsOrdered g node_id last_seen threshold now v
apply-IsOrdered g (ack id) v = acknowledge-IsOrdered id g v

-- Whatever is evaluated and acknowledged, the history of a valid engine keeps to its bound, its ids
-- rise strictly and come from the counter, and the counter is the number of alerts fired.
pub run-IsOrdered : (g : AlertEngine) (calls : List Call) → IsOrdered g → IsOrdered (run g calls)
unfolding run
run-IsOrdered g [] v = v
run-IsOrdered g (c ∷ calls) v = run-IsOrdered (apply g c) calls (apply-IsOrdered g c v)

abbrev pub mark : ℕ → Alert → Alert
mark id a = if a.alert_id == id then record a { acknowledged = true } else a

mark_later : (id low : ℕ) (h : List Alert) → Rising low h → id ≤ low → map (mark id) h ≡ h
mark_later id low [] r le = refl
mark_later id low (a ∷ h) r le = ground (arith, mark_later id a.alert_id h r.1)

acknowledge_in-map :
    (id low : ℕ) (h : List Alert) → Rising low h → (acknowledge_in id h).0 ≡ map (mark id) h
unfolding acknowledge_in
acknowledge_in-map id low [] r = refl
acknowledge_in-map id low (a ∷ h) r =
    ground (arith, acknowledge_in-map id a.alert_id h r.1, mark_later id a.alert_id h r.1)

active-map :
    (id : ℕ) (h : List Alert)
    → filter (λ a. not a.acknowledged) (map (mark id) h)
      ≡ filter (λ a. not (a.alert_id == id)) (filter (λ a. not a.acknowledged) h)
active-map id [] = refl
active-map id (a ∷ h) = ground (arith, active-map id h)

-- In a valid engine an acknowledgement takes out of the active alerts the one with its id, and no
-- other, and leaves the order of the rest.
pub active-acknowledge :
    (id : ℕ) (g : AlertEngine)
    → IsOrdered g
    → get_active_alerts (acknowledge id g).0
      ≡ filter (λ a. not (a.alert_id == id)) (get_active_alerts g)
unfolding acknowledge get_active_alerts
active-acknowledge id g v =
    rw (acknowledge_in-map id 0 g.history v.rising) (active-map id g.history)

found-acknowledge_in :
    (id : ℕ) (h : List Alert) → (acknowledge_in id h).1 ≡ ltb 0 (count (λ a. a.alert_id == id) h)
unfolding acknowledge_in
found-acknowledge_in id [] = refl
found-acknowledge_in id (a ∷ h) = ground (arith, found-acknowledge_in id h)
