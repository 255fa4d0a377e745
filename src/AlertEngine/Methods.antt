-- ===== src/AlertEngine/Methods.antt =====
-- src/utils/alert_engine.py: the methods that evaluate a node, clean up, acknowledge and report.
use mathlib.Core.List.{reverse}
use meshforge_maps.Base.{
  ℕ, ◌+◌, ◌-◌, String, Bool, true, false, Option, none, some, List, [], ◌∷◌, ltb, leb, ◌==◌, not,
  ◌||◌, if◌then◌else◌, length, take, filter, str_eq,
}
use meshforge_maps.Float.{Float, whole}
use meshforge_maps.Dict.{Dict, lookup, insert, erase}
use meshforge_maps.AlertEngine.{
  Alert, AlertEngine, Value, number, node_offline, critical, type_value, severity_value,
  default_cooldown, cooldown_max_age, cooldown_cleanup_interval, max_cooldown_entries, cooldown_key,
  in_cooldown, record_alert, evaluate_rules,
}

-- now - t > _COOLDOWN_MAX_AGE
abbrev pub is_stale : ℕ → ℕ → Bool
is_stale now t = ltb (t + cooldown_max_age) now

unfoldable pub drop_stale : ℕ → Dict ℕ → Dict ℕ
drop_stale now [] = []
drop_stale now ((k, t) ∷ d) =
    let rest = drop_stale now d in if is_stale now t then rest else (k, t) ∷ rest

-- sorted(items, key=lambda x: x[1]), which is stable
unfoldable pub insert_sorted : String × ℕ → Dict ℕ → Dict ℕ
insert_sorted e [] = e ∷ []
insert_sorted e (x ∷ d) = if leb e.1 x.1 then e ∷ x ∷ d else x ∷ insert_sorted e d

unfoldable pub sort_by_time : Dict ℕ → Dict ℕ
sort_by_time [] = []
sort_by_time (e ∷ d) = insert_sorted e (sort_by_time d)

unfoldable pub erase_keys : Dict ℕ → Dict ℕ → Dict ℕ
erase_keys [] d = d
erase_keys ((k, _) ∷ ks) d = erase_keys ks (erase k d)

-- the overflow of `_cleanup_stale_cooldowns`
unfoldable pub cap_entries : ℕ → Dict ℕ → Dict ℕ
cap_entries bound d = erase_keys (take (length d - bound) (sort_by_time d)) d

-- `_cleanup_stale_cooldowns`
unfoldable pub cleanup : ℕ → AlertEngine → AlertEngine
cleanup now g = record g {
  cooldowns = cap_entries max_cooldown_entries (drop_stale now g.cooldowns);
  last_cooldown_cleanup = now;
}

-- now - self._last_cooldown_cleanup > _COOLDOWN_CLEANUP_INTERVAL
unfoldable pub cleanup_if_due : ℕ → AlertEngine → AlertEngine
cleanup_if_due now g =
    if ltb (g.last_cooldown_cleanup + cooldown_cleanup_interval) now then cleanup now g else g

-- dict(props), with the health score if there is one
abbrev pub context_of : Dict Value → Option Float → Dict Value
context_of props none = props
context_of props (some score) = insert "health_score" (number score) props

unfoldable pub evaluate_node :
    AlertEngine → String → Dict Value → Option Float → ℕ → AlertEngine × List Alert
evaluate_node g node_id props health_score now =
    let g' = cleanup_if_due now g in
    evaluate_rules g'.rules g' node_id (lookup "network" props) (context_of props health_score) now

-- the alert of `evaluate_offline`; its value is the age of the node, in seconds
abbrev pub offline_alert : AlertEngine → String → ℕ → ℕ → ℕ → Alert
offline_alert g node_id last_seen offline_threshold now = record {
  alert_id = g.alert_counter + 1;
  rule_id = "node_offline";
  alert_type = type_value node_offline;
  severity = severity_value critical;
  node_id = node_id;
  metric = "seconds_since_seen";
  value = whole (now - last_seen);
  threshold = whole offline_threshold;
  timestamp = now;
  acknowledged = false;
}

-- the part of `evaluate_offline` under the lock
unfoldable pub fire_offline : AlertEngine → String → ℕ → Alert → AlertEngine × Option Alert
fire_offline g key now alert =
    if in_cooldown g key default_cooldown now
    then (g, none)
    else (record_alert g key now alert, some alert)

-- age <= offline_threshold, and no alert
unfoldable pub evaluate_offline : AlertEngine → String → ℕ → ℕ → ℕ → AlertEngine × Option Alert
evaluate_offline g node_id last_seen offline_threshold now =
    if leb now (last_seen + offline_threshold)
    then (g, none)
    else fire_offline g (cooldown_key node_id "node_offline") now
        (offline_alert g node_id last_seen offline_threshold now)

-- the loop of `acknowledge`: the first alert with the id
unfoldable pub acknowledge_in : ℕ → List Alert → List Alert × Bool
acknowledge_in alert_id [] = ([], false)
acknowledge_in alert_id (a ∷ history) =
    let rest = acknowledge_in alert_id history in
    if a.alert_id == alert_id
    then (record a { acknowledged = true } ∷ history, true)
    else (a ∷ rest.0, rest.1)

unfoldable pub acknowledge : ℕ → AlertEngine → AlertEngine × Bool
acknowledge alert_id g =
    let (history, found) = acknowledge_in alert_id g.history in
    (record g { history = history }, found)

unfoldable pub get_active_alerts : AlertEngine → List Alert
get_active_alerts g = filter (λ a. not a.acknowledged) g.history

-- a filter that is None or empty lets everything through
abbrev pub passes : Option String → String → Bool
passes none s = true
passes (some wanted) s = str_eq wanted "" || str_eq s wanted

unfoldable pub get_alert_history : AlertEngine → ℕ → Option String → Option String → List Alert
get_alert_history g limit severity node_id = take limit (
    reverse
      (filter (λ a. passes node_id a.node_id) (filter (λ a. passes severity a.severity) g.history)))

unfoldable pub clear_cooldowns : AlertEngine → AlertEngine
clear_cooldowns g = record g { cooldowns = [] }
