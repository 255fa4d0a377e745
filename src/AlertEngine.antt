-- ===== src/AlertEngine.antt =====
-- src/utils/alert_engine.py: threshold rules, cooldowns and the bounded alert history.
-- Timestamps and cooldowns are whole numbers of seconds; `now - last < cooldown` is written
-- `now < last + cooldown`. Metric values and thresholds are floats. The text of `message` and the
-- prefix `alert-` of an id are not modelled: an alert id is the number in it. Every method holds the
-- lock over what it reads and writes, except that `evaluate_node` takes it anew for each rule; the
-- model runs a call as one step.
pub mod Methods
pub mod RuleTable
pub mod Rules
pub mod Capping
pub mod Cleanup
pub mod Chronology
pub mod History
pub mod Cooldown
pub mod Firing
use Prim.Native.String.{◌++◌ as join}
use meshforge_maps.Base.{
  ℕ, zero, suc, ◌+◌, ◌*◌, ◌-◌, String, Bool, true, false, Option, none, some, List, [], ◌∷◌, ◌++◌,
  ltb, leb, ◌==◌, not, ◌&&◌, if◌then◌else◌, length, drop, take, filter, count, get_or, is_some,
  str_eq,
}
use mathlib.Core.List.{reverse}
use meshforge_maps.Float.{Float, lt_float, le_float, eq_float, finite, whole}
use meshforge_maps.Int.{ℤ, pos, negsuc}
use meshforge_maps.Dict.{Dict, lookup, contains, insert, erase}

pub data AlertSeverity : Type 0 where
  info warning critical : AlertSeverity

pub data AlertType : Type 0 where
  node_offline battery_low battery_critical health_degraded congestion_high signal_poor : AlertType

-- `AlertSeverity.value`
abbrev pub severity_value : AlertSeverity → String
severity_value info = "info"
severity_value warning = "warning"
severity_value critical = "critical"

-- `AlertType.value`
abbrev pub type_value : AlertType → String
type_value node_offline = "node_offline"
type_value battery_low = "battery_low"
type_value battery_critical = "battery_critical"
type_value health_degraded = "health_degraded"
type_value congestion_high = "congestion_high"
type_value signal_poor = "signal_poor"

abbrev pub default_cooldown : ℕ
default_cooldown = 600

abbrev pub cooldown_max_age : ℕ
cooldown_max_age = 86400

abbrev pub cooldown_cleanup_interval : ℕ
cooldown_cleanup_interval = 1800

abbrev pub max_cooldown_entries : ℕ
max_cooldown_entries = 10000

pub record AlertRule : Type 0 where
  pub rule_id : String
  pub alert_type : AlertType
  pub severity : AlertSeverity
  pub metric : String
  pub operator : String
  pub threshold : Float
  pub cooldown : ℕ
  pub enabled : Bool
  pub network_filter : Option String
  pub description : String

-- `AlertRule.evaluate`: an operator that is not in the table triggers nothing
unfoldable pub evaluate : AlertRule → Float → Bool
evaluate rule value =
    if str_eq rule.operator "lt"
    then lt_float value rule.threshold
    else if str_eq rule.operator "gt"
    then lt_float rule.threshold value
    else if str_eq rule.operator "eq"
    then eq_float value rule.threshold
    else if str_eq rule.operator "lte"
    then le_float value rule.threshold
    else if str_eq rule.operator "gte"
    then le_float rule.threshold value
    else false

pub record Alert : Type 0 where
  pub alert_id : ℕ
  pub rule_id : String
  pub alert_type : String
  pub severity : String
  pub node_id : String
  pub metric : String
  pub value : Float
  pub threshold : Float
  pub timestamp : ℕ
  pub acknowledged : Bool

pub record AlertEngine : Type 0 where
  pub rules : Dict AlertRule
  pub history : List Alert
  pub max_history : ℕ
  pub cooldowns : Dict ℕ
  pub alert_counter : ℕ
  pub total_alerts_fired : ℕ
  pub last_cooldown_cleanup : ℕ

abbrev rule_on : String → AlertType → AlertSeverity → String → String → Float → String → AlertRule
rule_on rule_id alert_type severity metric operator threshold description = record {
  rule_id = rule_id;
  alert_type = alert_type;
  severity = severity;
  metric = metric;
  operator = operator;
  threshold = threshold;
  cooldown = default_cooldown;
  enabled = true;
  network_filter = none;
  description = description;
}

-- `DEFAULT_RULES`
abbrev pub default_rules : List AlertRule
default_rules =
    rule_on "battery_low" battery_low warning "battery" "lte" (whole 20)
      "Battery level is low (<=20%)"
    ∷ rule_on "battery_critical" battery_critical critical "battery" "lte" (whole 5)
        "Battery level is critical (<=5%)"
    ∷ rule_on "signal_poor" signal_poor warning "snr" "lte" (finite (negsuc 99_999_999))
        "Signal quality is poor (SNR <= -10 dB)"
    ∷ rule_on "congestion_high" congestion_high warning "channel_util" "gte" (whole 75)
        "Channel utilization is high (>=75%)"
    ∷ rule_on "health_degraded" health_degraded warning "health_score" "lte" (whole 20)
        "Node health score is critical (<=20)"
    ∷ []

-- What a property of a node may hold. A string comes with the number that `float()` reads in it, if it
-- reads one; `other` stands for the values that `float()` refuses.
pub data Value : Type 0 where
  null other : Value
  number : Float → Value
  text : String → Option Float → Value

-- `float(value)`; `none` is the `ValueError` or `TypeError`
abbrev pub to_float : Value → Option Float
to_float (number x) = some x
to_float (text s x) = x
to_float _ = none

-- `network_filter and network != network_filter`, for the `network` of the properties
unfoldable pub filtered_out : Option String → Option Value → Bool
filtered_out none network = false
filtered_out (some wanted) (some (text s x)) = not (str_eq wanted "") && not (str_eq s wanted)
filtered_out (some wanted) network = not (str_eq wanted "")

-- `AlertEngine(rules, max_history)`, with the rules that are loaded
unfoldable pub load_rules : List AlertRule → Dict AlertRule → Dict AlertRule
load_rules [] d = d
load_rules (rule ∷ rest) d = load_rules rest (insert rule.rule_id rule d)

unfoldable pub create : Option (List AlertRule) → ℕ → AlertEngine
unfolding load_rules
create rules max_history = record {
  rules = load_rules (get_or rules default_rules) [];
  history = [];
  max_history = max_history;
  cooldowns = [];
  alert_counter = 0;
  total_alerts_fired = 0;
  last_cooldown_cleanup = 0;
}

unfoldable pub add_rule : AlertRule → AlertEngine → AlertEngine
add_rule rule g = record g { rules = insert rule.rule_id rule g.rules }

unfoldable pub remove_rule : String → AlertEngine → AlertEngine × Bool
remove_rule rule_id g = (record g { rules = erase rule_id g.rules }, contains rule_id g.rules)

-- `enable_rule` and `disable_rule`
unfoldable pub set_enabled : Bool → String → AlertEngine → AlertEngine × Bool
set_enabled on rule_id g = elim (lookup rule_id g.rules) [
  | none ↦ (g, false)
  | some rule ↦ (record g { rules = insert rule_id (record rule { enabled = on }) g.rules }, true)
]

-- f"{node_id}||{rule_id}"
unfoldable pub cooldown_key : String → String → String
cooldown_key node_id rule_id = join node_id (join "||" rule_id)

-- `history[-n:]`; for n = 0 that is the whole list
unfoldable pub keep_last : ℕ → List Alert → List Alert
keep_last n history = if n == 0 then history else drop (length history - n) history

-- `history.append(alert)` and the trim
unfoldable pub append_history : ℕ → List Alert → Alert → List Alert
append_history max_history history alert =
    let longer = history ++ alert ∷ [] in
    if ltb max_history (length longer) then keep_last max_history longer else longer

-- self._cooldowns.get(key, 0), and the test against the cooldown
unfoldable pub in_cooldown : AlertEngine → String → ℕ → ℕ → Bool
in_cooldown g key cooldown now = ltb now (get_or (lookup key g.cooldowns) 0 + cooldown)

-- the writes of a firing: the counter, the cooldown, the history with its trim, the total
unfoldable pub record_alert : AlertEngine → String → ℕ → Alert → AlertEngine
record_alert g key now alert = record g {
  history = append_history g.max_history g.history alert;
  cooldowns = insert key now g.cooldowns;
  alert_counter = g.alert_counter + 1;
  total_alerts_fired = g.total_alerts_fired + 1;
}

-- the value on which a rule triggers, if it does: enabled, not filtered out, a metric that is there
-- and is a number, and the comparison
unfoldable pub triggers : AlertRule → Option Value → Dict Value → Option Float
triggers rule network context =
    if not rule.enabled
    then none
    else if filtered_out rule.network_filter network
    then none
    else elim (lookup rule.metric context) [
      | none ↦ none
      | some v ↦ elim (to_float v) [
        | none ↦ none
        | some x ↦ if evaluate rule x then some x else none
      ]
    ]

abbrev pub alert_of : AlertRule → ℕ → String → Float → ℕ → Alert
alert_of rule alert_id node_id value now = record {
  alert_id = alert_id;
  rule_id = rule.rule_id;
  alert_type = type_value rule.alert_type;
  severity = severity_value rule.severity;
  node_id = node_id;
  metric = rule.metric;
  value = value;
  threshold = rule.threshold;
  timestamp = now;
  acknowledged = false;
}

-- the part of the loop's body under the lock
unfoldable pub fire : AlertEngine → AlertRule → String → Float → ℕ → AlertEngine × Option Alert
fire g rule node_id value now =
    let key = cooldown_key node_id rule.rule_id in
    let alert = alert_of rule (g.alert_counter + 1) node_id value now in
    if in_cooldown g key rule.cooldown now
    then (g, none)
    else (record_alert g key now alert, some alert)

-- one round of the loop
unfoldable pub evaluate_rule :
    AlertEngine → AlertRule → String → Option Value → Dict Value → ℕ → AlertEngine × Option Alert
evaluate_rule g rule node_id network context now = elim (triggers rule network context) [
  | none ↦ (g, none)
  | some value ↦ fire g rule node_id value now
]

abbrev pub cons_some : Option Alert → List Alert → List Alert
cons_some none alerts = alerts
cons_some (some a) alerts = a ∷ alerts

unfoldable pub evaluate_rules :
    Dict AlertRule → AlertEngine → String → Option Value → Dict Value → ℕ → AlertEngine × List Alert
evaluate_rules [] g node_id network context now = (g, [])
evaluate_rules ((_, rule) ∷ rules) g node_id network context now =
    let (g', fired) = evaluate_rule g rule node_id network context now in
    let (g'', later) = evaluate_rules rules g' node_id network context now in
    (g'', cons_some fired later)
