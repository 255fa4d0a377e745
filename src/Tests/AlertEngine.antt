-- ===== src/Tests/AlertEngine.antt =====
-- Runs of src/utils/alert_engine.py, and its theorems at concrete inputs.
use meshforge_maps.Base.{◌≡◌, map, refl, true, false, none, List, [], ◌∷◌, arith}
use meshforge_maps.Dict.{Dict, lookup, insert, IsDistinct}
use meshforge_maps.Float.{whole}
use meshforge_maps.AlertEngine.{
  Alert, AlertEngine, Value, number, text, create, load_rules, evaluate, filtered_out, triggers,
  cooldown_key, in_cooldown, record_alert, append_history, keep_last, fire, evaluate_rule,
  evaluate_rules, set_enabled, remove_rule,
}
use meshforge_maps.AlertEngine.Methods.{cleanup_if_due, evaluate_node}
use meshforge_maps.AlertEngine.Cleanup.{cleanup_forgets}
use meshforge_maps.AlertEngine.Chronology.{IsOrdered}
use meshforge_maps.AlertEngine.History.{Call, node, offline, ack, run, run-IsOrdered}
use meshforge_maps.AlertEngine.Cooldown.{FiredSince, NoneOf, RulesOf, evaluate_node_cooldown}
use meshforge_maps.AlertEngine.Firing.{due_ids, evaluate_rules_due}
use meshforge_maps.AlertEngine.RuleTable.{IsTable}
use meshforge_maps.AlertEngine.Rules.{run_rules, run_rules-IsTable, disabled_never_fires}

-- the default rules, and a history of three alerts
abbrev engine : AlertEngine
engine = create none 3

abbrev flat : Dict Value
flat = ("battery", number (whole 4)) ∷ ("network", text "meshtastic" none) ∷ []

abbrev calls : List Call
calls =
    node "!a" flat none 5000 ∷ node "!a" flat none 5100 ∷ offline "!b" 1000 3600 5200 ∷ ack 1 ∷ []

-- both battery rules fire, once
flat_fires :
    map (λ (a : Alert). a.rule_id) (evaluate_rules engine.rules engine "!a" none flat 5000).1
    ≡ "battery_low" ∷ "battery_critical" ∷ []
unfolding create load_rules evaluate_rules evaluate_rule triggers evaluate filtered_out fire
    in_cooldown record_alert append_history lookup insert cooldown_key keep_last
flat_fires = refl

engine-IsTable : IsTable engine.rules
unfolding run_rules
engine-IsTable = run_rules-IsTable none 3 []

engine-IsOrdered : IsOrdered engine
unfolding create
engine-IsOrdered = record {
  bound_pos = omega arith;
  bounded = omega arith;
  rising = tt;
  below = tt;
  counted = refl;
}

evaluate_rules_due_example :
    map (λ (a : Alert). a.rule_id) (evaluate_rules engine.rules engine "!a" none flat 5000).1
    ≡ due_ids engine "!a" none flat 5000 engine.rules
evaluate_rules_due_example =
    evaluate_rules_due engine.rules engine "!a" none flat 5000 engine-IsTable.0 engine-IsTable.1

-- after the alert of the battery at 5000
abbrev fired : AlertEngine
fired = record engine { cooldowns = ("!a||battery_low", 5000) ∷ [] }

fired-FiredSince : FiredSince 5000 (cooldown_key "!a" "battery_low") fired
unfolding lookup cooldown_key
fired-FiredSince = (5000, refl, omega arith)

fired-IsDistinct : IsDistinct fired.cooldowns
unfolding lookup
fired-IsDistinct = (refl, tt)

quiet_rules : RulesOf "battery_low" 600 fired.rules
unfolding create load_rules insert
quiet_rules = (
  (λ _. omega arith),
  ((λ _. omega arith), ((λ _. omega arith), ((λ _. omega arith), ((λ _. omega arith), tt)))),
)

evaluate_node_cooldown_example :
    NoneOf "battery_low" (evaluate_node fired "!a" flat none 5599).1
    × FiredSince 5000 (cooldown_key "!a" "battery_low") (evaluate_node fired "!a" flat none 5599).0
evaluate_node_cooldown_example =
    evaluate_node_cooldown fired "!a" "battery_low" flat none 5000 5599 600 fired-IsDistinct
      (omega arith) quiet_rules (omega arith) fired-FiredSince (omega arith) (omega arith)

disabled_never_fires_example :
    NoneOf "battery_low"
      (evaluate_node (set_enabled false "battery_low" engine).0 "!a" flat none 5000).1
    × NoneOf "battery_low"
        (evaluate_node (remove_rule "battery_low" engine).0 "!a" flat none 5000).1
disabled_never_fires_example =
    disabled_never_fires engine "!a" "battery_low" flat none 5000 engine-IsTable

run-IsOrdered_example : IsOrdered (run engine calls)
run-IsOrdered_example = run-IsOrdered engine calls engine-IsOrdered

-- a rule with a cooldown of two days, after a day and a second
cleanup_forgets_example :
    (in_cooldown fired "!a||battery_low" 172_800 172_801 ≡ true)
    × (in_cooldown (cleanup_if_due 172_801 fired) "!a||battery_low" 172_800 172_801 ≡ false)
cleanup_forgets_example =
    cleanup_forgets 172_801 "!a||battery_low" fired 5000 172_800 fired-IsDistinct (omega arith)
      (unfold lookup in refl) (unfold create in omega arith) (omega arith) (omega arith)
      (omega arith)
