-- ===== src/AlertEngine/Rules.antt =====
-- src/utils/alert_engine.py: the table of rules and its methods.
use meshforge_maps.Base.{
  ℕ, ◌≡◌, ◌≢◌, refl, sym, ap, map, String, Bool, true, false, Option, none, some, List, [], ◌∷◌,
  arith, str_eq_iff, get_or, All, Option-cases, if_split, inl, inr,
}
use meshforge_maps.Dict.{
  Dict, lookup, insert, lookup-erase, IsDistinct-insert, IsDistinct-erase, lookup-insert_self,
}
use meshforge_maps.Float.{Float}
use meshforge_maps.AlertEngine.{
  Alert, AlertRule, AlertEngine, Value, create, default_rules, add_rule, remove_rule, set_enabled,
  triggers,
}
use meshforge_maps.AlertEngine.Methods.{cleanup_if_due, context_of, evaluate_node}
use meshforge_maps.AlertEngine.Firing.{is_due, due_ids, evaluate_rules_due}
use meshforge_maps.AlertEngine.Cooldown.{NoneOf, cleanup_if_due-rules}
use meshforge_maps.AlertEngine.RuleTable.{
  IsTable, IsKeyed-insert, IsKeyed-erase, IsTable-insert, load_rules-IsTable, lookup-IsKeyed,
}

-- the methods that write the table
pub data RuleCall : Type 0 where
  add : AlertRule → RuleCall
  remove : String → RuleCall
  switch : Bool → String → RuleCall

unfoldable pub apply_rule : AlertEngine → RuleCall → AlertEngine
apply_rule g (add rule) = add_rule rule g
apply_rule g (remove rule_id) = (remove_rule rule_id g).0
apply_rule g (switch on rule_id) = (set_enabled on rule_id g).0

unfoldable pub run_rules : AlertEngine → List RuleCall → AlertEngine
run_rules g [] = g
run_rules g (c ∷ calls) = run_rules (apply_rule g c) calls

set_enabled_missing :
    (on : Bool) (rule_id : String) (g : AlertEngine)
    → lookup rule_id g.rules ≡ none
    → set_enabled on rule_id g ≡ (g, false)
unfolding set_enabled
set_enabled_missing on rule_id g e = rw (set_enabled, e) refl

set_enabled_found :
    (on : Bool) (rule_id : String) (g : AlertEngine) (rule : AlertRule)
    → lookup rule_id g.rules ≡ some rule
    → set_enabled on rule_id g
      ≡ (record g { rules = insert rule_id (record rule { enabled = on }) g.rules }, true)
unfolding set_enabled
set_enabled_found on rule_id g rule e = rw (set_enabled, e) refl

set_enabled-IsTable :
    (on : Bool) (rule_id : String) (g : AlertEngine)
    → IsTable g.rules
    → IsTable (set_enabled on rule_id g).0.rules
set_enabled-IsTable on rule_id g h = elim (Option-cases (lookup rule_id g.rules)) [
  | inl missing ↦ rw (set_enabled_missing on rule_id g missing) h
  | inr (rule, found) ↦ rw (set_enabled_found on rule_id g rule found) (
    IsKeyed-insert (record rule { enabled = on }) rule_id g.rules
        (lookup-IsKeyed rule_id g.rules rule h.0 found) h.0,
    IsDistinct-insert rule_id (record rule { enabled = on }) g.rules h.1,
  )
]

apply_rule-IsTable :
    (g : AlertEngine) (c : RuleCall) → IsTable g.rules → IsTable (apply_rule g c).rules
unfolding apply_rule add_rule remove_rule
apply_rule-IsTable g (add rule) h = IsTable-insert rule g.rules h
apply_rule-IsTable g (remove rule_id) h =
    (IsKeyed-erase rule_id g.rules h.0, IsDistinct-erase rule_id g.rules h.1)
apply_rule-IsTable g (switch on rule_id) h = set_enabled-IsTable on rule_id g h

run_rules-IsTable' :
    (g : AlertEngine) (calls : List RuleCall) → IsTable g.rules → IsTable (run_rules g calls).rules
unfolding run_rules
run_rules-IsTable' g [] h = h
run_rules-IsTable' g (c ∷ calls) h =
    run_rules-IsTable' (apply_rule g c) calls (apply_rule-IsTable g c h)

-- In an engine that is built from any rules, after any calls that add, remove, enable and disable
-- rules, each rule stands under its id, and no id has two rules.
pub run_rules-IsTable :
    (rules : Option (List AlertRule)) (max_history : ℕ) (calls : List RuleCall)
    → IsTable (run_rules (create rules max_history) calls).rules
unfolding create
run_rules-IsTable rules max_history calls =
    run_rules-IsTable' (create rules max_history) calls
      (load_rules-IsTable (get_or rules default_rules) [] (tt, tt))

-- The rule is not there, or it is disabled.
abbrev pub IsSilent : String → Dict AlertRule → Type 0
IsSilent rule_id rules =
    (rule : AlertRule) → lookup rule_id rules ≡ some rule → rule.enabled ≡ false

abbrev pub Without : String → List String → Type 0
Without rule_id ids = All (λ (i : String). i ≢ rule_id) ids

disabled_idle :
    (g : AlertEngine) (rule : AlertRule) (node_id : String) (network : Option Value)
    (context : Dict Value) (now : ℕ)
    → rule.enabled ≡ false
    → is_due g node_id network context now rule ≡ false
unfolding triggers
disabled_idle g rule node_id network context now off = rw off refl

due_ids-Without :
    (g : AlertEngine) (node_id rule_id : String) (network : Option Value) (context : Dict Value)
    (now : ℕ) (rules : Dict AlertRule)
    → IsTable rules
    → IsSilent rule_id rules
    → Without rule_id (due_ids g node_id network context now rules)
unfolding due_ids lookup
due_ids-Without g node_id rule_id network context now [] h silent = tt
due_ids-Without g node_id rule_id network context now ((k, rule) ∷ rules) h silent =
    let rest : IsSilent rule_id rules =
      λ r e. silent r (ground (arith, e, h.1.0, str_eq_iff k rule_id)) in
    let later = due_ids-Without g node_id rule_id network context now rules (h.0.1, h.1.1) rest in
    if_split (Without rule_id) (is_due g node_id network context now rule)
      (rule.rule_id ∷ due_ids g node_id network context now rules)
      (due_ids g node_id network context now rules)
      (λ due. (
        λ same.
            let off : rule.enabled ≡ false =
              silent rule (ground (arith, h.0.0, str_eq_iff k rule_id)) in
            let idle = disabled_idle g rule node_id network context now off in absurd (cc),
        later,
      ))
      (λ idle. later)

Without-map :
    (rule_id : String) (alerts : List Alert)
    → Without rule_id (map (λ (a : Alert). a.rule_id) alerts)
    → NoneOf rule_id alerts
Without-map rule_id [] h = tt
Without-map rule_id (a ∷ alerts) h = (h.0, Without-map rule_id alerts h.1)

-- A rule that is disabled, or that is not in the table, never fires for a node.
pub evaluate_node-IsSilent :
    (g : AlertEngine) (node_id rule_id : String) (props : Dict Value) (score : Option Float)
    (now : ℕ)
    → IsTable g.rules
    → IsSilent rule_id g.rules
    → NoneOf rule_id (evaluate_node g node_id props score now).1
unfolding evaluate_node
evaluate_node-IsSilent g node_id rule_id props score now h silent =
    let g' = cleanup_if_due now g in
    let same : g'.rules ≡ g.rules = cleanup_if_due-rules now g in
    let h' : IsTable g'.rules = rw same h in
    let silent' : IsSilent rule_id g'.rules = rw same silent in
    Without-map rule_id _ (
      rw
        (evaluate_rules_due g'.rules g' node_id (lookup "network" props) (context_of props score)
          now h'.0 h'.1)
        (due_ids-Without g' node_id rule_id (lookup "network" props) (context_of props score) now
          g'.rules h' silent'))

remove_rule-IsSilent :
    (g : AlertEngine) (rule_id : String) → IsSilent rule_id (remove_rule rule_id g).0.rules
unfolding remove_rule
remove_rule-IsSilent g rule_id rule e =
    ground (arith, e, lookup-erase rule_id rule_id g.rules, str_eq_iff rule_id rule_id)

set_enabled-IsSilent :
    (g : AlertEngine) (rule_id : String) → IsSilent rule_id (set_enabled false rule_id g).0.rules
set_enabled-IsSilent g rule_id = elim (Option-cases (lookup rule_id g.rules)) [
  | inl missing ↦ rw (set_enabled_missing false rule_id g missing) (λ rule e. absurd (cc))
  | inr (rule, found) ↦ rw (set_enabled_found false rule_id g rule found) (λ r e.
      let stored : record rule { enabled = false } ≡ r =
        ground (arith, e, lookup-insert_self rule_id (record rule { enabled = false }) g.rules) in
      sym (ap (λ (x : AlertRule). x.enabled) stored))
]

-- In a table with each rule under its id and no id twice, a rule does not fire for any node after
-- `disable_rule`, nor after `remove_rule`, whatever the node reports.
pub disabled_never_fires :
    (g : AlertEngine) (node_id rule_id : String) (props : Dict Value) (score : Option Float)
    (now : ℕ)
    → IsTable g.rules
    → NoneOf rule_id (evaluate_node (set_enabled false rule_id g).0 node_id props score now).1
      × NoneOf rule_id (evaluate_node (remove_rule rule_id g).0 node_id props score now).1
unfolding remove_rule apply_rule
disabled_never_fires g node_id rule_id props score now h = (
  evaluate_node-IsSilent (set_enabled false rule_id g).0 node_id rule_id props score now
      (set_enabled-IsTable false rule_id g h) (set_enabled-IsSilent g rule_id),
  evaluate_node-IsSilent (remove_rule rule_id g).0 node_id rule_id props score now
      (apply_rule-IsTable g (remove rule_id) h) (remove_rule-IsSilent g rule_id),
)
