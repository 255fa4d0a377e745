-- ===== src/AlertEngine/Cooldown.antt =====
-- src/utils/alert_engine.py: while a cooldown runs, its rule does not fire again for its node.
use meshforge_maps.Base.{
  ℕ, ◌+◌, ◌≤◌, ◌<◌, ◌≡◌, ◌≢◌, refl, ◌∙◌, ap, String, true, Option, none, some, List, [], ◌∷◌, arith,
  ltb, str_eq, length, get_or, Bool-cases, if_both, if_split, inl, inr, All,
}
use meshforge_maps.Dict.{Dict, lookup, lookup-insert, IsDistinct}
use meshforge_maps.Float.{Float}
use meshforge_maps.AlertEngine.{
  Alert, AlertRule, AlertEngine, Value, max_cooldown_entries, cooldown_max_age, cooldown_key,
  in_cooldown, cooldown_cleanup_interval, record_alert, alert_of, cons_some, triggers, fire,
  evaluate_rule, evaluate_rules,
}
use meshforge_maps.AlertEngine.Methods.{cleanup, cleanup_if_due, context_of, evaluate_node}
use meshforge_maps.AlertEngine.Cleanup.{lookup-cleanup}

-- The last firing for the key was at `t` or later.
abbrev pub FiredSince : ℕ → String → AlertEngine → Type 0
FiredSince t key g = (u : ℕ) × (lookup key g.cooldowns ≡ some u) × (t ≤ u)

-- No alert is of this rule.
abbrev pub NoneOf : String → List Alert → Type 0
NoneOf rule_id alerts = All (λ (a : Alert). a.rule_id ≢ rule_id) alerts

-- Every rule of the table with this id has at least this cooldown.
abbrev pub RulesOf : String → ℕ → Dict AlertRule → Type 0
RulesOf rule_id cooldown [] = Unit
RulesOf rule_id cooldown ((k, rule) ∷ rules) =
    (rule.rule_id ≡ rule_id → cooldown ≤ rule.cooldown) × RulesOf rule_id cooldown rules

record_alert-FiredSince :
    (g : AlertEngine) (t now : ℕ) (key k : String) (a : Alert)
    → t ≤ now
    → FiredSince t key g
    → FiredSince t key (record_alert g k now a)
unfolding record_alert
record_alert-FiredSince g t now key k a later (u, known, since) = elim (Bool-cases (str_eq k key)) [
  | inl same ↦ (now, rw (lookup-insert k key now g.cooldowns) (rw same), later)
  | inr other ↦ (u, rw (lookup-insert k key now g.cooldowns) (rw other known), since)
]

-- One round of the loop, while the cooldown of (node, rule) runs.
abbrev Quiet : ℕ → String → String → AlertEngine × Option Alert → Type 0
Quiet t key rule_id (g, fired) =
    FiredSince t key g × ((a : Alert) → fired ≡ some a → a.rule_id ≢ rule_id)

-- a cooldown that covers the time of the call holds
in_cooldown_running :
    (g : AlertEngine) (key : String) (t now cooldown : ℕ)
    → now < t + cooldown
    → FiredSince t key g
    → in_cooldown g key cooldown now ≡ true
unfolding in_cooldown
in_cooldown_running g key t now cooldown running (u, known, since) = rw known (ground arith)

fire-Quiet :
    (g : AlertEngine) (rule : AlertRule) (node_id rule_id : String) (value : Float)
    (t now cooldown : ℕ)
    → t ≤ now
    → now < t + cooldown
    → (rule.rule_id ≡ rule_id → cooldown ≤ rule.cooldown)
    → FiredSince t (cooldown_key node_id rule_id) g
    → Quiet t (cooldown_key node_id rule_id) rule_id (fire g rule node_id value now)
unfolding fire
fire-Quiet g rule node_id rule_id value t now cooldown later running long since =
    let key = cooldown_key node_id rule.rule_id in
    let alert = alert_of rule (g.alert_counter + 1) node_id value now in
    if_split (Quiet t (cooldown_key node_id rule_id) rule_id) (in_cooldown g key rule.cooldown now)
      (g, none) (record_alert g key now alert, some alert) (λ waiting. (since, λ a e. absurd (cc)))
      (λ free. (
        record_alert-FiredSince g t now _ _ _ later since,
        λ a e same.
            let same_rule : rule.rule_id ≡ rule_id =
              ap (λ (o : Option Alert). (get_or o alert).rule_id) e ∙ same in
            let waits : in_cooldown g key rule.cooldown now ≡ true =
              in_cooldown_running g key t now rule.cooldown (omega (arith, long same_rule))
                (rw same_rule since) in
            absurd (cc),
      ))

evaluate_rule-Quiet :
    (g : AlertEngine) (rule : AlertRule) (node_id rule_id : String) (network : Option Value)
    (context : Dict Value) (t now cooldown : ℕ)
    → t ≤ now
    → now < t + cooldown
    → (rule.rule_id ≡ rule_id → cooldown ≤ rule.cooldown)
    → FiredSince t (cooldown_key node_id rule_id) g
    → Quiet t
        (cooldown_key node_id rule_id)
        rule_id
        (evaluate_rule g rule node_id network context now)
unfolding evaluate_rule
evaluate_rule-Quiet g rule node_id rule_id network context t now cooldown later running long since =
    elim (triggers rule network context)
      as (λ o.
        Quiet t (cooldown_key node_id rule_id) rule_id
          (elim o as (λ x. AlertEngine × Option Alert) [
            | none ↦ (g, none)
            | some value ↦ fire g rule node_id value now
          ])) [
            | none ↦ (since, λ a e. absurd (cc))
            | some value ↦
                fire-Quiet g rule node_id rule_id value t now cooldown later running long since
          ]

NoneOf-cons_some :
    (rule_id : String) (fired : Option Alert) (alerts : List Alert)
    → ((a : Alert) → fired ≡ some a → a.rule_id ≢ rule_id)
    → NoneOf rule_id alerts
    → NoneOf rule_id (cons_some fired alerts)
NoneOf-cons_some rule_id none alerts quiet rest = rest
NoneOf-cons_some rule_id (some a) alerts quiet rest = (quiet a refl, rest)

evaluate_rules_quiet :
    (rules : Dict AlertRule) (g : AlertEngine) (node_id rule_id : String) (network : Option Value)
    (context : Dict Value) (t now cooldown : ℕ)
    → t ≤ now
    → now < t + cooldown
    → RulesOf rule_id cooldown rules
    → FiredSince t (cooldown_key node_id rule_id) g
    → FiredSince t
        (cooldown_key node_id rule_id)
        (evaluate_rules rules g node_id network context now).0
      × NoneOf rule_id (evaluate_rules rules g node_id network context now).1
unfolding evaluate_rules
evaluate_rules_quiet [] g node_id rule_id network context t now cooldown later running long since =
    (since, tt)
evaluate_rules_quiet ((k, rule) ∷ rules) g node_id rule_id network context t now cooldown later
      running long since =
    let (since', quiet) =
      evaluate_rule-Quiet g rule node_id rule_id network context t now cooldown later running long.0
        since in
    let (since'', rest) =
      evaluate_rules_quiet rules (evaluate_rule g rule node_id network context now).0 node_id
        rule_id network context t now cooldown later running long.1 since' in
    (since'', NoneOf-cons_some rule_id _ _ quiet rest)

-- a cooldown of at most 24 hours is not forgotten while it runs
cleanup_keeps :
    (g : AlertEngine) (key : String) (t now : ℕ)
    → IsDistinct g.cooldowns
    → length g.cooldowns ≤ max_cooldown_entries
    → now ≤ t + cooldown_max_age
    → FiredSince t key g
    → FiredSince t key (cleanup_if_due now g)
unfolding cleanup_if_due
cleanup_keeps g key t now distinct fits young (u, known, since) =
    let kept : lookup key (cleanup now g).cooldowns ≡ some u =
      lookup-cleanup now key g distinct fits ∙ rw known (ground arith) in
    if_both (FiredSince t key) (ltb (g.last_cooldown_cleanup + cooldown_cleanup_interval) now)
      (cleanup now g) g (u, kept, since) (u, known, since)

pub cleanup_if_due-rules : (now : ℕ) (g : AlertEngine) → (cleanup_if_due now g).rules ≡ g.rules
unfolding cleanup_if_due cleanup
cleanup_if_due-rules now g =
    if_both (λ (x : AlertEngine). x.rules ≡ g.rules)
      (ltb (g.last_cooldown_cleanup + cooldown_cleanup_interval) now) (cleanup now g) g refl refl

-- With at most 10000 cooldowns in the engine, under distinct keys: a rule that fired for a node at
-- `t` or later does not fire again for it before `t + cooldown`, whatever the node reports, where
-- `cooldown` is at most 24 hours and at most the cooldown of every rule with that id; and the
-- firing is still remembered after the evaluation.
pub evaluate_node_cooldown :
    (g : AlertEngine) (node_id rule_id : String) (props : Dict Value) (score : Option Float)
    (t now cooldown : ℕ)
    → IsDistinct g.cooldowns
    → length g.cooldowns ≤ max_cooldown_entries
    → RulesOf rule_id cooldown g.rules
    → cooldown ≤ cooldown_max_age
    → FiredSince t (cooldown_key node_id rule_id) g
    → t ≤ now
    → now < t + cooldown
    → NoneOf rule_id (evaluate_node g node_id props score now).1
      × FiredSince t (cooldown_key node_id rule_id) (evaluate_node g node_id props score now).0
unfolding evaluate_node
evaluate_node_cooldown g node_id rule_id props score t now cooldown distinct fits long short since
      later running =
    let kept : FiredSince t (cooldown_key node_id rule_id) (cleanup_if_due now g) =
      cleanup_keeps g _ t now distinct fits (omega (arith, short, running)) since in
    let (since', none_of) =
      evaluate_rules_quiet (cleanup_if_due now g).rules (cleanup_if_due now g) node_id rule_id
        (lookup "network" props) (context_of props score) t now cooldown later running
        (rw (cleanup_if_due-rules now g) long) kept in
    (none_of, since')
