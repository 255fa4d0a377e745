-- ===== src/AlertEngine/Firing.antt =====
-- src/utils/alert_engine.py, `evaluate_node`: which rules fire, and in which order.
use Prim.Native.String.{◌++◌ as join}
use text.Mathlib.TextLemmas.{append_cancel_left}
use meshforge_maps.Base.{
  ℕ, ◌+◌, ◌≡◌, ◌≢◌, refl, ◌∙◌, ap, map, String, Bool, true, false, Option, none, some, List, [],
  ◌∷◌, arith, str_eq_iff, not, ◌&&◌, if◌then◌else◌, is_some, Bool-cases, Option-cases, inl, inr,
}
use meshforge_maps.Dict.{Dict, lookup, lookup-insert, IsDistinct}
use meshforge_maps.Float.{Float}
use meshforge_maps.AlertEngine.{
  Alert, AlertRule, AlertEngine, Value, cooldown_key, in_cooldown, record_alert, alert_of, triggers,
  fire, evaluate_rule, evaluate_rules,
}

-- Every rule stands under its id.
abbrev pub IsKeyed : Dict AlertRule → Type 0
IsKeyed [] = Unit
IsKeyed ((k, rule) ∷ rules) = (k ≡ rule.rule_id) × IsKeyed rules

-- the rule triggers on what the node reports, and its cooldown does not run
abbrev pub is_due : AlertEngine → String → Option Value → Dict Value → ℕ → AlertRule → Bool
is_due g node_id network context now rule =
    is_some (triggers rule network context)
    && not (in_cooldown g (cooldown_key node_id rule.rule_id) rule.cooldown now)

-- the ids of the rules that are due, in the order of the table
unfoldable pub due_ids :
    AlertEngine → String → Option Value → Dict Value → ℕ → Dict AlertRule → List String
due_ids g node_id network context now [] = []
due_ids g node_id network context now ((k, rule) ∷ rules) =
    let rest = due_ids g node_id network context now rules in
    if is_due g node_id network context now rule then rule.rule_id ∷ rest else rest

cooldown_key-inj : (node_id r s : String) → cooldown_key node_id r ≡ cooldown_key node_id s → r ≡ s
unfolding cooldown_key
cooldown_key-inj node_id r s e =
    append_cancel_left "||" r s (append_cancel_left node_id (join "||" r) (join "||" s) e)

in_cooldown-record_alert :
    (g : AlertEngine) (node_id r s : String) (now cooldown : ℕ) (a : Alert)
    → r ≢ s
    → in_cooldown
        (record_alert g (cooldown_key node_id r) now a)
        (cooldown_key node_id s)
        cooldown
        now
      ≡ in_cooldown g (cooldown_key node_id s) cooldown now
unfolding in_cooldown record_alert
in_cooldown-record_alert g node_id r s now cooldown a differ = ground (
  arith,
  lookup-insert (cooldown_key node_id r) (cooldown_key node_id s) now g.cooldowns,
  str_eq_iff (cooldown_key node_id r) (cooldown_key node_id s),
  cooldown_key-inj node_id r s,
)

-- a firing leaves the other rules as due as they were
due_ids-record_alert :
    (g : AlertEngine) (node_id r : String) (network : Option Value) (context : Dict Value) (now : ℕ)
    (a : Alert) (rules : Dict AlertRule)
    → IsKeyed rules
    → lookup r rules ≡ none
    → due_ids (record_alert g (cooldown_key node_id r) now a) node_id network context now rules
      ≡ due_ids g node_id network context now rules
unfolding due_ids lookup
due_ids-record_alert g node_id r network context now a [] keyed fresh = refl
due_ids-record_alert g node_id r network context now a ((k, rule) ∷ rules) keyed fresh =
    let differ : r ≢ rule.rule_id = ground (arith, str_eq_iff k r, keyed.0) in
    let rest : lookup r rules ≡ none = ground arith in
    rw
      (
        in_cooldown-record_alert g node_id r rule.rule_id now rule.cooldown a differ,
        due_ids-record_alert g node_id r network context now a rules keyed.1 rest,
      )
      refl

fire_waiting :
    (g : AlertEngine) (rule : AlertRule) (node_id : String) (value : Float) (now : ℕ)
    → in_cooldown g (cooldown_key node_id rule.rule_id) rule.cooldown now ≡ true
    → fire g rule node_id value now ≡ (g, none)
unfolding fire
fire_waiting g rule node_id value now waits = rw waits refl

fire_free :
    (g : AlertEngine) (rule : AlertRule) (node_id : String) (value : Float) (now : ℕ)
    → in_cooldown g (cooldown_key node_id rule.rule_id) rule.cooldown now ≡ false
    → fire g rule node_id value now ≡ (
      record_alert g
          (cooldown_key node_id rule.rule_id)
          now
          (alert_of rule (g.alert_counter + 1) node_id value now),
      some (alert_of rule (g.alert_counter + 1) node_id value now),
    )
unfolding fire
fire_free g rule node_id value now free = rw free refl

evaluate_rule_untriggered :
    (g : AlertEngine) (rule : AlertRule) (node_id : String) (network : Option Value)
    (context : Dict Value) (now : ℕ)
    → triggers rule network context ≡ none
    → evaluate_rule g rule node_id network context now ≡ (g, none)
unfolding evaluate_rule
evaluate_rule_untriggered g rule node_id network context now e = rw (evaluate_rule, e) refl

evaluate_rule_triggered :
    (g : AlertEngine) (rule : AlertRule) (node_id : String) (network : Option Value)
    (context : Dict Value) (now : ℕ) (value : Float)
    → triggers rule network context ≡ some value
    → evaluate_rule g rule node_id network context now ≡ fire g rule node_id value now
unfolding evaluate_rule
evaluate_rule_triggered g rule node_id network context now value e = rw (evaluate_rule, e) refl

-- one round of the loop, on a rule that is not due and on one that is
evaluate_rule_idle :
    (g : AlertEngine) (rule : AlertRule) (node_id : String) (network : Option Value)
    (context : Dict Value) (now : ℕ)
    → is_due g node_id network context now rule ≡ false
    → evaluate_rule g rule node_id network context now ≡ (g, none)
evaluate_rule_idle g rule node_id network context now idle =
    elim (Option-cases (triggers rule network context)) [
      | inl none_triggers ↦
          evaluate_rule_untriggered g rule node_id network context now none_triggers
      | inr (value, e) ↦
          let waits : in_cooldown g (cooldown_key node_id rule.rule_id) rule.cooldown now ≡ true =
            ground (arith, idle, e) in
          evaluate_rule_triggered g rule node_id network context now value e
          ∙ fire_waiting g rule node_id value now waits
    ]

evaluate_rule_due :
    (g : AlertEngine) (rule : AlertRule) (node_id : String) (network : Option Value)
    (context : Dict Value) (now : ℕ)
    → is_due g node_id network context now rule ≡ true
    → (value : Float) × (triggers rule network context ≡ some value)
      × (evaluate_rule g rule node_id network context now ≡ (
        record_alert g
            (cooldown_key node_id rule.rule_id)
            now
            (alert_of rule (g.alert_counter + 1) node_id value now),
        some (alert_of rule (g.alert_counter + 1) node_id value now),
      ))
evaluate_rule_due g rule node_id network context now due =
    elim (Option-cases (triggers rule network context)) [
      | inl none_triggers ↦ absurd (ground (arith, due, none_triggers))
      | inr (value, e) ↦
          let free : in_cooldown g (cooldown_key node_id rule.rule_id) rule.cooldown now ≡ false =
            ground (arith, due, e) in
          (
            value,
            e,
            evaluate_rule_triggered g rule node_id network context now value e
                ∙ fire_free g rule node_id value now free,
          )
    ]

-- For a table with each rule under its id and no id twice, the alerts of an evaluation are, in the
-- order of the rules, one for each rule that is due when the evaluation starts: a firing of one
-- rule keeps no other rule of the node from firing.
pub evaluate_rules_due :
    (rules : Dict AlertRule) (g : AlertEngine) (node_id : String) (network : Option Value)
    (context : Dict Value) (now : ℕ)
    → IsKeyed rules
    → IsDistinct rules
    → map (λ (a : Alert). a.rule_id) (evaluate_rules rules g node_id network context now).1
      ≡ due_ids g node_id network context now rules
unfolding evaluate_rules due_ids
evaluate_rules_due [] g node_id network context now keyed distinct = refl
evaluate_rules_due ((k, rule) ∷ rules) g node_id network context now keyed distinct =
    elim (Bool-cases (is_due g node_id network context now rule)) [
      | inl due ↦
          let (value, triggered, fired) =
            evaluate_rule_due g rule node_id network context now due in
          let rest =
            evaluate_rules_due rules
              (record_alert g (cooldown_key node_id rule.rule_id) now
                (alert_of rule (g.alert_counter + 1) node_id value now))
              node_id network context now keyed.1 distinct.1 in
          let same =
            due_ids-record_alert g node_id rule.rule_id network context now
              (alert_of rule (g.alert_counter + 1) node_id value now) rules keyed.1
              (rw (← keyed.0) distinct.0) in
          rw (fired, due) (ap (λ ids. rule.rule_id ∷ ids) (rest ∙ same))
      | inr idle ↦
          rw (evaluate_rule_idle g rule node_id network context now idle, idle)
            (evaluate_rules_due rules g node_id network context now keyed.1 distinct.1)
    ]
