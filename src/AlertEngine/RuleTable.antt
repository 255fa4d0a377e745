-- ===== src/AlertEngine/RuleTable.antt =====
-- src/utils/alert_engine.py: the table of the rules, each under its own id.
use meshforge_maps.Base.{
  ◌≡◌, refl, ◌∙◌, sym, ap, String, some, List, [], ◌∷◌, arith, str_eq, str_eq_iff, Bool-cases,
  if_split, inl, inr,
}
use meshforge_maps.Dict.{Dict, lookup, insert, erase, IsDistinct, IsDistinct-insert}
use meshforge_maps.AlertEngine.{AlertRule, load_rules}
use meshforge_maps.AlertEngine.Firing.{IsKeyed}

-- The rules stand under their ids, one under each.
abbrev pub IsTable : Dict AlertRule → Type 0
IsTable rules = IsKeyed rules × IsDistinct rules

pub IsKeyed-insert :
    (rule : AlertRule) (k : String) (rules : Dict AlertRule)
    → k ≡ rule.rule_id
    → IsKeyed rules
    → IsKeyed (insert k rule rules)
unfolding insert
IsKeyed-insert rule k [] e h = (e, tt)
IsKeyed-insert rule k ((j, r) ∷ rules) e h =
    if_split IsKeyed (str_eq j k) ((j, rule) ∷ rules) ((j, r) ∷ insert k rule rules)
      (λ same. ((str_eq_iff j k).0 same ∙ e, h.1))
      (λ other. (h.0, IsKeyed-insert rule k rules e h.1))

pub IsKeyed-erase : (k : String) (rules : Dict AlertRule) → IsKeyed rules → IsKeyed (erase k rules)
unfolding erase
IsKeyed-erase k [] h = tt
IsKeyed-erase k ((j, r) ∷ rules) h =
    if_split IsKeyed (str_eq j k) (erase k rules) ((j, r) ∷ erase k rules)
      (λ same. IsKeyed-erase k rules h.1) (λ other. (h.0, IsKeyed-erase k rules h.1))

pub IsTable-insert :
    (rule : AlertRule) (rules : Dict AlertRule)
    → IsTable rules
    → IsTable (insert rule.rule_id rule rules)
IsTable-insert rule rules (keyed, distinct) = (
  IsKeyed-insert rule rule.rule_id rules refl keyed,
  IsDistinct-insert rule.rule_id rule rules distinct,
)

pub load_rules-IsTable :
    (new : List AlertRule) (rules : Dict AlertRule) → IsTable rules → IsTable (load_rules new rules)
unfolding load_rules
load_rules-IsTable [] rules h = h
load_rules-IsTable (rule ∷ new) rules h =
    load_rules-IsTable new (insert rule.rule_id rule rules) (IsTable-insert rule rules h)

-- the rule that is found under an id has that id
pub lookup-IsKeyed :
    (k : String) (rules : Dict AlertRule) (rule : AlertRule)
    → IsKeyed rules
    → lookup k rules ≡ some rule
    → k ≡ rule.rule_id
unfolding lookup
lookup-IsKeyed k [] rule h e = absurd (cc)
lookup-IsKeyed k ((j, r) ∷ rules) rule h e = elim (Bool-cases (str_eq j k)) [
  | inl same ↦
      let found : r ≡ rule = ground arith in
      sym ((str_eq_iff j k).0 same) ∙ h.0 ∙ ap (λ (x : AlertRule). x.rule_id) found
  | inr other ↦ lookup-IsKeyed k rules rule h.1 (rw other at e)
]
