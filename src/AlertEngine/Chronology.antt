-- ===== src/AlertEngine/Chronology.antt =====
-- src/utils/alert_engine.py: the order of the alert history, and the alert that is recorded in it.
use meshforge_maps.Base.{
  ℕ, zero, suc, ◌+◌, ◌-◌, ◌≤◌, ◌<◌, ◌≡◌, String, List, [], ◌∷◌, ◌++◌, arith, length, drop,
  length-append, length-drop, All, if_both,
}
use meshforge_maps.AlertEngine.{Alert, AlertEngine, keep_last, append_history, record_alert}

-- The ids rise from `low` on, strictly.
abbrev pub Rising : ℕ → List Alert → Type 0
Rising low [] = Unit
Rising low (a ∷ rest) = (low < a.alert_id) × Rising a.alert_id rest

Rising-mono : (low high : ℕ) (h : List Alert) → low ≤ high → Rising high h → Rising low h
Rising-mono low high [] le r = tt
Rising-mono low high (a ∷ rest) le r = (omega (arith, r.0), r.1)

Rising-drop : (n low : ℕ) (h : List Alert) → Rising low h → Rising low (drop n h)
Rising-drop zero low h r = r
Rising-drop (suc n) low [] r = tt
Rising-drop (suc n) low (a ∷ rest) r =
    Rising-drop n low rest (Rising-mono low a.alert_id rest (omega (arith, r.0)) r.1)

abbrev pub Below : ℕ → List Alert → Type 0
Below high h = All (λ (a : Alert). a.alert_id ≤ high) h

Below-mono : (low high : ℕ) (h : List Alert) → low ≤ high → Below low h → Below high h
Below-mono low high [] le r = tt
Below-mono low high (a ∷ rest) le r = (omega (arith, r.0), Below-mono low high rest le r.1)

Below-drop : (n high : ℕ) (h : List Alert) → Below high h → Below high (drop n h)
Below-drop zero high h r = r
Below-drop (suc n) high [] r = tt
Below-drop (suc n) high (a ∷ rest) r = Below-drop n high rest r.1

Rising-snoc :
    (low high : ℕ) (h : List Alert) (a : Alert)
    → Rising low h
    → Below high h
    → low ≤ high
    → high < a.alert_id
    → Rising low (h ++ a ∷ [])
Rising-snoc low high [] a r b le lt = (omega arith, tt)
Rising-snoc low high (x ∷ rest) a r b le lt =
    (r.0, Rising-snoc x.alert_id high rest a r.1 b.1 b.0 lt)

Below-snoc :
    (high : ℕ) (h : List Alert) (a : Alert)
    → Below high h
    → a.alert_id ≤ high
    → Below high (h ++ a ∷ [])
Below-snoc high [] a b le = (le, tt)
Below-snoc high (x ∷ rest) a b le = (b.0, Below-snoc high rest a b.1 le)

-- The ids in the history rise strictly and come from the counter, which also counts the alerts that
-- were fired; the history keeps to its bound.
pub record IsOrdered (g : AlertEngine) : Type 0 where
  pub bound_pos : 0 < g.max_history
  pub bounded : length g.history ≤ g.max_history
  pub rising : Rising 0 g.history
  pub below : Below g.alert_counter g.history
  pub counted : g.total_alerts_fired ≡ g.alert_counter

length-append_history :
    (bound : ℕ) (h : List Alert) (a : Alert) → 0 < bound → length (append_history bound h a) ≤ bound
unfolding append_history keep_last
length-append_history bound h a pos =
    ground
      (arith, length-append h (a ∷ []), length-drop (length (h ++ a ∷ []) - bound) (h ++ a ∷ []))

-- the history after a firing is a tail of the longer one
append_history_both :
    (P : List Alert → Type 0) (bound : ℕ) (h : List Alert) (a : Alert)
    → ((n : ℕ) → P (drop n (h ++ a ∷ [])))
    → P (append_history bound h a)
unfolding append_history keep_last
append_history_both P bound h a every =
    if_both P _ _ _ (if_both P _ _ _ (every 0) (every (length (h ++ a ∷ []) - bound))) (every 0)

pub record_alert-IsOrdered :
    (g : AlertEngine) (key : String) (now : ℕ) (a : Alert)
    → IsOrdered g
    → a.alert_id ≡ g.alert_counter + 1
    → IsOrdered (record_alert g key now a)
unfolding record_alert
record_alert-IsOrdered g key now a v id = record {
  bound_pos = v.bound_pos;
  bounded = length-append_history g.max_history g.history a v.bound_pos;
  rising = append_history_both (Rising 0) g.max_history g.history a (λ n.
      Rising-drop n 0 _
        (Rising-snoc 0 g.alert_counter g.history a v.rising v.below (omega arith) (omega arith)));
  below = append_history_both (Below (g.alert_counter + 1)) g.max_history g.history a (λ n.
      Below-drop n _ _ (
        Below-snoc _ g.history a
          (Below-mono g.alert_counter (g.alert_counter + 1) g.history (omega arith) v.below)
          (omega arith)));
  counted = omega (arith, v.counted);
}
