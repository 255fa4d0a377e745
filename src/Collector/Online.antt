-- ===== src/Collector/Online.antt =====
-- src/collectors/base.py, `is_node_online`: who counts as online.
use meshforge_maps.Base.{
  ℕ, ◌+◌, ◌≤◌, ◌<◌, ◌≡◌, refl, String, Bool, true, Option, none, some, arith, ltb, leb, ◌==◌, ◌&&◌,
  if◌then◌else◌, if_both, Option-cases, inl, inr,
}
use meshforge_maps.Dict.{lookup, AllValues-lookup}
use meshforge_maps.Collector.{online_thresholds, threshold_of, is_node_online}

known_threshold :
    (network : String) (t : ℕ) → lookup network online_thresholds ≡ some t → (900 ≤ t) × (t ≤ 7200)
known_threshold network t e =
    AllValues-lookup (λ n. (900 ≤ n) × (n ≤ 7200)) network online_thresholds t
      (
        (omega arith, omega arith),
        (
          (omega arith, omega arith),
          (
            (omega arith, omega arith),
            (
              (omega arith, omega arith),
              (
                (omega arith, omega arith),
                ((omega arith, omega arith), ((omega arith, omega arith), tt)),
              ),
            ),
          ),
        ),
      )
      e

threshold_bounds :
    (network : String) (t : ℕ) → threshold_of network ≡ some t → (900 ≤ t) × (t ≤ 7200)
unfolding threshold_of
threshold_bounds network t e = elim (Option-cases (lookup network online_thresholds)) [
  | inl missing ↦ ground (arith, e, missing)
  | inr (u, known) ↦ ground (arith, e, known, known_threshold network u known)
]

online_lem :
    (last_heard : ℕ) (network : String) (now : ℕ) (t : ℕ)
    → threshold_of network ≡ some t
    → is_node_online (some last_heard) network now
      ≡ (if last_heard == 0 then none else some (leb last_heard now && ltb now (last_heard + t)))
unfolding is_node_online
online_lem last_heard network now t e = rw (is_node_online, e) refl

unknown_lem :
    (last_heard : ℕ) (network : String) (now : ℕ)
    → threshold_of network ≡ none
    → is_node_online (some last_heard) network now ≡ none
unfolding is_node_online
unknown_lem last_heard network now e =
    if_both (λ (o : Option Bool). o ≡ none) (last_heard == 0) _ _ refl (rw e refl)

-- A node counts as online only if it was heard, not later than now, and less than two hours ago.
pub online_recent :
    (last_heard : ℕ) (network : String) (now : ℕ)
    → is_node_online (some last_heard) network now ≡ some true
    → (0 < last_heard) × (last_heard ≤ now) × (now < last_heard + 7200)
online_recent last_heard network now on = elim (Option-cases (threshold_of network)) [
  | inl missing ↦ absurd (ground (arith, on, unknown_lem last_heard network now missing))
  | inr (t, e) ↦
      ground (arith, on, online_lem last_heard network now t e, threshold_bounds network t e)
]
