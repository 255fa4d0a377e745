-- ===== src/HealthScoring/Components.antt =====
-- src/utils/health_scoring.py: no component earns more than its weight.
use native.Mathlib.Nat.{mul-le-mul_right, mul-pos}
use meshforge_maps.Base.{
  ℕ, ◌+◌, ◌*◌, ◌≤◌, ◌<◌, min, String, Option, none, some, arith, if◌then◌else◌, if_both, if_split,
  str_eq,
}
use meshforge_maps.Int.{ℤ, pos_part, ◌-ℤ◌, -ℤ_parts, eqb_ℤ, ltb_ℤ, leb_ℤ}
use meshforge_maps.Float.{Float, finite, plus_inf, minus_inf, nan}
use meshforge_maps.HealthScoring.{
  Points, add, tenths, share, linear_score, linear_float, score_battery, score_signal,
  score_freshness, score_reliability, score_congestion,
}

-- at most `m` tenths of a point
abbrev pub Fits : ℕ → Points → Type 0
Fits m p = (0 < p.den) × (p.num * 10 ≤ m * p.den)

tenths-Fits : (k m : ℕ) → k ≤ m → Fits m (tenths k)
tenths-Fits k m h = (omega arith, mul-le-mul_right 10 h)

share-Fits : (way span m : ℕ) → 0 < span → Fits m (share way span m)
share-Fits way span m pos_span = (
  omega (arith, pos_span),
  omega (arith, mul-le-mul_right {m = min way span} {n = span} m (omega arith)),
)

pub add-Fits : (m n : ℕ) (p q : Points) → Fits m p → Fits n q → Fits (m + n) (add p q)
add-Fits m n p q (dp, hp) (dq, hq) =
    (mul-pos dp dq, omega (arith, mul-le-mul_right q.den hp, mul-le-mul_right p.den hq))

linear_score-Fits : (value bad good : ℤ) (m : ℕ) → Fits m (linear_score value bad good m)
unfolding linear_score
linear_score-Fits value bad good m =
    if_split (Fits m) (eqb_ℤ good bad) (if leb_ℤ good value then tenths m else tenths 0)
      (if ltb_ℤ bad good
        then share (pos_part (value -ℤ bad)) (pos_part (good -ℤ bad)) m
        else share (pos_part (bad -ℤ value)) (pos_part (bad -ℤ good)) m)
      (λ same.
        if_both (Fits m) (leb_ℤ good value) (tenths m) (tenths 0) (tenths-Fits m m (omega arith))
          (tenths-Fits 0 m (omega arith)))
      (λ differ.
        if_split (Fits m) (ltb_ℤ bad good)
          (share (pos_part (value -ℤ bad)) (pos_part (good -ℤ bad)) m)
          (share (pos_part (bad -ℤ value)) (pos_part (bad -ℤ good)) m)
          (λ up.
            share-Fits (pos_part (value -ℤ bad)) (pos_part (good -ℤ bad)) m
              (ground (arith, -ℤ_parts good bad)))
          (λ down.
            share-Fits (pos_part (bad -ℤ value)) (pos_part (bad -ℤ good)) m
              (ground (arith, -ℤ_parts bad good))))

linear_float-Fits : (value : Float) (bad good : ℤ) (m : ℕ) → Fits m (linear_float value bad good m)
unfolding linear_float
linear_float-Fits (finite value) bad good m = linear_score-Fits value bad good m
linear_float-Fits plus_inf bad good m = tenths-Fits m m (omega arith)
linear_float-Fits minus_inf bad good m = tenths-Fits 0 m (omega arith)
linear_float-Fits nan bad good m = tenths-Fits m m (omega arith)

-- A component that is there fits its weight.
abbrev pub OptFits : ℕ → Option Points → Type 0
OptFits m none = Unit
OptFits m (some p) = Fits m p

pub score_battery-OptFits :
    (battery : Option ℤ) (voltage : Option Float) → OptFits 250 (score_battery battery voltage)
unfolding score_battery
score_battery-OptFits none none = tt
score_battery-OptFits (some b) none = linear_score-Fits _ _ _ 250
score_battery-OptFits none (some v) = linear_float-Fits v _ _ 250
score_battery-OptFits (some b) (some v) =
    add-Fits 150 100 _ _ (linear_score-Fits _ _ _ 150) (linear_float-Fits v _ _ 100)

pub score_signal-OptFits :
    (snr : Option Float) (hops : Option ℤ) → OptFits 250 (score_signal snr hops)
unfolding score_signal
score_signal-OptFits none none = tt
score_signal-OptFits (some s) none = linear_float-Fits s _ _ 250
score_signal-OptFits none (some h) = linear_score-Fits _ _ _ 250
score_signal-OptFits (some s) (some h) =
    add-Fits 175 75 _ _ (linear_float-Fits s _ _ 175) (linear_score-Fits _ _ _ 75)

pub score_freshness-OptFits :
    (last_seen : Option ℕ) (key : String) (defaults : ℕ × ℕ) (now : ℕ)
    → OptFits 200 (score_freshness last_seen key defaults now)
unfolding score_freshness
score_freshness-OptFits none key defaults now = tt
score_freshness-OptFits (some t) key defaults now = linear_score-Fits _ _ _ 200

pub score_reliability-OptFits : (state : Option String) → OptFits 150 (score_reliability state)
unfolding score_reliability
score_reliability-OptFits none = tt
score_reliability-OptFits (some state) =
    if_both (OptFits 150) (str_eq state "stable") _ _ (tenths-Fits 150 150 (omega arith)) (
      if_both (OptFits 150) (str_eq state "new") _ _ (tenths-Fits 105 150 (omega arith)) (
        if_both (OptFits 150) (str_eq state "intermittent") _ _ (tenths-Fits 45 150 (omega arith)) (
          if_both (OptFits 150) (str_eq state "offline") _ _ (tenths-Fits 0 150 (omega arith))
            (tenths-Fits 75 150 (omega arith)))))

pub score_congestion-OptFits :
    (channel air : Option Float) → OptFits 150 (score_congestion channel air)
unfolding score_congestion
score_congestion-OptFits none none = tt
score_congestion-OptFits (some c) none = linear_score-Fits _ _ _ 150
score_congestion-OptFits none (some a) = linear_score-Fits _ _ _ 150
score_congestion-OptFits (some c) (some a) = linear_score-Fits _ _ _ 150
