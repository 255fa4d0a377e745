-- ===== src/HealthScoring/Bounds.antt =====
-- src/utils/health_scoring.py, `score_node`: the range of a score, and the floor of an online node.
use native.Mathlib.Nat.{mul-le-mul_right, mul-pos, div-add-mod'}
use mathlib.Core.Path.{subst}
use meshforge_maps.Base.{
  sym, ℕ, ◌+◌, ◌*◌, ◌/◌, ◌%◌, ◌≤◌, ◌<◌, ◌≡◌, ◌≢◌, ap, String, Bool, true, false, Option, none, some,
  arith, ltb, ◌==◌, ◌&&◌, if◌then◌else◌, if_both, if_split, Bool-cases, inl, inr, str_eq_iff,
}
use meshforge_maps.HealthScoring.{
  Points, add, Tally, count_in, round, fallback, known_online, normalize, tally_of, score_label,
  Props, NodeHealthScorer, score_of, network_key,
}
use meshforge_maps.HealthScoring.Components.{
  Fits, OptFits, add-Fits, score_battery-OptFits, score_signal-OptFits, score_freshness-OptFits,
  score_reliability-OptFits, score_congestion-OptFits,
}

abbrev FitsTally : Tally → Type 0
FitsTally t = Fits (10 * t.available) t.earned

count_in-FitsTally :
    (o : Option Points) (weight rich : ℕ) (t : Tally)
    → OptFits (10 * weight) o
    → FitsTally t
    → FitsTally (count_in o weight rich t)
unfolding count_in
count_in-FitsTally none weight rich t fits h = h
count_in-FitsTally (some p) weight rich t fits h =
    let both : Fits (10 * t.available + 10 * weight) (add t.earned p) =
      add-Fits (10 * t.available) (10 * weight) t.earned p h fits in
    (both.0, omega (arith, both.1))

-- no node earns more than what is available
tally_of-FitsTally :
    (props : Props) (defaults : ℕ × ℕ) (state : Option String) (now : ℕ)
    → FitsTally (tally_of props defaults state now)
unfolding tally_of
tally_of-FitsTally props defaults state now =
    count_in-FitsTally _ 15 1 _ (score_congestion-OptFits props.channel_util props.air_util_tx) (
      count_in-FitsTally _ 15 0 _ (score_reliability-OptFits state) (
        count_in-FitsTally _ 20 0 _
          (score_freshness-OptFits props.last_seen (network_key props.source props.network) defaults
            now)
          (count_in-FitsTally _ 25 1 _ (score_signal-OptFits props.snr props.hops_away) (
            count_in-FitsTally _ 25 1 _ (score_battery-OptFits props.battery props.voltage)
              (omega arith, omega arith)))))

quotient_le : (num den : ℕ) → 0 < den → num ≤ 100 * den → num / den ≤ 100
quotient_le num den positive most = elim (Bool-cases (ltb 100 (num / den))) [
  | inl high ↦
      let more : 101 * den ≤ num / den * den = mul-le-mul_right den (ground arith) in
      absurd (omega (arith, more, div-add-mod' num den))
  | inr low ↦ ground arith
]

-- at 100 nothing is left over
remainder_zero : (num den : ℕ) → num ≤ 100 * den → num / den ≡ 100 → num % den ≡ 0
remainder_zero num den most full =
    let whole : num / den * den ≡ 100 * den = ap (λ q. q * den) full in
    omega (arith, whole, div-add-mod' num den)

round_le : (num den : ℕ) → 0 < den → num ≤ 100 * den → round num den ≤ 100
unfolding round
round_le num den positive most =
    ground (arith, quotient_le num den positive most, remainder_zero num den most)

fallback_le : (is_online : Option Bool) → fallback is_online ≤ 100
fallback_le none = omega arith
fallback_le (some true) = omega arith
fallback_le (some false) = omega arith

normalize_le : (is_online : Option Bool) (t : Tally) → FitsTally t → normalize is_online t ≤ 100
unfolding normalize
normalize_le is_online t h =
    if_split (λ n. n ≤ 100) (t.available == 0) (fallback is_online)
      (if known_online is_online
          && ltb (round (t.earned.num * 100) (t.earned.den * t.available)) 60
          && ltb t.rich 2
        then 60
        else round (t.earned.num * 100) (t.earned.den * t.available))
      (λ nothing. fallback_le is_online)
      (λ something.
        let some_weight : 0 < t.available = ground arith in
        if_both (λ n. n ≤ 100)
          (known_online is_online
            && ltb (round (t.earned.num * 100) (t.earned.den * t.available)) 60
            && ltb t.rich 2)
          60 (round (t.earned.num * 100) (t.earned.den * t.available)) (omega arith)
          (round_le (t.earned.num * 100) (t.earned.den * t.available) (mul-pos h.0 some_weight)
            (omega (arith, h.1))))

label_known : (score : ℕ) → score ≤ 100 → score_label score ≢ "unknown"
unfolding score_label
label_known score h e = ground (
  arith,
  e,
  str_eq_iff "excellent" "unknown",
  str_eq_iff "good" "unknown",
  str_eq_iff "fair" "unknown",
  str_eq_iff "poor" "unknown",
  str_eq_iff "critical" "unknown",
)

-- Whatever a node reports, no component earns more than its weight, so that the score is at most 100
-- without the final clamp, and its status is never "unknown".
pub score_in_range :
    (s : NodeHealthScorer) (node_id : String) (props : Props) (state : Option String) (now : ℕ)
    → let t = tally_of props s.freshness state now in
      (t.earned.num ≤ t.available * t.earned.den)
      × ((score_of s node_id props state now).score ≡ normalize props.is_online t)
      × ((score_of s node_id props state now).score ≤ 100)
      × ((score_of s node_id props state now).status ≢ "unknown")
unfolding score_of
score_in_range s node_id props state now =
    let h = tally_of-FitsTally props s.freshness state now in
    let low = normalize_le props.is_online (tally_of props s.freshness state now) h in
    (omega (arith, h.1), omega (arith, low), omega (arith, low), label_known _ (omega (arith, low)))

normalize_floor : (t : Tally) → t.rich < 2 → 60 ≤ normalize (some true) t
unfolding normalize
normalize_floor t poor = ground arith

-- A node that is online scores at least 60 unless two of signal, battery and congestion are reported.
pub online_floor :
    (s : NodeHealthScorer) (node_id : String) (props : Props) (state : Option String) (now : ℕ)
    → props.is_online ≡ some true
    → (tally_of props s.freshness state now).rich < 2
    → 60 ≤ (score_of s node_id props state now).score
unfolding score_of
online_floor s node_id props state now on poor =
    let floor : 60 ≤ normalize props.is_online (tally_of props s.freshness state now) =
      subst (λ o. 60 ≤ normalize o (tally_of props s.freshness state now)) (sym on)
        (normalize_floor (tally_of props s.freshness state now) poor) in
    omega (arith, floor)
