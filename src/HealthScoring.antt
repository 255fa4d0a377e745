-- ===== src/HealthScoring.antt =====
-- src/utils/health_scoring.py: the health score of a node, from its telemetry, and the table of scores.
-- Points are exact fractions; floats are exact, in units of 10⁻⁷ (`Float`). A property that is missing
-- and one that `int()` or `float()` refuses have the same effect, and are both `none`; `battery`,
-- `hops_away` and `last_seen` are finite, and times are whole seconds. The details that a component
-- repeats of its input are not modelled.
pub mod Components
pub mod Bounds
pub mod Table
use meshforge_maps.Base.{
  ℕ, zero, suc, ◌+◌, ◌-◌, ◌*◌, ◌/◌, ◌%◌, min, max, String, Bool, true, false, Option, none, some,
  List, [], ◌∷◌, ◌++◌, ltb, leb, ◌==◌, not, ◌&&◌, ◌||◌, if◌then◌else◌, str_eq, get_or,
}
use meshforge_maps.Int.{ℤ, pos, negsuc, pos_part, ◌-ℤ◌, ltb_ℤ, leb_ℤ, eqb_ℤ}
use meshforge_maps.Float.{Float, finite, plus_inf, minus_inf, nan}
use meshforge_maps.Dict.{Dict, lookup, insert, erase}
use meshforge_maps.Dict.Evict.{insert_bounded}

-- a number of points, as a fraction
pub record Points : Type 0 where
  pub num : ℕ
  pub den : ℕ

abbrev pub add : Points → Points → Points
add p q = record { num = p.num * q.den + q.num * p.den; den = p.den * q.den }

-- a whole number of tenths
abbrev pub tenths : ℕ → Points
tenths m = record { num = m; den = 10 }

-- the part of the way from `bad` to `good`, as far as `way` goes, of `m` tenths of a point
abbrev pub share : ℕ → ℕ → ℕ → Points
share way span m = record { num = min way span * m; den = span * 10 }

-- `_linear_score`, for a maximum of `m` tenths of a point
unfoldable pub linear_score : ℤ → ℤ → ℤ → ℕ → Points
linear_score value bad good m =
    if eqb_ℤ good bad
    then (if leb_ℤ good value then tenths m else tenths 0)
    else if ltb_ℤ bad good
    then share (pos_part (value -ℤ bad)) (pos_part (good -ℤ bad)) m
    else share (pos_part (bad -ℤ value)) (pos_part (bad -ℤ good)) m

-- the same on a float, for bad < good: `_clamp` takes NaN to its upper bound
unfoldable pub linear_float : Float → ℤ → ℤ → ℕ → Points
linear_float (finite value) bad good m = linear_score value bad good m
linear_float minus_inf bad good m = tenths 0
linear_float _ bad good m = tenths m

-- `_clamp(value, 0, 100)` on a percentage, in units of 10⁻⁷
abbrev pub percent : Float → ℕ
percent (finite value) = min 1_000_000_000 (pos_part value)
percent minus_inf = 0
percent _ = 1_000_000_000

pub record Props : Type 0 where
  pub battery : Option ℤ
  pub voltage : Option Float
  pub snr : Option Float
  pub hops_away : Option ℤ
  pub last_seen : Option ℕ
  pub source : String
  pub network : String
  pub channel_util : Option Float
  pub air_util_tx : Option Float
  pub is_online : Option Bool

abbrev pub level_score : ℤ → ℕ → Points
level_score battery m = linear_score (pos (min 100 (pos_part battery))) (pos 20) (pos 80) m

abbrev pub voltage_score : Float → ℕ → Points
voltage_score voltage m = linear_float voltage (pos 30_000_000) (pos 37_000_000) m

unfoldable pub score_battery : Option ℤ → Option Float → Option Points
score_battery none none = none
score_battery (some battery) (some voltage) =
    some (add (level_score battery 150) (voltage_score voltage 100))
score_battery (some battery) none = some (level_score battery 250)
score_battery none (some voltage) = some (voltage_score voltage 250)

abbrev pub snr_score : Float → ℕ → Points
snr_score snr m = linear_float snr (negsuc 99_999_999) (pos 80_000_000) m

abbrev pub hop_score : ℤ → ℕ → Points
hop_score hops m = linear_score (pos 7 -ℤ pos (pos_part hops)) (pos 0) (pos 7) m

unfoldable pub score_signal : Option Float → Option ℤ → Option Points
score_signal none none = none
score_signal (some snr) (some hops) = some (add (snr_score snr 175) (hop_score hops 75))
score_signal (some snr) none = some (snr_score snr 250)
score_signal none (some hops) = some (hop_score hops 250)

-- `FRESHNESS_THRESHOLDS`
abbrev pub freshness_thresholds : Dict (ℕ × ℕ)
freshness_thresholds =
    ("meshtastic", (300, 3600))
    ∷ ("mqtt", (300, 3600))
    ∷ ("reticulum", (900, 3600))
    ∷ ("aredn", (1800, 7200))
    ∷ ("meshcore", (1800, 7200))
    ∷ ("meshmap", (3600, 14400))
    ∷ []

-- `source_to_network`, on `source or network`
abbrev pub network_key : String → String → String
network_key source network =
    let name = if str_eq source "" then network else source in
    if str_eq name "meshmap.net"
    then "meshmap"
    else if str_eq name "aredn_worldmap"
    then "aredn"
    else name

unfoldable pub score_freshness : Option ℕ → String → ℕ × ℕ → ℕ → Option Points
score_freshness none key defaults now = none
score_freshness (some last_seen) key defaults now =
    let limits = get_or (lookup key freshness_thresholds) defaults in
    some (
      linear_score (pos limits.1 -ℤ pos (now - last_seen)) (pos 0) (pos limits.1 -ℤ pos limits.0)
        200)

unfoldable pub score_reliability : Option String → Option Points
score_reliability none = none
score_reliability (some state) =
    if str_eq state "stable"
    then some (tenths 150)
    else if str_eq state "new"
    then some (tenths 105)
    else if str_eq state "intermittent"
    then some (tenths 45)
    else if str_eq state "offline"
    then some (tenths 0)
    else some (tenths 75)

-- in half units of 10⁻⁷, so that the mean of two percentages is their sum
abbrev pub util_score : ℕ → Points
util_score twice = linear_score (pos 1_500_000_000 -ℤ pos twice) (pos 0) (pos 1_000_000_000) 150

unfoldable pub score_congestion : Option Float → Option Float → Option Points
score_congestion none none = none
score_congestion (some channel) (some air) = some (util_score (percent channel + percent air))
score_congestion (some channel) none = some (util_score (2 * percent channel))
score_congestion none (some air) = some (util_score (2 * percent air))

-- the sums of `score_node`: earned, available and the number of rich components
pub record Tally : Type 0 where
  pub earned : Points
  pub available : ℕ
  pub rich : ℕ

unfoldable pub count_in : Option Points → ℕ → ℕ → Tally → Tally
count_in none weight rich t = t
count_in (some p) weight rich t = record {
  earned = add t.earned p;
  available = t.available + weight;
  rich = t.rich + rich;
}

-- int(round(num / den)), to the even number between two
unfoldable pub round : ℕ → ℕ → ℕ
round num den =
    let q = num / den in
    let r = 2 * (num % den) in
    if ltb r den then q else if ltb den r then q + 1 else if q % 2 == 0 then q else q + 1

-- the score without telemetry
abbrev pub fallback : Option Bool → ℕ
fallback none = 50
fallback (some true) = 70
fallback (some false) = 15

abbrev pub known_online : Option Bool → Bool
known_online (some true) = true
known_online _ = false

unfoldable pub normalize : Option Bool → Tally → ℕ
normalize is_online t =
    if t.available == 0
    then fallback is_online
    else let normalized = round (t.earned.num * 100) (t.earned.den * t.available) in
      if known_online is_online && ltb normalized 60 && ltb t.rich 2 then 60 else normalized

unfoldable pub tally_of : Props → ℕ × ℕ → Option String → ℕ → Tally
tally_of props defaults state now =
    count_in (score_congestion props.channel_util props.air_util_tx) 15 1 (
      count_in (score_reliability state) 15 0 (
        count_in
          (score_freshness props.last_seen (network_key props.source props.network) defaults now) 20
          0
          (count_in (score_signal props.snr props.hops_away) 25 1 (
            count_in (score_battery props.battery props.voltage) 25 1
              (record { earned = record { num = 0; den = 1 }; available = 0; rich = 0 })))))

-- `_score_label`
unfoldable pub score_label : ℕ → String
score_label score =
    if leb 80 score && ltb score 101
    then "excellent"
    else if leb 60 score && ltb score 80
    then "good"
    else if leb 40 score && ltb score 60
    then "fair"
    else if leb 20 score && ltb score 40
    then "poor"
    else if ltb score 20
    then "critical"
    else "unknown"

pub record NodeHealthScore : Type 0 where
  pub node_id : String
  pub score : ℕ
  pub status : String
  pub available_weight : ℕ
  pub timestamp : ℕ
  pub last_accessed : ℕ

pub record NodeHealthScorer : Type 0 where
  pub max_nodes : ℕ
  pub freshness : ℕ × ℕ
  pub scores : Dict NodeHealthScore

-- the result of `score_node`
unfoldable pub score_of : NodeHealthScorer → String → Props → Option String → ℕ → NodeHealthScore
score_of s node_id props state now =
    let t = tally_of props s.freshness state now in
    let score = max 0 (min 100 (normalize props.is_online t)) in
    record {
      node_id = node_id;
      score = score;
      status = score_label score;
      available_weight = t.available;
      timestamp = now;
      last_accessed = now;
    }

unfoldable pub score_node :
    NodeHealthScorer → String → Props → Option String → ℕ → NodeHealthScorer × NodeHealthScore
score_node s node_id props state now =
    let result = score_of s node_id props state now in
    (
      record s {
        scores =
            insert_bounded (λ (x : NodeHealthScore). x.last_accessed) s.max_nodes node_id result
              s.scores;
      },
      result,
    )

-- `get_node_score`, which marks the entry as read
unfoldable pub get_node_score :
    NodeHealthScorer → String → ℕ → NodeHealthScorer × Option NodeHealthScore
get_node_score s node_id now = elim (lookup node_id s.scores) [
  | none ↦ (s, none)
  | some x ↦
      let read = record x { last_accessed = now } in
      (record s { scores = insert node_id read s.scores }, some read)
]

unfoldable pub remove_node : NodeHealthScorer → String → NodeHealthScorer
remove_node s node_id = record s { scores = erase node_id s.scores }
