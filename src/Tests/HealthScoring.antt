-- ===== src/Tests/HealthScoring.antt =====
-- Runs of src/utils/health_scoring.py, and its theorems at concrete inputs.
use meshforge_maps.Base.{◌*◌, ◌≤◌, ◌≡◌, ◌≢◌, refl, true, none, some, List, [], ◌∷◌, arith}
use meshforge_maps.Int.{pos, ◌-ℤ◌}
use meshforge_maps.Float.{whole, nan}
use meshforge_maps.Dict.{lookup}
use meshforge_maps.HealthScoring.{
  Props, NodeHealthScorer, score_of, tally_of, normalize, round, count_in, linear_score,
  linear_float, score_battery, score_signal, score_freshness, score_reliability, score_congestion,
  score_label,
}
use meshforge_maps.HealthScoring.Bounds.{score_in_range}
use meshforge_maps.HealthScoring.Table.{
  IsValid, Call, score, read, forget, run, scorer_stays-IsValid,
}

abbrev scorer : NodeHealthScorer
scorer = record { max_nodes = 2; freshness = (300, 3600); scores = [] }

abbrev slow : Props
slow = record {
  battery = none;
  voltage = none;
  snr = none;
  hops_away = none;
  last_seen = some 1000;
  source = "aredn_worldmap";
  network = "";
  channel_util = none;
  air_util_tx = none;
  is_online = some true;
}

abbrev full : Props
full = record slow {
  battery = some (pos 50);
  voltage = some (whole 4);
  snr = some nan;
  hops_away = some (pos 2);
  channel_util = some (whole 30);
}

-- half of the way from 20 to 80 percent
battery_run : score_battery (some (pos 50)) none ≡ some (record { num = 30 * 250; den = 600 })
unfolding score_battery linear_score ◌-ℤ◌
battery_run = refl

-- a ratio that is NaN is clamped to all of the points
nan_run : score_signal (some nan) none ≡ some (record { num = 250; den = 10 })
unfolding score_signal linear_float
nan_run = refl

-- freshness alone, two hours later: nothing earned, but the floor of an online node
slow_run : (score_of scorer "!a" slow none 9000).score ≡ 60
unfolding score_of tally_of normalize round count_in linear_score linear_float score_battery
    score_signal score_freshness score_reliability score_congestion score_label lookup ◌-ℤ◌
slow_run = refl

score_in_range_example :
    ((tally_of full (300, 3600) (some "stable") 2000).earned.num
      ≤ (tally_of full (300, 3600) (some "stable") 2000).available
        * (tally_of full (300, 3600) (some "stable") 2000).earned.den)
    × ((score_of scorer "!a" full (some "stable") 2000).score
        ≡ normalize (some true) (tally_of full (300, 3600) (some "stable") 2000))
    × ((score_of scorer "!a" full (some "stable") 2000).score ≤ 100)
    × ((score_of scorer "!a" full (some "stable") 2000).status ≢ "unknown")
score_in_range_example = score_in_range scorer "!a" full (some "stable") 2000

scorer-IsValid : IsValid scorer
scorer-IsValid = record { room = omega arith; distinct = tt; bounded = omega arith; in_range = tt }

abbrev calls : List Call
calls =
    score "!a" full none 1000
    ∷ score "!b" slow none 1000
    ∷ read "!a" 1500
    ∷ score "!c" slow none 2000
    ∷ forget "!a"
    ∷ []

scorer_stays-IsValid_example : IsValid (run scorer calls)
scorer_stays-IsValid_example = scorer_stays-IsValid scorer calls scorer-IsValid
