-- ===== src/Tests/ConfigDrift.antt =====
-- Runs of src/utils/config_drift.py, and its theorems at concrete inputs.
use meshforge_maps.Base.{
  ◌≤◌, ◌≡◌, push, refl, String, true, Option, none, some, List, [], ◌∷◌, arith, length, map, ◌==◌,
  if◌then◌else◌,
}
use meshforge_maps.Int.{pos}
use meshforge_maps.Dict.{Dict, lookup, insert, IsDistinct}
use meshforge_maps.ConfigDrift.{
  ConfigValue, text, whole, float, boolean, Drift, ConfigDriftDetector, create, whole_part,
  is_tracked, current_of, update, append_drift, make_room, check_new, normalize_value, drift_of,
  compare_fields, check_known, check_current, check_node,
}
use meshforge_maps.ConfigDrift.Validity.{IsValid}
use meshforge_maps.ConfigDrift.Invariant.{Event, check, remove, run, detector_stays-IsValid}
use meshforge_maps.ConfigDrift.Memory.{given, field_of}
use meshforge_maps.ConfigDrift.Reports.{reported, differs, check_node_reports}

-- Python's `str`, on the values that the runs use
abbrev str : ConfigValue → String
str (text s) = s
str (whole (pos n)) = if n == 20 then "20" else "?"
str (boolean true) = "True"
str _ = "?"

abbrev detector : ConfigDriftDetector
detector = create 2 1

abbrev first : Dict (Option ConfigValue)
first =
    ("role", some (text "CLIENT"))
    ∷ ("tx_power", some (whole (pos 20)))
    ∷ ("snr", some (text "5"))
    ∷ []

abbrev second : Dict (Option ConfigValue)
second =
    ("role", some (text "ROUTER"))
    ∷ ("tx_power", some (float (pos 200_000_000)))
    ∷ ("region", none)
    ∷ []

abbrev known : ConfigDriftDetector
known = (check_node str "!a" first 5 detector).0

first_reports : (check_node str "!a" first 5 detector).1 ≡ []
unfolding check_node check_current lookup create current_of is_tracked
first_reports = refl

-- 20 and 20.0 are the same power
second_reports : map (λ (d : Drift). d.field) (check_node str "!a" second 6 known).1 ≡ "role" ∷ []
unfolding check_node check_current check_known append_drift update push check_new make_room lookup
    insert create current_of is_tracked compare_fields drift_of normalize_value whole_part
second_reports = refl

detector-IsValid : IsValid detector
unfolding create lookup
detector-IsValid = record {
  room = omega arith;
  keeps = omega arith;
  distinct = tt;
  bounded = omega arith;
  histories = tt;
  owned = λ k m. absurd (cc);
  capped = tt;
}

abbrev events : List Event
events = check "!a" first 5 ∷ check "!a" second 6 ∷ check "!b" first 7 ∷ remove "!b" ∷ []

second-IsDistinct : IsDistinct second
unfolding lookup
second-IsDistinct = (refl, (refl, (refl, tt)))

detector_stays-IsValid_example :
    IsValid (run str detector events).0
    × (length (run str detector events).0.drift_history ≤ (run str detector events).0.max_nodes)
detector_stays-IsValid_example = detector_stays-IsValid str detector events detector-IsValid

check_node_reports_example :
    reported "role" (check_node str "!a" second 6 known).1
    ≡ differs str (field_of "role" "!a" known) (given "role" second)
check_node_reports_example = check_node_reports str "role" "!a" second 6 known second-IsDistinct
