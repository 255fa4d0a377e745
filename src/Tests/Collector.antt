-- ===== src/Tests/Collector.antt =====
-- Runs of the collection of src/collectors/base.py, and its theorems at concrete inputs.
use meshforge_maps.Base.{
  ℕ, zero, suc, ◌+◌, ◌<◌, ◌≡◌, ◌⊎◌, refl, Bool, true, false, Option, none, some, List, [], ◌∷◌,
  arith, is_some, str_eq_iff, if◌then◌else◌, ◌==◌,
}
use meshforge_maps.Dict.{lookup}
use meshforge_maps.Collector.{
  Feature, merge, flatten, deduplicate_features, threshold_of, is_node_online, BaseCollector, Fetch,
  gives, spoils, raises, fresh, stale, back_off, retry, collect, is_cache_hit,
}
use meshforge_maps.Collector.Merge.{first_of, first_given, number_of, deduplicate_features_first}
use meshforge_maps.Reconnect.{next_delay, overflows}
use meshforge_maps.Collector.Tries.{spoiled}
use meshforge_maps.Collector.Cache.{tries_of, answer, collect_answers, fetched_is_hit}

online_runs : is_node_online (some 1000) "mqtt" 1800 ≡ some true
unfolding is_node_online threshold_of lookup
online_runs = refl

-- a time in the future
forged_runs : is_node_online (some 9000) "mqtt" 1800 ≡ some false
unfolding is_node_online threshold_of lookup
forged_runs = refl

abbrev lists : List (List (Option Feature))
lists =
    (some (record { id = "!a"; payload = 1 }) ∷ none ∷ [])
    ∷ (some (record { id = "!a"; payload = 2 }) ∷ some (record { id = ""; payload = 3 }) ∷ [])
    ∷ []

merge_runs :
    deduplicate_features lists true
    ≡ record { id = "!a"; payload = 1 } ∷ record { id = ""; payload = 3 } ∷ []
unfolding deduplicate_features merge
merge_runs = refl

deduplicate_features_first_example :
    (first_of "!a" (deduplicate_features lists true) ≡ first_given "!a" (flatten lists))
    × (number_of "!a" (deduplicate_features lists true)
        ≡ (if is_some (first_given "!a" (flatten lists)) then 1 else 0))
deduplicate_features_first_example =
    deduplicate_features_first lists true "!a" (λ e. ground (arith, str_eq_iff "!a" ""))

-- a collection is the number of its features; all are true
abbrev truthy : ℕ → Bool
truthy n = true

-- the first try fails, the second gives 7
abbrev fetch : ℕ → Fetch ℕ
fetch zero = raises "timeout"
fetch (suc n) = gives 7

abbrev never : ℕ → Fetch ℕ
never n = raises "down"

abbrev times : ℕ → ℕ
times n = 100 + n

abbrev collector : BaseCollector ℕ
collector = record {
  cache = none;
  cache_time = 0;
  cache_ttl = 900;
  max_retries = 1;
  last_error = none;
  last_error_time = 0;
  last_success_time = 0;
  total_collections = 0;
  total_errors = 0;
}

old : fresh truthy 99 collector ≡ none
unfolding fresh
old = refl

collect_runs : (collect truthy fetch times 0 99 collector).1 ≡ some 7
unfolding collect fresh retry back_off next_delay overflows
collect_runs = refl

-- the first try stores 9 and then raises, and the second raises
abbrev spoiling : ℕ → Fetch ℕ
spoiling zero = spoils 9 "no length"
spoiling (suc n) = raises "down"

spoiling_counts :
    let (c, found) = collect truthy spoiling times 0 99 collector in
    (found ≡ some 9) × (c.total_collections ≡ 1) × (c.total_errors ≡ 1)
unfolding collect fresh retry stale back_off next_delay overflows
spoiling_counts = (refl, refl, refl)

-- with 1025 retries, a source that is down makes the collection raise
overflow_raises :
    (collect truthy never times 0 99 (record collector { max_retries = 1025 })).1 ≡ none
unfolding collect fresh retry back_off next_delay overflows
overflow_raises = refl

collect_answers_example :
    let (c, found) = collect truthy spoiling times 0 99 collector in
    (found ≡ answer truthy spoiling 0 99 collector)
    × ((is_some found ≡ true) ⊎ (1024 < collector.max_retries))
    × (c.total_collections + c.total_errors
        ≡ collector.total_collections
          + collector.total_errors
          + (if is_some (fresh truthy 99 collector)
              then 0
              else spoiled spoiling (tries_of collector) 0 + (if is_some found then 1 else 0)))
collect_answers_example = collect_answers truthy spoiling times 0 99 collector

fetched_is_hit_example :
    let r = collect truthy fetch times 0 99 collector in
    (r.1 ≡ some 7) × (is_cache_hit (λ a b. a == b) 7 r.0 ≡ true)
fetched_is_hit_example =
    fetched_is_hit truthy (λ a b. a == b) fetch times 0 99 1 collector 7 (λ n. ground arith) old
      refl
