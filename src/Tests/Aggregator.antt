-- ===== src/Tests/Aggregator.antt =====
-- Runs of the aggregation of src/collectors/aggregator.py, and its theorems at concrete inputs.
use meshforge_maps.Base.{
  ℕ, zero, suc, ◌+◌, ◌≡◌, refl, String, Bool, true, false, Option, none, some, List, [], ◌∷◌, arith,
  length,
}
use meshforge_maps.Float.{whole}
use meshforge_maps.Dict.{lookup, insert, IsDistinct}
use meshforge_maps.Reconnect.{next_delay, overflows}
use meshforge_maps.Collector.{
  Feature, BaseCollector, Fetch, gives, raises, deduplicate_features, merge, collect, fresh, retry,
  back_off,
}
use meshforge_maps.Geo.{point_in_region, point_in_bboxes, any_bbox, in_bbox}
use meshforge_maps.Aggregator.{
  Collection, Sources, base_sources, View, Aggregate, DataAggregator, World, cached, collect_all,
  collect_now, collect_each, note_source, new_cycle, zero_counts, take_overlay, finish, scoped,
  keep_in_region,
}
use meshforge_maps.Aggregator.Merging.{Merges, collect_all-Merges}
use meshforge_maps.Aggregator.Caching.{result_reused}
use meshforge_maps.Aggregator.Brokers.{
  Entry, Config, Mqtt, to_dict, init_mqtt, restart_mqtt, mqtt_subscribers, clients_of,
  resolve_broker_specs, mqtt_store_cap, restart_starts,
}

abbrev feature : String → ℕ → Option Feature
feature id payload = some (record { id = id; payload = payload })

-- the first try fails, and the second gives two nodes
abbrev fetch : String → ℕ → Fetch Collection
fetch _ zero = raises "timeout"
fetch _ (suc n) =
    gives (record {
      features = feature "!a" 1 ∷ feature "!b" 2 ∷ [];
      properties = ("hamclock", 5) ∷ [];
    })

abbrev idle : BaseCollector Collection
idle = record {
  cache = none;
  cache_time = 0;
  cache_ttl = 900;
  max_retries = 2;
  last_error = none;
  last_error_time = 0;
  last_success_time = 0;
  total_collections = 0;
  total_errors = 0;
}

abbrev same : Collection → Collection → Bool
same a b = true

abbrev ops : Sources (BaseCollector Collection)
ops = base_sources same fetch (λ n. 1000 + n) 1000

-- the node of payload 1 lies in the box
abbrev view : Feature → View
view f = record {
  coordinates = some (whole f.payload ∷ whole 20 ∷ []);
  network = "meshtastic";
  snr = none;
  battery = none;
  altitude = none;
  name = "";
}

abbrev aggregator : DataAggregator (BaseCollector Collection)
aggregator = record {
  collectors = ("meshtastic", idle) ∷ ("aredn", idle) ∷ ("noaa_alerts", idle) ∷ [];
  cached_overlay = [];
  last_collect_time = 0;
  last_collect_counts = [];
  cached_result = none;
  cached_result_time = 0;
  cached_json = none;
  region_bboxes = (whole 10 ∷ whole 0 ∷ whole 30 ∷ whole 1 ∷ []) ∷ [];
  region_polygons = [];
  perf_monitor = record { start_time = 0; total_collections = 0; sources = []; cycle = none };
}

abbrev at : ℕ → World
at time = record {
  monotonic = time;
  source_times = λ _. (time, time + 1);
  cycle_times = (time, time + 2);
  wall = 1000 + time;
  finished = time + 2;
  can_record = true;
  serializes = true;
}

never_collected : cached 7 aggregator ≡ none
unfolding cached
never_collected = refl

three_sources : IsDistinct aggregator.collectors
unfolding lookup
three_sources = (refl, (refl, (refl, tt)))

collect_all-Merges_example :
    (a : Aggregate) × (recorded : List Feature) × ((collect_all ops view (at 7) aggregator).1
      ≡ some (a, recorded))
    × Merges ops view aggregator a
collect_all-Merges_example =
    collect_all-Merges ops view (at 7) aggregator never_collected three_sources (λ f. refl)

abbrev lone : Aggregate
lone = record {
  features = record { id = "!a"; payload = 1 } ∷ [];
  sources = ("meshtastic", 2) ∷ ("aredn", 2) ∷ [];
  total_nodes = 1;
  enabled_sources = "meshtastic" ∷ "aredn" ∷ "noaa_alerts" ∷ [];
  overlay_data = ("hamclock", 5) ∷ [];
}

first_gives :
    (collect_all ops view (at 7) aggregator).1 ≡ some (lone, record { id = "!a"; payload = 1 } ∷ [])
unfolding collect_all cached collect_now collect_each note_source new_cycle zero_counts take_overlay
    finish scoped keep_in_region deduplicate_features merge lookup insert point_in_region
    point_in_bboxes any_bbox in_bbox collect fresh retry back_off next_delay overflows
first_gives = refl

result_reused_example :
    collect_all ops view (at 10) (collect_all ops view (at 7) aggregator).0
    ≡ ((collect_all ops view (at 7) aggregator).0, some (lone, []))
result_reused_example =
    result_reused ops view (at 7) (at 10) aggregator lone (record { id = "!a"; payload = 1 } ∷ [])
      never_collected first_gives (omega arith)

abbrev entry : Option String → Entry
entry broker = record {
  broker = broker;
  port = none;
  topic = none;
  username = none;
  password = none;
  use_tls = false;
  label = none;
}

abbrev config : Config
config = record {
  mqtt_brokers =
      some (entry (some "a.example"))
      ∷ none
      ∷ some (entry none)
      ∷ some (entry (some "b.example"))
      ∷ [];
  single = entry none;
  enable_meshtastic = true;
  profile = some (record { is_lite = true; is_medium = false });
}

abbrev stopped : Mqtt
stopped = record { primary = none; secondary = []; max_nodes = 10_000 }

restart_starts_example :
    let (m', success) = restart_mqtt true (to_dict config) stopped in
    (success ≡ true)
    × (mqtt_subscribers m' ≡ clients_of (resolve_broker_specs config))
    × (length (mqtt_subscribers m') ≡ 2)
    × (mqtt_subscribers m' ≡ mqtt_subscribers (init_mqtt true config))
    × ((init_mqtt true config).max_nodes ≡ mqtt_store_cap config)
    × (m'.max_nodes ≡ 10_000)
restart_starts_example = restart_starts config stopped refl
