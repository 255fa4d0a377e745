-- ===== src/Aggregator.antt =====
-- src/collectors/aggregator.py, `DataAggregator`: the collection of all sources, its merge and its caches.
-- What a collector does is an interface, `Sources`, as each source has its own. A feature stands for a JSON
-- object, of which `View` has the fields that are read; its geometry is a dictionary. `World` is what a
-- call meets: its clocks, in seconds (those around what the monitor times in 2⁻²⁰ seconds), and whether the
-- thread of observations is free and JSON can be made.
pub mod Methods
pub mod Cycles
pub mod Merging
pub mod Caching
pub mod Brokers
use meshforge_maps.Base.{
  ℕ, zero, suc, ◌+◌, ◌-◌, String, Bool, true, false, Option, none, some, List, [], ◌∷◌, ◌++◌, ltb,
  ◌==◌, not, ◌&&◌, ◌||◌, if◌then◌else◌, length, str_eq, map, is_some,
}
use meshforge_maps.Int.{ℤ}
use meshforge_maps.Float.{Float}
use meshforge_maps.Dict.{Dict, lookup, insert}
use meshforge_maps.Geo.{number, Vertex, point_in_region}
use meshforge_maps.Collector.{
  Feature, deduplicate_features, BaseCollector, Fetch, collect, is_cache_hit, clear_cache,
}
use meshforge_maps.PerfMonitor.{PerfMonitor, TimingContext, time_collection, time_cycle, exit}
use meshforge_maps.NodeHistory.Methods.{Observation}

-- a collection, whose properties are JSON values by their number
pub record Collection : Type 0 where
  pub features : List (Option Feature)
  pub properties : Dict ℕ

-- A collector: its collection, with whether that is a cache hit, or none if it raises.
pub record Sources (C : Type 0) : Type 0 where
  pub gather : String → C → C × Option (Collection × Bool)
  pub forget : C → C

-- The collectors that are plain `BaseCollector`s, at `now`: what `_fetch` does at each try of each source,
-- and the clock after it. `same` is Python's `is`, by which `is_cache_hit` compares.
abbrev pub base_sources :
    (Collection → Collection → Bool)
    → (String → ℕ → Fetch Collection)
    → (ℕ → ℕ)
    → ℕ
    → Sources (BaseCollector Collection)
base_sources same fetch times now = record {
  gather = λ name c.
      let r =
        collect (λ _. true) (fetch name) times (record { features = []; properties = [] }) now c in
      (r.0, elim r.1 [ none ↦ none | some fc ↦ some (fc, is_cache_hit same fc r.0) ]);
  forget = clear_cache;
}

-- what is read of a feature; `coordinates` is none for null
pub record View : Type 0 where
  pub coordinates : Option (List Float)
  pub network : String
  pub snr : Option Float
  pub battery : Option ℤ
  pub altitude : Option Float
  pub name : String

pub record Aggregate : Type 0 where
  pub features : List Feature
  pub sources : Dict ℕ
  pub total_nodes : ℕ
  pub enabled_sources : List String
  pub overlay_data : Dict ℕ

pub record DataAggregator (C : Type 0) : Type 0 where
  pub collectors : Dict C
  pub cached_overlay : Dict ℕ
  pub last_collect_time : ℕ
  pub last_collect_counts : Dict ℕ
  pub cached_result : Option Aggregate
  pub cached_result_time : ℕ
  pub cached_json : Option Aggregate  -- what the bytes were made from
  pub region_bboxes : List (List Float)
  pub region_polygons : List (List (Option Vertex))
  pub perf_monitor : PerfMonitor

pub record World : Type 0 where
  pub monotonic : ℕ
  pub source_times : String → ℕ × ℕ
  pub cycle_times : ℕ × ℕ
  pub wall : ℕ
  pub finished : ℕ
  pub can_record : Bool
  pub serializes : Bool

abbrev pub result_cache_ttl : ℕ
result_cache_ttl = 2

-- `_OVERLAY_ONLY_COLLECTORS`
abbrev pub is_overlay_only : String → Bool
is_overlay_only name = str_eq name "noaa_alerts"

abbrev pub overlay_keys : List String
overlay_keys = "space_weather" ∷ "solar_terminator" ∷ "hamclock" ∷ []

-- the overlay's keys that a collection has
unfoldable pub take_overlay : List String → Dict ℕ → Dict ℕ → Dict ℕ
take_overlay [] properties overlay = overlay
take_overlay (key ∷ keys) properties overlay = elim (lookup key properties) [
  | none ↦ take_overlay keys properties overlay
  | some v ↦ take_overlay keys properties (insert key v overlay)
]

abbrev pub names : {V : Type 0} → Dict V → List String
names [] = []
names ((name, _) ∷ d) = name ∷ names d

-- the coordinates are of a place in the region; fewer than two are not
abbrev pub within : List (List Float) → List (List (Option Vertex)) → List Float → Bool
within bboxes polygons (lon ∷ lat ∷ rest) =
    point_in_region (number lat) (number lon) bboxes polygons
within bboxes polygons _ = false

-- the filter by the region; none is the TypeError of coordinates that are null
unfoldable pub keep_in_region :
    (Feature → View)
    → List (List Float)
    → List (List (Option Vertex))
    → List Feature
    → Option (List Feature)
keep_in_region view bboxes polygons [] = some []
keep_in_region view bboxes polygons (f ∷ features) =
    let rest = keep_in_region view bboxes polygons features in
    elim (view f).coordinates [
      | none ↦ none
      | some coords ↦ elim rest [
        | none ↦ none
        | some kept ↦ some (if within bboxes polygons coords then f ∷ kept else kept)
      ]
    ]

-- the filter, where a region is set
unfoldable pub scoped :
    (Feature → View)
    → List (List Float)
    → List (List (Option Vertex))
    → List Feature
    → Option (List Feature)
scoped view bboxes polygons features =
    if length bboxes == 0 && length polygons == 0
    then some features
    else keep_in_region view bboxes polygons features

-- the locals of a collection cycle
pub record Cycle (C : Type 0) : Type 0 where
  pub collectors : Dict C
  pub per_source_features : List (List (Option Feature))
  pub source_counts : Dict ℕ
  pub overlay_data : Dict ℕ
  pub perf_monitor : PerfMonitor

module _ {C : Type 0} where
  -- every source that is collected has a count, 0 at first
  unfoldable pub zero_counts : Dict C → Dict ℕ → Dict ℕ
  zero_counts [] counts = counts
  zero_counts ((name, c) ∷ rest) counts =
      zero_counts rest (if is_overlay_only name then counts else insert name 0 counts)

  -- one source, after its `collect`
  unfoldable pub note_source : World → String → C × Option (Collection × Bool) → Cycle C → Cycle C
  note_source w name (c, none) cycle = record cycle {
    collectors = insert name c cycle.collectors;
    source_counts = insert name 0 cycle.source_counts;
    perf_monitor =
        exit (time_collection name (w.source_times name).0) (w.source_times name).1 w.wall
          cycle.perf_monitor;
  }
  note_source w name (c, some (fc, from_cache)) cycle =
      let ctx : TimingContext = record (time_collection name (w.source_times name).0) {
        node_count = length fc.features;
        from_cache = from_cache;
      } in
      record {
        collectors = insert name c cycle.collectors;
        per_source_features = cycle.per_source_features ++ fc.features ∷ [];
        source_counts = insert name (length fc.features) cycle.source_counts;
        overlay_data = take_overlay overlay_keys fc.properties cycle.overlay_data;
        perf_monitor = exit ctx (w.source_times name).1 w.wall cycle.perf_monitor;
      }

  unfoldable pub collect_each : Sources C → World → Dict C → Cycle C → Cycle C
  collect_each ops w [] cycle = cycle
  collect_each ops w ((name, c) ∷ rest) cycle =
      collect_each ops w rest
        (if is_overlay_only name then cycle else note_source w name (ops.gather name c) cycle)

  unfoldable pub new_cycle : DataAggregator C → Cycle C
  new_cycle d = record {
    collectors = d.collectors;
    per_source_features = [];
    source_counts = zero_counts d.collectors [];
    overlay_data = [];
    perf_monitor = d.perf_monitor;
  }

  -- the end of the cycle's timing, with the number of its nodes
  unfoldable pub end_cycle : World → ℕ → Cycle C → PerfMonitor
  end_cycle w node_count cycle =
      exit (record (time_cycle w.cycle_times.0) { node_count = node_count }) w.cycle_times.1 w.wall
        cycle.perf_monitor

  abbrev pub aggregate_of : Cycle C → List Feature → Aggregate
  aggregate_of cycle features = record {
    features = features;
    sources = cycle.source_counts;
    total_nodes = length features;
    enabled_sources = names cycle.collectors;
    overlay_data = cycle.overlay_data;
  }

  -- the result, and the features that go to the thread of observations; none if the filter raises
  unfoldable pub finish :
      World
      → Cycle C
      → Option (List Feature)
      → DataAggregator C
      → DataAggregator C × Option (Aggregate × List Feature)
  finish w cycle none d =
      (record d { collectors = cycle.collectors; perf_monitor = end_cycle w 0 cycle }, none)
  finish w cycle (some features) d =
      let result = aggregate_of cycle features in
      (
        record d {
          collectors = cycle.collectors;
          cached_overlay = cycle.overlay_data;
          last_collect_time = w.wall;
          last_collect_counts = cycle.source_counts;
          cached_result = some result;
          cached_result_time = w.finished;
          cached_json = if w.serializes then some result else none;
          perf_monitor = end_cycle w (length features) cycle;
        },
        some (result, if w.can_record then features else []),
      )

  -- the cached result, if it is not older than the time to live
  unfoldable pub cached : ℕ → DataAggregator C → Option Aggregate
  cached now d = elim d.cached_result [
    | none ↦ none
    | some result ↦ if ltb now (d.cached_result_time + result_cache_ttl) then some result else none
  ]

  -- a whole cycle
  unfoldable pub collect_now :
      Sources C
      → (Feature → View)
      → World
      → DataAggregator C
      → DataAggregator C × Option (Aggregate × List Feature)
  collect_now ops view w d =
      let cycle = collect_each ops w d.collectors (new_cycle d) in
      finish w cycle
        (scoped view d.region_bboxes d.region_polygons
          (deduplicate_features cycle.per_source_features true))
        d

  unfoldable pub collect_all :
      Sources C
      → (Feature → View)
      → World
      → DataAggregator C
      → DataAggregator C × Option (Aggregate × List Feature)
  collect_all ops view w d = elim (cached w.monotonic d) [
    | some result ↦ (d, some (result, []))
    | none ↦ collect_now ops view w d
  ]
