-- ===== src/Aggregator/Methods.antt =====
-- src/collectors/aggregator.py, `DataAggregator`: the methods beside `collect_all`, and the observations that
-- a cycle hands on.
use meshforge_maps.Base.{
  ℕ, ◌-◌, String, Bool, Option, none, some, List, [], ◌∷◌, ◌==◌, not, if◌then◌else◌, length, str_eq,
}
use meshforge_maps.Float.{Float}
use meshforge_maps.Dict.{Dict, lookup, insert}
use meshforge_maps.Collector.{Feature}
use meshforge_maps.NodeHistory.Methods.{Observation}
use meshforge_maps.Aggregator.{
  Collection, Sources, View, DataAggregator, overlay_keys, take_overlay,
}

-- what an observation thread makes of the features
abbrev pub observation_at : Float → Float → Feature → View → Observation
observation_at lat lon f v = record {
  node_id = f.id;
  lat = some lat;
  lon = some lon;
  altitude = v.altitude;
  network = v.network;
  snr = v.snr;
  battery = v.battery;
  name = v.name;
}

abbrev pub observation_of : Feature → View → Option (List Float) → Option Observation
observation_of f v (some (lon ∷ lat ∷ rest)) =
    if str_eq f.id "" then none else some (observation_at lat lon f v)
observation_of f v _ = none

-- `_record_observations`: the batch that is given to the database
unfoldable pub observations_of : (Feature → View) → List Feature → List Observation
observations_of view [] = []
observations_of view (f ∷ features) =
    let rest = observations_of view features in
    elim (observation_of f (view f) (view f).coordinates) [ none ↦ rest | some o ↦ o ∷ rest ]

module _ {C : Type 0} where
  -- none for the collection without features of a source that is not there
  unfoldable pub collect_source :
      Sources C → String → DataAggregator C → DataAggregator C × Option (Option (Collection × Bool))
  collect_source ops name d = elim (lookup name d.collectors) [
    | none ↦ (d, none)
    | some c ↦
        let (c', found) = ops.gather name c in
        (record d { collectors = insert name c' d.collectors }, some found)
  ]

  -- the overlay of the last collection, or else of hamclock alone
  abbrev pub overlay_from :
      Option (Collection × Bool) → DataAggregator C → DataAggregator C × Dict ℕ
  overlay_from none d = (d, [])
  overlay_from (some (fc, _)) d =
      let overlay = take_overlay overlay_keys fc.properties [] in
      (record d { cached_overlay = overlay }, overlay)

  unfoldable pub get_cached_overlay : Sources C → DataAggregator C → DataAggregator C × Dict ℕ
  get_cached_overlay ops d =
      if not (length d.cached_overlay == 0)
      then (d, d.cached_overlay)
      else elim (lookup "hamclock" d.collectors) [
        | none ↦ (d, [])
        | some c ↦
            let (c', found) = ops.gather "hamclock" c in
            overlay_from found (record d { collectors = insert "hamclock" c' d.collectors })
      ]

  -- the time since the last collection, where 0 is never
  unfoldable pub last_collect_age_seconds : ℕ → DataAggregator C → Option ℕ
  last_collect_age_seconds now d =
      if d.last_collect_time == 0 then none else some (now - d.last_collect_time)

  unfoldable pub forget_all : Sources C → Dict C → Dict C
  forget_all ops [] = []
  forget_all ops ((name, c) ∷ rest) = (name, ops.forget c) ∷ forget_all ops rest

  unfoldable pub clear_all_caches : Sources C → DataAggregator C → DataAggregator C
  clear_all_caches ops d = record d {
    collectors = forget_all ops d.collectors;
    cached_overlay = [];
    cached_result = none;
  }
