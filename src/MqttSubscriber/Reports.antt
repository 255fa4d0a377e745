-- ===== src/MqttSubscriber/Reports.antt =====
-- src/collectors/mqtt_subscriber.py: what the handlers of telemetry, positions and map reports keep of the
-- invariant of Ranges.

use meshforge_maps.Base.{
  ℕ, ◌≡◌, refl, String, true, Option, none, some, List, [], ◌∷◌, ◌||◌, if_both, Option-cases, inl,
  inr, str_eq,
}
use meshforge_maps.Int.{ℤ, pos, ◌≤ℤ◌, eqb_ℤ}
use meshforge_maps.Float.{finite}
use meshforge_maps.Dict.{Dict, lookup}
use meshforge_maps.Geo.{Coordinate, validate_coordinates}
use meshforge_maps.Geo.Coordinates.{IsPosition, validate_coordinates-IsPosition}
use meshforge_maps.NodeStore.{text, NodeStore, update_position, update_telemetry}
use meshforge_maps.MqttSubscriber.{
  Reading, Safe, kept, dropped, overflow, safe_int, Metric, read_metrics,
}
use meshforge_maps.MqttSubscriber.Metrics.{
  FieldFits, ranges, IsTable, read_metrics-fits, device_metrics-IsTable,
  environment_metrics-IsTable, air_quality_metrics-IsTable, health_metrics-IsTable,
  power_metrics-IsTable, local_stats-IsTable, host_metrics-IsTable, safe_int-InRange,
}
use meshforge_maps.MqttSubscriber.Handlers.{
  Effect, announced, broken, altitude_of, handle_position, Telemetry, groups_of, store_groups,
  handle_telemetry,
}
use meshforge_maps.MqttSubscriber.Decoding.{
  cap_text, text_or_none, value_of, MapReport, report_position, report_fields, store_report,
  handle_map_report,
}
use meshforge_maps.MqttSubscriber.Ranges.{
  OnGlobe, AllSound, update_position-AllSound, update_nodeinfo-AllSound, update_telemetry-AllSound,
}

position-OnGlobe :
    (lat lon : Coordinate) (a b : ℤ)
    → validate_coordinates lat lon true ≡ some (a, b)
    → OnGlobe (some (finite a)) (some (finite b))
position-OnGlobe lat lon a b e =
    let p : IsPosition a b = (validate_coordinates-IsPosition lat lon true true a b e).0 in
    (p.south, p.north, p.west, p.east)

pub handle_position-AllSound :
    (k : String) (lat lon altitude : ℤ) (now : ℕ) (s : NodeStore)
    → AllSound s
    → AllSound (handle_position k lat lon altitude now s).store
unfolding handle_position
handle_position-AllSound k lat lon altitude now s a =
    elim (Option-cases (validate_coordinates (Coordinate.int lat) (Coordinate.int lon) true)) [
      | inl bad ↦ rw (handle_position, bad) a
      | inr ((y, x), e) ↦
          rw (handle_position, e)
            (update_position-AllSound k y x (altitude_of altitude) none now s
              (position-OnGlobe (Coordinate.int lat) (Coordinate.int lon) y x e) a)
    ]

-- every group is read by a table that agrees with the ranges
abbrev AllTables : List (List Metric × Option (Dict Reading)) → Type 0
AllTables [] = Unit
AllTables ((metrics, m) ∷ groups) = IsTable metrics × AllTables groups

store_groups-AllSound :
    (k : String) (now : ℕ) (groups : List (List Metric × Option (Dict Reading))) (s : NodeStore)
    → AllTables groups
    → AllSound s
    → AllSound (store_groups k now groups s).0
unfolding store_groups
store_groups-AllSound k now [] s t a = a
store_groups-AllSound k now ((metrics, none) ∷ groups) s t a =
    store_groups-AllSound k now groups s t.1 a
store_groups-AllSound k now ((metrics, some m) ∷ groups) s t a =
    elim (Option-cases (read_metrics metrics m)) [
      | inl failed ↦ rw (store_groups, failed) a
      | inr (fields, e) ↦
          rw (store_groups, e)
            (store_groups-AllSound k now groups (update_telemetry k fields now s) t.1 (
              update_telemetry-AllSound k fields now s (read_metrics-fits metrics m fields t.0 e)
                a))
    ]

pub handle_telemetry-AllSound :
    (k : String) (t : Telemetry) (now : ℕ) (s : NodeStore)
    → AllSound s
    → AllSound (handle_telemetry k t now s).store
unfolding handle_telemetry
handle_telemetry-AllSound k t now s a =
    let stored : AllSound (store_groups k now (groups_of t) s).0 =
      store_groups-AllSound k now (groups_of t) s
        (
          device_metrics-IsTable,
          (
            environment_metrics-IsTable,
            (
              air_quality_metrics-IsTable,
              (
                health_metrics-IsTable,
                (power_metrics-IsTable, (local_stats-IsTable, (host_metrics-IsTable, tt))),
              ),
            ),
          ),
        )
        a in
    if_both (λ (e : Effect). AllSound e.store) (store_groups k now (groups_of t) s).1
      (broken (store_groups k now (groups_of t) s).0)
      (announced k "telemetry" (store_groups k now (groups_of t) s).0) stored stored

report_position-AllSound :
    (k : String) (r : MapReport) (now : ℕ) (s : NodeStore)
    → AllSound s
    → AllSound (report_position k r now s)
unfolding report_position
report_position-AllSound k r now s a =
    if_both AllSound (eqb_ℤ r.latitude_i (pos 0) || eqb_ℤ r.longitude_i (pos 0)) s _ a placed
  where
    placed :
        AllSound
          (elim (validate_coordinates
              (Coordinate.int r.latitude_i)
              (Coordinate.int r.longitude_i)
              true)
            as (λ _. NodeStore) [
              | none ↦ s
              | some (lat, lon) ↦
                  (update_position k (finite lat) (finite lon) r.altitude none now s).0
            ])
    placed =
        elim (Option-cases (
          validate_coordinates (Coordinate.int r.latitude_i) (Coordinate.int r.longitude_i) true)) [
            | inl bad ↦ rw bad a
            | inr ((y, x), e) ↦ rw e (
                update_position-AllSound k y x r.altitude none now s
                  (position-OnGlobe (Coordinate.int r.latitude_i) (Coordinate.int r.longitude_i) y x
                    e)
                  a)
          ]

text_fits : (key t : String) → lookup key ranges ≡ none → FieldFits (key, text_or_none t)
text_fits key t free =
    if_both (λ v. FieldFits (key, v)) (str_eq t "") none (some (text t)) tt (rw free tt)

online_fits :
    (online : Safe ℤ)
    → ((n : ℤ) → online ≡ kept n → (pos 0 ≤ℤ n) × (n ≤ℤ pos 100_000))
    → FieldFits ("num_online_local_nodes", value_of online)
unfolding lookup
online_fits (kept n) h = h n refl
online_fits dropped h = tt
online_fits overflow h = tt

store_report-AllSound :
    (k : String) (r : MapReport) (online : Safe ℤ) (now : ℕ) (s : NodeStore)
    → ((n : ℤ) → online ≡ kept n → (pos 0 ≤ℤ n) × (n ≤ℤ pos 100_000))
    → AllSound s
    → AllSound (store_report k r online now s)
unfolding lookup
store_report-AllSound k r online now s fits a =
    update_telemetry-AllSound k (report_fields r online) now _
      (
        text_fits "firmware_version" (cap_text 32 r.firmware_version) refl,
        (
          text_fits "region" (cap_text 16 r.region) refl,
          (
            text_fits "modem_preset" (cap_text 16 r.modem_preset) refl,
            (online_fits online fits, tt),
          ),
        ),
      )
      (update_nodeinfo-AllSound k (cap_text 40 r.long_name) (cap_text 8 r.short_name)
        (cap_text 32 r.hw_model) (cap_text 16 r.role) now (report_position k r now s)
        (report_position-AllSound k r now s a))

pub handle_map_report-AllSound :
    (k : String) (r : MapReport) (now : ℕ) (s : NodeStore)
    → AllSound s
    → AllSound (handle_map_report k r now s).store
unfolding handle_map_report
handle_map_report-AllSound k r now s a =
    elim (safe_int (pos 0) (pos 100_000) r.num_online)
        as (λ o.
          ((n : ℤ) → o ≡ kept n → (pos 0 ≤ℤ n) × (n ≤ℤ pos 100_000))
          → AllSound
              (elim o as (λ _. Effect) [
                | overflow ↦ broken s
                | dropped ↦ announced k "nodeinfo" (store_report k r dropped now s)
                | kept n ↦ announced k "nodeinfo" (store_report k r (kept n) now s)
              ]).store) [
                | overflow ↦ λ _. a
                | dropped ↦ λ fits. store_report-AllSound k r dropped now s fits a
                | kept n ↦ λ fits. store_report-AllSound k r (kept n) now s fits a
              ]
      (safe_int-InRange (pos 0) (pos 100_000) r.num_online)
