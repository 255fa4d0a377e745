-- ===== src/MqttSubscriber.antt =====
-- src/collectors/mqtt_subscriber.py, `MQTTSubscriber`: what a decoded message does to the node store.
-- The decoding of protobuf and its decryption are third-party code: a packet arrives as its fields. A
-- metric that a message does not have is `none`; an integer field may be read where a float is wanted,
-- and the other way round.
pub mod Handlers
pub mod Decoding
pub mod Messages
pub mod Metrics
pub mod Ranges
pub mod Reports
pub mod Soundness
pub mod Topics
pub mod Ids
pub mod Senders
pub mod Loop
pub mod Fate
use meshforge_maps.Base.{
  ℕ, suc, ◌+◌, ◌-◌, ◌*◌, ◌/◌, String, Bool, true, false, Option, none, some, List, [], ◌∷◌, ◌++◌,
  not, ◌&&◌, ◌==◌, if◌then◌else◌,
}
use meshforge_maps.Int.{ℤ, pos, negsuc, leb_ℤ}
use meshforge_maps.Float.{Float, finite, plus_inf, minus_inf, nan, le_float, is_nan, is_inf}
use meshforge_maps.Dict.{Dict, lookup}
use meshforge_maps.Geo.{scale, degree}
use meshforge_maps.NodeStore.{Value, int, float}

pub data Reading : Type 0 where
  whole : ℤ → Reading
  real : Float → Reading

-- a value that is kept, one that is dropped, or the OverflowError of `int(inf)`, which is not caught
pub data Safe (A : Type 0) : Type 0 where
  kept : A → Safe A
  dropped overflow : Safe A

-- `float(n)`, and `int(x)` for a finite x
abbrev pub to_real : ℤ → Float
to_real n = finite (scale n degree)

abbrev pub truncate : ℤ → ℤ
truncate (pos n) = pos (n / degree)
truncate (negsuc n) = let q = suc n / degree in if q == 0 then pos 0 else negsuc (q - 1)

-- `_safe_float`
unfoldable pub keep_float : Float → Float → Float → Safe Float
keep_float low high v =
    if is_nan v
    then dropped
    else if is_inf v
    then dropped
    else if not (le_float low v && le_float v high)
    then dropped
    else kept v

unfoldable pub safe_float : Float → Float → Option Reading → Safe Float
safe_float low high none = dropped
safe_float low high (some (whole n)) = keep_float low high (to_real n)
safe_float low high (some (real x)) = keep_float low high x

-- `_safe_int`
unfoldable pub keep_int : ℤ → ℤ → ℤ → Safe ℤ
keep_int low high v = if not (leb_ℤ low v && leb_ℤ v high) then dropped else kept v

unfoldable pub safe_int : ℤ → ℤ → Option Reading → Safe ℤ
safe_int low high none = dropped
safe_int low high (some (whole n)) = keep_int low high n
safe_int low high (some (real (finite x))) = keep_int low high (truncate x)
safe_int low high (some (real nan)) = dropped
safe_int low high (some (real _)) = overflow

-- how a metric is read, and its bounds; those of a float are whole numbers
pub data Range : Type 0 where
  ints : ℤ → ℤ → Range
  floats : ℤ → ℤ → Range

abbrev pub as_value : {A : Type 0} → (A → Value) → Safe A → Safe Value
as_value f (kept a) = kept (f a)
as_value f dropped = dropped
as_value f overflow = overflow

unfoldable pub safe : Range → Option Reading → Safe Value
safe (ints low high) reading = as_value int (safe_int low high reading)
safe (floats low high) reading = as_value float (safe_float (to_real low) (to_real high) reading)

-- an attribute of the message, the key that it is stored under, and its range
abbrev pub Metric : Type 0
Metric = String × String × Range

-- 2 ** k
abbrev pub two_31 : ℤ
two_31 = pos 2_147_483_648

abbrev pub minus : ℕ → ℤ
minus n = negsuc (n - 1)

abbrev pub device_metrics : List Metric
device_metrics =
    ("battery_level", "battery", ints (pos 0) (pos 100))
    ∷ ("voltage", "voltage", floats (pos 0) (pos 100))
    ∷ ("channel_utilization", "channel_util", floats (pos 0) (pos 100))
    ∷ ("air_util_tx", "air_util_tx", floats (pos 0) (pos 100))
    ∷ []

abbrev pub environment_metrics : List Metric
environment_metrics =
    ("temperature", "temperature", floats (minus 100) (pos 200))
    ∷ ("relative_humidity", "humidity", floats (pos 0) (pos 100))
    ∷ ("barometric_pressure", "pressure", floats (pos 0) (pos 2000))
    ∷ ("iaq", "iaq", ints (pos 0) (pos 500))
    ∷ ("wind_direction", "wind_direction", ints (pos 0) (pos 360))
    ∷ ("wind_speed", "wind_speed", floats (pos 0) (pos 200))
    ∷ ("wind_gust", "wind_gust", floats (pos 0) (pos 200))
    ∷ ("wind_lull", "wind_lull", floats (pos 0) (pos 200))
    ∷ ("rainfall_1h", "rainfall_1h", floats (pos 0) (pos 500))
    ∷ ("rainfall_24h", "rainfall_24h", floats (pos 0) (pos 2000))
    ∷ ("soil_moisture", "soil_moisture", floats (pos 0) (pos 100))
    ∷ ("soil_temperature", "soil_temperature", floats (minus 50) (pos 100))
    ∷ ("lux", "lux", floats (pos 0) (pos 200_000))
    ∷ ("uv_lux", "uv_lux", floats (pos 0) (pos 100_000))
    ∷ ("radiation", "radiation", floats (pos 0) (pos 100_000))
    ∷ ("distance", "distance", floats (pos 0) (pos 100_000))
    ∷ []

abbrev pub air_quality_metrics : List Metric
air_quality_metrics =
    ("pm10_standard", "pm10_standard", ints (pos 0) (pos 10_000))
    ∷ ("pm25_standard", "pm25_standard", ints (pos 0) (pos 10_000))
    ∷ ("pm100_standard", "pm100_standard", ints (pos 0) (pos 10_000))
    ∷ ("pm10_environmental", "pm10_environmental", ints (pos 0) (pos 10_000))
    ∷ ("pm25_environmental", "pm25_environmental", ints (pos 0) (pos 10_000))
    ∷ ("pm100_environmental", "pm100_environmental", ints (pos 0) (pos 10_000))
    ∷ ("co2", "co2", ints (pos 0) (pos 40_000))
    ∷ ("pm_voc_idx", "pm_voc_idx", floats (pos 0) (pos 500))
    ∷ ("pm_nox_idx", "pm_nox_idx", floats (pos 0) (pos 500))
    ∷ []

abbrev pub health_metrics : List Metric
health_metrics =
    ("heart_bpm", "heart_bpm", ints (pos 0) (pos 300))
    ∷ ("spO2", "spo2", ints (pos 0) (pos 100))
    ∷ ("temperature", "body_temperature", floats (pos 20) (pos 50))
    ∷ []

abbrev pub power_metrics : List Metric
power_metrics =
    ("ch1_voltage", "power_ch1_voltage", floats (pos 0) (pos 1000))
    ∷ ("ch1_current", "power_ch1_current", floats (minus 1000) (pos 1000))
    ∷ ("ch2_voltage", "power_ch2_voltage", floats (pos 0) (pos 1000))
    ∷ ("ch2_current", "power_ch2_current", floats (minus 1000) (pos 1000))
    ∷ ("ch3_voltage", "power_ch3_voltage", floats (pos 0) (pos 1000))
    ∷ ("ch3_current", "power_ch3_current", floats (minus 1000) (pos 1000))
    ∷ []

abbrev pub local_stats : List Metric
local_stats =
    ("uptime_seconds", "device_uptime", ints (pos 0) two_31)
    ∷ ("num_packets_tx", "num_packets_tx", ints (pos 0) two_31)
    ∷ ("num_packets_rx", "num_packets_rx", ints (pos 0) two_31)
    ∷ ("num_packets_rx_bad", "num_packets_rx_bad", ints (pos 0) two_31)
    ∷ ("num_online_nodes", "num_online_nodes", ints (pos 0) (pos 100_000))
    ∷ ("num_total_nodes", "num_total_nodes", ints (pos 0) (pos 100_000))
    ∷ ("noise_floor", "noise_floor", floats (minus 200) (pos 0))
    ∷ []

abbrev pub host_metrics : List Metric
host_metrics =
    ("uptime_seconds", "host_uptime", ints (pos 0) two_31)
    ∷ ("freemem_bytes", "host_freemem", ints (pos 0) (pos 1_099_511_627_776))
    ∷ []

-- the arguments of one `update_telemetry`, each read from the message; `none` is an OverflowError
unfoldable pub read_metrics : List Metric → Dict Reading → Option (Dict (Option Value))
read_metrics [] message = some []
read_metrics ((attribute, key, range) ∷ metrics) message =
    let rest = read_metrics metrics message in
    elim (safe range (lookup attribute message)) [
      | overflow ↦ none
      | dropped ↦ elim rest [ none ↦ none | some fields ↦ some ((key, none) ∷ fields) ]
      | kept v ↦ elim rest [ none ↦ none | some fields ↦ some ((key, some v) ∷ fields) ]
    ]
