-- ===== src/MqttSubscriber/Metrics.antt =====
-- src/collectors/mqtt_subscriber.py: `_safe_int` and `_safe_float` bound what telemetry is stored.
use mathlib.Core.Path.{subst}
use meshforge_maps.Base.{
  ◌≡◌, refl, sym, ◌∙◌, String, Option, none, some, List, [], ◌∷◌, ◌++◌, arith, ◌&&◌, All,
  Bool-cases, inl, inr, str_eq, str_eq_iff,
}
use meshforge_maps.Int.{ℤ, pos, ◌≤ℤ◌, leb_ℤ}
use meshforge_maps.Float.{Float, finite, plus_inf, minus_inf, nan}
use meshforge_maps.Dict.{Dict, lookup, insert, lookup-insert}
use meshforge_maps.Geo.{scale, degree}
use meshforge_maps.NodeStore.{Value, int, float, add_fields}
use meshforge_maps.MqttSubscriber.{
  Reading, whole, real, Safe, kept, dropped, overflow, keep_float, safe_float, keep_int, safe_int,
  Range, ints, floats, as_value, safe, Metric, device_metrics, environment_metrics,
  air_quality_metrics, health_metrics, power_metrics, local_stats, host_metrics, read_metrics,
  to_real, truncate,
}

-- The value is of the range's kind and within its bounds: a float is finite, in units of 10⁻⁷.
abbrev pub InRange : Range → Value → Type 0
InRange (ints low high) (int n) = (low ≤ℤ n) × (n ≤ℤ high)
InRange (floats low high) (float (finite x)) = (scale low degree ≤ℤ x) × (x ≤ℤ scale high degree)
InRange _ _ = ⊥

keep_int-InRange : (low high v n : ℤ) → keep_int low high v ≡ kept n → (low ≤ℤ n) × (n ≤ℤ high)
unfolding keep_int
keep_int-InRange low high v n e = ground arith

pub safe_int-InRange :
    (low high : ℤ) (reading : Option Reading) (n : ℤ)
    → safe_int low high reading ≡ kept n
    → (low ≤ℤ n) × (n ≤ℤ high)
unfolding safe_int
safe_int-InRange low high none n e = absurd (cc)
safe_int-InRange low high (some (whole v)) n e = keep_int-InRange low high v n e
safe_int-InRange low high (some (real (finite x))) n e = keep_int-InRange low high (truncate x) n e
safe_int-InRange low high (some (real plus_inf)) n e = absurd (cc)
safe_int-InRange low high (some (real minus_inf)) n e = absurd (cc)
safe_int-InRange low high (some (real nan)) n e = absurd (cc)

keep_float-InRange :
    (low high : ℤ) (v x : Float)
    → keep_float (to_real low) (to_real high) v ≡ kept x
    → InRange (floats low high) (float x)
unfolding keep_float
keep_float-InRange low high (finite a) x e =
    elim (Bool-cases (leb_ℤ (scale low degree) a && leb_ℤ a (scale high degree))) [
      | inl inside ↦ let same : finite a ≡ x = ground (arith, e) in rw (← same) (ground arith)
      | inr outside ↦ absurd (ground (arith, e))
    ]
keep_float-InRange low high plus_inf x e = absurd (cc)
keep_float-InRange low high minus_inf x e = absurd (cc)
keep_float-InRange low high nan x e = absurd (cc)

safe_float-InRange :
    (low high : ℤ) (reading : Option Reading) (x : Float)
    → safe_float (to_real low) (to_real high) reading ≡ kept x
    → InRange (floats low high) (float x)
unfolding safe_float
safe_float-InRange low high none x e = absurd (cc)
safe_float-InRange low high (some (whole v)) x e = keep_float-InRange low high (to_real v) x e
safe_float-InRange low high (some (real v)) x e = keep_float-InRange low high v x e

as_value-kept :
    {A : Type 0} (f : A → Value) (s : Safe A) (v : Value)
    → as_value f s ≡ kept v
    → (a : A) × (s ≡ kept a) × (f a ≡ v)
as_value-kept f (kept a) v e = (a, refl, cc)
as_value-kept f dropped v e = absurd (cc)
as_value-kept f overflow v e = absurd (cc)

pub safe-InRange :
    (range : Range) (reading : Option Reading) (v : Value)
    → safe range reading ≡ kept v
    → InRange range v
unfolding safe
safe-InRange (ints low high) reading v e =
    let (n, s, same) = as_value-kept int (safe_int low high reading) v e in
    rw (← same) (safe_int-InRange low high reading n s)
safe-InRange (floats low high) reading v e =
    let (x, s, same) = as_value-kept float (safe_float (to_real low) (to_real high) reading) v e in
    rw (← same) (safe_float-InRange low high reading x s)

-- the keys of the metrics, with their ranges
abbrev pub ranges_of : List Metric → Dict Range
ranges_of [] = []
ranges_of ((attribute, key, range) ∷ metrics) = (key, range) ∷ ranges_of metrics

abbrev pub ranges : Dict Range
ranges =
    ranges_of device_metrics
    ++ ranges_of environment_metrics
    ++ ranges_of air_quality_metrics
    ++ ranges_of health_metrics
    ++ ranges_of power_metrics
    ++ ranges_of local_stats
    ++ ranges_of host_metrics
    ++ ("num_online_local_nodes", ints (pos 0) (pos 100_000)) ∷ []

-- A value that is stored under the key of a metric is in its range.
abbrev pub Fits : Option Range → Value → Type 0
Fits none v = Unit
Fits (some range) v = InRange range v

abbrev pub Measured : Dict Value → Type 0
Measured d = (key : String) (v : Value) → lookup key d ≡ some v → Fits (lookup key ranges) v

abbrev pub FieldFits : String × Option Value → Type 0
FieldFits (key, none) = Unit
FieldFits (key, some v) = Fits (lookup key ranges) v

insert-Measured :
    (key : String) (v : Value) (d : Dict Value)
    → Fits (lookup key ranges) v
    → Measured d
    → Measured (insert key v d)
insert-Measured key v d fits m j w e = elim (Bool-cases (str_eq key j)) [
  | inl same ↦
      let named : key ≡ j = (str_eq_iff key j).0 same in
      let held : v ≡ w = ground (arith, e, same, lookup-insert key j v d) in
      rw (← named, ← held) fits
  | inr other ↦ m j w (ground (arith, e, other, lookup-insert key j v d))
]

pub add_fields-Measured :
    (fields : Dict (Option Value)) (d : Dict Value)
    → All FieldFits fields
    → Measured d
    → Measured (add_fields fields d)
unfolding add_fields
add_fields-Measured [] d f m = m
add_fields-Measured ((key, none) ∷ fields) d f m = add_fields-Measured fields d f.1 m
add_fields-Measured ((key, some v) ∷ fields) d f m =
    add_fields-Measured fields (insert key v d) f.1 (insert-Measured key v d f.0 m)

-- each key of the table has the range that the table gives it
abbrev pub IsTable : List Metric → Type 0
IsTable [] = Unit
IsTable ((attribute, key, range) ∷ metrics) = (lookup key ranges ≡ some range) × IsTable metrics

-- what a table reads from a message, on an outcome of the first metric and of the rest
abbrev with_field :
    String → Safe Value → Option (Dict (Option Value)) → Option (Dict (Option Value))
with_field key overflow rest = none
with_field key dropped none = none
with_field key dropped (some fields) = some ((key, none) ∷ fields)
with_field key (kept v) none = none
with_field key (kept v) (some fields) = some ((key, some v) ∷ fields)

read_metrics-cons :
    (attribute key : String) (range : Range) (metrics : List Metric) (message : Dict Reading)
    → read_metrics ((attribute, key, range) ∷ metrics) message
      ≡ with_field key (safe range (lookup attribute message)) (read_metrics metrics message)
unfolding read_metrics
read_metrics-cons attribute key range metrics message = ground arith

with_field-fits :
    (key : String) (range : Range) (s : Safe Value) (rest : Option (Dict (Option Value)))
    (fields : Dict (Option Value))
    → lookup key ranges ≡ some range
    → ((v : Value) → s ≡ kept v → InRange range v)
    → ((fields' : Dict (Option Value)) → rest ≡ some fields' → All FieldFits fields')
    → with_field key s rest ≡ some fields
    → All FieldFits fields
with_field-fits key range overflow rest fields known fits tail e = absurd (cc)
with_field-fits key range dropped none fields known fits tail e = absurd (cc)
with_field-fits key range dropped (some fields') fields known fits tail e =
    let same : (key, none) ∷ fields' ≡ fields = cc in
    subst (All FieldFits) same (tt, tail fields' refl)
with_field-fits key range (kept v) none fields known fits tail e = absurd (cc)
with_field-fits key range (kept v) (some fields') fields known fits tail e =
    let same : (key, some v) ∷ fields' ≡ fields = cc in
    subst (All FieldFits) same (rw known (fits v refl), tail fields' refl)

pub read_metrics-fits :
    (metrics : List Metric) (message : Dict Reading) (fields : Dict (Option Value))
    → IsTable metrics
    → read_metrics metrics message ≡ some fields
    → All FieldFits fields
unfolding read_metrics
read_metrics-fits [] message fields t e =
    let same : [] ≡ fields = cc in subst (All FieldFits) same tt
read_metrics-fits ((attribute, key, range) ∷ metrics) message fields t e =
    with_field-fits key range (safe range (lookup attribute message)) (read_metrics metrics message)
      fields t.0 (safe-InRange range (lookup attribute message))
      (λ fields' e'. read_metrics-fits metrics message fields' t.1 e')
      (sym (read_metrics-cons attribute key range metrics message) ∙ e)

-- Each table agrees with the ranges of all the keys: no key has two ranges.
pub device_metrics-IsTable : IsTable device_metrics
unfolding lookup
device_metrics-IsTable = (refl, (refl, (refl, (refl, tt))))

pub environment_metrics-IsTable : IsTable environment_metrics
unfolding lookup
environment_metrics-IsTable = (
  refl,
  (
    refl,
    (
      refl,
      (
        refl,
        (
          refl,
          (
            refl,
            (refl, (refl, (refl, (refl, (refl, (refl, (refl, (refl, (refl, (refl, tt)))))))))),
          ),
        ),
      ),
    ),
  ),
)

pub air_quality_metrics-IsTable : IsTable air_quality_metrics
unfolding lookup
air_quality_metrics-IsTable =
    (refl, (refl, (refl, (refl, (refl, (refl, (refl, (refl, (refl, tt)))))))))

pub health_metrics-IsTable : IsTable health_metrics
unfolding lookup
health_metrics-IsTable = (refl, (refl, (refl, tt)))

pub power_metrics-IsTable : IsTable power_metrics
unfolding lookup
power_metrics-IsTable = (refl, (refl, (refl, (refl, (refl, (refl, tt))))))

pub local_stats-IsTable : IsTable local_stats
unfolding lookup
local_stats-IsTable = (refl, (refl, (refl, (refl, (refl, (refl, (refl, tt)))))))

pub host_metrics-IsTable : IsTable host_metrics
unfolding lookup
host_metrics-IsTable = (refl, (refl, tt))
