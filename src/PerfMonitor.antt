-- ===== src/PerfMonitor.antt =====
-- src/utils/perf_monitor.py: counters, and the percentiles of the last thousand timings of a source.
-- Durations are natural numbers of 2⁻²⁰ milliseconds, which are floats in Python; what is reported is
-- in hundredths of a millisecond: `round(x, 2)` gives the float nearest to the nearest hundredth, the
-- even one of two that are equally near. Sums and differences of floats are taken to be exact.
pub mod Reports
pub mod Ranks
pub mod Timings
pub mod Log
use meshforge_maps.Base.{
  ℕ, zero, suc, ◌+◌, ◌-◌, ◌*◌, ◌/◌, ◌%◌, ◌≤◌, String, Bool, true, false, Option, none, some, List,
  [], ◌∷◌, ltb, leb, ◌==◌, not, if◌then◌else◌, length, push, min, map,
}
use meshforge_maps.Dict.{Dict, lookup, contains, insert}

-- the whole number nearest to a / b, the even one of two that are equally near
unfoldable pub round_div : ℕ → ℕ → ℕ
round_div a b =
    let q = a / b in
    let twice = 2 * (a - q * b) in
    if ltb twice b then q else if ltb b twice then q + 1 else q + q % 2

-- the durations in a millisecond
abbrev pub millisecond : ℕ
millisecond = 1_048_576

-- `round(x, 2)` of a duration, in hundredths
abbrev pub round2 : ℕ → ℕ
round2 duration = round_div (duration * 100) millisecond

abbrev pub sample_window : ℕ
sample_window = 1000

pub record Source : Type 0 where
  pub count : ℕ
  pub total_ms : ℕ
  pub cache_hits : ℕ
  pub total_nodes : ℕ
  pub last_ms : ℕ
  pub last_time : ℕ
  pub min_ms : Option ℕ  -- none is inf
  pub max_ms : ℕ
  pub samples : List ℕ

abbrev pub new_source : Source
new_source = record {
  count = 0;
  total_ms = 0;
  cache_hits = 0;
  total_nodes = 0;
  last_ms = 0;
  last_time = 0;
  min_ms = none;
  max_ms = 0;
  samples = [];
}

pub record Cycle : Type 0 where
  pub count : ℕ
  pub total_ms : ℕ
  pub last_ms : ℕ
  pub total_nodes : ℕ
  pub samples : List ℕ

abbrev pub new_cycle : Cycle
new_cycle = record { count = 0; total_ms = 0; last_ms = 0; total_nodes = 0; samples = [] }

pub record PerfMonitor : Type 0 where
  pub start_time : ℕ
  pub total_collections : ℕ
  pub sources : Dict Source
  pub cycle : Option Cycle

unfoldable pub create : ℕ → PerfMonitor
create now = record { start_time = now; total_collections = 0; sources = []; cycle = none }

-- one timing of a source: its duration, the nodes, whether they are from the cache, and the clock
pub record Timing : Type 0 where
  pub duration_ms : ℕ
  pub node_count : ℕ
  pub from_cache : Bool
  pub now : ℕ

abbrev pub lower : ℕ → Option ℕ → ℕ
lower ms none = ms
lower ms (some least) = if ltb ms least then ms else least

-- the update of a source's entry
unfoldable pub add_timing : Timing → Source → Source
add_timing t s = record {
  count = s.count + 1;
  total_ms = s.total_ms + t.duration_ms;
  cache_hits = if t.from_cache then s.cache_hits + 1 else s.cache_hits;
  total_nodes = s.total_nodes + t.node_count;
  last_ms = t.duration_ms;
  last_time = t.now;
  min_ms = some (lower t.duration_ms s.min_ms);
  max_ms = if ltb s.max_ms t.duration_ms then t.duration_ms else s.max_ms;
  samples = push sample_window s.samples t.duration_ms;
}

abbrev pub source_of : Option Source → Source
source_of none = new_source
source_of (some s) = s

unfoldable pub record_timing : String → Timing → PerfMonitor → PerfMonitor
record_timing source t p = record p {
  sources = insert source (add_timing t (source_of (lookup source p.sources))) p.sources;
}

abbrev pub cycle_of : Option Cycle → Cycle
cycle_of none = new_cycle
cycle_of (some c) = c

unfoldable pub add_cycle : ℕ → ℕ → Cycle → Cycle
add_cycle duration_ms total_nodes c = record {
  count = c.count + 1;
  total_ms = c.total_ms + duration_ms;
  last_ms = duration_ms;
  total_nodes = c.total_nodes + total_nodes;
  samples = push sample_window c.samples duration_ms;
}

unfoldable pub record_cycle : ℕ → ℕ → PerfMonitor → PerfMonitor
record_cycle duration_ms total_nodes p = record p {
  cycle = some (add_cycle duration_ms total_nodes (cycle_of p.cycle));
  total_collections = p.total_collections + 1;
}

-- `TimingContext`: what its `with` records on the way out, an exception or not
pub record TimingContext : Type 0 where
  pub source : String
  pub is_cycle : Bool
  pub start : ℕ
  pub node_count : ℕ
  pub from_cache : Bool

unfoldable pub time_collection : String → ℕ → TimingContext
time_collection source monotonic = record {
  source = source;
  is_cycle = false;
  start = monotonic;
  node_count = 0;
  from_cache = false;
}

unfoldable pub time_cycle : ℕ → TimingContext
time_cycle monotonic = record {
  source = "_cycle";
  is_cycle = true;
  start = monotonic;
  node_count = 0;
  from_cache = false;
}

unfoldable pub exit : TimingContext → ℕ → ℕ → PerfMonitor → PerfMonitor
exit ctx monotonic now p =
    let elapsed_ms = (monotonic - ctx.start) * 1000 in
    if ctx.is_cycle
    then record_cycle elapsed_ms ctx.node_count p
    else record_timing ctx.source
        (record {
          duration_ms = elapsed_ms;
          node_count = ctx.node_count;
          from_cache = ctx.from_cache;
          now = now;
        })
        p

-- `sorted`
unfoldable pub insert_sorted : ℕ → List ℕ → List ℕ
insert_sorted x [] = x ∷ []
insert_sorted x (y ∷ ys) = if leb x y then x ∷ y ∷ ys else y ∷ insert_sorted x ys

unfoldable pub sorted : List ℕ → List ℕ
sorted [] = []
sorted (x ∷ xs) = insert_sorted x (sorted xs)

abbrev pub get_elem? : List ℕ → ℕ → Option ℕ
get_elem? [] i = none
get_elem? (x ∷ xs) zero = some x
get_elem? (x ∷ xs) (suc i) = get_elem? xs i

-- round(sorted_s[i], 2); an index out of range would raise
unfoldable pub at_index : List ℕ → ℕ → Option ℕ
at_index samples i = elim (get_elem? (sorted samples) i) [ none ↦ none | some v ↦ some (round2 v) ]

pub record Percentiles : Type 0 where
  pub p50_ms : Option ℕ
  pub p90_ms : Option ℕ
  pub p99_ms : Option ℕ

-- the three values; `none` would be an IndexError
unfoldable pub percentiles : List ℕ → Percentiles
percentiles [] = record { p50_ms = some 0; p90_ms = some 0; p99_ms = some 0 }
percentiles samples =
    let n = length samples in
    record {
      p50_ms = at_index samples (n * 50 / 100);
      p90_ms = at_index samples (min (n * 90 / 100) (n - 1));
      p99_ms = at_index samples (min (n * 99 / 100) (n - 1));
    }
