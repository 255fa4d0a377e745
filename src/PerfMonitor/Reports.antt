-- ===== src/PerfMonitor/Reports.antt =====
-- src/utils/perf_monitor.py: the reports of a source and of the cycles.
use meshforge_maps.Base.{ℕ, ◌*◌, String, Option, none, some, [], ◌∷◌, ◌==◌, if◌then◌else◌}
use meshforge_maps.Dict.{Dict, lookup}
use meshforge_maps.PerfMonitor.{
  Source, Cycle, PerfMonitor, Percentiles, percentiles, round_div, round2, millisecond,
}

pub record Report : Type 0 where
  pub source : String
  pub count : ℕ
  pub avg_ms : ℕ
  pub min_ms : ℕ
  pub max_ms : ℕ
  pub last_duration_ms : ℕ
  pub last_timestamp : ℕ
  pub cache_hit_ratio : ℕ  -- in thousandths
  pub total_nodes_collected : ℕ
  pub pct : Percentiles

pub record CycleReport : Type 0 where
  pub count : ℕ
  pub avg_ms : ℕ
  pub last_duration_ms : ℕ
  pub total_nodes_collected : ℕ
  pub pct : Percentiles

-- `round(total / count, 2)` of a sum of durations, in hundredths
abbrev pub round_mean : ℕ → ℕ → ℕ
round_mean total count = round_div (total * 100) (count * millisecond)

-- `round(part / count, 3)`, in thousandths
abbrev pub round_ratio : ℕ → ℕ → ℕ
round_ratio part count = round_div (part * 1000) count

-- `_format_source`
unfoldable pub format_source : String → Source → Report
format_source name s = record {
  source = name;
  count = s.count;
  avg_ms = if s.count == 0 then 0 else round_mean s.total_ms s.count;
  min_ms = elim s.min_ms [ none ↦ 0 | some ms ↦ round2 ms ];
  max_ms = round2 s.max_ms;
  last_duration_ms = round2 s.last_ms;
  last_timestamp = s.last_time;
  cache_hit_ratio = if s.count == 0 then 0 else round_ratio s.cache_hits s.count;
  total_nodes_collected = s.total_nodes;
  pct = percentiles s.samples;
}

unfoldable pub get_source_stats : String → PerfMonitor → Option Report
get_source_stats source p = elim (lookup source p.sources) [
  | none ↦ none
  | some s ↦ some (format_source source s)
]

abbrev pub format_all : Dict Source → Dict Report
format_all [] = []
format_all ((name, s) ∷ sources) = (name, format_source name s) ∷ format_all sources

-- the statistics of the cycles, if there was one
unfoldable pub cycle_stats : Option Cycle → Option CycleReport
cycle_stats none = none
cycle_stats (some c) =
    if c.count == 0
    then none
    else some (record {
      count = c.count;
      avg_ms = round_mean c.total_ms c.count;
      last_duration_ms = round2 c.last_ms;
      total_nodes_collected = c.total_nodes;
      pct = percentiles c.samples;
    })

-- `get_stats`: the number of cycles, the sources and the cycles
unfoldable pub get_stats : PerfMonitor → ℕ × Dict Report × Option CycleReport
get_stats p = (p.total_collections, format_all p.sources, cycle_stats p.cycle)
