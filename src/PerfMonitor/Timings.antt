-- ===== src/PerfMonitor/Timings.antt =====
-- src/utils/perf_monitor.py: the calls of a monitor, and what the entry of a source says of its timings.
use meshforge_maps.Base.{
  ℕ, ◌+◌, ◌-◌, ◌≤◌, ◌<◌, ◌≡◌, String, some, List, [], ◌∷◌, str_eq, if◌then◌else◌, length, drop, map,
  count, All, ◌==◌,
}
use meshforge_maps.PerfMonitor.{
  Source, Timing, PerfMonitor, sample_window, record_timing, record_cycle,
}

pub data Call : Type 0 where
  timing : String → Timing → Call
  cycle : ℕ → ℕ → Call

unfoldable pub run : PerfMonitor → List Call → PerfMonitor
run p [] = p
run p (timing source t ∷ calls) = run (record_timing source t p) calls
run p (cycle duration_ms total_nodes ∷ calls) = run (record_cycle duration_ms total_nodes p) calls

-- the timings of a source
abbrev pub timings_of : String → List Call → List Timing
timings_of source [] = []
timings_of source (timing name t ∷ calls) =
    let rest = timings_of source calls in if str_eq name source then t ∷ rest else rest
timings_of source (cycle duration_ms total_nodes ∷ calls) = timings_of source calls

abbrev pub sum_of : (Timing → ℕ) → List Timing → ℕ
sum_of f [] = 0
sum_of f (t ∷ ts) = f t + sum_of f ts

abbrev pub last_of : Timing → List Timing → Timing
last_of t [] = t
last_of t (u ∷ ts) = last_of u ts

-- What the entry of a source says of its timings, of which there is one at least: how many there were,
-- the sums, the extremes, the last one, and the durations of the last thousand in their order.
pub record Describes (first : Timing) (rest : List Timing) (s : Source) : Type 0 where
  pub counted : s.count ≡ length (first ∷ rest)
  pub total : s.total_ms ≡ sum_of (λ t. t.duration_ms) (first ∷ rest)
  pub hits : s.cache_hits ≡ count (λ (t : Timing). t.from_cache) (first ∷ rest)
  pub nodes : s.total_nodes ≡ sum_of (λ t. t.node_count) (first ∷ rest)
  pub last : s.last_ms ≡ (last_of first rest).duration_ms
  pub time : s.last_time ≡ (last_of first rest).now
  pub least : ℕ
  pub least_lem : s.min_ms ≡ some least
  pub above : All (λ (t : Timing). least ≤ t.duration_ms) (first ∷ rest)
  pub attained : 0 < count (λ (t : Timing). t.duration_ms == least) (first ∷ rest)
  pub below : All (λ (t : Timing). t.duration_ms ≤ s.max_ms) (first ∷ rest)
  pub reached : 0 < count (λ (t : Timing). t.duration_ms == s.max_ms) (first ∷ rest)
  pub kept :
      s.samples
      ≡ drop (length (first ∷ rest) - sample_window) (map (λ t. t.duration_ms) (first ∷ rest))
