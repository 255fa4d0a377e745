-- ===== src/Tests/PerfMonitor.antt =====
-- Runs of src/utils/perf_monitor.py, and its theorems at concrete inputs.
use meshforge_maps.Base.{ℕ, ◌≡◌, refl, false, some, List, [], ◌∷◌}
use meshforge_maps.Dict.{lookup}
use meshforge_maps.PerfMonitor.{
  Timing, create, record_timing, record_cycle, sorted, insert_sorted, at_index, percentiles,
  round_div, round2,
}
use meshforge_maps.PerfMonitor.Ranks.{Reported, percentiles_rank}
use meshforge_maps.PerfMonitor.Timings.{Call, timing, cycle, run, timings_of}
use meshforge_maps.PerfMonitor.Log.{IsSummary, source-IsSummary}

abbrev took : ℕ → Timing
took ms = record { duration_ms = ms; node_count = 3; from_cache = false; now = 50 }

abbrev calls : List Call
calls =
    timing "mqtt" (took 40) ∷ cycle 90 7 ∷ timing "aredn" (took 5) ∷ timing "mqtt" (took 10) ∷ []

calls_leave : (run (create 0) calls).total_collections ≡ 1
unfolding run create record_timing record_cycle
calls_leave = refl

-- of five samples, the third, the fifth and the fifth in order
five_samples :
    percentiles (9_437_184 ∷ 1_293_000 ∷ 1_299_183 ∷ 1_290_000 ∷ 1_299_200 ∷ [])
    ≡ record { p50_ms = some 124; p90_ms = some 900; p99_ms = some 900 }
unfolding percentiles at_index sorted insert_sorted round_div
five_samples = refl

-- 0.125 and 0.375 milliseconds: halves go to the even hundredth
halves : (round2 131_072 ≡ 12) × (round2 393_216 ≡ 38)
unfolding round_div
halves = (refl, refl)

source-IsSummary_example :
    IsSummary (timings_of "mqtt" calls) (lookup "mqtt" (run (create 0) calls).sources)
source-IsSummary_example = source-IsSummary 0 calls "mqtt"

percentiles_rank_example :
    let samples : List ℕ = 1_299_183 ∷ 1_293_000 ∷ 9_437_184 ∷ [] in
    Reported 50 samples (percentiles samples).p50_ms
    × Reported 90 samples (percentiles samples).p90_ms
    × Reported 99 samples (percentiles samples).p99_ms
percentiles_rank_example = percentiles_rank 1_299_183 (1_293_000 ∷ 9_437_184 ∷ [])
