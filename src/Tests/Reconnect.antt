-- ===== src/Tests/Reconnect.antt =====
-- Runs of src/utils/reconnect.py, and its theorems at concrete inputs.
use meshforge_maps.Base.{ℕ, ◌+◌, ◌≡◌, refl, some, List, [], ◌∷◌, arith, leb, is_some}
use meshforge_maps.Reconnect.{
  ReconnectStrategy, for_collector, for_mqtt, overflows, capped_delay, next_delay, failures,
}
use meshforge_maps.Reconnect.Limits.{failures_borne}

-- no jitter
abbrev still : ℕ → ℕ
still n = 0

abbrev times : List ℕ
times = 10 ∷ 20 ∷ 30 ∷ 40 ∷ []

-- the collector's delays, in hundredths of a millisecond: 1, 2, 4 and 8 seconds
abbrev after_four : ReconnectStrategy
after_four = record for_collector { attempt = 4; total_attempts = 4; last_attempt_time = 40 }

four_delays :
    failures still for_collector times
    ≡ some (after_four, 100_000 ∷ 200_000 ∷ 400_000 ∷ 800_000 ∷ [])
unfolding failures next_delay overflows capped_delay
four_delays = refl

failures_borne_example : is_some (failures still for_mqtt times) ≡ leb (0 + 4) 1024
failures_borne_example = failures_borne still for_mqtt times refl (omega arith)
