-- ===== src/Reconnect.antt =====
-- src/utils/reconnect.py: exponential backoff with jitter.
-- Delays are counted in milliseconds, and in hundredths of one once the jitter is in; the multiplier
-- is a whole number, as in every strategy of the program, and the jitter factor is in hundredths.
-- `uniform` is `random.uniform(0, ·)`, a parameter, and `now` the clock value of the call. Python's
-- power of floats raises `OverflowError` where the result rounds to 2¹⁰²⁴ or more: then there is no
-- delay, and nothing is written. Products that pass the range of a float become infinite there, and
-- the minimum with `max_delay` is the same.
pub mod Delays
pub mod Limits
use meshforge_maps.Base.{
  ℕ, zero, suc, ◌+◌, ◌-◌, ◌*◌, ◌^◌, ◌≤◌, min, Bool, true, false, Option, none, some, List, [], ◌∷◌,
  ltb, leb, if◌then◌else◌,
}

pub record ReconnectStrategy : Type 0 where
  pub base_delay : ℕ
  pub max_delay : ℕ
  pub multiplier : ℕ
  pub jitter_factor : ℕ
  pub max_retries : Option ℕ
  pub attempt : ℕ
  pub total_attempts : ℕ
  pub last_attempt_time : ℕ

abbrev pub create : ℕ → ℕ → ℕ → ℕ → Option ℕ → ReconnectStrategy
create base_delay max_delay multiplier jitter_factor max_retries = record {
  base_delay = base_delay;
  max_delay = max_delay;
  multiplier = multiplier;
  jitter_factor = jitter_factor;
  max_retries = max_retries;
  attempt = 0;
  total_attempts = 0;
  last_attempt_time = 0;
}

abbrev pub for_mqtt : ReconnectStrategy
for_mqtt = create 2000 120_000 2 25 none

abbrev pub for_websocket : ReconnectStrategy
for_websocket = create 2000 30_000 2 20 none

abbrev pub for_collector : ReconnectStrategy
for_collector = create 1000 10_000 2 15 (some 3)

-- the least number that rounds to 2¹⁰²⁴
abbrev pub float_limit : ℕ
float_limit = 2 ^ 1024 - 2 ^ 970

-- `self._multiplier ** self._attempt` raises
unfoldable pub overflows : ReconnectStrategy → Bool
overflows r = leb float_limit (r.multiplier ^ r.attempt)

-- the delay without jitter
unfoldable pub capped_delay : ReconnectStrategy → ℕ
capped_delay r = min (r.base_delay * r.multiplier ^ r.attempt) r.max_delay

abbrev pub count_attempt : ℕ → ReconnectStrategy → ReconnectStrategy
count_attempt now r = record r {
  attempt = r.attempt + 1;
  total_attempts = r.total_attempts + 1;
  last_attempt_time = now;
}

-- `next_delay`, and `wait`, which sleeps for what it gives
unfoldable pub next_delay : (ℕ → ℕ) → ℕ → ReconnectStrategy → Option (ReconnectStrategy × ℕ)
next_delay uniform now r =
    if overflows r
    then none
    else some
        (count_attempt now r, capped_delay r * 100 + uniform (capped_delay r * r.jitter_factor))

unfoldable pub should_retry : ReconnectStrategy → Bool
should_retry r = elim r.max_retries [ none ↦ true | some bound ↦ ltb r.attempt bound ]

unfoldable pub reset : ReconnectStrategy → ReconnectStrategy
reset r = record r { attempt = 0 }

-- a run of failures, each with the time at which it is met: the delays, until one raises
unfoldable pub failures : (ℕ → ℕ) → ReconnectStrategy → List ℕ → Option (ReconnectStrategy × List ℕ)
failures uniform r [] = some (r, [])
failures uniform r (now ∷ times) = elim (next_delay uniform now r) [
  | none ↦ none
  | some (r', delay) ↦ elim (failures uniform r' times) [
    | none ↦ none
    | some (r'', delays) ↦ some (r'', delay ∷ delays)
  ]
]
