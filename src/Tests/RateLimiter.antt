-- ===== src/Tests/RateLimiter.antt =====
-- Runs of src/utils/rate_limiter.py, and its theorems at concrete inputs.
use meshforge_maps.Base.{ℕ, ◌+◌, ◌-◌, ◌*◌, ◌≡◌, refl, true, false, none, some, List, [], ◌∷◌, arith}
use meshforge_maps.Int.{pos, ◌≤ℤ◌, ◌+ℤ◌, ◌-ℤ◌}
use meshforge_maps.Dict.{lookup, insert}
use meshforge_maps.RateLimiter.{
  second, token, RateLimiter, create, prune, make_room, refill, balance, retry_after, store, spend,
  allow,
}
use meshforge_maps.RateLimiter.Bounds.{IsValid}
use meshforge_maps.RateLimiter.Promise.{retry_after_suffices}
use meshforge_maps.RateLimiter.Simulation.{Request, spec_serve, serve}
use meshforge_maps.RateLimiter.Refinement.{spec_start, serve-refines, create-Simulates}
use meshforge_maps.RateLimiter.Window.{granted, granted_bounded}

-- a limiter of two requests a minute, for three addresses
abbrev fresh : RateLimiter
fresh = record { requests_per_minute = 2; max_buckets = 3; buckets = []; last_prune = 0 }

abbrev start : ℕ
start = 5

-- after two requests in a row the bucket of "a" is empty
abbrev drained : RateLimiter
drained = record fresh { buckets = ("a", record { tokens = pos 0; last = 5 }) ∷ [] }

create_runs : create (pos 2) (pos 3) 0 ≡ some fresh
unfolding create
create_runs = refl

create_refuses : create (pos 0) (pos 3) 0 ≡ none
unfolding create
create_refuses = refl

drained_runs : (allow (allow fresh 5 "a").0 5 "a").0 ≡ drained
unfolding allow spend store balance refill prune make_room lookup insert ◌+ℤ◌ ◌-ℤ◌
drained_runs = refl

-- the third request is refused, and told 31 seconds although the token is back after 30
refused_runs : (allow drained 5 "a").1 ≡ false
unfolding allow spend store balance refill prune make_room lookup insert ◌+ℤ◌ ◌-ℤ◌
refused_runs = refl

wait_runs : (allow drained 5 "a").2 ≡ 31
unfolding allow spend store balance refill prune make_room lookup insert retry_after ◌+ℤ◌ ◌-ℤ◌
wait_runs = refl

drained-IsValid : IsValid drained
drained-IsValid = record {
  rate_pos = omega arith;
  room = omega arith;
  distinct = (unfold lookup in refl, tt);
  bounded = omega arith;
  capped = (omega arith, tt);
}

retry_after_suffices_example :
    (allow (allow drained 5 "a").0 (5 + (allow drained 5 "a").2 * second) "a").1 ≡ true
retry_after_suffices_example = retry_after_suffices drained 5 "a" drained-IsValid refused_runs

abbrev requests : List Request
requests = (5, "a") ∷ (6, "a") ∷ (6, "b") ∷ []

serve-refines_example : serve fresh requests ≡ spec_serve (spec_start 2 0) requests
serve-refines_example =
    serve-refines 0 fresh (spec_start 2 0) requests (create-Simulates (pos 2) (pos 3) 0 create_runs)
      (omega arith) (omega arith)

granted_bounded_example :
    pos (granted "a" requests (serve fresh requests) * token)
    ≤ℤ balance fresh 0 "a" +ℤ pos ((9 - 0) * 2)
granted_bounded_example =
    granted_bounded 0 9 fresh (spec_start 2 0) "a" requests
      (create-Simulates (pos 2) (pos 3) 0 create_runs) (omega arith) (omega arith) (omega arith)
