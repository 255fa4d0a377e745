-- ===== src/RateLimiter.antt =====
-- src/utils/rate_limiter.py: the per-IP token bucket of the HTTP server.
-- `time.monotonic()` is a count of nanoseconds. A token is cut into 60·10⁹ parts, so that a bucket
-- of `requests_per_minute` refills by exactly that many parts in a nanosecond, and no rounding is
-- left; the source's floats stand for the same quantities. `now` is the clock value that the caller
-- read: it may lie behind the `last` of a bucket when two threads take the lock the other way round,
-- so that a refill is a signed quantity.
pub mod Bounds
pub mod Pruning
pub mod Simulation
pub mod Refinement
pub mod Promise
pub mod Window
use meshforge_maps.Base.{
  ℕ, suc, ◌+◌, ◌-◌, ◌*◌, ◌/◌, String, Bool, true, false, Option, none, some, [], ◌∷◌, max, ltb, leb,
  not, ◌&&◌, ◌||◌, if◌then◌else◌, length, get_or,
}
use meshforge_maps.Int.{ℤ, pos, negsuc, pos_part, ◌+ℤ◌, ◌-ℤ◌, sub_ℕ, leb_ℤ, ltb_ℤ, min_ℤ, max_ℤ}
use meshforge_maps.Dict.{Dict, lookup, contains, insert}
use meshforge_maps.Dict.Evict.{evict}

-- nanoseconds in a second
abbrev pub second : ℕ
second = 1_000_000_000

-- parts of one token
abbrev pub token : ℕ
token = 60_000_000_000

abbrev pub prune_idle : ℕ
prune_idle = 600 * second

pub record Bucket : Type 0 where
  pub tokens : ℤ
  pub last : ℕ

pub record RateLimiter : Type 0 where
  pub requests_per_minute : ℕ
  pub max_buckets : ℕ
  pub buckets : Dict Bucket
  pub last_prune : ℕ

-- `RateLimiter(requests_per_minute, max_buckets)`; `none` is the `ValueError`
unfoldable pub create : ℤ → ℤ → ℕ → Option RateLimiter
create rate bound now =
    if leb_ℤ rate (pos 0)
    then none
    else some (record {
      requests_per_minute = pos_part rate;
      max_buckets = pos_part (max_ℤ (pos 1) bound);
      buckets = [];
      last_prune = now;
    })

abbrev pub capacity : RateLimiter → ℤ
capacity r = pos (r.requests_per_minute * token)

-- now - last > _PRUNE_IDLE_SECONDS
abbrev pub is_idle : ℕ → Bucket → Bool
is_idle now b = ltb (b.last + prune_idle) now

unfoldable pub drop_idle : ℕ → Dict Bucket → Dict Bucket
drop_idle now [] = []
drop_idle now ((ip, b) ∷ d) =
    let rest = drop_idle now d in if is_idle now b then rest else (ip, b) ∷ rest

-- `_prune_locked`
unfoldable pub prune : ℕ → Bool → RateLimiter → RateLimiter
prune now force r =
    if not force && ltb now (r.last_prune + prune_idle)
    then r
    else record r { last_prune = now; buckets = drop_idle now r.buckets }

-- the eviction at the head of `allow`, if pruning alone has not made room
unfoldable pub evict_if_full : RateLimiter → RateLimiter
evict_if_full r =
    if leb r.max_buckets (length r.buckets)
    then record r { buckets = evict (λ (b : Bucket). b.last) r.buckets }
    else r

unfoldable pub make_room : ℕ → String → RateLimiter → RateLimiter
make_room now ip r =
    if not (contains ip r.buckets) && leb r.max_buckets (length r.buckets)
    then evict_if_full (prune now true r)
    else r

-- min(capacity, tokens + (now - last) * refill_per_second)
unfoldable pub refill : ℕ → ℕ → Bucket → ℤ
refill rate now b = min_ℤ (pos (rate * token)) (b.tokens +ℤ sub_ℕ (now * rate) (b.last * rate))

-- what `ip` has to spend at `now`; an unknown address starts with a full bucket
unfoldable pub balance : RateLimiter → ℕ → String → ℤ
balance r now ip =
    refill r.requests_per_minute now
      (get_or (lookup ip r.buckets) (record { tokens = capacity r; last = now }))

-- max(1, int((1.0 - tokens) / self._refill_per_second) + 1): a nanosecond brings `rate` parts.
-- It is read for `tokens` below one token, where the quotient is not negative.
unfoldable pub retry_after : ℕ → ℤ → ℕ
retry_after rate tokens = max 1 (pos_part (pos token -ℤ tokens) / (rate * second) + 1)

unfoldable pub store : String → ℤ → ℕ → RateLimiter → RateLimiter
store ip tokens now r = record r {
  buckets = insert ip (record { tokens = tokens; last = now }) r.buckets;
}

-- the part of `allow` that spends the refilled `tokens`
unfoldable pub spend : RateLimiter → ℕ → String → ℤ → RateLimiter × Bool × ℕ
spend r now ip tokens =
    if leb_ℤ (pos token) tokens
    then (prune now false (store ip (tokens -ℤ pos token) now r), true, 0)
    else (prune now false (store ip tokens now r), false, retry_after r.requests_per_minute tokens)

unfoldable pub allow : RateLimiter → ℕ → String → RateLimiter × Bool × ℕ
allow r now ip = let r' = make_room now ip r in spend r' now ip (balance r' now ip)
