-- ===== src/RateLimiter/Promise.antt =====
-- src/utils/rate_limiter.py, the second half of `allow`'s answer: what `Retry-After` promises.
use native.Mathlib.Nat.{lt-mul-div-succ, mul-div_cancel, mul-div-le, mul-lt-mul_of_pos_left}
use meshforge_maps.Base.{
  ℕ, ◌+◌, ◌-◌, ◌*◌, ◌/◌, ◌≤◌, ◌<◌, ◌≡◌, refl, ◌∙◌, ap, String, true, false, some, arith, str_eq_iff,
  max,
}
use meshforge_maps.Int.{
  ℤ, pos, pos_part, neg_part, ◌≤ℤ◌, ◌<ℤ◌, ◌+ℤ◌, ◌-ℤ◌, sub_ℕ, leb_ℤ, min_ℤ, -ℤ_parts, +ℤ_parts,
  parts_exclusive,
}
use meshforge_maps.Dict.{lookup, insert, lookup-insert, IsDistinct-insert}
use meshforge_maps.RateLimiter.Pruning.{lookup-drop_idle_lem}
use meshforge_maps.RateLimiter.{
  token, second, Bucket, RateLimiter, make_room, refill, balance, store, retry_after, spend, allow,
  prune, evict_if_full,
}
use meshforge_maps.RateLimiter.Bounds.{IsValid, make_room-IsValid}

-- the parts that are missing to one token
abbrev missing : ℤ → ℕ
missing tokens = pos_part (pos token -ℤ tokens)

gain : (now k rate : ℕ) → sub_ℕ ((now + k) * rate) (now * rate) ≡ pos (k * rate)
gain now k rate =
    let split : (now + k) * rate ≡ now * rate + k * rate = omega arith in rw split (ground arith)

-- the balance after `w` seconds of waiting
refill_later :
    (rate now w : ℕ) (tokens : ℤ)
    → refill rate (now + w * second) (record { tokens = tokens; last = now })
      ≡ min_ℤ (pos (rate * token)) (tokens +ℤ pos (w * second * rate))
unfolding refill
refill_later rate now w tokens = rw (gain now (w * second) rate)

refill_enough :
    (rate now w : ℕ) (tokens : ℤ)
    → 0 < rate
    → missing tokens ≤ rate * second * w
    → pos token ≤ℤ refill rate (now + w * second) (record { tokens = tokens; last = now })
refill_enough rate now w tokens some_rate enough =
    rw refill_later
      (ground (arith, -ℤ_parts (pos token) tokens, +ℤ_parts tokens (pos (w * second * rate))))

refill_short :
    (rate now w : ℕ) (tokens : ℤ)
    → rate * second * w < missing tokens
    → refill rate (now + w * second) (record { tokens = tokens; last = now }) <ℤ pos token
refill_short rate now w tokens short =
    rw refill_later
      (ground (arith, -ℤ_parts (pos token) tokens, +ℤ_parts tokens (pos (w * second * rate))))

retry_after_bounds :
    (rate : ℕ) (tokens : ℤ)
    → 0 < rate
    → (missing tokens < rate * second * retry_after rate tokens)
      × (rate * second * (retry_after rate tokens - 1) ≤ missing tokens)
unfolding retry_after
retry_after_bounds rate tokens some_rate =
    let q = missing tokens / (rate * second) in
    let one_more : max 1 (q + 1) ≡ q + 1 = omega arith in
    let back : q + 1 - 1 ≡ q = omega arith in
    rw (one_more, back)
      (lt-mul-div-succ (missing tokens) (omega arith), mul-div-le (missing tokens) (rate * second))

-- a bucket that was just written is kept, and found again
lookup-prune_fresh :
    (now : ℕ) (ip : String) (tokens : ℤ) (r : RateLimiter)
    → IsValid r
    → lookup ip (prune now false (store ip tokens now r)).buckets
      ≡ some (record { tokens = tokens; last = now })
unfolding prune store
lookup-prune_fresh now ip tokens r v = ground (
  arith,
  lookup-insert ip ip (record { tokens = tokens; last = now }) r.buckets,
  str_eq_iff ip ip,
  lookup-drop_idle_lem now ip (insert ip (record { tokens = tokens; last = now }) r.buckets)
      (IsDistinct-insert ip _ r.buckets v.distinct),
)

make_room_known :
    (now : ℕ) (ip : String) (r : RateLimiter) {b : Bucket}
    → lookup ip r.buckets ≡ some b
    → make_room now ip r ≡ r
unfolding make_room
make_room_known now ip r known = rw known

-- The decision on an address whose bucket is known.
allow_known :
    (now : ℕ) (ip : String) (r : RateLimiter) (b : Bucket)
    → lookup ip r.buckets ≡ some b
    → (allow r now ip).1 ≡ leb_ℤ (pos token) (refill r.requests_per_minute now b)
unfolding allow spend balance
allow_known now ip r b known = rw (make_room_known now ip r known, known) (ground arith)

rate-make_room :
    (now : ℕ) (ip : String) (r : RateLimiter)
    → (make_room now ip r).requests_per_minute ≡ r.requests_per_minute
unfolding make_room evict_if_full prune
rate-make_room now ip r = ground arith

rate-prune-store :
    (now : ℕ) (ip : String) (tokens : ℤ) (r : RateLimiter)
    → (prune now false (store ip tokens now r)).requests_per_minute ≡ r.requests_per_minute
unfolding prune store
rate-prune-store now ip tokens r = ground arith

spend_refused :
    (r : RateLimiter) (now : ℕ) (ip : String) (tokens : ℤ)
    → (spend r now ip tokens).1 ≡ false
    → (leb_ℤ (pos token) tokens ≡ false)
      × ((spend r now ip tokens).0 ≡ prune now false (store ip tokens now r))
      × ((spend r now ip tokens).2 ≡ retry_after r.requests_per_minute tokens)
unfolding spend
spend_refused r now ip tokens h = ground arith

-- the decision on a second request, `w` seconds after a refusal
second_try :
    (r : RateLimiter) (now w : ℕ) (ip : String) (tokens : ℤ)
    → IsValid r
    → (allow (prune now false (store ip tokens now r)) (now + w * second) ip).1
      ≡ leb_ℤ
          (pos token)
          (refill r.requests_per_minute (now + w * second) (record { tokens = tokens; last = now }))
second_try r now w ip tokens v =
    allow_known (now + w * second) ip _ _ (lookup-prune_fresh now ip tokens r v)
    ∙ ap
        (λ rate.
          leb_ℤ (pos token)
            (refill rate (now + w * second) (record { tokens = tokens; last = now })))
        (rate-prune-store now ip tokens r)

promise_kept :
    (r : RateLimiter) (now : ℕ) (ip : String) (tokens : ℤ)
    → IsValid r
    → (spend r now ip tokens).1 ≡ false
    → (allow (spend r now ip tokens).0 (now + (spend r now ip tokens).2 * second) ip).1 ≡ true
promise_kept r now ip tokens v refused =
    let (low, state, wait) = spend_refused r now ip tokens refused in
    let enough = retry_after_bounds r.requests_per_minute tokens v.rate_pos in
    rw (state, wait, second_try r now (retry_after r.requests_per_minute tokens) ip tokens v)
      (ground (
        arith,
        refill_enough r.requests_per_minute now (retry_after r.requests_per_minute tokens) tokens
            v.rate_pos (omega (arith, enough.0)),
      ))

promise_tight :
    (r : RateLimiter) (now w : ℕ) (ip : String) (tokens : ℤ)
    → IsValid r
    → (spend r now ip tokens).1 ≡ false
    → w + 1 < (spend r now ip tokens).2
    → (allow (spend r now ip tokens).0 (now + w * second) ip).1 ≡ false
promise_tight r now w ip tokens v refused early =
    let (low, state, wait) = spend_refused r now ip tokens refused in
    let enough = retry_after_bounds r.requests_per_minute tokens v.rate_pos in
    let room : w < retry_after r.requests_per_minute tokens - 1 = omega arith in
    let per_second : 0 < r.requests_per_minute * second = omega (arith, v.rate_pos) in
    let short = mul-lt-mul_of_pos_left room per_second in
    rw (state, second_try r now w ip tokens v)
      (ground (arith, refill_short r.requests_per_minute now w tokens (omega arith)))

allow_lem :
    (r : RateLimiter) (now : ℕ) (ip : String)
    → allow r now ip ≡ spend (make_room now ip r) now ip (balance (make_room now ip r) now ip)
unfolding allow
allow_lem r now ip = refl

-- A client of a valid limiter that is refused, waits the seconds it was told, and asks again with no
-- other request in between, is served.
pub retry_after_suffices :
    (r : RateLimiter) (now : ℕ) (ip : String)
    → IsValid r
    → (allow r now ip).1 ≡ false
    → (allow (allow r now ip).0 (now + (allow r now ip).2 * second) ip).1 ≡ true
retry_after_suffices r now ip v refused = rw (allow_lem r now ip) (
    promise_kept (make_room now ip r) now ip _ (make_room-IsValid now ip r v)
      (rw (allow_lem r now ip) at refused))

-- The wait is long by one second at most: a client of a valid limiter that is refused and asks again
-- after `w` seconds, with two or more still to go, is refused again.
pub retry_after_tight :
    (r : RateLimiter) (now w : ℕ) (ip : String)
    → IsValid r
    → (allow r now ip).1 ≡ false
    → w + 1 < (allow r now ip).2
    → (allow (allow r now ip).0 (now + w * second) ip).1 ≡ false
retry_after_tight r now w ip v refused early = rw (allow_lem r now ip) (
    promise_tight (make_room now ip r) now w ip _ (make_room-IsValid now ip r v)
      (rw (allow_lem r now ip) at refused) (rw (allow_lem r now ip) at early))

-- Where the parts that are missing to one token come back in exactly `k` seconds, at least one, the
-- answer is `k + 1` although the token is there after `k`.
pub retry_after_exact :
    (rate k now : ℕ) (tokens : ℤ)
    → 0 < rate
    → 0 < k
    → pos token ≡ tokens +ℤ pos (k * second * rate)
    → (retry_after rate tokens ≡ k + 1)
      × (pos token ≤ℤ refill rate (now + k * second) (record { tokens = tokens; last = now }))
retry_after_exact rate k now tokens some_rate some_time exact =
    let gap : missing tokens ≡ k * (rate * second) = omega (
      arith,
      ap pos_part exact,
      ap neg_part exact,
      +ℤ_parts,
      -ℤ_parts,
      parts_exclusive (pos token -ℤ tokens),
    ) in
    let whole : k * (rate * second) / (rate * second) ≡ k = mul-div_cancel k (omega arith) in
    (
      unfold retry_after in rw (gap, whole) (omega arith),
      refill_enough rate now k tokens some_rate (omega arith),
    )
