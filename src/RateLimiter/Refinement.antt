-- ===== src/RateLimiter/Refinement.antt =====
-- src/utils/rate_limiter.py against its specification: a limiter that never forgets an address and
-- has no bound on their number. Until `max_buckets` is reached the two give the same answers.
use mathlib.Core.Path.{subst}
use native.Mathlib.Nat.{mul-le-mul_right}
use meshforge_maps.Base.{
  ℕ, ◌+◌, ◌≤◌, ◌<◌, ◌≡◌, refl, String, Bool, false, List, [], ◌∷◌, arith, if_both, ◌∙◌, sym,
  Bool-cases, inl, inr, some, ◌*◌, length,
}
use meshforge_maps.Int.{ℤ, pos, ◌+ℤ◌, leb_ℤ, pos_part, max_ℤ}
use meshforge_maps.Dict.{lookup, insert, length-insert}
use meshforge_maps.RateLimiter.{
  token, Bucket, RateLimiter, create, prune, refill, balance, store, spend, allow,
}
use meshforge_maps.RateLimiter.Bounds.{length-drop_idle, max_buckets-prune}
use meshforge_maps.RateLimiter.Pruning.{refill_full}
use meshforge_maps.RateLimiter.Simulation.{
  Spec, spec_allow, Request, serve, spec_serve, Simulates, Simulates-mono, make_room_idle, SameStep,
  allow-Simulates,
}

length-prune :
    (now : ℕ) (force : Bool) (r : RateLimiter)
    → length (prune now force r).buckets ≤ length r.buckets
unfolding prune
length-prune now force r = ground (arith, length-drop_idle now r.buckets)

abbrev Grows : RateLimiter → RateLimiter → Type 0
Grows r r' = (length r'.buckets ≤ length r.buckets + 1) × (r'.max_buckets ≡ r.max_buckets)

store-Grows :
    (now : ℕ) (ip : String) (tokens : ℤ) (r : RateLimiter)
    → Grows r (prune now false (store ip tokens now r))
unfolding store
store-Grows now ip tokens r =
    let b : Bucket = record { tokens = tokens; last = now } in
    let stored : RateLimiter = record r { buckets = insert ip b r.buckets } in
    ground (
      arith,
      length-insert ip b r.buckets,
      length-prune now false stored,
      max_buckets-prune now false stored,
    )

-- A request adds at most one bucket, and never changes the bound.
allow-Grows :
    (now : ℕ) (ip : String) (r : RateLimiter)
    → length r.buckets < r.max_buckets
    → Grows r (allow r now ip).0
unfolding allow spend
allow-Grows now ip r room = rw (make_room_idle now ip r room) (
    if_both (λ (x : RateLimiter × Bool × ℕ). Grows r x.0) _ _ _ (store-Grows now ip _ r)
      (store-Grows now ip _ r))

-- The times of the requests do not fall below `t`, nor below one another.
abbrev pub IsOrdered : ℕ → List Request → Type 0
IsOrdered t [] = Unit
IsOrdered t ((now, ip) ∷ rest) = (t ≤ now) × IsOrdered now rest

-- Started alike, and given requests in the order of time, of which there are no more than there is
-- room for new addresses, the limiter answers each request, `Retry-After` included, as the
-- specification does: pruning is never observed.
pub serve-refines :
    (t : ℕ) (r : RateLimiter) (s : Spec) (requests : List Request)
    → Simulates t r s
    → IsOrdered t requests
    → length r.buckets + length requests ≤ r.max_buckets
    → serve r requests ≡ spec_serve s requests
unfolding serve spec_serve
serve-refines t r s [] h o room = refl
serve-refines t r s ((now, ip) ∷ rest) h o room =
    let step : SameStep now (allow r now ip) (spec_allow s now ip) =
      allow-Simulates now ip r s (Simulates-mono t now r s o.0 h) (omega arith) in
    cc (
      step.0,
      step.1,
      serve-refines now (allow r now ip).0 (spec_allow s now ip).0 rest step.2 o.1
          (omega (arith, allow-Grows now ip r (omega arith))),
    )

-- the specification's first state: every bucket full
abbrev pub spec_start : ℕ → ℕ → Spec
spec_start rate now = record {
  rate = rate;
  bucket = λ _. record { tokens = pos (rate * token); last = now };
}

stays_full :
    (rate now t : ℕ)
    → now ≤ t
    → refill rate t (record { tokens = pos (rate * token); last = now }) ≡ pos (rate * token)
unfolding refill ◌+ℤ◌
stays_full rate now t later = ground (arith, mul-le-mul_right rate later)

fresh :
    (rate bound now : ℕ)
    → 0 < rate
    → 0 < bound
    → Simulates now
        (record { requests_per_minute = rate; max_buckets = bound; buckets = []; last_prune = now })
        (spec_start rate now)
unfolding balance lookup
fresh rate bound now some_rate room = record {
  valid = record {
    rate_pos = some_rate;
    room = room;
    distinct = tt;
    bounded = omega arith;
    capped = tt;
  };
  settled = tt;
  rate = refl;
  same = λ t ip later. refill_full rate t ∙ sym (stays_full rate now t later);
}

-- A limiter that the constructor returns is valid, and is simulated by the specification with every
-- bucket full.
pub create-Simulates :
    (rate bound : ℤ) (now : ℕ) {r : RateLimiter}
    → create rate bound now ≡ some r
    → Simulates now r (spec_start (pos_part rate) now)
unfolding create
create-Simulates rate bound now made = elim (Bool-cases (leb_ℤ rate (pos 0))) [
  | inl bad ↦ absurd (ground arith)
  | inr good ↦
      subst (λ r. Simulates now r (spec_start (pos_part rate) now)) (ground arith)
        (fresh (pos_part rate) (pos_part (max_ℤ (pos 1) bound)) now (ground arith) (ground arith))
]
