-- ===== src/RateLimiter/Pruning.antt =====
-- src/utils/rate_limiter.py, `_prune_locked`: dropping a bucket that has been idle for ten minutes
-- changes nothing that a client can observe.
use native.Mathlib.Nat.{mul-le-mul_right}
use meshforge_maps.Base.{
  ℕ, ◌+◌, ◌*◌, ◌≤◌, ◌≡◌, refl, String, Bool, true, none, some, [], ◌∷◌, arith, if◌then◌else◌, inl,
  inr, Option-cases, str_eq_iff, if_both,
}
use meshforge_maps.Int.{pos, ◌≤ℤ◌, ◌+ℤ◌}
use meshforge_maps.Dict.{Dict, lookup, AllValues, AllValues-lookup, IsDistinct}
use meshforge_maps.RateLimiter.{
  token, Bucket, RateLimiter, is_idle, drop_idle, prune, refill, balance,
}
use meshforge_maps.RateLimiter.Bounds.{IsValid}

-- The clock has not run backwards past any bucket, and no bucket is in debt.
abbrev pub IsSettled : ℕ → RateLimiter → Type 0
IsSettled now r = AllValues (λ b. (pos 0 ≤ℤ b.tokens) × (b.last ≤ now)) r.buckets

pub lookup-drop_idle_lem :
    (now : ℕ) (ip : String) (d : Dict Bucket)
    → IsDistinct d
    → lookup ip (drop_idle now d)
      ≡ elim (lookup ip d) [ none ↦ none | some b ↦ if is_idle now b then none else some b ]
unfolding lookup drop_idle
lookup-drop_idle_lem now ip [] h = refl
lookup-drop_idle_lem now ip ((j, b) ∷ d) h =
    ground (arith, lookup-drop_idle_lem now ip d h.1, str_eq_iff j ip)

pub refill_full :
    (rate t : ℕ)
    → refill rate t (record { tokens = pos (rate * token); last = t }) ≡ pos (rate * token)
unfolding refill ◌+ℤ◌
refill_full rate t = ground arith

-- ten minutes bring back more than a minute's worth
pub refill_idle :
    (rate now t : ℕ) (b : Bucket)
    → pos 0 ≤ℤ b.tokens
    → is_idle now b ≡ true
    → now ≤ t
    → refill rate t b ≡ pos (rate * token)
unfolding refill ◌+ℤ◌
refill_idle rate now t b solvent idle later = ground (arith, enough)
  where
    enough : b.last * rate + rate * token ≤ t * rate
    enough =
        let waited : b.last + token ≤ t = ground arith in
        omega (arith, mul-le-mul_right rate waited)

balance-drop_idle :
    (r : RateLimiter) (now t : ℕ) (ip : String)
    → IsValid r
    → IsSettled now r
    → now ≤ t
    → balance (record r { last_prune = now; buckets = drop_idle now r.buckets }) t ip
      ≡ balance r t ip
unfolding balance
balance-drop_idle r now t ip v h later = elim (Option-cases (lookup ip r.buckets)) [
  | inl unknown ↦ ground (arith, lookup-drop_idle_lem now ip r.buckets v.distinct)
  | inr (b, known) ↦ ground (
    arith,
    lookup-drop_idle_lem now ip r.buckets v.distinct,
    refill_full r.requests_per_minute t,
    refill_idle r.requests_per_minute now t b (AllValues-lookup _ ip r.buckets b h known).0,
  )
]

-- Pruning, forced or not, leaves every address with what it would have had to spend at any later
-- time, for a valid limiter whose buckets are settled.
pub balance-prune :
    (r : RateLimiter) (now t : ℕ) (force : Bool) (ip : String)
    → IsValid r
    → IsSettled now r
    → now ≤ t
    → balance (prune now force r) t ip ≡ balance r t ip
unfolding prune
balance-prune r now t force ip v h later =
    if_both (λ s. balance s t ip ≡ balance r t ip) _ r _ refl
      (balance-drop_idle r now t ip v h later)
