-- ===== src/RateLimiter/Window.antt =====
-- src/utils/rate_limiter.py: how many requests one address can get through in a span of time.
use mathlib.Core.Path.{subst}
use native.Mathlib.Nat.{mul-le-mul_right, add-mul}
use meshforge_maps.Base.{
  ℕ, ◌+◌, ◌-◌, ◌*◌, ◌≤◌, ◌≡◌, refl, ◌∙◌, ap, String, Bool, true, false, List, [], ◌∷◌, arith,
  if◌then◌else◌, inl, inr, str_eq, ◌&&◌, length, Bool-cases, str_eq_iff, if_split,
}
use meshforge_maps.Int.{
  ℤ, pos, ◌≤ℤ◌, ◌+ℤ◌, ◌-ℤ◌, sub_ℕ, leb_ℤ, min_ℤ, -ℤ_parts, +ℤ_parts, eq_of_parts, sub_ℕ_parts,
}
use meshforge_maps.RateLimiter.{token, Bucket, RateLimiter, refill, balance, retry_after}
use meshforge_maps.RateLimiter.Simulation.{
  Spec, spec_store, spec_spend, spec_allow, Request, serve, spec_serve, Simulates, balance_nonneg,
}
use meshforge_maps.RateLimiter.Refinement.{IsOrdered, serve-refines}

-- how many of the requests of `ip` were let through
abbrev pub granted : String → List Request → List (Bool × ℕ) → ℕ
granted ip [] answers = 0
granted ip (request ∷ rest) [] = 0
granted ip ((now, j) ∷ rest) ((yes_no, wait) ∷ answers) =
    (if str_eq j ip && yes_no then 1 else 0) + granted ip rest answers

-- every request comes before `end`
abbrev pub EndsBy : ℕ → List Request → Type 0
EndsBy end [] = Unit
EndsBy end ((now, ip) ∷ rest) = (now ≤ end) × EndsBy end rest

elapsed : (rate t now : ℕ) → t ≤ now → now * rate ≡ t * rate + (now - t) * rate
elapsed rate t now later =
    let e : now ≡ t + (now - t) = omega arith in ap (λ n. n * rate) e ∙ add-mul t (now - t) rate

-- waiting adds no more than the rate allows
refill_growth :
    (rate t now : ℕ) (b : Bucket)
    → t ≤ now
    → refill rate now b ≤ℤ refill rate t b +ℤ pos ((now - t) * rate)
unfolding refill
refill_growth rate t now b later =
    let grown : now * rate ≡ t * rate + (now - t) * rate = elapsed rate t now later in
    ground (
      arith,
      +ℤ_parts b.tokens (sub_ℕ (now * rate) (b.last * rate)),
      +ℤ_parts b.tokens (sub_ℕ (t * rate) (b.last * rate)),
      sub_ℕ_parts (now * rate) (b.last * rate),
      sub_ℕ_parts (t * rate) (b.last * rate),
      +ℤ_parts (min_ℤ (pos (rate * token)) (b.tokens +ℤ sub_ℕ (t * rate) (b.last * rate)))
          (pos ((now - t) * rate)),
    )

refill_at_once :
    (rate now : ℕ) (tokens : ℤ)
    → tokens ≤ℤ pos (rate * token)
    → refill rate now (record { tokens = tokens; last = now }) ≡ tokens
unfolding refill ◌+ℤ◌
refill_at_once rate now tokens fits = ground arith

refill_mono : (rate t now : ℕ) (b : Bucket) → t ≤ now → refill rate t b ≤ℤ refill rate now b
unfolding refill
refill_mono rate t now b later = ground (
  arith,
  mul-le-mul_right rate later,
  +ℤ_parts b.tokens (sub_ℕ (now * rate) (b.last * rate)),
  +ℤ_parts b.tokens (sub_ℕ (t * rate) (b.last * rate)),
  sub_ℕ_parts (now * rate) (b.last * rate),
  sub_ℕ_parts (t * rate) (b.last * rate),
)

refill-le-capacity : (rate t : ℕ) (b : Bucket) → refill rate t b ≤ℤ pos (rate * token)
unfolding refill
refill-le-capacity rate t b = ground arith

abbrev funds : Spec → ℕ → String → ℤ
funds s t ip = refill s.rate t (s.bucket ip)

abbrev paid : Bool → ℤ
paid b = pos (if b then token else 0)

-- What a request takes from the funds of `ip` is one token, if it is its own and is let through.
abbrev Conserved : Spec → ℕ → String → String → Spec × Bool × ℕ → Type 0
Conserved s now j ip x =
    (funds s now ip ≡ funds x.0 now ip +ℤ paid (str_eq j ip && x.1))
    × (pos 0 ≤ℤ funds s now ip → pos 0 ≤ℤ funds x.0 now ip)
    × (x.0.rate ≡ s.rate)

funds-store :
    (s : Spec) (now : ℕ) (j ip : String) (tokens : ℤ)
    → tokens ≤ℤ pos (s.rate * token)
    → funds (spec_store s j (record { tokens = tokens; last = now })) now ip
      ≡ (if str_eq j ip then tokens else funds s now ip)
funds-store s now j ip tokens fits = elim (Bool-cases (str_eq j ip)) [
  | inl own ↦ rw own (refill_at_once s.rate now tokens fits)
  | inr other ↦ rw other
]

spec_spend-Conserved :
    (s : Spec) (now : ℕ) (j ip : String) (tokens : ℤ)
    → tokens ≡ funds s now j
    → tokens ≤ℤ pos (s.rate * token)
    → Conserved s now j ip (spec_spend s now j tokens)
unfolding spec_spend
spec_spend-Conserved s now j ip tokens e fits =
    if_split (Conserved s now j ip) (leb_ℤ (pos token) tokens)
      (spec_store s j (record { tokens = tokens -ℤ pos token; last = now }), true, 0)
      (spec_store s j (record { tokens = tokens; last = now }), false, retry_after s.rate tokens)
      (λ rich. ground (
        arith,
        same,
        -ℤ_parts tokens (pos token),
        funds-store s now j ip (tokens -ℤ pos token),
        +ℤ_parts (tokens -ℤ pos token) (pos token),
        +ℤ_parts (funds s now ip) (pos 0),
        eq_of_parts (tokens -ℤ pos token +ℤ pos token) tokens,
        eq_of_parts (funds s now ip +ℤ pos 0) (funds s now ip),
      ))
      (λ poor. ground (
        arith,
        same,
        funds-store s now j ip tokens,
        +ℤ_parts tokens (pos 0),
        +ℤ_parts (funds s now ip) (pos 0),
        eq_of_parts (tokens +ℤ pos 0) tokens,
        eq_of_parts (funds s now ip +ℤ pos 0) (funds s now ip),
      ))
  where
    same : str_eq j ip ≡ true → tokens ≡ funds s now ip
    same own = e ∙ ap (λ k. funds s now k) ((str_eq_iff j ip).0 own)

spec_allow-Conserved :
    (s : Spec) (now : ℕ) (j ip : String) → Conserved s now j ip (spec_allow s now j)
unfolding spec_allow
spec_allow-Conserved s now j ip =
    spec_spend-Conserved s now j ip (funds s now j) refl
      (refill-le-capacity s.rate now (s.bucket j))

window_step :
    (b : Bool) (g rate t now end : ℕ) (f₀ f₁ f₂ : ℤ)
    → t ≤ now
    → now ≤ end
    → f₁ ≤ℤ f₀ +ℤ pos ((now - t) * rate)
    → f₁ ≡ f₂ +ℤ paid b
    → pos (g * token) ≤ℤ f₂ +ℤ pos ((end - now) * rate)
    → pos (((if b then 1 else 0) + g) * token) ≤ℤ f₀ +ℤ pos ((end - t) * rate)
window_step b g rate t now end f₀ f₁ f₂ o e grown kept later = ground (
  arith,
  elapsed rate t now o,
  elapsed rate now end e,
  elapsed rate t end,
  +ℤ_parts f₀ (pos ((now - t) * rate)),
  +ℤ_parts f₀ (pos ((end - t) * rate)),
  +ℤ_parts f₂ (pos ((end - now) * rate)),
  +ℤ_parts f₂ (paid b),
)

window :
    (t end : ℕ) (s : Spec) (ip : String) (requests : List Request)
    → pos 0 ≤ℤ funds s t ip
    → IsOrdered t requests
    → EndsBy end requests
    → pos (granted ip requests (spec_serve s requests) * token)
      ≤ℤ funds s t ip +ℤ pos ((end - t) * s.rate)
unfolding spec_serve
window t end s ip [] solvent o e = omega (arith, +ℤ_parts)
window t end s ip ((now, j) ∷ rest) solvent (o, os) (e, es) =
    let x = spec_allow s now j in
    let (kept, still, rate) = spec_allow-Conserved s now j ip in
    let b = s.bucket ip in
    let able : pos 0 ≤ℤ funds s now ip = omega (arith, refill_mono s.rate t now b o) in
    let later = window now end x.0 ip rest (still able) os es in
    window_step (str_eq j ip && x.1) (granted ip rest (spec_serve x.0 rest)) s.rate t now end
      (funds s t ip) (funds s now ip) (funds x.0 now ip) o e (refill_growth s.rate t now b o) kept
      (subst
        (λ k.
          pos (granted ip rest (spec_serve x.0 rest) * token)
          ≤ℤ funds x.0 now ip +ℤ pos ((end - now) * k))
        rate later)

-- From any state that the specification simulates, and while there is room for every new address,
-- the requests of one address that are let through between `t` and `end` cost no more tokens than
-- the address had at `t` and those that `requests_per_minute` brings in the meantime.
pub granted_bounded :
    (t end : ℕ) (r : RateLimiter) (s : Spec) (ip : String) (requests : List Request)
    → Simulates t r s
    → IsOrdered t requests
    → EndsBy end requests
    → length r.buckets + length requests ≤ r.max_buckets
    → pos (granted ip requests (serve r requests) * token)
      ≤ℤ balance r t ip +ℤ pos ((end - t) * r.requests_per_minute)
granted_bounded t end r s ip requests h o e room =
    let same : balance r t ip ≡ funds s t ip = h.same t ip (omega arith) in
    let solvent : pos 0 ≤ℤ funds s t ip = rw (← same) (balance_nonneg r t ip h.settled) in
    rw (serve-refines t r s requests h o room, same, ← h.rate)
      (window t end s ip requests solvent o e)
