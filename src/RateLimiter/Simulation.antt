-- ===== src/RateLimiter/Simulation.antt =====
-- src/utils/rate_limiter.py: the specification, a limiter that never forgets an address, and how one
-- request keeps the two alike.
use native.Mathlib.Nat.{mul-le-mul_right}
use meshforge_maps.Base.{
  ℕ, ◌≤◌, ◌<◌, ◌≡◌, refl, String, Bool, true, false, List, [], ◌∷◌, arith, if◌then◌else◌, if_both,
  ◌∙◌, sym, ap, Option-cases, Bool-cases, inl, inr, ◌*◌, str_eq, length,
}
use meshforge_maps.Int.{ℤ, pos, ◌≤ℤ◌, ◌-ℤ◌, leb_ℤ, -ℤ_parts, +ℤ_parts, sub_ℕ, sub_ℕ_parts}
use meshforge_maps.Dict.{lookup, lookup-insert, AllValues-insert, AllValues-mono, AllValues-lookup}
use meshforge_maps.RateLimiter.{
  token, Bucket, RateLimiter, capacity, prune, make_room, refill, balance, store, retry_after,
  spend, allow,
}
use meshforge_maps.RateLimiter.Bounds.{
  IsValid, prune-IsValid, store-IsValid, AllValues-drop_idle, balance-le-capacity,
}
use meshforge_maps.RateLimiter.Pruning.{IsSettled, balance-prune, refill_full}

-- The specification: a bucket for every address there is.
pub record Spec : Type 0 where
  pub rate : ℕ
  pub bucket : String → Bucket

abbrev pub spec_store : Spec → String → Bucket → Spec
spec_store s ip b = record s { bucket = λ j. if str_eq ip j then b else s.bucket j }

unfoldable pub spec_spend : Spec → ℕ → String → ℤ → Spec × Bool × ℕ
spec_spend s now ip tokens =
    if leb_ℤ (pos token) tokens
    then (spec_store s ip (record { tokens = tokens -ℤ pos token; last = now }), true, 0)
    else (
      spec_store s ip (record { tokens = tokens; last = now }),
      false,
      retry_after s.rate tokens,
    )

unfoldable pub spec_allow : Spec → ℕ → String → Spec × Bool × ℕ
spec_allow s now ip = spec_spend s now ip (refill s.rate now (s.bucket ip))

abbrev pub Request : Type 0
Request = ℕ × String

-- the answers to a sequence of requests
unfoldable pub serve : RateLimiter → List Request → List (Bool × ℕ)
serve r [] = []
serve r ((now, ip) ∷ rest) =
    let (r', granted, wait) = allow r now ip in (granted, wait) ∷ serve r' rest

unfoldable pub spec_serve : Spec → List Request → List (Bool × ℕ)
spec_serve s [] = []
spec_serve s ((now, ip) ∷ rest) =
    let (s', granted, wait) = spec_allow s now ip in (granted, wait) ∷ spec_serve s' rest

-- At `now` and ever after, both give each address the same to spend.
pub record Simulates (now : ℕ) (r : RateLimiter) (s : Spec) : Type 0 where
  pub valid : IsValid r
  pub settled : IsSettled now r
  pub rate : s.rate ≡ r.requests_per_minute
  pub same : (t : ℕ) (ip : String) → now ≤ t → balance r t ip ≡ refill s.rate t (s.bucket ip)

IsSettled-mono : (t now : ℕ) (r : RateLimiter) → t ≤ now → IsSettled t r → IsSettled now r
IsSettled-mono t now r later h = AllValues-mono _ _ r.buckets (λ b p. (p.0, omega (arith, p.1))) h

store-IsSettled :
    (ip : String) (tokens : ℤ) (now : ℕ) (r : RateLimiter)
    → pos 0 ≤ℤ tokens
    → IsSettled now r
    → IsSettled now (store ip tokens now r)
unfolding store
store-IsSettled ip tokens now r solvent h =
    AllValues-insert _ ip _ r.buckets (solvent, omega arith) h

prune-IsSettled :
    (now : ℕ) (force : Bool) (r : RateLimiter) → IsSettled now r → IsSettled now (prune now force r)
unfolding prune
prune-IsSettled now force r h =
    if_both (IsSettled now) _ r _ h (AllValues-drop_idle _ now r.buckets h)

refill_nonneg :
    (rate now : ℕ) (b : Bucket) → pos 0 ≤ℤ b.tokens → b.last ≤ now → pos 0 ≤ℤ refill rate now b
unfolding refill
refill_nonneg rate now b solvent past = ground (
  arith,
  mul-le-mul_right rate past,
  +ℤ_parts b.tokens (sub_ℕ (now * rate) (b.last * rate)),
  sub_ℕ_parts (now * rate) (b.last * rate),
)

pub balance_nonneg :
    (r : RateLimiter) (now : ℕ) (ip : String) → IsSettled now r → pos 0 ≤ℤ balance r now ip
unfolding balance
balance_nonneg r now ip h = elim (Option-cases (lookup ip r.buckets)) [
  | inl unknown ↦ rw (unknown, refill_full) (omega arith)
  | inr (b, known) ↦
      let (solvent, past) = AllValues-lookup _ ip r.buckets b h known in
      rw known (refill_nonneg r.requests_per_minute now b solvent past)
]

balance-store :
    (ip j : String) (tokens : ℤ) (now t : ℕ) (r : RateLimiter)
    → balance (store ip tokens now r) t j ≡ (
        if str_eq ip j
        then refill r.requests_per_minute t (record { tokens = tokens; last = now })
        else balance r t j)
unfolding balance store
balance-store ip j tokens now t r =
    ground (arith, lookup-insert ip j (record { tokens = tokens; last = now }) r.buckets)

rate-prune :
    (now : ℕ) (force : Bool) (r : RateLimiter)
    → (prune now force r).requests_per_minute ≡ r.requests_per_minute
unfolding prune
rate-prune now force r = ground arith

after-Simulates :
    (now : ℕ) (ip : String) (r : RateLimiter) (s : Spec) (tokens : ℤ)
    → Simulates now r s
    → length r.buckets < r.max_buckets
    → pos 0 ≤ℤ tokens
    → tokens ≤ℤ capacity r
    → Simulates now
        (prune now false (store ip tokens now r))
        (spec_store s ip (record { tokens = tokens; last = now }))
after-Simulates now ip r s tokens h room solvent fits = record {
  valid = prune-IsValid now false _ kept;
  settled = prune-IsSettled now false _ settled;
  rate = h.rate ∙ sym (rate-prune now false (store ip tokens now r) ∙ (unfold store in refl));
  same = λ t j later.
      balance-prune (store ip tokens now r) now t false j kept settled later
      ∙ balance-store ip j tokens now t r
      ∙ at_address (str_eq ip j) t j later;
}
  where
    kept : IsValid (store ip tokens now r)
    kept = store-IsValid ip tokens now r h.valid (λ _. room) fits

    settled : IsSettled now (store ip tokens now r)
    settled = store-IsSettled ip tokens now r solvent h.settled

    at_address :
        (b : Bool) (t : ℕ) (j : String)
        → now ≤ t
        → (if b
            then refill r.requests_per_minute t (record { tokens = tokens; last = now })
            else balance r t j)
          ≡ refill s.rate t (if b then (record { tokens = tokens; last = now }) else s.bucket j)
    at_address true t j later = rw h.rate
    at_address false t j later = h.same t j later

pub Simulates-mono :
    (t now : ℕ) (r : RateLimiter) (s : Spec) → t ≤ now → Simulates t r s → Simulates now r s
Simulates-mono t now r s later h = record {
  valid = h.valid;
  settled = IsSettled-mono t now r later h.settled;
  rate = h.rate;
  same = λ u ip after. h.same u ip (omega arith);
}

pub make_room_idle :
    (now : ℕ) (ip : String) (r : RateLimiter)
    → length r.buckets < r.max_buckets
    → make_room now ip r ≡ r
unfolding make_room
make_room_idle now ip r room = ground arith

abbrev pub SameStep : ℕ → RateLimiter × Bool × ℕ → Spec × Bool × ℕ → Type 0
SameStep now x y = (x.1 ≡ y.1) × (x.2 ≡ y.2) × Simulates now x.0 y.0

spend-Simulates :
    (now : ℕ) (ip : String) (r : RateLimiter) (s : Spec) (tokens : ℤ)
    → Simulates now r s
    → length r.buckets < r.max_buckets
    → pos 0 ≤ℤ tokens
    → tokens ≤ℤ capacity r
    → SameStep now (spend r now ip tokens) (spec_spend s now ip tokens)
unfolding spend spec_spend
spend-Simulates now ip r s tokens h room solvent fits =
    elim (Bool-cases (leb_ℤ (pos token) tokens)) [
      | inl granted ↦ rw granted (
        refl,
        refl,
        after-Simulates now ip r s _ h room (ground (arith, -ℤ_parts tokens (pos token)))
            (ground (arith, -ℤ_parts tokens (pos token))),
      )
      | inr refused ↦ rw refused (
        refl,
        ap (λ rate. retry_after rate tokens) (sym h.rate),
        after-Simulates now ip r s tokens h room solvent fits,
      )
    ]

-- One request: the same answer, and both go on alike.
pub allow-Simulates :
    (now : ℕ) (ip : String) (r : RateLimiter) (s : Spec)
    → Simulates now r s
    → length r.buckets < r.max_buckets
    → SameStep now (allow r now ip) (spec_allow s now ip)
unfolding allow spec_allow
allow-Simulates now ip r s h room =
    rw (make_room_idle now ip r room, ← h.same now ip (omega arith))
      (spend-Simulates now ip r s (balance r now ip) h room (balance_nonneg r now ip h.settled)
        (balance-le-capacity r now ip))
