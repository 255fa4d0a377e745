-- ===== src/RateLimiter/Bounds.antt =====
-- src/utils/rate_limiter.py: what holds of the limiter between two requests.
use meshforge_maps.Base.{
  ℕ, ◌≤◌, ◌<◌, ◌≡◌, String, Bool, true, false, none, [], ◌∷◌, arith, length, Bool-cases, inl, inr,
  if_both,
}
use meshforge_maps.Int.{ℤ, ◌≤ℤ◌, -ℤ_parts}
use meshforge_maps.Dict.{
  Dict, lookup, contains, AllValues, AllValues-insert, IsDistinct, IsDistinct-insert, length-insert,
}
use meshforge_maps.Dict.Evict.{
  evict, AllValues-evict, IsDistinct-evict, length-evict, length-evict_le,
}
use meshforge_maps.RateLimiter.{
  Bucket, RateLimiter, capacity, is_idle, drop_idle, prune, evict_if_full, make_room, refill,
  balance, store, spend, allow,
}

pub record IsValid (r : RateLimiter) : Type 0 where
  pub rate_pos : 0 < r.requests_per_minute
  pub room : 0 < r.max_buckets
  pub distinct : IsDistinct r.buckets
  pub bounded : length r.buckets ≤ r.max_buckets
  pub capped : AllValues (λ b. b.tokens ≤ℤ capacity r) r.buckets

lookup-drop_idle :
    (now : ℕ) (ip : String) (d : Dict Bucket)
    → lookup ip d ≡ none
    → lookup ip (drop_idle now d) ≡ none
unfolding lookup drop_idle
lookup-drop_idle now ip [] h = h
lookup-drop_idle now ip ((j, b) ∷ d) h = ground (arith, lookup-drop_idle now ip d)

pub IsDistinct-drop_idle : (now : ℕ) (d : Dict Bucket) → IsDistinct d → IsDistinct (drop_idle now d)
unfolding drop_idle
IsDistinct-drop_idle now [] h = tt
IsDistinct-drop_idle now ((j, b) ∷ d) h =
    ground (arith, IsDistinct-drop_idle now d h.1, lookup-drop_idle now j d h.0)

pub length-drop_idle : (now : ℕ) (d : Dict Bucket) → length (drop_idle now d) ≤ length d
unfolding drop_idle
length-drop_idle now [] = omega arith
length-drop_idle now ((j, b) ∷ d) = ground (arith, length-drop_idle now d)

pub AllValues-drop_idle :
    (P : Bucket → Type 0) (now : ℕ) (d : Dict Bucket)
    → AllValues P d
    → AllValues P (drop_idle now d)
unfolding drop_idle
AllValues-drop_idle P now [] h = tt
AllValues-drop_idle P now ((j, b) ∷ d) h = elim (Bool-cases (is_idle now b)) [
  | inl idle ↦ rw idle (AllValues-drop_idle P now d h.1)
  | inr fresh ↦ rw fresh (h.0, AllValues-drop_idle P now d h.1)
]

pub prune-IsValid :
    (now : ℕ) (force : Bool) (r : RateLimiter) → IsValid r → IsValid (prune now force r)
unfolding prune
prune-IsValid now force r h =
    if_both IsValid _ r (record r { last_prune = now; buckets = drop_idle now r.buckets }) h
      (record {
        rate_pos = h.rate_pos;
        room = h.room;
        distinct = IsDistinct-drop_idle now r.buckets h.distinct;
        bounded = omega (arith, length-drop_idle now r.buckets, h.bounded);
        capped = AllValues-drop_idle _ now r.buckets h.capped;
      })

evict_if_full-IsValid : (r : RateLimiter) → IsValid r → IsValid (evict_if_full r)
unfolding evict_if_full
evict_if_full-IsValid r h =
    if_both IsValid _ (record r { buckets = evict (λ (b : Bucket). b.last) r.buckets }) r
      (record {
        rate_pos = h.rate_pos;
        room = h.room;
        distinct = IsDistinct-evict _ r.buckets h.distinct;
        bounded = omega (arith, length-evict_le (λ (b : Bucket). b.last) r.buckets, h.bounded);
        capped = AllValues-evict _ _ r.buckets h.capped;
      })
      h

pub make_room-IsValid :
    (now : ℕ) (ip : String) (r : RateLimiter) → IsValid r → IsValid (make_room now ip r)
unfolding make_room
make_room-IsValid now ip r h =
    ground (arith, evict_if_full-IsValid (prune now true r) (prune-IsValid now true r h))

evict_if_full_room :
    (r : RateLimiter) → IsValid r → length (evict_if_full r).buckets < r.max_buckets
unfolding evict_if_full
evict_if_full_room r h =
    ground (arith, length-evict (λ (b : Bucket). b.last) r.buckets h.distinct, h.bounded, h.room)

pub max_buckets-prune :
    (now : ℕ) (force : Bool) (r : RateLimiter) → (prune now force r).max_buckets ≡ r.max_buckets
unfolding prune
max_buckets-prune now force r = ground arith

-- after `make_room` the address is known, or there is a place for it
make_room_room :
    (now : ℕ) (ip : String) (r : RateLimiter)
    → IsValid r
    → contains ip (make_room now ip r).buckets ≡ false
    → length (make_room now ip r).buckets < (make_room now ip r).max_buckets
unfolding make_room evict_if_full
make_room_room now ip r h =
    ground (arith, evict_if_full_room (prune now true r) (prune-IsValid now true r h), h.bounded)

pub balance-le-capacity : (r : RateLimiter) (now : ℕ) (ip : String) → balance r now ip ≤ℤ capacity r
unfolding balance refill
balance-le-capacity r now ip = ground arith

pub store-IsValid :
    (ip : String) (tokens : ℤ) (now : ℕ) (r : RateLimiter)
    → IsValid r
    → (contains ip r.buckets ≡ false → length r.buckets < r.max_buckets)
    → tokens ≤ℤ capacity r
    → IsValid (store ip tokens now r)
unfolding store
store-IsValid ip tokens now r h room fits = record {
  rate_pos = h.rate_pos;
  room = h.room;
  distinct = IsDistinct-insert ip _ r.buckets h.distinct;
  bounded =
      ground
        (arith, length-insert ip (record { tokens = tokens; last = now }) r.buckets, h.bounded);
  capped = AllValues-insert _ ip _ r.buckets fits h.capped;
}

spend-IsValid :
    (r : RateLimiter) (now : ℕ) (ip : String) (tokens : ℤ)
    → IsValid r
    → (contains ip r.buckets ≡ false → length r.buckets < r.max_buckets)
    → tokens ≤ℤ capacity r
    → IsValid (spend r now ip tokens).0
unfolding spend
spend-IsValid r now ip tokens h room fits =
    if_both (λ (x : RateLimiter × Bool × ℕ). IsValid x.0) _ _ _
      (prune-IsValid now false _ (store-IsValid ip _ now r h room (omega (arith, -ℤ_parts, fits))))
      (prune-IsValid now false _ (store-IsValid ip tokens now r h room fits))

-- Whatever address asks, at whatever time, a valid limiter stays valid: distinct addresses, at most
-- `max_buckets` of them, and at most `requests_per_minute` tokens in each bucket.
pub allow-IsValid :
    (r : RateLimiter) (now : ℕ) (ip : String) → IsValid r → IsValid (allow r now ip).0
unfolding allow
allow-IsValid r now ip h =
    let r' = make_room now ip r in
    spend-IsValid r' now ip (balance r' now ip) (make_room-IsValid now ip r h)
      (make_room_room now ip r h) (balance-le-capacity r' now ip)
