-- ===== src/Collector/Tries.antt =====
-- src/collectors/base.py, `collect`: what its tries come to.
use meshforge_maps.Base.{
  ℕ, zero, suc, ◌+◌, ◌-◌, ◌≤◌, ◌≡◌, ◌⊎◌, refl, String, Bool, true, false, Option, none, some, arith,
  get_or, if◌then◌else◌, is_some, ltb, min,
}
use meshforge_maps.Reconnect.{ReconnectStrategy}
use meshforge_maps.Collector.{BaseCollector, Fetch, gives, spoils, raises, stale, succeed, retry}

-- the first of `n` tries that gives a collection, from `attempt` on
abbrev pub first_success : {D : Type 0} → (ℕ → Fetch D) → ℕ → ℕ → Option (ℕ × D)
first_success fetch zero attempt = none
first_success fetch (suc n) attempt = elim (fetch attempt) [
  | gives found ↦ some (attempt, found)
  | spoils found text ↦ first_success fetch n (suc attempt)
  | raises text ↦ first_success fetch n (suc attempt)
]

-- how many tries are spoiled before that
abbrev pub spoiled : {D : Type 0} → (ℕ → Fetch D) → ℕ → ℕ → ℕ
spoiled fetch zero attempt = 0
spoiled fetch (suc n) attempt = elim (fetch attempt) [
  | gives found ↦ 0
  | spoils found text ↦ suc (spoiled fetch n (suc attempt))
  | raises text ↦ spoiled fetch n (suc attempt)
]

-- what the last spoiled try stores over the cache
abbrev pub last_stored : {D : Type 0} → (ℕ → Fetch D) → ℕ → ℕ → Option D → Option D
last_stored fetch zero attempt before = before
last_stored fetch (suc n) attempt before = elim (fetch attempt) [
  | gives found ↦ some found
  | spoils found text ↦ last_stored fetch n (suc attempt) (some found)
  | raises text ↦ last_stored fetch n (suc attempt) before
]

-- The tries that are made, where `left` are left after `attempt`, and whether an exception ends them:
-- the wait after try 1024, counted from 0, is the first that overflows.
abbrev pub tries : ℕ → ℕ → ℕ
tries left attempt = min left (1025 - attempt)

abbrev pub stops : ℕ → ℕ → Bool
stops left attempt = ltb (1025 - attempt) left

-- the strategy counts the tries, if one is left
abbrev pub IsReady : ℕ → ℕ → ReconnectStrategy → Type 0
IsReady left attempt strategy =
    (left ≡ 0) ⊎ ((strategy.multiplier ≡ 2) × (strategy.attempt ≡ attempt) × (attempt ≤ 1024))

module _ {D : Type 0} (truthy : D → Bool) where
  abbrev pub truthful : Option D → Option D
  truthful none = none
  truthful (some found) = if truthy found then some found else none

  -- the answer after `n` tries: the first success, or none where an exception ends them, or what is
  -- stored, or no features
  abbrev pub tried_answer : D → Option (ℕ × D) → Bool → Option D → Option D
  tried_answer empty (some (attempt, found)) stopped stored = some found
  tried_answer empty none true stored = none
  tried_answer empty none false stored = some (get_or (truthful stored) empty)

  -- what is stored after a success
  abbrev pub Kept : (ℕ → ℕ) → ℕ → Option (ℕ × D) → BaseCollector D → Type 0
  Kept times cache_ttl none c = Unit
  Kept times cache_ttl (some (attempt, found)) c =
      (c.cache ≡ some found) × (c.cache_time ≡ times attempt) × (c.cache_ttl ≡ cache_ttl)

  -- what `n` tries, from `attempt` on, make of the collector `c`
  pub record Tried (fetch : ℕ → Fetch D) (times : ℕ → ℕ) (empty : D) (n : ℕ) (stopped : Bool)
      (attempt : ℕ) (c : BaseCollector D) (r : BaseCollector D × Option D) : Type 0 where
    pub answered :
        r.1
        ≡ tried_answer empty
            (first_success fetch n attempt)
            stopped
            (last_stored fetch n attempt c.cache)
    pub counted :
        r.0.total_collections + r.0.total_errors
        ≡ c.total_collections
          + c.total_errors
          + spoiled fetch n attempt
          + (if is_some r.1 then 1 else 0)
    pub kept : Kept times c.cache_ttl (first_success fetch n attempt) r.0

  pub Tried-gives :
      (fetch : ℕ → Fetch D) (times : ℕ → ℕ) (empty : D) (n : ℕ) (stopped : Bool) (attempt : ℕ)
      (c : BaseCollector D) (found : D)
      → fetch attempt ≡ gives found
      → Tried fetch times empty
          (suc n)
          stopped
          attempt
          c
          (succeed truthy found (times attempt) c, some found)
  Tried-gives fetch times empty n stopped attempt c found e = record {
    answered = rw (first_success, e) refl;
    counted = rw (spoiled, e) (omega arith);
    kept = rw (first_success, e) (refl, refl, refl);
  }

  pub Tried-spoils :
      (fetch : ℕ → Fetch D) (times : ℕ → ℕ) (empty : D) (n : ℕ) (stopped : Bool) (attempt : ℕ)
      (c : BaseCollector D) (found : D) (text : String) (r : BaseCollector D × Option D)
      → fetch attempt ≡ spoils found text
      → Tried fetch times empty n stopped (suc attempt) (succeed truthy found (times attempt) c) r
      → Tried fetch times empty (suc n) stopped attempt c r
  Tried-spoils fetch times empty n stopped attempt c found text r e t = record {
    answered = rw (first_success, last_stored, e) t.answered;
    counted = rw (spoiled, e) (omega (arith, t.counted));
    kept = rw (first_success, e) t.kept;
  }

  pub Tried-raises :
      (fetch : ℕ → Fetch D) (times : ℕ → ℕ) (empty : D) (n : ℕ) (stopped : Bool) (attempt : ℕ)
      (c : BaseCollector D) (text : String) (r : BaseCollector D × Option D)
      → fetch attempt ≡ raises text
      → Tried fetch times empty n stopped (suc attempt) c r
      → Tried fetch times empty (suc n) stopped attempt c r
  Tried-raises fetch times empty n stopped attempt c text r e t = record {
    answered = rw (first_success, last_stored, e) t.answered;
    counted = rw (spoiled, e) t.counted;
    kept = rw (first_success, e) t.kept;
  }

  -- the collector after a try that failed, with `left` tries left
  abbrev pub after_failure :
      (ℕ → Fetch D)
      → (ℕ → ℕ)
      → D
      → ℕ
      → ℕ
      → Option ReconnectStrategy
      → String
      → BaseCollector D
      → BaseCollector D × Option D
  after_failure fetch times empty left attempt none text c = (c, none)
  after_failure fetch times empty left attempt (some strategy) text c =
      retry truthy fetch times empty left (suc attempt) strategy text c

  pub stopped-Tried :
      (fetch : ℕ → Fetch D) (times : ℕ → ℕ) (empty : D) (attempt : ℕ) (c : BaseCollector D)
      → Tried fetch times empty 0 true attempt c (c, none)
  stopped-Tried fetch times empty attempt c = record {
    answered = refl;
    counted = omega arith;
    kept = tt;
  }

  pub retry_end-Tried :
      (fetch : ℕ → Fetch D) (times : ℕ → ℕ) (empty : D) (attempt : ℕ) (strategy : ReconnectStrategy)
      (error : String) (c : BaseCollector D)
      → Tried fetch times empty 0 false attempt c
          (retry truthy fetch times empty 0 attempt strategy error c)
  unfolding retry stale
  retry_end-Tried fetch times empty attempt strategy error c = record {
    answered =
        elim c.cache
          as (λ o.
            some (
              get_or
                (elim o as (λ _. Option D) [
                  | none ↦ none
                  | some f ↦ if truthy f then some f else none
                ])
                empty)
            ≡ some (get_or (truthful o) empty)) [ none ↦ refl | some f ↦ refl ];
    counted = omega arith;
    kept = tt;
  }
