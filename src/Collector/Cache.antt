-- ===== src/Collector/Cache.antt =====
-- src/collectors/base.py, `collect`: what it answers, and what it counts.
use mathlib.Core.Path.{subst}
use meshforge_maps.Base.{
  ℕ, suc, ◌+◌, ◌<◌, ◌≡◌, ◌⊎◌, refl, Bool, true, false, Option, none, some, arith, if◌then◌else◌,
  is_some, Option-cases, inl, inr,
}
use meshforge_maps.Reconnect.{for_collector}
use meshforge_maps.Collector.{BaseCollector, Fetch, fresh, retry, collect, is_cache_hit}
use meshforge_maps.Collector.Tries.{
  first_success, spoiled, last_stored, tries, stops, tried_answer, Tried, Kept,
}
use meshforge_maps.Collector.Retries.{retry-Tried}

-- how many tries a collector makes, and whether it then raises
abbrev pub tries_of : {D : Type 0} → BaseCollector D → ℕ
tries_of c = tries (suc c.max_retries) 0

abbrev pub stops_of : {D : Type 0} → BaseCollector D → Bool
stops_of c = stops (suc c.max_retries) 0

module _ {D : Type 0} (truthy : D → Bool) where
  -- what a collection answers: a cache that is fresh, or the first success, or, unless the wait
  -- overflows, what is stored or the collection without features
  abbrev pub answer : (ℕ → Fetch D) → D → ℕ → BaseCollector D → Option D
  answer fetch empty now c = elim (fresh truthy now c) [
    | some found ↦ some found
    | none ↦
        tried_answer truthy empty (first_success fetch (tries_of c) 0) (stops_of c)
          (last_stored fetch (tries_of c) 0 c.cache)
  ]

  collect_cached :
      (fetch : ℕ → Fetch D) (times : ℕ → ℕ) (empty : D) (now : ℕ) (c : BaseCollector D) (found : D)
      → fresh truthy now c ≡ some found
      → collect truthy fetch times empty now c ≡ (c, some found)
  unfolding collect
  collect_cached fetch times empty now c found e = rw (collect, e) refl

  collect_tries :
      (fetch : ℕ → Fetch D) (times : ℕ → ℕ) (empty : D) (now : ℕ) (c : BaseCollector D)
      → fresh truthy now c ≡ none
      → collect truthy fetch times empty now c
        ≡ retry truthy fetch times empty (suc c.max_retries) 0 for_collector "unknown error" c
  unfolding collect
  collect_tries fetch times empty now c e = rw (collect, e) refl

  collect-Tried :
      (fetch : ℕ → Fetch D) (times : ℕ → ℕ) (empty : D) (now : ℕ) (c : BaseCollector D)
      → fresh truthy now c ≡ none
      → Tried truthy fetch times empty
          (tries_of c)
          (stops_of c)
          0
          c
          (collect truthy fetch times empty now c)
  collect-Tried fetch times empty now c e = rw (collect_tries fetch times empty now c e) (
      retry-Tried truthy fetch times empty (suc c.max_retries) 0 for_collector "unknown error" c
        (inr (refl, refl, omega arith)))

  answer_or_stop :
      (empty : D) (o : Option (ℕ × D)) (stopped : Bool) (stored : Option D)
      → (is_some (tried_answer truthy empty o stopped stored) ≡ true) ⊎ (stopped ≡ true)
  answer_or_stop empty (some (attempt, found)) stopped stored = inl refl
  answer_or_stop empty none true stored = inr refl
  answer_or_stop empty none false stored = inl refl

  stops_over : (c : BaseCollector D) → stops_of c ≡ true → 1024 < c.max_retries
  stops_over c e = ground (arith, e)

  -- A collection answers with the cache while it is fresh, else with the first success of its tries, else
  -- with what is stored, else with no features; only where it may retry more than 1024 times can it raise
  -- instead: when 1025 tries in a row give nothing. Each try whose collection is stored and then raises
  -- counts itself; the answer counts once more, as a collection or as an error, unless the cache was
  -- fresh.
  pub collect_answers :
      (fetch : ℕ → Fetch D) (times : ℕ → ℕ) (empty : D) (now : ℕ) (c : BaseCollector D)
      → let r = collect truthy fetch times empty now c in
        (r.1 ≡ answer fetch empty now c)
        × ((is_some r.1 ≡ true) ⊎ (1024 < c.max_retries))
        × (r.0.total_collections + r.0.total_errors
            ≡ c.total_collections
              + c.total_errors
              + (if is_some (fresh truthy now c)
                  then 0
                  else spoiled fetch (tries_of c) 0 + (if is_some r.1 then 1 else 0)))
  collect_answers fetch times empty now c = elim (Option-cases (fresh truthy now c)) [
    | inl old ↦
        let t = collect-Tried fetch times empty now c old in
        let o = first_success fetch (tries_of c) 0 in
        rw (old, answer)
          (
            t.answered,
            (elim (answer_or_stop empty o (stops_of c) (last_stored fetch (tries_of c) 0 c.cache)) [
              | inl there ↦ inl (rw t.answered there)
              | inr stopped ↦ inr (stops_over c stopped)
            ]),
            omega (arith, t.counted),
          )
    | inr (found, e) ↦
        rw (collect_cached fetch times empty now c found e, e, answer) (refl, inl refl, omega arith)
  ]

  -- a collection that fetches keeps what it answers
  collect_fetched :
      (fetch : ℕ → Fetch D) (times : ℕ → ℕ) (empty : D) (now attempt : ℕ) (c : BaseCollector D)
      (found : D)
      → fresh truthy now c ≡ none
      → first_success fetch (tries_of c) 0 ≡ some (attempt, found)
      → let r = collect truthy fetch times empty now c in
        (r.1 ≡ some found) × Kept truthy times c.cache_ttl (some (attempt, found)) r.0
  collect_fetched fetch times empty now attempt c found old e =
      let r = collect truthy fetch times empty now c in
      let t = collect-Tried fetch times empty now c old in
      let stored = last_stored fetch (tries_of c) 0 c.cache in
      (
        subst (λ o. r.1 ≡ tried_answer truthy empty o (stops_of c) stored) e t.answered,
        subst (λ o. Kept truthy times c.cache_ttl o r.0) e t.kept,
      )

  -- a cache that is still fresh
  fresh_kept :
      (later : ℕ) (c : BaseCollector D) (found : D)
      → c.cache ≡ some found
      → truthy found ≡ true
      → later < c.cache_time + c.cache_ttl
      → fresh truthy later c ≡ some found
  unfolding fresh
  fresh_kept later c found kept full soon = rw (kept, full) (ground (arith, soon))

  -- After a collection that found no fresh cache and fetched, a second one within the time to live
  -- answers the same, where Python takes the collection for true, without a try of its own,
  -- whatever `_fetch` would do, and changes nothing.
  pub collect_again :
      (fetch again : ℕ → Fetch D) (times times' : ℕ → ℕ) (empty : D) (now later attempt : ℕ)
      (c : BaseCollector D) (found : D)
      → fresh truthy now c ≡ none
      → first_success fetch (tries_of c) 0 ≡ some (attempt, found)
      → truthy found ≡ true
      → later < times attempt + c.cache_ttl
      → let r = collect truthy fetch times empty now c in
        (r.1 ≡ some found) × (collect truthy again times' empty later r.0 ≡ (r.0, some found))
  collect_again fetch again times times' empty now later attempt c found old e full soon =
      let r = collect truthy fetch times empty now c in
      let (given, rest) = collect_fetched fetch times empty now attempt c found old e in
      (
        given,
        collect_cached again times' empty later r.0 found
            (fresh_kept later r.0 found rest.0 full (omega (arith, soon, rest.1, rest.2))),
      )

  -- A collection that found no fresh cache, and fetched, answers what it fetched, and this counts as a
  -- cache hit all the same, for any test of identity under which a value is itself.
  pub fetched_is_hit :
      (same : D → D → Bool) (fetch : ℕ → Fetch D) (times : ℕ → ℕ) (empty : D) (now attempt : ℕ)
      (c : BaseCollector D) (found : D)
      → ((x : D) → same x x ≡ true)
      → fresh truthy now c ≡ none
      → first_success fetch (tries_of c) 0 ≡ some (attempt, found)
      → let r = collect truthy fetch times empty now c in
        (r.1 ≡ some found) × (is_cache_hit same found r.0 ≡ true)
  unfolding is_cache_hit
  fetched_is_hit same fetch times empty now attempt c found itself old e =
      let (given, rest) = collect_fetched fetch times empty now attempt c found old e in
      (given, rw (is_cache_hit, rest.0) (itself found))
