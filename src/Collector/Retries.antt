-- ===== src/Collector/Retries.antt =====
-- src/collectors/base.py, `collect`: the loop over the tries, with the backoff between them.
use meshforge_maps.Base.{
  ℕ, zero, suc, ◌≤◌, ◌≡◌, inl, inr, refl, ap, String, Bool, true, false, Option, none, some, arith,
  Bool-cases,
}
use meshforge_maps.Reconnect.{ReconnectStrategy, overflows, count_attempt}
use meshforge_maps.Reconnect.Limits.{overflows_two, next_delay_raises, next_delay_gives}
use meshforge_maps.Collector.{
  BaseCollector, Fetch, gives, spoils, raises, succeed, back_off, waited, retry,
}
use meshforge_maps.Collector.Tries.{
  tries, stops, Tried, Tried-gives, Tried-spoils, Tried-raises, after_failure, IsReady,
  stopped-Tried, retry_end-Tried,
}

back_off_over :
    (left now : ℕ) (strategy : ReconnectStrategy)
    → overflows strategy ≡ true
    → back_off (suc left) now strategy ≡ none
unfolding back_off
back_off_over left now strategy over = ap waited (next_delay_raises (λ _. 0) now strategy over)

back_off_under :
    (left now : ℕ) (strategy : ReconnectStrategy)
    → overflows strategy ≡ false
    → back_off (suc left) now strategy ≡ some (count_attempt now strategy)
unfolding back_off
back_off_under left now strategy under = ap waited (next_delay_gives (λ _. 0) now strategy under)

data FetchCases {D : Type 0} (f : Fetch D) : Type 0 where
  given : (found : D) → f ≡ gives found → FetchCases f
  spoilt : (found : D) (text : String) → f ≡ spoils found text → FetchCases f
  raised : (text : String) → f ≡ raises text → FetchCases f

fetch-cases : {D : Type 0} → (f : Fetch D) → FetchCases f
fetch-cases (gives found) = given found refl
fetch-cases (spoils found text) = spoilt found text refl
fetch-cases (raises text) = raised text refl

tries_step :
    (left attempt : ℕ) → attempt ≤ 1024 → tries (suc left) attempt ≡ suc (tries left (suc attempt))
tries_step left attempt low = omega (arith, low)

stops_step :
    (left attempt : ℕ) → attempt ≤ 1024 → stops (suc left) attempt ≡ stops left (suc attempt)
stops_step left attempt low = ground (arith, low)

tries_over : (left attempt : ℕ) → attempt ≡ 1024 → tries left (suc attempt) ≡ 0
tries_over left attempt full = omega (arith, full)

stops_over : (left attempt : ℕ) → attempt ≡ 1024 → stops (suc left) (suc attempt) ≡ true
stops_over left attempt full = ground (arith, full)

tries_end : (attempt : ℕ) → tries 0 attempt ≡ 0
tries_end attempt = omega arith

stops_end : (attempt : ℕ) → stops 0 attempt ≡ false
stops_end attempt = ground arith

module _ {D : Type 0} (truthy : D → Bool) where
  -- a failure when `left` tries are left, if what the tries come to is known for any strategy
  after_failure-Tried :
      (fetch : ℕ → Fetch D) (times : ℕ → ℕ) (empty : D) (left attempt now : ℕ)
      (strategy : ReconnectStrategy) (text : String) (c : BaseCollector D)
      → IsReady (suc left) attempt strategy
      → ((strategy' : ReconnectStrategy)
          → IsReady left (suc attempt) strategy'
          → Tried truthy fetch times empty
              (tries left (suc attempt))
              (stops left (suc attempt))
              (suc attempt)
              c
              (retry truthy fetch times empty left (suc attempt) strategy' text c))
      → Tried truthy fetch times empty
          (tries left (suc attempt))
          (stops left (suc attempt))
          (suc attempt)
          c
          (after_failure truthy fetch times empty left attempt (back_off left now strategy) text c)
  unfolding back_off
  after_failure-Tried fetch times empty zero attempt now strategy text c ready rest =
      rest strategy (inl refl)
  after_failure-Tried fetch times empty (suc left) attempt now strategy text c (inl done) rest =
      absurd (omega (arith, done))
  after_failure-Tried fetch times empty (suc left) attempt now strategy text c
        (inr (two, same, low)) rest =
      elim (Bool-cases (overflows strategy)) [
        | inl over ↦
            let full : attempt ≡ 1024 =
              ground (arith, overflows_two strategy two, over, same, low) in
            rw
              (
                back_off_over left now strategy over,
                tries_over (suc left) attempt full,
                stops_over left attempt full,
              )
              (stopped-Tried truthy fetch times empty (suc attempt) c)
        | inr under ↦ rw (back_off_under left now strategy under) (
            rest (count_attempt now strategy) (
              inr (
                two,
                omega (arith, same),
                ground (arith, overflows_two strategy two, under, same),
              )))
      ]

  retry_failed :
      (fetch : ℕ → Fetch D) (times : ℕ → ℕ) (empty : D) (left attempt : ℕ)
      (strategy : ReconnectStrategy) (error text : String) (c : BaseCollector D)
      → fetch attempt ≡ raises text
      → retry truthy fetch times empty (suc left) attempt strategy error c
        ≡ after_failure truthy fetch times empty left attempt
            (back_off left (times attempt) strategy)
            text
            c
  unfolding retry
  retry_failed fetch times empty left attempt strategy error text c e =
      rw (retry, e)
        (elim (back_off left (times attempt) strategy)
          as (λ o.
            (elim o as (λ _. BaseCollector D × Option D) [
              | none ↦ (c, none)
              | some s ↦ retry truthy fetch times empty left (suc attempt) s text c
            ])
            ≡ after_failure truthy fetch times empty left attempt o text c) [
              | none ↦ refl
              | some s ↦ refl
            ])

  retry_spoilt :
      (fetch : ℕ → Fetch D) (times : ℕ → ℕ) (empty : D) (left attempt : ℕ)
      (strategy : ReconnectStrategy) (error text : String) (c : BaseCollector D) (found : D)
      → fetch attempt ≡ spoils found text
      → retry truthy fetch times empty (suc left) attempt strategy error c
        ≡ after_failure truthy fetch times empty left attempt
            (back_off left (times attempt) strategy)
            text
            (succeed truthy found (times attempt) c)
  unfolding retry
  retry_spoilt fetch times empty left attempt strategy error text c found e =
      let c' = succeed truthy found (times attempt) c in
      rw (retry, e)
        (elim (back_off left (times attempt) strategy)
          as (λ o.
            (elim o as (λ _. BaseCollector D × Option D) [
              | none ↦ (c', none)
              | some s ↦ retry truthy fetch times empty left (suc attempt) s text c'
            ])
            ≡ after_failure truthy fetch times empty left attempt o text c') [
              | none ↦ refl
              | some s ↦ refl
            ])

  retry_given :
      (fetch : ℕ → Fetch D) (times : ℕ → ℕ) (empty : D) (left attempt : ℕ)
      (strategy : ReconnectStrategy) (error : String) (c : BaseCollector D) (found : D)
      → fetch attempt ≡ gives found
      → retry truthy fetch times empty (suc left) attempt strategy error c
        ≡ (succeed truthy found (times attempt) c, some found)
  unfolding retry
  retry_given fetch times empty left attempt strategy error c found e = rw (retry, e) refl

  low_attempt :
      (left attempt : ℕ) (strategy : ReconnectStrategy)
      → IsReady (suc left) attempt strategy
      → attempt ≤ 1024
  low_attempt left attempt strategy (inl done) = absurd (omega (arith, done))
  low_attempt left attempt strategy (inr (two, same, low)) = low

  pub retry-Tried :
      (fetch : ℕ → Fetch D) (times : ℕ → ℕ) (empty : D) (left attempt : ℕ)
      (strategy : ReconnectStrategy) (error : String) (c : BaseCollector D)
      → IsReady left attempt strategy
      → Tried truthy fetch times empty
          (tries left attempt)
          (stops left attempt)
          attempt
          c
          (retry truthy fetch times empty left attempt strategy error c)
  retry-Tried fetch times empty zero attempt strategy error c ready =
      rw (tries_end attempt, stops_end attempt)
        (retry_end-Tried truthy fetch times empty attempt strategy error c)
  retry-Tried fetch times empty (suc left) attempt strategy error c ready =
      let low = low_attempt left attempt strategy ready in
      let n = tries left (suc attempt) in
      let stopped = stops left (suc attempt) in
      let failed = λ (text : String) (c' : BaseCollector D).
        after_failure-Tried fetch times empty left attempt (times attempt) strategy text c' ready
          (λ s h. retry-Tried fetch times empty left (suc attempt) s text c' h) in
      rw (tries_step left attempt low, stops_step left attempt low)
        (elim (fetch-cases (fetch attempt)) [
          | given found e ↦
              rw (retry_given fetch times empty left attempt strategy error c found e)
                (Tried-gives truthy fetch times empty n stopped attempt c found e)
          | spoilt found text e ↦
              rw (retry_spoilt fetch times empty left attempt strategy error text c found e) (
                Tried-spoils truthy fetch times empty n stopped attempt c found text _ e
                  (failed text (succeed truthy found (times attempt) c)))
          | raised text e ↦
              rw (retry_failed fetch times empty left attempt strategy error text c e)
                (Tried-raises truthy fetch times empty n stopped attempt c text _ e (failed text c))
        ])
