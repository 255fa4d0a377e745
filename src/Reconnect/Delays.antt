-- ===== src/Reconnect/Delays.antt =====
-- src/utils/reconnect.py: the delays of a run of failures.
use native.Mathlib.Nat.{mul-add, mul-le-mul_right}
use mathlib.Core.Path.{subst}
use meshforge_maps.Base.{
  ℕ, suc, ◌+◌, ◌*◌, ◌^◌, ◌≤◌, ◌≡◌, refl, ◌∙◌, sym, ap, min, Option, none, some, List, [], ◌∷◌,
  arith, ltb, length, Bool-cases, Option-cases, inl, inr,
}
use meshforge_maps.Reconnect.{
  ReconnectStrategy, overflows, capped_delay, count_attempt, failures, should_retry, for_collector,
}
use meshforge_maps.Reconnect.Limits.{failures_step, failures_raise, failures_borne, then_delay}

-- the delay before the failure `n`, without jitter
abbrev pub delay_at : ReconnectStrategy → ℕ → ℕ
delay_at r n = min (r.base_delay * r.multiplier ^ n) r.max_delay

-- Each delay is what the backoff says, plus at most the jitter.
abbrev pub IsBackoff : ReconnectStrategy → ℕ → List ℕ → Type 0
IsBackoff r n [] = Unit
IsBackoff r n (delay ∷ delays) =
    (delay_at r n * 100 ≤ delay)
    × (delay ≤ delay_at r n * (100 + r.jitter_factor))
    × (delay ≤ r.max_delay * (100 + r.jitter_factor))
    × IsBackoff r (suc n) delays

-- the outcome of a run of failures
pub record Ran (r : ReconnectStrategy) (times : List ℕ) (r' : ReconnectStrategy) (delays : List ℕ)
    : Type 0 where
  pub attempts : r'.attempt ≡ r.attempt + length times
  pub total : r'.total_attempts ≡ r.total_attempts + length times
  pub bound : r'.max_retries ≡ r.max_retries
  pub one_each : length delays ≡ length times
  pub backoff : IsBackoff r r.attempt delays

IsBackoff-count_attempt :
    (now : ℕ) (r : ReconnectStrategy) (n : ℕ) (delays : List ℕ)
    → IsBackoff (count_attempt now r) n delays
    → IsBackoff r n delays
IsBackoff-count_attempt now r n [] h = tt
IsBackoff-count_attempt now r n (delay ∷ delays) h =
    (h.0, h.1, h.2, IsBackoff-count_attempt now r (suc n) delays h.3)

then_delay_given :
    (delay : ℕ) (o : Option (ReconnectStrategy × List ℕ)) (r : ReconnectStrategy) (delays : List ℕ)
    → then_delay delay o ≡ some (r, delays)
    → (rest : List ℕ) × (o ≡ some (r, rest)) × (delays ≡ delay ∷ rest)
then_delay_given delay none r delays e = absurd (cc)
then_delay_given delay (some (r', rest)) r delays e = (rest, ground arith, ground arith)

-- one delay between the backoff and the jitter on top of it
one_delay :
    (uniform : ℕ → ℕ) (r : ReconnectStrategy)
    → ((n : ℕ) → uniform n ≤ n)
    → let delay = capped_delay r * 100 + uniform (capped_delay r * r.jitter_factor) in
      (delay_at r r.attempt * 100 ≤ delay)
      × (delay ≤ delay_at r r.attempt * (100 + r.jitter_factor))
      × (delay ≤ r.max_delay * (100 + r.jitter_factor))
unfolding capped_delay
one_delay uniform r fair =
    let c : ℕ = delay_at r r.attempt in
    let capped : c ≤ r.max_delay = omega arith in
    (
      omega arith,
      omega (arith, fair (c * r.jitter_factor), mul-add c 100 r.jitter_factor),
      omega (
        arith,
        fair (c * r.jitter_factor),
        mul-add c 100 r.jitter_factor,
        mul-le-mul_right (100 + r.jitter_factor) capped,
      ),
    )

failures_nil : (uniform : ℕ → ℕ) (r : ReconnectStrategy) → failures uniform r [] ≡ some (r, [])
unfolding failures
failures_nil uniform r = refl

-- With a `uniform` that stays within its bound, a run of failures that does not raise gives one delay
-- for each of them: the delay at attempt n is base * multiplier ^ n, capped at `max_delay`, plus at
-- most its jitter, and never more than `max_delay` plus its jitter; and every failure is counted.
pub failures-Ran :
    (uniform : ℕ → ℕ) (r : ReconnectStrategy) (times : List ℕ) (r' : ReconnectStrategy)
    (delays : List ℕ)
    → ((n : ℕ) → uniform n ≤ n)
    → failures uniform r times ≡ some (r', delays)
    → Ran r times r' delays
failures-Ran uniform r [] r' delays fair e =
    let given : ◌≡◌ {A = Option (ReconnectStrategy × List ℕ)} (some (r, [])) (some (r', delays)) =
      sym (failures_nil uniform r) ∙ e in
    let same : r ≡ r' = ground arith in
    let no_delays : ◌≡◌ {A = List ℕ} [] delays = ground arith in
    subst (λ x. Ran r [] x delays) same
      (subst (Ran r [] r) no_delays (record {
        attempts = omega arith;
        total = omega arith;
        bound = refl;
        one_each = refl;
        backoff = tt;
      }))
failures-Ran uniform r (now ∷ times) r' delays fair e = elim (Bool-cases (overflows r)) [
  | inl over ↦ absurd (ground (arith, e, failures_raise uniform now times r over))
  | inr under ↦
      let delay : ℕ = capped_delay r * 100 + uniform (capped_delay r * r.jitter_factor) in
      let (rest, later, split) =
        then_delay_given delay (failures uniform (count_attempt now r) times) r' delays
          (sym (failures_step uniform now times r under) ∙ e) in
      let ran = failures-Ran uniform (count_attempt now r) times r' rest fair later in
      let (low, high, top) = one_delay uniform r fair in
      record {
        attempts = omega (arith, ran.attempts);
        total = omega (arith, ran.total);
        bound = ran.bound;
        one_each = rw split (ap suc ran.one_each);
        backoff = rw split (
          low,
          high,
          top,
          IsBackoff-count_attempt now r (suc r.attempt) rest (ground (arith, ran.backoff)),
        );
      }
]

-- With a `uniform` that stays within its bound, at most 1024 failures of a new collector strategy do
-- not raise, and after them a retry is allowed exactly if they were fewer than 3.
pub collector_retries :
    (uniform : ℕ → ℕ) (times : List ℕ)
    → ((n : ℕ) → uniform n ≤ n)
    → length times ≤ 1024
    → (r : ReconnectStrategy) × (delays : List ℕ) × (failures uniform for_collector times
        ≡ some (r, delays))
      × (should_retry r ≡ ltb (length times) 3)
unfolding should_retry
collector_retries uniform times fair few =
    elim (Option-cases (failures uniform for_collector times)) [
      | inl raised ↦
          absurd
            (ground (arith, raised, failures_borne uniform for_collector times refl (omega arith)))
      | inr ((r, delays), e) ↦
          let ran = failures-Ran uniform for_collector times r delays fair e in
          (r, delays, e, rw ran.bound (ground (arith, ran.attempts)))
    ]
