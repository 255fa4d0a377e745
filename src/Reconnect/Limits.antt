-- ===== src/Reconnect/Limits.antt =====
-- src/utils/reconnect.py: how many failures in a row a strategy bears.
use native.Mathlib.Nat.{pow-le-pow_right}
use meshforge_maps.Base.{
  ℕ, ◌+◌, ◌*◌, ◌^◌, ◌≤◌, ◌≡◌, refl, true, false, Option, none, some, List, [], ◌∷◌, leb, arith,
  is_some, length, Bool-cases, Option-cases, inl, inr,
}
use meshforge_maps.Reconnect.{
  ReconnectStrategy, overflows, capped_delay, count_attempt, next_delay, failures,
}

-- with the multiplier 2, the power is out of range from the attempt 1024 on
pub overflows_two : (r : ReconnectStrategy) → r.multiplier ≡ 2 → overflows r ≡ leb 1024 r.attempt
unfolding overflows
overflows_two r two = rw two (elim (Bool-cases (leb 1024 r.attempt)) [
  | inl over ↦
      let high : 1024 ≤ r.attempt = ground arith in
      let big : 2 ^ 1024 ≤ 2 ^ r.attempt = pow-le-pow_right (omega arith) high in
      ground (arith, big)
  | inr under ↦
      let low : r.attempt ≤ 1023 = ground arith in
      let small : 2 ^ r.attempt ≤ 2 ^ 1023 = pow-le-pow_right (omega arith) low in
      ground (arith, small)
])

pub next_delay_raises :
    (uniform : ℕ → ℕ) (now : ℕ) (r : ReconnectStrategy)
    → overflows r ≡ true
    → next_delay uniform now r ≡ none
unfolding next_delay
next_delay_raises uniform now r e = rw e refl

pub next_delay_gives :
    (uniform : ℕ → ℕ) (now : ℕ) (r : ReconnectStrategy)
    → overflows r ≡ false
    → next_delay uniform now r
      ≡ some
          (count_attempt now r, capped_delay r * 100 + uniform (capped_delay r * r.jitter_factor))
unfolding next_delay
next_delay_gives uniform now r e = rw e refl

pub failures_raise :
    (uniform : ℕ → ℕ) (now : ℕ) (times : List ℕ) (r : ReconnectStrategy)
    → overflows r ≡ true
    → failures uniform r (now ∷ times) ≡ none
unfolding failures
failures_raise uniform now times r e = rw (next_delay_raises uniform now r e, failures) refl

-- the delays that a run adds to
abbrev pub then_delay :
    ℕ → Option (ReconnectStrategy × List ℕ) → Option (ReconnectStrategy × List ℕ)
then_delay delay none = none
then_delay delay (some (r, delays)) = some (r, delay ∷ delays)

pub failures_step :
    (uniform : ℕ → ℕ) (now : ℕ) (times : List ℕ) (r : ReconnectStrategy)
    → overflows r ≡ false
    → failures uniform r (now ∷ times)
      ≡ then_delay
          (capped_delay r * 100 + uniform (capped_delay r * r.jitter_factor))
          (failures uniform (count_attempt now r) times)
unfolding failures
failures_step uniform now times r e =
    rw (next_delay_gives uniform now r e, failures)
      (elim (Option-cases (failures uniform (count_attempt now r) times)) [
        | inl raised ↦ rw raised refl
        | inr (out, given) ↦ rw given refl
      ])

is_some-then_delay :
    (delay : ℕ) (o : Option (ReconnectStrategy × List ℕ)) → is_some (then_delay delay o) ≡ is_some o
is_some-then_delay delay none = refl
is_some-then_delay delay (some x) = refl

-- A strategy that doubles its delay, as every one of the program does, and has at most 1024
-- attempts since its last reset, bears a run of failures exactly if it brings the attempts to no
-- more than 1024; one failure more raises.
pub failures_borne :
    (uniform : ℕ → ℕ) (r : ReconnectStrategy) (times : List ℕ)
    → r.multiplier ≡ 2
    → r.attempt ≤ 1024
    → is_some (failures uniform r times) ≡ leb (r.attempt + length times) 1024
failures_borne uniform r [] two low = unfold failures in ground arith
failures_borne uniform r (now ∷ times) two low = elim (Bool-cases (overflows r)) [
  | inl over ↦
      rw (failures_raise uniform now times r over) (ground (arith, over, overflows_two r two))
  | inr under ↦
      let lower : (count_attempt now r).attempt ≤ 1024 =
        ground (arith, under, overflows_two r two) in
      let rest = failures_borne uniform (count_attempt now r) times two lower in
      rw (failures_step uniform now times r under) (
        ground (
          arith,
          rest,
          is_some-then_delay (capped_delay r * 100 + uniform (capped_delay r * r.jitter_factor))
              (failures uniform (count_attempt now r) times),
        ))
]
