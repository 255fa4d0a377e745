-- ===== src/MqttSubscriber/Fate.antt =====
-- src/collectors/mqtt_subscriber.py, `_run_loop`: how its thread ends.
use mathlib.Core.Path.{subst}
use meshforge_maps.Base.{
  ℕ, ◌+◌, ◌≡◌, ◌≢◌, ◌∙◌, refl, ap, sym, Bool, true, false, List, [], ◌∷◌, arith, ltb, leb, not,
  if◌then◌else◌, Bool-cases, inl, inr,
}
use meshforge_maps.Reconnect.{ReconnectStrategy, overflows, count_attempt, reset}
use meshforge_maps.Reconnect.Limits.{overflows_two, next_delay_raises, next_delay_gives}
use meshforge_maps.MqttSubscriber.Loop.{
  Status, running, stopped, crashed, Loop, Round, held, lost, clean_up, with_status, wait_with,
  round, turn, run,
}

-- What becomes of the loop, by the number of failures since a connection was last held for more than 30
-- seconds.
abbrev pub fate : ℕ → List (Bool × Round × ℕ) → Status
fate n [] = running
fate n ((is_set, held opened closed, now) ∷ turns) =
    let rest = fate (if ltb (opened + 30) closed then 0 else n) turns in
    if not is_set then stopped else rest
fate n ((is_set, lost time is_running stopping, now) ∷ turns) =
    let rest = fate (n + 1) turns in
    if not is_set
    then stopped
    else if not is_running
    then stopped
    else if leb 1024 n
    then crashed
    else if stopping
    then stopped
    else rest

clean_up_keeps :
    (now : ℕ) (l : Loop)
    → ((clean_up now l).status ≡ l.status) × ((clean_up now l).strategy ≡ l.strategy)
unfolding clean_up
clean_up_keeps now l = ground arith

-- one step of `run`, by the status
abbrev go_on : (ℕ → ℕ) → Loop → Bool → Round → ℕ → List (Bool × Round × ℕ) → Status → Loop
go_on uniform l is_set r now turns running = run uniform (turn uniform is_set r now l) turns
go_on uniform l is_set r now turns stopped = l
go_on uniform l is_set r now turns crashed = l

run_step :
    (uniform : ℕ → ℕ) (l : Loop) (is_set : Bool) (r : Round) (now : ℕ)
    (turns : List (Bool × Round × ℕ))
    → run uniform l ((is_set, r, now) ∷ turns) ≡ go_on uniform l is_set r now turns l.status
unfolding run
run_step uniform l is_set r now turns = ground arith

run_on_status :
    (uniform : ℕ → ℕ) (l : Loop) (is_set : Bool) (r : Round) (now : ℕ)
    (turns : List (Bool × Round × ℕ)) (s : Status)
    → l.status ≡ s
    → (run uniform l ((is_set, r, now) ∷ turns)).status
      ≡ (go_on uniform l is_set r now turns s).status
run_on_status uniform l is_set r now turns s e =
    ap (λ (x : Loop). x.status)
      (run_step uniform l is_set r now turns ∙ ap (go_on uniform l is_set r now turns) e)

-- a loop that is over stays so
run_over :
    (uniform : ℕ → ℕ) (l : Loop) (turns : List (Bool × Round × ℕ)) (s : Status)
    → l.status ≡ s
    → s ≢ running
    → (run uniform l turns).status ≡ s
unfolding run
run_over uniform l [] s e over = e
run_over uniform l ((is_set, r, now) ∷ turns) running e over = absurd (over refl)
run_over uniform l ((is_set, r, now) ∷ turns) stopped e over =
    run_on_status uniform l is_set r now turns stopped e ∙ e
run_over uniform l ((is_set, r, now) ∷ turns) crashed e over =
    run_on_status uniform l is_set r now turns crashed e ∙ e

-- What is asked of a loop that runs: its delays double, and it has failed `n` times in a row.
pub record Failed (n : ℕ) (l : Loop) : Type 0 where
  pub runs : l.status ≡ running
  pub doubles : l.strategy.multiplier ≡ 2
  pub times : l.strategy.attempt ≡ n

clean_up-Failed : (n now : ℕ) (l : Loop) → Failed n l → Failed n (clean_up now l)
clean_up-Failed n now l f =
    let (same_status, same_strategy) = clean_up_keeps now l in
    record {
      runs = same_status ∙ f.runs;
      doubles = ap (λ (s : ReconnectStrategy). s.multiplier) same_strategy ∙ f.doubles;
      times = ap (λ (s : ReconnectStrategy). s.attempt) same_strategy ∙ f.times;
    }

held-Failed :
    (uniform : ℕ → ℕ) (n opened closed now : ℕ) (l : Loop)
    → Failed n l
    → Failed (if ltb (opened + 30) closed then 0 else n) (round uniform (held opened closed) now l)
unfolding round reset
held-Failed uniform n opened closed now l f = elim (Bool-cases (ltb (opened + 30) closed)) [
  | inl stable ↦ rw stable (
      clean_up-Failed 0 now (record l { strategy = record l.strategy { attempt = 0 } })
        (record { runs = f.runs; doubles = f.doubles; times = refl }))
  | inr brief ↦ rw brief (
      clean_up-Failed n now (record l { strategy = l.strategy })
        (record { runs = f.runs; doubles = f.doubles; times = f.times }))
]

-- a turn at whose start `_running` is set, and one at whose start it is not
run_on :
    (uniform : ℕ → ℕ) (l : Loop) (r : Round) (now : ℕ) (turns : List (Bool × Round × ℕ))
    → l.status ≡ running
    → (run uniform l ((true, r, now) ∷ turns)).status
      ≡ (run uniform (round uniform r now l) turns).status
unfolding turn
run_on uniform l r now turns on = run_on_status uniform l true r now turns running on

run_off :
    (uniform : ℕ → ℕ) (l : Loop) (r : Round) (now : ℕ) (turns : List (Bool × Round × ℕ))
    → l.status ≡ running
    → (run uniform l ((false, r, now) ∷ turns)).status ≡ stopped
unfolding turn
run_off uniform l r now turns on =
    run_on_status uniform l false r now turns running on
    ∙ run_over uniform (with_status stopped l) turns stopped refl (cc)

-- the wait after an exception, which raises or not
lost_raises :
    (uniform : ℕ → ℕ) (time now : ℕ) (stopping : Bool) (l : Loop)
    → overflows l.strategy ≡ true
    → round uniform (lost time true stopping) now l ≡ with_status crashed l
unfolding round
lost_raises uniform time now stopping l e =
    ap (λ o. wait_with o stopping now l) (next_delay_raises uniform time l.strategy e)

lost-Failed :
    (uniform : ℕ → ℕ) (n time now : ℕ) (l : Loop)
    → overflows l.strategy ≡ false
    → Failed n l
    → Failed (n + 1) (round uniform (lost time true false) now l)
unfolding round
lost-Failed uniform n time now l e f =
    subst (λ o. Failed (n + 1) (wait_with o false now l))
      (sym (next_delay_gives uniform time l.strategy e))
      (clean_up-Failed (n + 1) now (record l { strategy = count_attempt time l.strategy })
        (record { runs = f.runs; doubles = f.doubles; times = omega (arith, f.times) }))

lost_stops :
    (uniform : ℕ → ℕ) (time now : ℕ) (l : Loop)
    → overflows l.strategy ≡ false
    → (round uniform (lost time true true) now l).status ≡ stopped
unfolding round
lost_stops uniform time now l e =
    ap (λ o. (wait_with o true now l).status) (next_delay_gives uniform time l.strategy e)

lost_goes_on :
    (uniform : ℕ → ℕ) (n time now : ℕ) (stopping : Bool) (l : Loop)
    (turns : List (Bool × Round × ℕ))
    → overflows l.strategy ≡ false
    → (run uniform (round uniform (lost time true false) now l) turns).status ≡ fate (n + 1) turns
    → (run uniform (round uniform (lost time true stopping) now l) turns).status
      ≡ (if stopping then stopped else fate (n + 1) turns)
lost_goes_on uniform n time now true l turns gives rest =
    run_over uniform (round uniform (lost time true true) now l) turns stopped
      (lost_stops uniform time now l gives) (cc)
lost_goes_on uniform n time now false l turns gives rest = rest

-- The loop goes on, stops, or ends with an OverflowError as `_running`, the stop event and the number of its
-- failures since a connection was last held for more than 30 seconds say: it stops where `_running` is not set,
-- at the start of a turn or after an exception; with 1024 failures, the next one ends it with the
-- OverflowError; else it stops where the stop event is set after the wait.
pub loop_fate :
    (uniform : ℕ → ℕ) (n : ℕ) (l : Loop) (turns : List (Bool × Round × ℕ))
    → Failed n l
    → (run uniform l turns).status ≡ fate n turns
loop_fate uniform n l [] f = unfold run in f.runs
loop_fate uniform n l ((false, held opened closed, now) ∷ turns) f =
    run_off uniform l (held opened closed) now turns f.runs
loop_fate uniform n l ((false, lost time is_running stopping, now) ∷ turns) f =
    run_off uniform l (lost time is_running stopping) now turns f.runs
loop_fate uniform n l ((true, held opened closed, now) ∷ turns) f =
    run_on uniform l (held opened closed) now turns f.runs
    ∙ loop_fate uniform (if ltb (opened + 30) closed then 0 else n)
        (round uniform (held opened closed) now l) turns
        (held-Failed uniform n opened closed now l f)
loop_fate uniform n l ((true, lost time false stopping, now) ∷ turns) f =
    run_on uniform l (lost time false stopping) now turns f.runs
    ∙ run_over uniform (round uniform (lost time false stopping) now l) turns stopped
        (unfold round in refl) (cc)
loop_fate uniform n l ((true, lost time true stopping, now) ∷ turns) f =
    run_on uniform l (lost time true stopping) now turns f.runs ∙ elim (Bool-cases (leb 1024 n)) [
      | inl over ↦
          let raises : overflows l.strategy ≡ true =
            ground (arith, over, f.times, overflows_two l.strategy f.doubles) in
          rw over (
            run_over uniform (round uniform (lost time true stopping) now l) turns crashed
              (ap (λ (x : Loop). x.status) (lost_raises uniform time now stopping l raises)) (cc))
      | inr under ↦
          let gives : overflows l.strategy ≡ false =
            ground (arith, under, f.times, overflows_two l.strategy f.doubles) in
          rw under (
            lost_goes_on uniform n time now stopping l turns gives (
              loop_fate uniform (n + 1) (round uniform (lost time true false) now l) turns
                (lost-Failed uniform n time now l gives f)))
    ]
