-- ===== src/NodeHistory/Refinement.antt =====
-- src/utils/node_history.py: any sequence of observations, batches and prunings against the specification.
-- The caches are never observed.
use meshforge_maps.Base.{
  ℕ, ◌-◌, ◌≡◌, refl, ap, Bool, true, false, Option, none, some, List, [], ◌∷◌, arith, if◌then◌else◌,
  Bool-cases, if_both, if_split, ◌∙◌, inl, inr, filter, ltb, length, map, not, ◌||◌, ◌==◌, get_or,
  length-filter_le,
}
use meshforge_maps.Dict.{lookup}
use meshforge_maps.NodeHistory.{
  Arithmetic, Row, NodeHistoryDb, Exec, ok, sql_error, value_error, chain, write_row,
}
use meshforge_maps.NodeHistory.Methods.{
  Observation, write_all, finish, Answer, returned, raised, handle, record_observation,
  record_observations_batch, is_kept, cutoff, delete_before, prune_old_data,
}
use meshforge_maps.NodeHistory.Caches.{calm}
use meshforge_maps.NodeHistory.Specification.{
  Tables, tables_of, spec_write, spec_all, IsValid, Follows, write_row-Follows, write_all-Follows,
}

-- what is asked of the database, each with the clock of the call
pub data Event : Type 0 where
  observe : Row → ℕ → Event
  batch : List Observation → ℕ → Event
  prune : Option ℕ → ℕ → Event

pub data Reply : Type 0 where
  observed : Answer Bool → Reply
  batched : Answer ℕ → Reply
  pruned : ℕ → Reply

unfoldable pub step : Arithmetic → NodeHistoryDb → Event → NodeHistoryDb × Reply
step m d (observe row clock) =
    let (d', answer) = record_observation m calm clock row d in (d', observed answer)
step m d (batch observations clock) =
    let (d', answer) =
      record_observations_batch m none clock (map (λ o. (o, calm)) observations) d in
    (d', batched answer)
step m d (prune before clock) =
    let (d', deleted) = prune_old_data none none before clock d in (d', pruned deleted)

unfoldable pub run : Arithmetic → NodeHistoryDb → List Event → NodeHistoryDb × List Reply
run m d [] = (d, [])
run m d (e ∷ events) =
    let (d', reply) = step m d e in let (d'', later) = run m d' events in (d'', reply ∷ later)

abbrev pub answer_of : {A : Type 0} → Option A → Answer A
answer_of none = raised
answer_of (some a) = returned a

abbrev pub spec_prune : ℕ → Tables → Tables × Reply
spec_prune before t =
    let kept = filter (is_kept before) t.rows in
    (record t { rows = kept }, pruned (length t.rows - length kept))

unfoldable pub spec_step : Arithmetic → Tables → Event → Tables × Reply
spec_step m t (observe row clock) =
    let (t', moved) = spec_write m row t in
    (t', observed (answer_of (elim moved [ none ↦ none | some _ ↦ some true ])))
spec_step m t (batch observations clock) =
    let (t', n) = spec_all m clock 0 observations t in (t', batched (answer_of n))
spec_step m t (prune before clock) = spec_prune (get_or before (clock - t.retention)) t

unfoldable pub spec_run : Arithmetic → Tables → List Event → Tables × List Reply
spec_run m t [] = (t, [])
spec_run m t (e ∷ events) =
    let (t', reply) = spec_step m t e in
    let (t'', later) = spec_run m t' events in (t'', reply ∷ later)

abbrev pub SameStep : NodeHistoryDb × Reply → Tables × Reply → Type 0
SameStep x s = (tables_of x.0 ≡ s.0) × (x.1 ≡ s.1) × IsValid x.0

-- the commit, and what the caller gets
handle-observed :
    (clock : ℕ) (x : Exec Bool) (s : Tables × Option Bool)
    → Follows x s
    → SameStep
        (let (d', answer) =
            handle clock false (
              chain x (λ d' appended. chain (finish none appended d') (λ d'' _. (d'', ok true)))) in
          (d', observed answer))
        (s.0, observed (answer_of (elim s.1 [ none ↦ none | some _ ↦ some true ])))
unfolding finish
handle-observed clock (d, ok a) (t, some b) h = (h.0, refl, h.2)
handle-observed clock (d, ok a) (t, none) h = absurd (cc (h.1))
handle-observed clock (d, value_error) (t, none) h = (h.0, refl, h.2)
handle-observed clock (d, value_error) (t, some b) h = absurd (cc (h.1))
handle-observed clock (d, sql_error e) (t, none) h = absurd (cc (h.1))
handle-observed clock (d, sql_error e) (t, some b) h = absurd (cc (h.1))

handle-batched :
    (clock : ℕ) (x : Exec ℕ) (s : Tables × Option ℕ)
    → Follows x s
    → SameStep
        (let (d', answer) =
            handle clock 0
              (chain x (λ d' n. chain (finish none (ltb 0 n) d') (λ d'' _. (d'', ok n)))) in
          (d', batched answer))
        (s.0, batched (answer_of s.1))
unfolding finish
handle-batched clock (d, ok a) (t, some b) h = (h.0, ap batched (cc (h.1)), h.2)
handle-batched clock (d, ok a) (t, none) h = absurd (cc (h.1))
handle-batched clock (d, value_error) (t, none) h = (h.0, refl, h.2)
handle-batched clock (d, value_error) (t, some b) h = absurd (cc (h.1))
handle-batched clock (d, sql_error e) (t, none) h = absurd (cc (h.1))
handle-batched clock (d, sql_error e) (t, some b) h = absurd (cc (h.1))

filter_all :
    (p : Row → Bool) (rows : List Row)
    → length rows - length (filter p rows) ≡ 0
    → filter p rows ≡ rows
filter_all p [] h = refl
filter_all p (row ∷ rows) h = ground (arith, filter_all p rows, length-filter_le p rows)

delete_before-SameStep :
    (before : ℕ) (d : NodeHistoryDb)
    → IsValid d
    → SameStep
        (let (d', deleted) = delete_before before d in (d', pruned deleted))
        (spec_prune before (tables_of d))
unfolding delete_before lookup
delete_before-SameStep before d v =
    let gone : ℕ = length d.trajectory - length (filter (is_kept before) d.trajectory) in
    elim (Bool-cases (ltb 0 gone)) [
      | inl some_gone ↦ rw some_gone (refl, refl, (v.0, v.1, λ k. tt))
      | inr all_kept ↦
          rw (all_kept, filter_all (is_kept before) d.trajectory (ground arith)) (refl, refl, v)
    ]

if_not {ℓ κ} :
    {A : Type ℓ} (P : A → Type κ) (b : Bool) (x y : A) → b ≡ true → P y → P (if not b then x else y)
if_not P true x y on p = p
if_not P false x y on p = absurd (cc)

step-SameStep :
    (m : Arithmetic) (d : NodeHistoryDb) (e : Event)
    → IsValid d
    → SameStep (step m d e) (spec_step m (tables_of d) e)
unfolding step spec_step record_observation record_observations_batch prune_old_data
step-SameStep m d (observe row clock) v =
    if_not
      (λ (x : NodeHistoryDb × Answer Bool).
        SameStep (x.0, observed x.1) (spec_step m (tables_of d) (observe row clock)))
      d.connected (d, returned false) _ v.0
      (handle-observed clock (write_row m calm row d) _ (write_row-Follows m row d v))
step-SameStep m d (batch [] clock) v =
    if_both
      (λ (x : NodeHistoryDb × Answer ℕ).
        SameStep (x.0, batched x.1) (spec_step m (tables_of d) (batch [] clock)))
      (not d.connected || true) (d, returned 0) _
      (unfold spec_all in refl, unfold spec_all in refl, v)
      (handle-batched clock (write_all m clock 0 [] d) _ (write_all-Follows m clock 0 [] d v))
step-SameStep m d (batch (o ∷ rest) clock) v =
    if_split
      (λ (x : NodeHistoryDb × Answer ℕ).
        SameStep (x.0, batched x.1) (spec_step m (tables_of d) (batch (o ∷ rest) clock)))
      (not d.connected || (length (map (λ o. (o, calm)) (o ∷ rest)) == 0)) (d, returned 0) _
      (λ off. absurd (ground (arith, v.0)))
      (λ on.
        handle-batched clock (write_all m clock 0 (map (λ o. (o, calm)) (o ∷ rest)) d) _
          (write_all-Follows m clock 0 (o ∷ rest) d v))
step-SameStep m d (prune before clock) v =
    if_not
      (λ (x : NodeHistoryDb × ℕ).
        SameStep (x.0, pruned x.1) (spec_step m (tables_of d) (prune before clock)))
      d.connected (d, 0) _ v.0 (delete_before-SameStep (cutoff before clock d) d v)

-- Whatever is observed, alone or in batches, and pruned, while no statement fails: a connected database
-- with a positive cap, whose caches agree with its table, answers every call as the specification does,
-- has the same two tables, and its caches agree with them again.
pub run-refines :
    (m : Arithmetic) (d : NodeHistoryDb) (events : List Event)
    → IsValid d
    → (tables_of (run m d events).0 ≡ (spec_run m (tables_of d) events).0)
      × ((run m d events).1 ≡ (spec_run m (tables_of d) events).1)
      × IsValid (run m d events).0
unfolding run spec_run
run-refines m d [] v = (refl, refl, v)
run-refines m d (e ∷ events) v =
    let (tables, reply, v') = step-SameStep m d e v in
    let (tables', replies, v'') = run-refines m (step m d e).0 events v' in
    (tables' ∙ ap (λ t. (spec_run m t events).0) tables, cc (reply, replies, tables), v'')
