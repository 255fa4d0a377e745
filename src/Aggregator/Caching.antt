-- ===== src/Aggregator/Caching.antt =====
-- src/collectors/aggregator.py, `collect_all`: the result that is kept, and a cycle that raises.
use meshforge_maps.Base.{
  ℕ, ◌+◌, ◌<◌, ◌≡◌, refl, ap, sym, ◌∙◌, Option, none, some, List, [], arith, Option-cases, inl, inr,
}
use mathlib.Core.Path.{subst}
use meshforge_maps.Collector.{Feature}
use meshforge_maps.Aggregator.{
  Sources, View, Aggregate, DataAggregator, World, Cycle, aggregate_of, finish, cached, collect_now,
  collect_all,
}
use meshforge_maps.Aggregator.Merging.{collect_all_runs}

module _ {C : Type 0} (ops : Sources C) (view : Feature → View) where
  -- a fresh result is the answer, and nothing changes
  collect_all-cached :
      (w : World) (d : DataAggregator C) (a : Aggregate)
      → cached w.monotonic d ≡ some a
      → collect_all ops view w d ≡ (d, some (a, []))
  unfolding collect_all
  collect_all-cached w d a e = rw (collect_all, e) refl

  finish-cached :
      (w : World) (now : ℕ) (cycle : Cycle C) (kept : Option (List Feature)) (d : DataAggregator C)
      (a : Aggregate) (recorded : List Feature)
      → (finish w cycle kept d).1 ≡ some (a, recorded)
      → now < w.finished + 2
      → cached now (finish w cycle kept d).0 ≡ some a
  unfolding finish cached
  finish-cached w now cycle none d a recorded e early = absurd (cc)
  finish-cached w now cycle (some features) d a recorded e early =
      let same : aggregate_of cycle features ≡ a = cc in ground (arith, early, same)

  -- For two seconds after a cycle that gave a result, every collection answers that result: no source is
  -- asked, nothing changes, and nothing is recorded.
  pub result_reused :
      (w later : World) (d : DataAggregator C) (a : Aggregate) (recorded : List Feature)
      → cached w.monotonic d ≡ none
      → (collect_all ops view w d).1 ≡ some (a, recorded)
      → later.monotonic < w.finished + 2
      → collect_all ops view later (collect_all ops view w d).0
        ≡ ((collect_all ops view w d).0, some (a, []))
  unfolding collect_now
  result_reused w later d a recorded stale e early =
      let runs = collect_all_runs ops view w d stale in
      collect_all-cached later (collect_all ops view w d).0 a (
        ap
          (λ (x : DataAggregator C × Option (Aggregate × List Feature)). cached later.monotonic x.0)
          runs
        ∙ finish-cached w later.monotonic _ _ d a recorded
            (ap (λ (x : DataAggregator C × Option (Aggregate × List Feature)). x.1) (sym runs) ∙ e)
            early)

  -- what stays when a cycle raises
  abbrev pub SameCaches : DataAggregator C → DataAggregator C → Type 0
  SameCaches d d' =
      (d'.cached_result ≡ d.cached_result)
      × (d'.cached_result_time ≡ d.cached_result_time)
      × (d'.cached_json ≡ d.cached_json)
      × (d'.cached_overlay ≡ d.cached_overlay)
      × (d'.last_collect_counts ≡ d.last_collect_counts)
      × (d'.last_collect_time ≡ d.last_collect_time)

  finish-SameCaches :
      (w : World) (cycle : Cycle C) (kept : Option (List Feature)) (d : DataAggregator C)
      → (finish w cycle kept d).1 ≡ none
      → SameCaches d (finish w cycle kept d).0
  unfolding finish
  finish-SameCaches w cycle none d e = (refl, refl, refl, refl, refl, refl)
  finish-SameCaches w cycle (some features) d e = absurd (cc)

  -- A collection that raises leaves the last result, and what is kept with it, as they were.
  pub failure_keeps :
      (w : World) (d : DataAggregator C)
      → (collect_all ops view w d).1 ≡ none
      → SameCaches d (collect_all ops view w d).0
  unfolding collect_all collect_now
  failure_keeps w d e = elim (Option-cases (cached w.monotonic d)) [
    | inl stale ↦
        let runs = collect_all_runs ops view w d stale in
        subst (λ (x : DataAggregator C × Option (Aggregate × List Feature)). SameCaches d x.0)
          (sym runs)
          (finish-SameCaches w _ _ d
            (ap (λ (x : DataAggregator C × Option (Aggregate × List Feature)). x.1) (sym runs) ∙ e))
    | inr (a, fresh) ↦ absurd (
        some_none (a, [])
          (ap (λ (x : DataAggregator C × Option (Aggregate × List Feature)). x.1)
              (sym (collect_all-cached w d a fresh))
            ∙ e))
  ]
    where
      some_none : {A : Type 0} (x : A) → some x ≡ none → ⊥
      some_none x h = cc
