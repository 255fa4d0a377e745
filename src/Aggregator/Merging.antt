-- ===== src/Aggregator/Merging.antt =====
-- src/collectors/aggregator.py, `collect_all`: what the merged result holds.
use meshforge_maps.Base.{
  ◌≤◌, ◌≡◌, ◌≢◌, refl, ap, sym, ◌∙◌, String, Bool, true, false, Option, none, some, List, [], ◌∷◌,
  arith, ◌==◌, ◌&&◌, ◌||◌, if◌then◌else◌, if_split, length, filter, All, str_eq, is_some,
  Bool-cases, Option-cases, inl, inr,
}
use meshforge_maps.Float.{Float}
use meshforge_maps.Dict.{lookup, IsDistinct}
use meshforge_maps.Geo.{Vertex}
use meshforge_maps.Collector.{Feature, flatten, deduplicate_features}
use meshforge_maps.Collector.Merge.{first_given, first_of, number_of, deduplicate_features_first}
use meshforge_maps.Aggregator.{
  Sources, View, Aggregate, DataAggregator, World, within, keep_in_region, scoped, collect_each,
  new_cycle, finish, cached, collect_now, collect_all,
}
use meshforge_maps.Aggregator.Cycles.{gathered, counted, collect_each_features, cycle_counts}

-- the feature's coordinates are in the region
abbrev pub placed_within :
    List (List Float) → List (List (Option Vertex)) → Option (List Float) → Bool
placed_within bboxes polygons none = false
placed_within bboxes polygons (some coords) = within bboxes polygons coords

-- the feature is in scope: in the region, or there is none
abbrev pub in_scope :
    (Feature → View) → List (List Float) → List (List (Option Vertex)) → Feature → Bool
in_scope view bboxes polygons f =
    (length bboxes == 0 && length polygons == 0)
    || placed_within bboxes polygons (view f).coordinates

-- a choice that is in scope
abbrev pub chosen : (Feature → Bool) → Option Feature → Option Feature
chosen test none = none
chosen test (some f) = if test f then some f else none

number_none :
    (test : Feature → Bool) (k : String) (features : List Feature)
    → number_of k features ≡ 0
    → (first_of k features ≡ none)
      × (first_of k (filter test features) ≡ none)
      × (number_of k (filter test features) ≡ 0)
number_none test k [] h = (refl, refl, refl)
number_none test k (f ∷ features) h = elim (Bool-cases (str_eq f.id k)) [
  | inl same ↦ absurd (ground (arith, h, same))
  | inr apart ↦
      let rest = number_none test k features (ground (arith, h, apart)) in
      (ground (arith, apart, rest), ground (arith, apart, rest), ground (arith, apart, rest))
]

-- A filter of a list with one feature of an id at most.
first_of-filter :
    (test : Feature → Bool) (k : String) (features : List Feature)
    → number_of k features ≤ 1
    → (first_of k (filter test features) ≡ chosen test (first_of k features))
      × (number_of k (filter test features) ≤ 1)
first_of-filter test k [] h = (refl, omega arith)
first_of-filter test k (f ∷ features) h = elim (Bool-cases (str_eq f.id k)) [
  | inl same ↦
      let rest = number_none test k features (ground (arith, h, same)) in
      (ground (arith, same, rest), ground (arith, same, rest))
  | inr apart ↦
      let rest = first_of-filter test k features (ground (arith, h, apart)) in
      (ground (arith, apart, rest), ground (arith, apart, rest))
]

filter_passes :
    (test : Feature → Bool) (features : List Feature)
    → All (λ f. test f ≡ true) (filter test features)
filter_passes test [] = tt
filter_passes test (f ∷ features) =
    if_split (All (λ f'. test f' ≡ true)) (test f) (f ∷ filter test features) (filter test features)
      (λ pass. (pass, filter_passes test features)) (λ _. filter_passes test features)

filter_all :
    (test : Feature → Bool) (features : List Feature)
    → ((f : Feature) → test f ≡ true)
    → filter test features ≡ features
filter_all test [] every = refl
filter_all test (f ∷ features) every =
    rw (every f) (ap (λ l. f ∷ l) (filter_all test features every))

filter_agrees :
    (p q : Feature → Bool) (features : List Feature)
    → ((f : Feature) → p f ≡ q f)
    → filter p features ≡ filter q features
filter_agrees p q [] same = refl
filter_agrees p q (f ∷ features) same =
    rw (same f) (ap (λ l. if q f then f ∷ l else l) (filter_agrees p q features same))

keep_in_region-filter :
    (view : Feature → View) (bboxes : List (List Float)) (polygons : List (List (Option Vertex)))
    (features : List Feature)
    → ((f : Feature) → is_some (view f).coordinates ≡ true)
    → keep_in_region view bboxes polygons features
      ≡ some (filter (λ f. placed_within bboxes polygons (view f).coordinates) features)
unfolding keep_in_region
keep_in_region-filter view bboxes polygons [] known = refl
keep_in_region-filter view bboxes polygons (f ∷ features) known =
    elim (Option-cases (view f).coordinates) [
      | inl null ↦ absurd (ground (arith, null, known f))
      | inr (coords, e) ↦
          rw (keep_in_region, e)
            (rw (keep_in_region-filter view bboxes polygons features known) refl)
    ]

scoped-filter :
    (view : Feature → View) (bboxes : List (List Float)) (polygons : List (List (Option Vertex)))
    (features : List Feature)
    → ((f : Feature) → is_some (view f).coordinates ≡ true)
    → scoped view bboxes polygons features ≡ some (filter (in_scope view bboxes polygons) features)
unfolding scoped
scoped-filter view bboxes polygons features known =
    elim (Bool-cases (length bboxes == 0 && length polygons == 0)) [
      | inl whole ↦ rw whole (
          ap some (
            sym (filter_all (in_scope view bboxes polygons) features (λ f. ground (arith, whole)))))
      | inr region ↦ rw region (
          keep_in_region-filter view bboxes polygons features known
          ∙ ap some (
              filter_agrees (λ f. placed_within bboxes polygons (view f).coordinates)
                (in_scope view bboxes polygons) features (λ f. ground (arith, region))))
    ]

-- what a result holds, by the collectors it was made of
abbrev pub Merges :
    {C : Type 0} → Sources C → (Feature → View) → DataAggregator C → Aggregate → Type 0
Merges ops view d a =
    let scope = in_scope view d.region_bboxes d.region_polygons in
    ((k : String)
      → k ≢ ""
      → (first_of k a.features ≡ chosen scope (first_given k (flatten (gathered ops d.collectors))))
        × (number_of k a.features ≤ 1))
    × All (λ f. scope f ≡ true) a.features
    × (a.total_nodes ≡ length a.features)
    × ((name : String) → lookup name a.sources ≡ counted ops name (lookup name d.collectors))

module _ {C : Type 0} (ops : Sources C) (view : Feature → View) where
  -- a collection with no fresh result runs a cycle
  pub collect_all_runs :
      (w : World) (d : DataAggregator C)
      → cached w.monotonic d ≡ none
      → collect_all ops view w d ≡ collect_now ops view w d
  unfolding collect_all
  collect_all_runs w d e = rw (collect_all, e) refl

  -- the features that a cycle keeps
  abbrev pub merged : DataAggregator C → List Feature
  merged d =
      filter (in_scope view d.region_bboxes d.region_polygons)
        (deduplicate_features (gathered ops d.collectors) true)

  merged_first :
      (d : DataAggregator C) (k : String)
      → k ≢ ""
      → (first_of k (merged d)
          ≡ chosen
              (in_scope view d.region_bboxes d.region_polygons)
              (first_given k (flatten (gathered ops d.collectors))))
        × (number_of k (merged d) ≤ 1)
  merged_first d k named =
      let scope = in_scope view d.region_bboxes d.region_polygons in
      let (first, number) = deduplicate_features_first (gathered ops d.collectors) true k named in
      let (kept, few) =
        first_of-filter scope k (deduplicate_features (gathered ops d.collectors) true)
          (ground (arith, number)) in
      (kept ∙ ap (chosen scope) first, few)

  collect_now_gives :
      (w : World) (d : DataAggregator C)
      → ((f : Feature) → is_some (view f).coordinates ≡ true)
      → collect_now ops view w d
        ≡ finish w (collect_each ops w d.collectors (new_cycle d)) (some (merged d)) d
  unfolding collect_now new_cycle
  collect_now_gives w d known =
      let cycle = collect_each ops w d.collectors (new_cycle d) in
      ap
        (λ lists.
          finish w cycle
            (scoped view d.region_bboxes d.region_polygons (deduplicate_features lists true)) d)
        (collect_each_features ops w d.collectors (new_cycle d))
      ∙ ap (λ o. finish w cycle o d)
          (scoped-filter view d.region_bboxes d.region_polygons
            (deduplicate_features (gathered ops d.collectors) true) known)

  -- A collection with no fresh result, over distinct sources and features whose coordinates are not null,
  -- gives one. Under an id that is not empty it has one feature at most: the first one that a source
  -- gives, in the order of the sources, if it is in scope, and none if that is not. All its features are
  -- in scope, and are counted; each source that is collected has the number of the features it gave,
  -- or 0 if it failed.
  pub collect_all-Merges :
      (w : World) (d : DataAggregator C)
      → cached w.monotonic d ≡ none
      → IsDistinct d.collectors
      → ((f : Feature) → is_some (view f).coordinates ≡ true)
      → (a : Aggregate) × (recorded : List Feature) × ((collect_all ops view w d).1
          ≡ some (a, recorded))
        × Merges ops view d a
  unfolding finish
  collect_all-Merges w d stale distinct known =
      let cycle = collect_each ops w d.collectors (new_cycle d) in
      (
        _,
        _,
        ap (λ (x : DataAggregator C × Option (Aggregate × List Feature)). x.1)
            (collect_all_runs w d stale ∙ collect_now_gives w d known),
        (
          merged_first d,
          filter_passes (in_scope view d.region_bboxes d.region_polygons) _,
          refl,
          λ name. cycle_counts ops w d name distinct,
        ),
      )
