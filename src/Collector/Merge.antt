-- ===== src/Collector/Merge.antt =====
-- src/collectors/base.py, `deduplicate_features`: the first feature of each id, and only it.
use meshforge_maps.Base.{
  ℕ, ◌+◌, ◌≡◌, ◌≢◌, ap, String, Bool, Option, none, some, List, [], ◌∷◌, arith, if◌then◌else◌,
  str_eq, str_eq_iff, is_some,
}
use meshforge_maps.Collector.{Feature, member, merge, flatten, deduplicate_features}

-- the first feature with the id
abbrev pub first_given : String → List (Option Feature) → Option Feature
first_given k [] = none
first_given k (none ∷ features) = first_given k features
first_given k (some f ∷ features) = if str_eq f.id k then some f else first_given k features

abbrev pub first_of : String → List Feature → Option Feature
first_of k [] = none
first_of k (f ∷ features) = if str_eq f.id k then some f else first_of k features

abbrev pub number_of : String → List Feature → ℕ
number_of k [] = 0
number_of k (f ∷ features) = (if str_eq f.id k then 1 else 0) + number_of k features

first_of-merge :
    (allow : Bool) (k : String) (seen : List String) (features : List (Option Feature))
    → k ≢ ""
    → first_of k (merge allow seen features)
      ≡ (if member k seen then none else first_given k features)
unfolding merge
first_of-merge allow k seen [] named = ground arith
first_of-merge allow k seen (none ∷ features) named = first_of-merge allow k seen features named
first_of-merge allow k seen (some f ∷ features) named = ground (
  arith,
  first_of-merge allow k seen features named,
  first_of-merge allow k (f.id ∷ seen) features named,
  str_eq_iff f.id k,
  str_eq_iff f.id "",
  ap (λ i. member i seen),
)

number_of-merge :
    (allow : Bool) (k : String) (seen : List String) (features : List (Option Feature))
    → k ≢ ""
    → number_of k (merge allow seen features)
      ≡ (if member k seen then 0 else if is_some (first_given k features) then 1 else 0)
unfolding merge
number_of-merge allow k seen [] named = ground arith
number_of-merge allow k seen (none ∷ features) named = number_of-merge allow k seen features named
number_of-merge allow k seen (some f ∷ features) named = ground (
  arith,
  number_of-merge allow k seen features named,
  number_of-merge allow k (f.id ∷ seen) features named,
  str_eq_iff f.id k,
  str_eq_iff f.id "",
  ap (λ i. member i seen),
)

-- Under every id that is not empty the merge of any lists has the feature that comes first in them,
-- and no second one; and nothing where they have none.
pub deduplicate_features_first :
    (lists : List (List (Option Feature))) (allow_no_id : Bool) (k : String)
    → k ≢ ""
    → (first_of k (deduplicate_features lists allow_no_id) ≡ first_given k (flatten lists))
      × (number_of k (deduplicate_features lists allow_no_id)
          ≡ (if is_some (first_given k (flatten lists)) then 1 else 0))
unfolding deduplicate_features
deduplicate_features_first lists allow_no_id k named = (
  first_of-merge allow_no_id k [] (flatten lists) named,
  number_of-merge allow_no_id k [] (flatten lists) named,
)
