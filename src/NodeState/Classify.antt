-- ===== src/NodeState/Classify.antt =====
-- src/utils/node_state.py, `gap_ratio` and `_classify`: what the classification says of the heartbeats.
use native.Mathlib.Nat.{mul-pos, mul-le-mul_right}
use meshforge_maps.Base.{
  ℕ, ◌+◌, ◌*◌, ◌-◌, ◌≤◌, ◌<◌, ◌≡◌, true, List, [], ◌∷◌, arith, leb, length, if◌then◌else◌,
}
use meshforge_maps.NodeState.{
  NodeState, stable, intermittent, same_state, NodeStateEntry, ratio_unit, count_gaps, gap_ratio,
  classify_by,
}

pub same_state→eq : (a b : NodeState) → same_state a b ≡ true → a ≡ b
same_state→eq a b h = ground arith

pub same_state_refl : (a : NodeState) → same_state a a ≡ true
same_state_refl a = ground arith

-- There are no more gaps than intervals, so that the ratio never passes 1.
pub count_gaps-le : (threshold : ℕ) (beats : List ℕ) → count_gaps threshold beats ≤ length beats - 1
unfolding count_gaps
count_gaps-le threshold [] = omega arith
count_gaps-le threshold (x ∷ []) = omega arith
count_gaps-le threshold (x ∷ y ∷ rest) = ground (arith, count_gaps-le threshold (y ∷ rest))

abbrev pub FollowedWithin : ℕ → ℕ → List ℕ → Type 0
FollowedWithin limit x [] = Unit
FollowedWithin limit x (y ∷ rest) = y ≤ x + limit

abbrev pub FollowedAfter : ℕ → ℕ → List ℕ → Type 0
FollowedAfter limit x [] = Unit
FollowedAfter limit x (y ∷ rest) = x + limit < y

-- Every heartbeat follows the one before it within `limit`.
abbrev pub IsRegular : ℕ → List ℕ → Type 0
IsRegular limit [] = Unit
IsRegular limit (x ∷ rest) = FollowedWithin limit x rest × IsRegular limit rest

-- Every heartbeat follows the one before it after more than `limit`.
abbrev pub IsSporadic : ℕ → List ℕ → Type 0
IsSporadic limit [] = Unit
IsSporadic limit (x ∷ rest) = FollowedAfter limit x rest × IsSporadic limit rest

count_gaps-IsRegular :
    (limit : ℕ) (beats : List ℕ) → IsRegular limit beats → count_gaps limit beats ≡ 0
unfolding count_gaps
count_gaps-IsRegular limit [] h = omega arith
count_gaps-IsRegular limit (x ∷ []) h = omega arith
count_gaps-IsRegular limit (x ∷ y ∷ rest) h =
    ground (arith, count_gaps-IsRegular limit (y ∷ rest) h.1)

count_gaps-IsSporadic :
    (limit : ℕ) (beats : List ℕ)
    → IsSporadic limit beats
    → count_gaps limit beats ≡ length beats - 1
unfolding count_gaps
count_gaps-IsSporadic limit [] h = omega arith
count_gaps-IsSporadic limit (x ∷ []) h = omega arith
count_gaps-IsSporadic limit (x ∷ y ∷ rest) h =
    ground (arith, count_gaps-IsSporadic limit (y ∷ rest) h.1)

gap_ratio_counts :
    (interval : ℕ) (e : NodeStateEntry)
    → 3 ≤ length e.heartbeats
    → gap_ratio interval e ≡ (count_gaps (interval * 2) e.heartbeats, length e.heartbeats - 1)
unfolding gap_ratio
gap_ratio_counts interval e enough = ground arith

classify_by_ratio :
    (interval ratio : ℕ) (e : NodeStateEntry)
    → 3 ≤ length e.heartbeats
    → classify_by interval ratio e ≡ (
        if leb
          (ratio * (length e.heartbeats - 1))
          (count_gaps (interval * 2) e.heartbeats * ratio_unit)
        then intermittent
        else stable)
unfolding classify_by
classify_by_ratio interval ratio e enough = rw (gap_ratio_counts interval e enough) (ground arith)

-- A node whose last heartbeats, three or more, all came within twice the expected interval is
-- stable, for any positive ratio.
pub classify-IsRegular :
    (interval ratio : ℕ) (e : NodeStateEntry)
    → 3 ≤ length e.heartbeats
    → 0 < ratio
    → IsRegular (interval * 2) e.heartbeats
    → classify_by interval ratio e ≡ stable
classify-IsRegular interval ratio e enough some_ratio h =
    let some_interval : 0 < length e.heartbeats - 1 = omega arith in
    rw
      (
        classify_by_ratio interval ratio e enough,
        count_gaps-IsRegular (interval * 2) e.heartbeats h,
      )
      (ground (arith, mul-pos some_ratio some_interval))

-- A node whose last heartbeats, three or more, all came later than that is intermittent, for any
-- ratio up to 1.
pub classify-IsSporadic :
    (interval ratio : ℕ) (e : NodeStateEntry)
    → 3 ≤ length e.heartbeats
    → ratio ≤ ratio_unit
    → IsSporadic (interval * 2) e.heartbeats
    → classify_by interval ratio e ≡ intermittent
classify-IsSporadic interval ratio e enough part h =
    rw
      (
        classify_by_ratio interval ratio e enough,
        count_gaps-IsSporadic (interval * 2) e.heartbeats h,
      )
      (ground (arith, mul-le-mul_right (length e.heartbeats - 1) part))
