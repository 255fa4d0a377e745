-- ===== src/HealthScoring/Table.antt =====
-- src/utils/health_scoring.py: the table of scores over any calls.
use meshforge_maps.Base.{
  ℕ, ◌≤◌, ◌<◌, ◌≡◌, refl, String, Option, none, some, List, [], ◌∷◌, arith, length, Option-cases,
  inl, inr,
}
use meshforge_maps.Dict.{
  Dict, lookup, insert, length-insert, length-erase, AllValues, AllValues-insert, AllValues-erase,
  AllValues-lookup, IsDistinct, IsDistinct-insert, IsDistinct-erase,
}
use meshforge_maps.Dict.Evict.{
  length-insert_bounded, IsDistinct-insert_bounded, AllValues-insert_bounded,
}
use meshforge_maps.HealthScoring.{
  NodeHealthScore, NodeHealthScorer, Props, score_of, score_node, get_node_score, remove_node,
}
use meshforge_maps.HealthScoring.Bounds.{score_in_range}

-- Distinct nodes, no more than `max_nodes`, each with a score of at most 100.
pub record IsValid (s : NodeHealthScorer) : Type 0 where
  pub room : 0 < s.max_nodes
  pub distinct : IsDistinct s.scores
  pub bounded : length s.scores ≤ s.max_nodes
  pub in_range : AllValues (λ (x : NodeHealthScore). x.score ≤ 100) s.scores

pub data Call : Type 0 where
  score : String → Props → Option String → ℕ → Call
  read : String → ℕ → Call
  forget : String → Call

unfoldable pub apply : NodeHealthScorer → Call → NodeHealthScorer
apply s (score node_id props state now) = (score_node s node_id props state now).0
apply s (read node_id now) = (get_node_score s node_id now).0
apply s (forget node_id) = remove_node s node_id

unfoldable pub run : NodeHealthScorer → List Call → NodeHealthScorer
run s [] = s
run s (c ∷ calls) = run (apply s c) calls

score_node-IsValid :
    (s : NodeHealthScorer) (node_id : String) (props : Props) (state : Option String) (now : ℕ)
    → IsValid s
    → IsValid (score_node s node_id props state now).0
unfolding score_node
score_node-IsValid s node_id props state now v =
    let x = score_of s node_id props state now in
    let low = (score_in_range s node_id props state now).2 in
    record {
      room = v.room;
      distinct =
          IsDistinct-insert_bounded (λ (y : NodeHealthScore). y.last_accessed) s.max_nodes node_id x
            s.scores v.distinct;
      bounded =
          length-insert_bounded (λ (y : NodeHealthScore). y.last_accessed) s.max_nodes node_id x
            s.scores v.room v.distinct v.bounded;
      in_range =
          AllValues-insert_bounded (λ (y : NodeHealthScore). y.last_accessed)
            (λ (y : NodeHealthScore). y.score ≤ 100) s.max_nodes node_id x s.scores low v.in_range;
    }

get_node_score_missing :
    (s : NodeHealthScorer) (node_id : String) (now : ℕ)
    → lookup node_id s.scores ≡ none
    → get_node_score s node_id now ≡ (s, none)
unfolding get_node_score
get_node_score_missing s node_id now e = rw (get_node_score, e) refl

get_node_score_found :
    (s : NodeHealthScorer) (node_id : String) (now : ℕ) (x : NodeHealthScore)
    → lookup node_id s.scores ≡ some x
    → get_node_score s node_id now ≡ (
      record s { scores = insert node_id (record x { last_accessed = now }) s.scores },
      some (record x { last_accessed = now }),
    )
unfolding get_node_score
get_node_score_found s node_id now x e = rw (get_node_score, e) refl

length-insert_known :
    (k : String) (x y : NodeHealthScore) (d : Dict NodeHealthScore)
    → lookup k d ≡ some y
    → length (insert k x d) ≡ length d
length-insert_known k x y d e = ground (arith, length-insert k x d, e)

get_node_score-IsValid :
    (s : NodeHealthScorer) (node_id : String) (now : ℕ)
    → IsValid s
    → IsValid (get_node_score s node_id now).0
get_node_score-IsValid s node_id now v = elim (Option-cases (lookup node_id s.scores)) [
  | inl missing ↦ rw (get_node_score_missing s node_id now missing) v
  | inr (x, known) ↦ rw (get_node_score_found s node_id now x known) (record {
    room = v.room;
    distinct = IsDistinct-insert node_id (record x { last_accessed = now }) s.scores v.distinct;
    bounded = omega (
      arith,
      length-insert_known node_id (record x { last_accessed = now }) x s.scores known,
      v.bounded,
    );
    in_range =
        AllValues-insert _ node_id (record x { last_accessed = now }) s.scores
          (AllValues-lookup (λ (y : NodeHealthScore). y.score ≤ 100) node_id s.scores x v.in_range
            known)
          v.in_range;
  })
]

remove_node-IsValid :
    (s : NodeHealthScorer) (node_id : String) → IsValid s → IsValid (remove_node s node_id)
unfolding remove_node
remove_node-IsValid s node_id v = record {
  room = v.room;
  distinct = IsDistinct-erase node_id s.scores v.distinct;
  bounded = omega (arith, length-erase node_id s.scores, v.bounded);
  in_range = AllValues-erase _ node_id s.scores v.in_range;
}

apply-IsValid : (s : NodeHealthScorer) (c : Call) → IsValid s → IsValid (apply s c)
unfolding apply
apply-IsValid s (score node_id props state now) v = score_node-IsValid s node_id props state now v
apply-IsValid s (read node_id now) v = get_node_score-IsValid s node_id now v
apply-IsValid s (forget node_id) v = remove_node-IsValid s node_id v

-- Whatever is scored, read and removed, a valid table keeps to `max_nodes` distinct nodes, each with a
-- score of at most 100.
pub scorer_stays-IsValid :
    (s : NodeHealthScorer) (calls : List Call) → IsValid s → IsValid (run s calls)
unfolding run
scorer_stays-IsValid s [] v = v
scorer_stays-IsValid s (c ∷ calls) v = scorer_stays-IsValid (apply s c) calls (apply-IsValid s c v)
