-- ===== src/NodeState/Sweep.antt =====
-- src/utils/node_state.py, `check_offline`: which nodes go offline, and what is reported of it.
use meshforge_maps.Base.{
  ℕ, ◌+◌, ◌<◌, ◌≡◌, refl, ap, ◌↔◌, ◌≢◌, inl, String, Bool, true, false, none, some, List, [], ◌∷◌,
  arith, length, if◌then◌else◌, if_split, if_both, ◌||◌, str_eq, str_eq_iff,
}
use meshforge_maps.Dict.{Dict, lookup, AllValues, IsDistinct}
use meshforge_maps.NodeState.{
  offline, NodeStateEntry, NodeStateTracker, Transition, move, goes_offline, sweep, check_offline,
  get_node_state, count_state,
}
use meshforge_maps.NodeState.Invariant.{IsEntry, IsValid, AllValues-nodes}

-- Every entry is handled by itself.
pub lookup-sweep :
    (threshold now : ℕ) (node_id : String) (d : Dict NodeStateEntry)
    → lookup node_id (sweep threshold now d).0 ≡ elim (lookup node_id d) [
      | none ↦ none
      | some e ↦ some (if goes_offline threshold now e then move offline now e else e)
    ]
unfolding lookup sweep
lookup-sweep threshold now node_id [] = refl
lookup-sweep threshold now node_id ((j, e) ∷ d) =
    ground (arith, lookup-sweep threshold now node_id d)

pub length-sweep :
    (threshold now : ℕ) (d : Dict NodeStateEntry) → length (sweep threshold now d).0 ≡ length d
unfolding sweep
length-sweep threshold now [] = refl
length-sweep threshold now ((j, e) ∷ d) = ground (arith, length-sweep threshold now d)

pub IsDistinct-sweep :
    (threshold now : ℕ) (d : Dict NodeStateEntry)
    → IsDistinct d
    → IsDistinct (sweep threshold now d).0
unfolding sweep
IsDistinct-sweep threshold now [] h = tt
IsDistinct-sweep threshold now ((j, e) ∷ d) h =
    ground (arith, IsDistinct-sweep threshold now d h.1, lookup-sweep threshold now j d)

-- the nodes that are offline afterwards are those that were, and those reported
pub count-sweep :
    (threshold now : ℕ) (d : Dict NodeStateEntry)
    → count_state offline (sweep threshold now d).0
      ≡ count_state offline d + length (sweep threshold now d).1
unfolding sweep count_state
count-sweep threshold now [] = omega arith
count-sweep threshold now ((j, e) ∷ d) = ground (arith, count-sweep threshold now d)

-- a second sweep at the same time finds nothing
pub sweep-sweep :
    (threshold now : ℕ) (d : Dict NodeStateEntry)
    → sweep threshold now (sweep threshold now d).0 ≡ ((sweep threshold now d).0, [])
unfolding sweep
sweep-sweep threshold now [] = refl
sweep-sweep threshold now ((j, e) ∷ d) = ground (arith, sweep-sweep threshold now d)

abbrev pub reported : String → List Transition → Bool
reported node_id [] = false
reported node_id ((j, old, new_state) ∷ rest) = str_eq j node_id || reported node_id rest

reported-sweep-none :
    (threshold now : ℕ) (node_id : String) (d : Dict NodeStateEntry)
    → lookup node_id d ≡ none
    → reported node_id (sweep threshold now d).1 ≡ false
unfolding lookup sweep
reported-sweep-none threshold now node_id [] h = refl
reported-sweep-none threshold now node_id ((j, e) ∷ d) h =
    ground (arith, reported-sweep-none threshold now node_id d)

-- a node is reported if it goes offline, and not otherwise
reported-sweep :
    (threshold now : ℕ) (node_id : String) (d : Dict NodeStateEntry) (e : NodeStateEntry)
    → IsDistinct d
    → lookup node_id d ≡ some e
    → reported node_id (sweep threshold now d).1 ≡ goes_offline threshold now e
unfolding lookup sweep
reported-sweep threshold now node_id [] e h known = absurd (cc)
reported-sweep threshold now node_id ((j, x) ∷ d) e h known = ground (
  arith,
  reported-sweep threshold now node_id d e h.1,
  str_eq_iff j node_id,
  reported-sweep-none threshold now node_id d,
)

AllValues-sweep :
    (t : NodeStateTracker) (threshold now : ℕ) (d : Dict NodeStateEntry)
    → AllValues (IsEntry t) d
    → AllValues (IsEntry t) (sweep threshold now d).0
unfolding sweep
AllValues-sweep t threshold now [] h = tt
AllValues-sweep t threshold now ((j, e) ∷ d) h =
    if_both (λ (x : Dict NodeStateEntry × List Transition). AllValues (IsEntry t) x.0)
      (goes_offline threshold now e) _ _
      (
        record { some_beat = h.0.some_beat; windowed = h.0.windowed; classified = inl refl },
        AllValues-sweep t threshold now d h.1,
      )
      (h.0, AllValues-sweep t threshold now d h.1)

-- `check_offline` at any time keeps a valid tracker valid.
pub check_offline-IsValid :
    (t : NodeStateTracker) (now : ℕ) → IsValid t → IsValid (check_offline t now).0
unfolding check_offline
check_offline-IsValid t now h = record {
  window_pos = h.window_pos;
  room = h.room;
  distinct = IsDistinct-sweep t.offline_threshold now t.nodes h.distinct;
  bounded = omega (arith, length-sweep t.offline_threshold now t.nodes, h.bounded);
  entries = AllValues-nodes t _ _ _ (AllValues-sweep t t.offline_threshold now t.nodes h.entries);
}

-- In a valid tracker `check_offline` reports a tracked node exactly if it was not offline yet and was
-- last seen more than the threshold ago; then it is offline afterwards, and otherwise it has the
-- state that it had.
pub check_offline_reports :
    (t : NodeStateTracker) (now : ℕ) (node_id : String) (e : NodeStateEntry)
    → IsValid t
    → lookup node_id t.nodes ≡ some e
    → ((reported node_id (check_offline t now).1 ≡ true)
        ↔ ((e.state ≢ offline) × (e.last_seen + t.offline_threshold < now)))
      × (get_node_state (check_offline t now).0 node_id
          ≡ some (if reported node_id (check_offline t now).1 then offline else e.state))
unfolding check_offline get_node_state
check_offline_reports t now node_id e h known =
    let told = reported-sweep t.offline_threshold now node_id t.nodes e h.distinct known in
    let found = lookup-sweep t.offline_threshold now node_id t.nodes in
    (
      (λ r. (λ off. ground arith, ground arith), λ (awake, late). ground (arith, awake)),
      ground (arith, found),
    )

settled :
    (threshold now : ℕ) (d : Dict NodeStateEntry)
    → AllValues (λ e. goes_offline threshold now e ≡ false) (sweep threshold now d).0
unfolding sweep
settled threshold now [] = tt
settled threshold now ((j, e) ∷ d) =
    if_split
      (λ (x : Dict NodeStateEntry × List Transition).
        AllValues (λ e. goes_offline threshold now e ≡ false) x.0)
      (goes_offline threshold now e) _ _ (λ goes. (refl, settled threshold now d))
      (λ stays. (stays, settled threshold now d))

-- After `check_offline` no node is due to go offline, that is, awake and last seen more than the
-- threshold ago; and a second call at the same time changes nothing and reports nothing.
pub check_offline_settles :
    (t : NodeStateTracker) (now : ℕ)
    → AllValues (λ e. goes_offline t.offline_threshold now e ≡ false) (check_offline t now).0.nodes
      × ((check_offline (check_offline t now).0 now).0.nodes ≡ (check_offline t now).0.nodes)
      × ((check_offline (check_offline t now).0 now).1 ≡ [])
unfolding check_offline
check_offline_settles t now = (
  settled t.offline_threshold now t.nodes,
  ap (λ (x : Dict NodeStateEntry × List Transition). x.0)
      (sweep-sweep t.offline_threshold now t.nodes),
  ap (λ (x : Dict NodeStateEntry × List Transition). x.1)
      (sweep-sweep t.offline_threshold now t.nodes),
)

-- The transitions that `check_offline` reports are as many as the nodes that have newly become
-- offline, and as many as are added to `total_transitions`.
pub check_offline_counts :
    (t : NodeStateTracker) (now : ℕ)
    → (count_state offline (check_offline t now).0.nodes
        ≡ count_state offline t.nodes + length (check_offline t now).1)
      × ((check_offline t now).0.total_transitions
          ≡ t.total_transitions + length (check_offline t now).1)
unfolding check_offline
check_offline_counts t now = (count-sweep t.offline_threshold now t.nodes, refl)
