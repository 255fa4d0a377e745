-- ===== src/ConfigDrift/Validity.antt =====
-- src/utils/config_drift.py: what holds of the detector between two calls, and the steps that the
-- checks are made of.
use meshforge_maps.Base.{
  ◌+◌, ◌≤◌, ◌<◌, ◌≡◌, refl, String, true, false, [], arith, leb, str_eq, str_eq_iff, if◌then◌else◌,
  length, push, length-push, get_or, Option-cases, if_split, inl, inr,
}
use meshforge_maps.Dict.{
  Dict, lookup, contains, insert, erase, lookup-insert, lookup-erase, length-erase, length-subset,
  AllValues, AllValues-insert, AllValues-erase, IsDistinct, IsDistinct-insert, IsDistinct-erase,
  length-erase_mem,
}
use meshforge_maps.Dict.Evict.{oldest, oldest_lem, oldest_found}
use meshforge_maps.ConfigDrift.{
  Snapshot, Drift, ConfigDriftDetector, append_drift, evict_oldest, make_room,
}

-- Distinct nodes, no more than `max_nodes`; a drift history only for a node that has a snapshot, with
-- between 1 and `max_history` drifts.
pub record IsValid (d : ConfigDriftDetector) : Type 0 where
  pub room : 0 < d.max_nodes
  pub keeps : 0 < d.max_history
  pub distinct : IsDistinct d.snapshots
  pub bounded : length d.snapshots ≤ d.max_nodes
  pub histories : IsDistinct d.drift_history
  pub owned : (k : String) → contains k d.drift_history ≡ true → contains k d.snapshots ≡ true
  pub capped : AllValues (λ h. (0 < length h) × (length h ≤ d.max_history)) d.drift_history

-- so that the histories are bounded too
pub length-drift_history :
    (d : ConfigDriftDetector) → IsValid d → length d.drift_history ≤ d.max_nodes
length-drift_history d v =
    omega (arith, length-subset d.drift_history d.snapshots v.histories v.owned, v.bounded)

contains-erase {ℓ} :
    {V : Type ℓ} (k j : String) (d : Dict V)
    → contains j (erase k d) ≡ (if str_eq k j then false else contains j d)
contains-erase k j d = ground (arith, lookup-erase k j d)

contains-insert {ℓ} :
    {V : Type ℓ} (k j : String) (v : V) (d : Dict V)
    → contains j (insert k v d) ≡ (if str_eq k j then true else contains j d)
contains-insert k j v d = ground (arith, lookup-insert k j v d)

-- dropping a node and its history
pub drop_node-IsValid :
    (d : ConfigDriftDetector) (k : String)
    → IsValid d
    → IsValid
        (record d { snapshots = erase k d.snapshots; drift_history = erase k d.drift_history })
drop_node-IsValid d k v = record {
  room = v.room;
  keeps = v.keeps;
  distinct = IsDistinct-erase k d.snapshots v.distinct;
  bounded = omega (arith, length-erase k d.snapshots, v.bounded);
  histories = IsDistinct-erase k d.drift_history v.histories;
  owned = λ j m.
      ground
        (arith, m, contains-erase k j d.drift_history, contains-erase k j d.snapshots, v.owned j);
  capped = AllValues-erase _ k d.drift_history v.capped;
}

evict_oldest-IsValid : (d : ConfigDriftDetector) → IsValid d → IsValid (evict_oldest d)
unfolding evict_oldest
evict_oldest-IsValid d v =
    elim (Option-cases (oldest (λ (s : Snapshot). s.last_seen) d.snapshots)) [
      | inl empty ↦ rw (evict_oldest, empty) v
      | inr (k, e) ↦ rw (evict_oldest, e) (drop_node-IsValid d k v)
    ]

-- an eviction from a detector that is not empty makes room for one node
length-evict_oldest :
    (d : ConfigDriftDetector)
    → IsValid d
    → 0 < length d.snapshots
    → length (evict_oldest d).snapshots + 1 ≤ length d.snapshots
unfolding evict_oldest
length-evict_oldest d v some_node =
    let (k, e) = oldest_found (λ (s : Snapshot). s.last_seen) d.snapshots some_node in
    let (s, found, least) = oldest_lem (λ (s : Snapshot). s.last_seen) d.snapshots k v.distinct e in
    rw (evict_oldest, e) (length-erase_mem k d.snapshots (rw found refl))

max_nodes-evict_oldest : (d : ConfigDriftDetector) → (evict_oldest d).max_nodes ≡ d.max_nodes
unfolding evict_oldest
max_nodes-evict_oldest d =
    elim (Option-cases (oldest (λ (s : Snapshot). s.last_seen) d.snapshots)) [
      | inl empty ↦ rw (evict_oldest, empty) refl
      | inr (k, e) ↦ rw (evict_oldest, e) refl
    ]

pub make_room-IsValid :
    (d : ConfigDriftDetector)
    → IsValid d
    → IsValid (make_room d) × (length (make_room d).snapshots < (make_room d).max_nodes)
unfolding make_room
make_room-IsValid d v =
    if_split (λ (x : ConfigDriftDetector). IsValid x × (length x.snapshots < x.max_nodes))
      (leb d.max_nodes (length d.snapshots)) (evict_oldest d) d
      (λ full.
        let some_node : 0 < length d.snapshots = ground (arith, v.room) in
        (
          evict_oldest-IsValid d v,
          omega (arith, length-evict_oldest d v some_node, max_nodes-evict_oldest d, v.bounded),
        ))
      (λ free. (v, ground arith))

-- a snapshot that is stored
pub store-IsValid :
    (d : ConfigDriftDetector) (k : String) (s : Snapshot)
    → IsValid d
    → length (insert k s d.snapshots) ≤ d.max_nodes
    → IsValid (record d { snapshots = insert k s d.snapshots })
store-IsValid d k s v fits = record {
  room = v.room;
  keeps = v.keeps;
  distinct = IsDistinct-insert k s d.snapshots v.distinct;
  bounded = fits;
  histories = v.histories;
  owned = λ j m. ground (arith, m, contains-insert k j s d.snapshots, v.owned j);
  capped = v.capped;
}

pub append_drift-IsValid :
    (d : ConfigDriftDetector) (k : String) (drift : Drift)
    → IsValid d
    → contains k d.snapshots ≡ true
    → IsValid (append_drift k drift d)
unfolding append_drift
append_drift-IsValid d k drift v there =
    let h = get_or (lookup k d.drift_history) [] in
    record {
      room = v.room;
      keeps = v.keeps;
      distinct = v.distinct;
      bounded = v.bounded;
      histories = IsDistinct-insert k _ d.drift_history v.histories;
      owned = λ j m. ground (
        arith,
        m,
        contains-insert k j (push d.max_history h drift) d.drift_history,
        v.owned j,
        str_eq_iff k j,
      );
      capped =
          AllValues-insert _ k (push d.max_history h drift) d.drift_history
            (
              omega (arith, length-push d.max_history h drift, v.keeps),
              omega (arith, length-push d.max_history h drift),
            )
            v.capped;
    }
