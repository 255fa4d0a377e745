-- ===== src/NodeHistory/Caches.antt =====
-- src/utils/node_history.py: what the caches of positions and counts say of the trajectory table, and
-- that a write keeps it so.
use meshforge_maps.Base.{
  ℕ, ◌+◌, ◌≤◌, ◌<◌, ◌≡◌, refl, ap, String, true, false, Option, none, some, List, [], ◌∷◌, ◌++◌,
  arith, str_eq, str_eq_iff, if◌then◌else◌, Bool-cases, Option-cases, inl, inr, min, get_or,
  is_some, ltb,
}
use meshforge_maps.Float.{Float}
use meshforge_maps.Dict.{Dict, lookup, contains, insert, lookup-insert, lookup-insert_self}
use meshforge_maps.NodeHistory.{
  Row, NodeHistoryDb, Faults, ok, last_row, count_rows, delete_oldest, prime_from, prime_caches,
  append_row,
}
use meshforge_maps.NodeHistory.Rows.{
  last_row-snoc, count_rows-snoc, count_rows-delete_oldest, last_row_missing,
  last_row-delete_oldest,
}

-- no statement fails
abbrev pub calm : Faults
calm _ = none

abbrev pub position_of : Row → Float × Float
position_of row = (row.latitude, row.longitude)

-- What is cached of a node, given its last row and the number of its rows: nothing, or the position of
-- the last row, and a count that is as far from the cap as the number of rows.
abbrev pub Cached : ℕ → Option (Float × Float) → Option ℕ → Option Row → ℕ → Type 0
Cached cap none none last n = Unit
Cached cap (some p) (some c) (some row) n = (p ≡ position_of row) × (min c cap ≡ min n cap)
Cached cap _ _ _ _ = ⊥

abbrev pub Agrees : NodeHistoryDb → Type 0
Agrees d =
    (k : String)
    → Cached d.trajectory_rows_per_node (lookup k d.last_traj_pos) (lookup k d.traj_count)
        (last_row k d.trajectory) (count_rows k d.trajectory)

-- the caches, set to `p` and `c`
abbrev pub with_caches : Dict (Float × Float) → Dict ℕ → NodeHistoryDb → NodeHistoryDb
with_caches p c d = record d { last_traj_pos = p; traj_count = c }

abbrev pub pos_of : Option Row → Option (Float × Float)
pos_of none = none
pos_of (some row) = some (position_of row)

-- the caches of the node itself are filled
pub record IsPrimed (k : String) (d : NodeHistoryDb) : Type 0 where
  pub agrees : Agrees d
  pub place : lookup k d.last_traj_pos ≡ pos_of (last_row k d.trajectory)
  pub tallied :
      min (get_or (lookup k d.traj_count) 0) d.trajectory_rows_per_node
      ≡ min (count_rows k d.trajectory) d.trajectory_rows_per_node

Cached-place :
    (cap : ℕ) (p : Option (Float × Float)) (c : Option ℕ) (last : Option Row) (n : ℕ)
    → Cached cap p c last n
    → is_some p ≡ true
    → (p ≡ pos_of last) × (min (get_or c 0) cap ≡ min n cap)
Cached-place cap none c last n h s = absurd (cc)
Cached-place cap (some p) none last n h s = absurd h
Cached-place cap (some p) (some c) none n h s = absurd h
Cached-place cap (some p) (some c) (some row) n h s = (ap some h.0, h.1)

Cached-absent :
    (cap : ℕ) (p : Option (Float × Float)) (c : Option ℕ) (last : Option Row) (n : ℕ)
    → Cached cap p c last n
    → is_some p ≡ false
    → (p ≡ none) × (c ≡ none)
Cached-absent cap none none last n h s = (refl, refl)
Cached-absent cap none (some c) last n h s = absurd h
Cached-absent cap (some p) c last n h s = absurd (cc)

known-IsPrimed :
    (k : String) (d : NodeHistoryDb) → Agrees d → contains k d.last_traj_pos ≡ true → IsPrimed k d
known-IsPrimed k d a there =
    let (place, tallied) = Cached-place _ _ _ _ _ (a k) there in
    record { agrees = a; place = place; tallied = tallied }

fresh-IsPrimed :
    (k : String) (d : NodeHistoryDb)
    → Agrees d
    → contains k d.last_traj_pos ≡ false
    → last_row k d.trajectory ≡ none
    → IsPrimed k d
fresh-IsPrimed k d a missing e =
    let (no_place, no_tally) = Cached-absent _ _ _ _ _ (a k) missing in
    record {
      agrees = a;
      place = rw (no_place, e) refl;
      tallied = rw (no_tally, last_row_missing k d.trajectory e) refl;
    }

-- the caches that `prime_from` fills from the last row
found-IsPrimed :
    (k : String) (d : NodeHistoryDb) (row : Row)
    → Agrees d
    → last_row k d.trajectory ≡ some row
    → IsPrimed k (
        with_caches
          (insert k (position_of row) d.last_traj_pos)
          (insert k (count_rows k d.trajectory) d.traj_count)
          d)
found-IsPrimed k d row a e = record {
  agrees = λ j. elim (Bool-cases (str_eq k j)) [
    | inl same ↦
        let named : k ≡ j = (str_eq_iff k j).0 same in
        rw (lookup-insert, lookup-insert, same, ← named, e) (refl, refl)
    | inr other ↦ rw (lookup-insert, lookup-insert, other) (a j)
  ];
  place = rw (lookup-insert_self, e) refl;
  tallied = rw lookup-insert_self refl;
}

-- Priming touches the caches alone, and leaves those of the node filled.
pub prime_caches-IsPrimed :
    (k : String) (d : NodeHistoryDb)
    → Agrees d
    → (p : Dict (Float × Float)) × (c : Dict ℕ) × (prime_caches calm k d
        ≡ (with_caches p c d, ok tt))
      × IsPrimed k (with_caches p c d)
unfolding prime_caches prime_from
prime_caches-IsPrimed k d a = elim (Bool-cases (contains k d.last_traj_pos)) [
  | inl there ↦ (d.last_traj_pos, d.traj_count, rw there, known-IsPrimed k d a there)
  | inr missing ↦ elim (Option-cases (last_row k d.trajectory)) [
    | inl e ↦ (d.last_traj_pos, d.traj_count, rw (missing, e), fresh-IsPrimed k d a missing e)
    | inr (row, e) ↦ (
      insert k (position_of row) d.last_traj_pos,
      insert k (count_rows k d.trajectory) d.traj_count,
      rw (missing, e),
      found-IsPrimed k d row a e,
    )
  ]
]

-- the table after an append, by the number of the node's rows
unfoldable pub appended : ℕ → Row → List Row → List Row
appended cap row rows =
    if ltb cap (count_rows row.node_id rows + 1)
    then delete_oldest row.node_id (rows ++ row ∷ [])
    else rows ++ row ∷ []

full-appended :
    (cap : ℕ) (row : Row) (rows : List Row)
    → cap ≤ count_rows row.node_id rows
    → appended cap row rows ≡ delete_oldest row.node_id (rows ++ row ∷ [])
unfolding appended
full-appended cap row rows h = ground arith

room-appended :
    (cap : ℕ) (row : Row) (rows : List Row)
    → count_rows row.node_id rows < cap
    → appended cap row rows ≡ rows ++ row ∷ []
unfolding appended
room-appended cap row rows h = ground arith

-- what an append leaves of a node: its last row, and the number of its rows
pub last_row-appended :
    (cap : ℕ) (row : Row) (rows : List Row) (k : String)
    → 0 < cap
    → last_row k (appended cap row rows)
      ≡ (if str_eq row.node_id k then some row else last_row k rows)
unfolding appended
last_row-appended cap row rows k pos = ground (
  arith,
  last_row-snoc k rows row,
  count_rows-snoc row.node_id rows row,
  str_eq_iff row.node_id row.node_id,
  last_row-delete_oldest row.node_id k (rows ++ row ∷ []),
)

pub count_rows-appended :
    (cap : ℕ) (row : Row) (rows : List Row) (k : String)
    → count_rows k (appended cap row rows) ≡ (
        if str_eq row.node_id k
        then (if ltb cap (count_rows k rows + 1) then count_rows k rows else count_rows k rows + 1)
        else count_rows k rows)
unfolding appended
count_rows-appended cap row rows k = ground (
  arith,
  count_rows-snoc k rows row,
  count_rows-delete_oldest row.node_id k (rows ++ row ∷ []),
  str_eq_iff row.node_id k,
)

-- the count that is cached after an append
abbrev pub next_count : ℕ → ℕ → ℕ
next_count cap n = if ltb cap n then cap else n

abbrev pub after_append : Row → NodeHistoryDb → NodeHistoryDb
after_append row d = record d {
  trajectory = appended d.trajectory_rows_per_node row d.trajectory;
  last_traj_pos = insert row.node_id (position_of row) d.last_traj_pos;
  traj_count =
      insert row.node_id
        (next_count d.trajectory_rows_per_node (get_or (lookup row.node_id d.traj_count) 0 + 1))
        d.traj_count;
}

pub append_row_lem :
    (row : Row) (d : NodeHistoryDb)
    → IsPrimed row.node_id d
    → append_row calm row d ≡ (after_append row d, ok true)
unfolding append_row
append_row_lem row d h =
    elim (Bool-cases
      (ltb d.trajectory_rows_per_node (get_or (lookup row.node_id d.traj_count) 0 + 1))) [
        | inl full ↦
            rw
              (
                full,
                full-appended d.trajectory_rows_per_node row d.trajectory
                    (ground (arith, h.tallied)),
              )
              refl
        | inr room ↦
            rw
              (
                room,
                room-appended d.trajectory_rows_per_node row d.trajectory
                    (ground (arith, h.tallied)),
              )
              refl
      ]

pub after_append-Agrees :
    (row : Row) (d : NodeHistoryDb)
    → 0 < d.trajectory_rows_per_node
    → IsPrimed row.node_id d
    → Agrees (after_append row d)
after_append-Agrees row d pos h j = elim (Bool-cases (str_eq row.node_id j)) [
  | inl same ↦
      let named : row.node_id ≡ j = (str_eq_iff row.node_id j).0 same in
      rw
        (
          lookup-insert row.node_id j _ d.last_traj_pos,
          lookup-insert row.node_id j _ d.traj_count,
          last_row-appended _ row d.trajectory j pos,
          count_rows-appended _ row d.trajectory j,
          same,
        )
        (refl, ground (arith, h.tallied, named))
  | inr other ↦
      rw
        (
          lookup-insert row.node_id j _ d.last_traj_pos,
          lookup-insert row.node_id j _ d.traj_count,
          last_row-appended _ row d.trajectory j pos,
          count_rows-appended _ row d.trajectory j,
          other,
        )
        (h.agrees j)
]
