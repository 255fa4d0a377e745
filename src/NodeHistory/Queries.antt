-- ===== src/NodeHistory/Queries.antt =====
-- src/utils/node_history.py: the queries, as the rows that they return. What a report adds to the rows
-- (the features and their dictionaries) is not modelled, nor is the rounding of the density query.
use meshforge_maps.Base.{
  ℕ, ◌+◌, String, Bool, true, false, Option, none, some, List, [], ◌∷◌, ltb, leb, ◌&&◌, not,
  if◌then◌else◌, filter, take, min, max,
}
use meshforge_maps.Dict.{Dict}
use meshforge_maps.NodeHistory.{Row, NodeHistoryDb, of_node}

-- ORDER BY timestamp ASC
unfoldable pub insert_asc : Row → List Row → List Row
insert_asc row [] = row ∷ []
insert_asc row (r ∷ rows) =
    if ltb r.timestamp row.timestamp then r ∷ insert_asc row rows else row ∷ r ∷ rows

unfoldable pub order_asc : List Row → List Row
order_asc [] = []
order_asc (row ∷ rows) = insert_asc row (order_asc rows)

-- ORDER BY timestamp DESC
unfoldable pub insert_desc : Row → List Row → List Row
insert_desc row [] = row ∷ []
insert_desc row (r ∷ rows) =
    if ltb row.timestamp r.timestamp then r ∷ insert_desc row rows else row ∷ r ∷ rows

unfoldable pub order_desc : List Row → List Row
order_desc [] = []
order_desc (row ∷ rows) = insert_desc row (order_desc rows)

-- a bound of the WHERE clause, if it is given
abbrev pub at_least : Option ℕ → ℕ → Bool
at_least none t = true
at_least (some since) t = leb since t

abbrev pub at_most : Option ℕ → ℕ → Bool
at_most none t = true
at_most (some until) t = leb t until

abbrev pub in_period : String → Option ℕ → Option ℕ → Row → Bool
in_period node_id since until row =
    of_node node_id row && at_least since row.timestamp && at_most until row.timestamp

-- `get_trajectory_geojson`: the points of the line
unfoldable pub get_trajectory : String → Option ℕ → Option ℕ → ℕ → NodeHistoryDb → List Row
get_trajectory node_id since until limit d =
    if not d.connected
    then []
    else take limit (order_asc (filter (in_period node_id since until) d.trajectory))

unfoldable pub get_node_history : String → Option ℕ → ℕ → NodeHistoryDb → List Row
get_node_history node_id since limit d =
    if not d.connected
    then []
    else take limit (order_desc (filter (in_period node_id since none) d.trajectory))

abbrev pub listed : String → List Row → Bool
listed node_id [] = false
listed node_id (row ∷ rows) = if of_node node_id row then true else listed node_id rows

-- the rows whose id is a MAX(id) … GROUP BY node_id
unfoldable pub latest : List Row → List Row
latest [] = []
latest (row ∷ rows) = let rest = latest rows in if listed row.node_id rows then rest else row ∷ rest

abbrev pub values : {A : Type 0} → Dict A → List A
values [] = []
values ((k, a) ∷ d) = a ∷ values d

-- `get_snapshot`: the rows of the features
unfoldable pub get_snapshot : ℕ → ℕ → NodeHistoryDb → List Row
get_snapshot timestamp clock d =
    if not d.connected
    then []
    else if leb clock timestamp
    then values d.nodes_current
    else latest (filter (λ row. leb row.timestamp timestamp) d.trajectory)

-- a line of `get_tracked_nodes`
pub record Tracked : Type 0 where
  pub node_id : String
  pub observation_count : ℕ
  pub first_seen : ℕ
  pub last_seen : ℕ

-- COUNT(*), MIN(timestamp), MAX(timestamp) GROUP BY node_id
unfoldable pub add_tracked : Row → List Tracked → List Tracked
add_tracked row [] =
    record {
      node_id = row.node_id;
      observation_count = 1;
      first_seen = row.timestamp;
      last_seen = row.timestamp;
    }
    ∷ []
add_tracked row (t ∷ ts) =
    if of_node t.node_id row
    then record t {
      observation_count = t.observation_count + 1;
      first_seen = min t.first_seen row.timestamp;
      last_seen = max t.last_seen row.timestamp;
    }
      ∷ ts
    else t ∷ add_tracked row ts

unfoldable pub group_rows : List Row → List Tracked
group_rows [] = []
group_rows (row ∷ rows) = add_tracked row (group_rows rows)

-- ORDER BY last_seen DESC
unfoldable pub insert_tracked : Tracked → List Tracked → List Tracked
insert_tracked t [] = t ∷ []
insert_tracked t (u ∷ us) =
    if ltb t.last_seen u.last_seen then u ∷ insert_tracked t us else t ∷ u ∷ us

unfoldable pub order_tracked : List Tracked → List Tracked
order_tracked [] = []
order_tracked (t ∷ ts) = insert_tracked t (order_tracked ts)

unfoldable pub get_tracked_nodes : NodeHistoryDb → List Tracked
get_tracked_nodes d = if not d.connected then [] else order_tracked (group_rows d.trajectory)
