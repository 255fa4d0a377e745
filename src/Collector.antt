-- ===== src/Collector.antt =====
-- src/collectors/base.py: online status, the merge of feature lists, and the collection with its
-- cache and retries. `D` is the type of a collection, and `truthy` Python's truth of it (a dictionary
-- with entries); both are parameters, as is what a subclass's `_fetch` does at each try. An answer of
-- none is an exception that `collect` lets out. The length of the waits between tries and the persistent
-- cache on disk are not modelled, nor are exceptions that are no `Exception`. Clock values are natural
-- numbers; `times` are those that a call reads after its tries.
pub mod Merge
pub mod Tries
pub mod Retries
pub mod Cache
pub mod Online
use meshforge_maps.Base.{
  ℕ, zero, suc, ◌+◌, String, Bool, true, false, Option, none, some, List, [], ◌∷◌, ◌++◌, ltb, leb,
  ◌==◌, not, ◌&&◌, ◌||◌, if◌then◌else◌, str_eq, is_some, get_or,
}
use meshforge_maps.Dict.{Dict, lookup}
use meshforge_maps.Reconnect.{ReconnectStrategy, for_collector, next_delay}

-- `ONLINE_THRESHOLDS`, in seconds
abbrev pub online_thresholds : Dict ℕ
online_thresholds =
    ("meshtastic", 900)
    ∷ ("mqtt", 900)
    ∷ ("mesh_client", 900)
    ∷ ("reticulum", 1800)
    ∷ ("aredn", 3600)
    ∷ ("meshcore", 3600)
    ∷ ("meshmap", 7200)
    ∷ []

abbrev pub default_online_threshold : ℕ
default_online_threshold = 900

-- the threshold of a network, if it has one
unfoldable pub threshold_of : String → Option ℕ
threshold_of network = elim (lookup network online_thresholds) [
  | none ↦ if str_eq network "" then some default_online_threshold else none
  | some t ↦ some t
]

-- `is_node_online`, for the number that `float()` reads in `last_heard`; none and 0 are unknown
unfoldable pub is_node_online : Option ℕ → String → ℕ → Option Bool
is_node_online none network now = none
is_node_online (some last_heard) network now =
    if last_heard == 0 then none else elim (threshold_of network) [
      | none ↦ none
      | some t ↦ some (leb last_heard now && ltb now (last_heard + t))
    ]

-- a feature, with its `properties.id`; an empty id counts as none
pub record Feature : Type 0 where
  pub id : String
  pub payload : ℕ

abbrev pub member : String → List String → Bool
member k [] = false
member k (j ∷ ids) = str_eq j k || member k ids

-- the inner loop of `deduplicate_features`; `none` stands for a feature that is None
unfoldable pub merge : Bool → List String → List (Option Feature) → List Feature
merge allow_no_id seen_ids [] = []
merge allow_no_id seen_ids (none ∷ features) = merge allow_no_id seen_ids features
merge allow_no_id seen_ids (some f ∷ features) =
    let skipped = merge allow_no_id seen_ids features in
    let noted = merge allow_no_id (f.id ∷ seen_ids) features in
    if not (str_eq f.id "")
    then (if member f.id seen_ids then skipped else f ∷ noted)
    else if allow_no_id
    then f ∷ skipped
    else skipped

abbrev pub flatten : List (List (Option Feature)) → List (Option Feature)
flatten [] = []
flatten (features ∷ lists) = features ++ flatten lists

unfoldable pub deduplicate_features : List (List (Option Feature)) → Bool → List Feature
deduplicate_features lists allow_no_id = merge allow_no_id [] (flatten lists)

pub record BaseCollector (D : Type 0) : Type 0 where
  pub cache : Option D
  pub cache_time : ℕ
  pub cache_ttl : ℕ
  pub max_retries : ℕ
  pub last_error : Option String
  pub last_error_time : ℕ
  pub last_success_time : ℕ
  pub total_collections : ℕ
  pub total_errors : ℕ

-- One try: `_fetch` gives a collection or raises. A collection `spoils` the try if it is stored and
-- counted, and an exception comes after that: its features have no length, say.
pub data Fetch (D : Type 0) : Type 0 where
  gives : D → Fetch D
  spoils : D → String → Fetch D
  raises : String → Fetch D

abbrev pub waited : Option (ReconnectStrategy × ℕ) → Option ReconnectStrategy
waited none = none
waited (some (strategy, delay)) = some strategy

-- the delay before the next try, where `left` tries are left: without one there is none, and the
-- overflow of `next_delay` is not caught. How long the wait is changes nothing.
unfoldable pub back_off : ℕ → ℕ → ReconnectStrategy → Option ReconnectStrategy
back_off zero now strategy = some strategy
back_off (suc left) now strategy = waited (next_delay (λ _. 0) now strategy)

module _ {D : Type 0} (truthy : D → Bool) where
  -- self._cache and (now - self._cache_time) < self._cache_ttl
  unfoldable pub fresh : ℕ → BaseCollector D → Option D
  fresh now c = elim c.cache [
    | none ↦ none
    | some found ↦ if truthy found && ltb now (c.cache_time + c.cache_ttl) then some found else none
  ]

  -- a stale cache, if there is one to fall back on
  unfoldable pub stale : BaseCollector D → Option D
  stale c = elim c.cache [ none ↦ none | some found ↦ if truthy found then some found else none ]

  abbrev pub succeed : D → ℕ → BaseCollector D → BaseCollector D
  succeed found now c = record c {
    cache = some found;
    cache_time = now;
    last_success_time = now;
    total_collections = c.total_collections + 1;
  }

  abbrev pub give_up : String → ℕ → BaseCollector D → BaseCollector D
  give_up text now c = record c {
    last_error = some text;
    last_error_time = now;
    total_errors = c.total_errors + 1;
  }

  -- the loop over the tries that are left, after the last error
  unfoldable pub retry :
      (ℕ → Fetch D)
      → (ℕ → ℕ)
      → D
      → ℕ
      → ℕ
      → ReconnectStrategy
      → String
      → BaseCollector D
      → BaseCollector D × Option D
  retry fetch times empty zero attempt strategy error c =
      (give_up error (times attempt) c, some (get_or (stale c) empty))
  retry fetch times empty (suc left) attempt strategy error c = elim (fetch attempt) [
    | gives found ↦ (succeed found (times attempt) c, some found)
    | spoils found text ↦ elim (back_off left (times attempt) strategy) [
      | none ↦ (succeed found (times attempt) c, none)
      | some strategy' ↦
          retry fetch times empty left (suc attempt) strategy' text
            (succeed found (times attempt) c)
    ]
    | raises text ↦ elim (back_off left (times attempt) strategy) [
      | none ↦ (c, none)
      | some strategy' ↦ retry fetch times empty left (suc attempt) strategy' text c
    ]
  ]

  -- `collect`, at `now`; `empty` is the collection without features
  unfoldable pub collect :
      (ℕ → Fetch D) → (ℕ → ℕ) → D → ℕ → BaseCollector D → BaseCollector D × Option D
  collect fetch times empty now c = elim (fresh now c) [
    | some found ↦ (c, some found)
    | none ↦ retry fetch times empty (suc c.max_retries) 0 for_collector "unknown error" c
  ]

unfoldable pub clear_cache : {D : Type 0} → BaseCollector D → BaseCollector D
clear_cache c = record c { cache = none; cache_time = 0 }

-- whether an answer is the very object of the cache; `same` is Python's `is`
unfoldable pub is_cache_hit : {D : Type 0} → (D → D → Bool) → D → BaseCollector D → Bool
is_cache_hit same found c = elim c.cache [ none ↦ false | some kept ↦ same found kept ]
