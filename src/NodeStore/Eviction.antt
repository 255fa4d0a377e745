-- ===== src/NodeStore/Eviction.antt =====
-- src/collectors/mqtt_subscriber.py, `update_position`: what a position changes, and which node makes
-- room for a new one.
use mathlib.Core.Path.{subst}
use meshforge_maps.Base.{
  ℕ, ◌≤◌, ◌<◌, ◌≡◌, refl, sym, String, true, false, Option, none, some, arith, str_eq,
  if◌then◌else◌, length, leb, not, ◌&&◌, get_or, inl, inr, ◌⊎◌, if_split,
}
use meshforge_maps.Int.{ℤ}
use meshforge_maps.Float.{Float}
use meshforge_maps.Dict.{
  Dict, lookup, contains, erase, lookup-insert, lookup-erase, AllValues, IsDistinct,
}
use meshforge_maps.Dict.Evict.{oldest, oldest_found, oldest_lem}
use meshforge_maps.NodeStore.{
  Node, NodeStore, seen, new_node, node_or_new, put, drop_node, given, time_or, place, evict_oldest,
  make_room, update_position,
}

pub make_room_idle :
    (k : String) (s : NodeStore)
    → (contains k s.nodes ≡ true) ⊎ (length s.nodes < s.max_nodes)
    → make_room k s ≡ (s, none)
unfolding make_room
make_room_idle k s (inl known) = rw known refl
make_room_idle k s (inr room) =
    if_split (λ x. x ≡ (s, none)) (not (contains k s.nodes) && leb s.max_nodes (length s.nodes))
      (evict_oldest s) (s, none) (λ full. absurd (ground arith)) (λ _. refl)

pub make_room_full :
    (k : String) (s : NodeStore) (old : String)
    → contains k s.nodes ≡ false
    → s.max_nodes ≤ length s.nodes
    → oldest seen s.nodes ≡ some old
    → make_room k s ≡ (drop_node old s, some old)
unfolding make_room evict_oldest
make_room_full k s old unknown full e =
    if_split (λ x. x ≡ (drop_node old s, some old))
      (not (contains k s.nodes) && leb s.max_nodes (length s.nodes)) (evict_oldest s) (s, none)
      (λ _. rw (evict_oldest, e) refl) (λ free. absurd (ground arith))

-- A position of a node that is known, or for which there is room, changes that node alone: it has the
-- new coordinates and the time of the call, is online, and keeps the rest; nothing is evicted.
pub update_position_room :
    (k : String) (lat lon : Float) (altitude : Option ℤ) (timestamp : Option ℕ) (now : ℕ)
    (s : NodeStore)
    → (contains k s.nodes ≡ true) ⊎ (length s.nodes < s.max_nodes)
    → update_position k lat lon altitude timestamp now s
      ≡ (put k (place lat lon altitude (time_or timestamp now) (node_or_new k s)) s, none)
unfolding update_position
update_position_room k lat lon altitude timestamp now s h = rw (make_room_idle k s h) refl

-- what a store becomes when `old` makes room for the new node `k`, and what the callback gets
abbrev pub Replaces : String → String → Node → NodeStore → NodeStore × Option String → Type 0
Replaces old k node s x =
    (x.1 ≡ given old)
    × ((j : String)
        → lookup j x.0.nodes
          ≡ (if str_eq k j then some node else if str_eq old j then none else lookup j s.nodes))
    × ((j : String)
        → lookup j x.0.neighbors ≡ (if str_eq old j then none else lookup j s.neighbors))

update_position_evicting :
    (k : String) (lat lon : Float) (altitude : Option ℤ) (timestamp : Option ℕ) (now : ℕ)
    (s : NodeStore) (old : String)
    → contains k s.nodes ≡ false
    → s.max_nodes ≤ length s.nodes
    → oldest seen s.nodes ≡ some old
    → update_position k lat lon altitude timestamp now s ≡ (
      put k
          (place lat lon altitude (time_or timestamp now) (node_or_new k (drop_node old s)))
          (drop_node old s),
      given old,
    )
unfolding update_position
update_position_evicting k lat lon altitude timestamp now s old unknown full e =
    rw (make_room_full k s old unknown full e) refl

new_again :
    (k old : String) (d : Dict Node)
    → contains k d ≡ false
    → get_or (lookup k (erase old d)) (new_node k) ≡ new_node k
new_again k old d unknown = ground (arith, lookup-erase old k d)

-- The position of a new node in a full store: a node that was seen no later than any other goes, with its
-- links, and is what the callback gets (if its id is not empty); the new node comes in; every other
-- node, and the links of every other node, stay.
pub update_position_full :
    (k : String) (lat lon : Float) (altitude : Option ℤ) (timestamp : Option ℕ) (now : ℕ)
    (s : NodeStore)
    → IsDistinct s.nodes
    → contains k s.nodes ≡ false
    → s.max_nodes ≤ length s.nodes
    → 0 < length s.nodes
    → (old : String) × (gone : Node) × (lookup old s.nodes ≡ some gone)
      × AllValues (λ node. seen gone ≤ seen node) s.nodes
      × Replaces old k
          (place lat lon altitude (time_or timestamp now) (new_node k))
          s
          (update_position k lat lon altitude timestamp now s)
update_position_full k lat lon altitude timestamp now s h unknown full some_node =
    let (old, e) = oldest_found seen s.nodes some_node in
    let (gone, found, least) = oldest_lem seen s.nodes old h e in
    let node = place lat lon altitude (time_or timestamp now) (new_node k) in
    (
      old,
      gone,
      found,
      least,
      subst (Replaces old k node s)
          (sym (update_position_evicting k lat lon altitude timestamp now s old unknown full e))
          (
            refl,
            (λ j.
                rw
                  (
                    new_again k old s.nodes unknown,
                    lookup-insert k j node (erase old s.nodes),
                    lookup-erase old j s.nodes,
                  )
                  refl),
            λ j. lookup-erase old j s.neighbors,
          ),
    )
