-- ===== src/NodeStore/Views.antt =====
-- src/collectors/mqtt_subscriber.py: what `get_all_nodes` and `get_topology_links` show of the store.
use meshforge_maps.Base.{
  ℕ, ◌+◌, ◌≡◌, refl, String, true, false, some, List, [], ◌∷◌, ◌++◌, arith, if◌then◌else◌, length,
  length-append, ltb, is_some, All, Bool-cases, Option-cases, inl, inr,
}
use meshforge_maps.Int.{ℤ}
use meshforge_maps.Dict.{Dict}
use meshforge_maps.NodeStore.{Node, Neighbor, NodeStore, seen}
use meshforge_maps.NodeStore.Reads.{
  Link, coords_of, shown, visible, get_all_nodes, place_of, links_from, links_of,
  get_topology_links,
}

-- A node that is shown has valid coordinates, and is not shown as online if it is stale.
abbrev pub IsShown : ℕ → ℕ → Node → Type 0
IsShown now stale node =
    (is_some (coords_of node) ≡ true)
    × (ltb (seen node + stale) now ≡ true → node.is_online ≡ some false)

shown-IsShown :
    (now stale : ℕ) (node : Node)
    → is_some (coords_of node) ≡ true
    → IsShown now stale (shown now stale node)
shown-IsShown now stale node placed = elim (Bool-cases (ltb (seen node + stale) now)) [
  | inl old ↦ rw old (placed, λ _. refl)
  | inr recent ↦ rw recent (placed, λ old. absurd (cc))
]

visible-IsShown : (now stale : ℕ) (d : Dict Node) → All (IsShown now stale) (visible now stale d)
unfolding visible
visible-IsShown now stale [] = tt
visible-IsShown now stale ((k, node) ∷ d) = elim (Option-cases (coords_of node)) [
  | inl missing ↦ rw (visible, missing) (visible-IsShown now stale d)
  | inr (at, e) ↦
      rw (visible, e) (shown-IsShown now stale node (rw e refl), visible-IsShown now stale d)
]

-- the nodes of a dictionary whose coordinates are valid
abbrev pub placed : Dict Node → ℕ
placed [] = 0
placed ((k, node) ∷ d) = (if is_some (coords_of node) then 1 else 0) + placed d

length-visible : (now stale : ℕ) (d : Dict Node) → length (visible now stale d) ≡ placed d
unfolding visible
length-visible now stale [] = refl
length-visible now stale ((k, node) ∷ d) = elim (Option-cases (coords_of node)) [
  | inl missing ↦ rw (visible, missing) (omega (arith, length-visible now stale d))
  | inr (at, e) ↦ rw (visible, e) (omega (arith, length-visible now stale d))
]

-- Just the nodes with valid coordinates are shown, one entry for each, and none that was not seen for
-- longer than `stale_seconds` is shown as online.
pub get_all_nodes_shows :
    (now : ℕ) (s : NodeStore)
    → All (IsShown now s.stale_seconds) (get_all_nodes now s)
      × (length (get_all_nodes now s) ≡ placed s.nodes)
unfolding get_all_nodes
get_all_nodes_shows now s =
    (visible-IsShown now s.stale_seconds s.nodes, length-visible now s.stale_seconds s.nodes)

-- Both ends of a link have valid coordinates in the store, and it carries them.
abbrev pub IsLink : NodeStore → Link → Type 0
IsLink s link =
    (place_of link.source s ≡ some link.source_at) × (place_of link.target s ≡ some link.target_at)

links_from-IsLink :
    (source : String) (at : ℤ × ℤ) (neighbors : List Neighbor) (s : NodeStore)
    → place_of source s ≡ some at
    → All (IsLink s) (links_from source at neighbors s)
unfolding links_from
links_from-IsLink source at [] s h = tt
links_from-IsLink source at (n ∷ neighbors) s h = elim (Option-cases (place_of n.node_id s)) [
  | inl missing ↦ rw (links_from, missing) (links_from-IsLink source at neighbors s h)
  | inr (there, e) ↦ rw (links_from, e) ((h, e), links_from-IsLink source at neighbors s h)
]

All-append : {A : Type 0} (P : A → Type 0) (xs ys : List A) → All P xs → All P ys → All P (xs ++ ys)
All-append P [] ys h k = k
All-append P (x ∷ xs) ys h k = (h.0, All-append P xs ys h.1 k)

links_of-IsLink : (d : Dict (List Neighbor)) (s : NodeStore) → All (IsLink s) (links_of d s)
unfolding links_of
links_of-IsLink [] s = tt
links_of-IsLink ((source, neighbors) ∷ d) s = elim (Option-cases (place_of source s)) [
  | inl missing ↦ rw (links_of, missing) (links_of-IsLink d s)
  | inr (at, e) ↦
      rw (links_of, e)
        (All-append (IsLink s) _ _ (links_from-IsLink source at neighbors s e)
          (links_of-IsLink d s))
]

-- the reports of which both ends have a place
abbrev pub joinable_from : List Neighbor → NodeStore → ℕ
joinable_from [] s = 0
joinable_from (n ∷ neighbors) s =
    (if is_some (place_of n.node_id s) then 1 else 0) + joinable_from neighbors s

abbrev pub joinable : Dict (List Neighbor) → NodeStore → ℕ
joinable [] s = 0
joinable ((source, neighbors) ∷ d) s =
    (if is_some (place_of source s) then joinable_from neighbors s else 0) + joinable d s

length-links_from :
    (source : String) (at : ℤ × ℤ) (neighbors : List Neighbor) (s : NodeStore)
    → length (links_from source at neighbors s) ≡ joinable_from neighbors s
unfolding links_from
length-links_from source at [] s = refl
length-links_from source at (n ∷ neighbors) s = elim (Option-cases (place_of n.node_id s)) [
  | inl missing ↦ rw (links_from, missing) (omega (arith, length-links_from source at neighbors s))
  | inr (there, e) ↦ rw (links_from, e) (omega (arith, length-links_from source at neighbors s))
]

length-links_of : (d : Dict (List Neighbor)) (s : NodeStore) → length (links_of d s) ≡ joinable d s
unfolding links_of
length-links_of [] s = refl
length-links_of ((source, neighbors) ∷ d) s = elim (Option-cases (place_of source s)) [
  | inl missing ↦ rw (links_of, missing) (omega (arith, length-links_of d s))
  | inr (at, e) ↦
      rw (links_of, e)
        (omega (
          arith,
          length-append (links_from source at neighbors s) (links_of d s),
          length-links_from source at neighbors s,
          length-links_of d s,
        ))
]

-- The links are those of the reports whose two nodes are stored with valid coordinates, one link for
-- each, with the coordinates of its two ends.
pub topology_links_join :
    (s : NodeStore)
    → All (IsLink s) (get_topology_links s)
      × (length (get_topology_links s) ≡ joinable s.neighbors s)
unfolding get_topology_links
topology_links_join s = (links_of-IsLink s.neighbors s, length-links_of s.neighbors s)
