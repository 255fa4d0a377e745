-- ===== src/NodeStore/Ids.antt =====
-- src/collectors/mqtt_subscriber.py, `get_node`: the two forms of a node's id.
use Prim.Native.String.append
use Prim.Native.String.{◌++◌ as join}
use meshforge_maps.Base.{◌≡◌, refl, ap, ◌∙◌, String, false, none, some, arith, ◌⊎◌, inl, inr}
use meshforge_maps.Dict.{lookup}
use meshforge_maps.NodeStore.{Node, NodeStore}
use meshforge_maps.NodeStore.Reads.{has_mark, strip_marks, other_form, get_node}

strip_marks_bare : (t : String) → has_mark t ≡ false → strip_marks t ≡ t
strip_marks_bare String.[] bare = refl
strip_marks_bare (String.◌∷◌ c t) bare = ground (arith, bare)

-- the text after a leading '!'
join_mark : (t : String) → join "!" t ≡ String.◌∷◌ "!" t
join_mark t = append.cons "!" "" t ∙ ap (String.◌∷◌ "!") (append.nil t)

other_form_marked : (t : String) → has_mark t ≡ false → other_form (join "!" t) ≡ t
other_form_marked t bare = rw (join_mark t) (strip_marks_bare t bare)

other_form_bare : (t : String) → has_mark t ≡ false → other_form t ≡ join "!" t
other_form_bare t bare = ground (arith, bare)

get_node_direct :
    (k : String) (s : NodeStore) (node : Node)
    → lookup k s.nodes ≡ some node
    → get_node k s ≡ some node
unfolding get_node
get_node_direct k s node e = rw (get_node, e) refl

get_node_other :
    (k : String) (s : NodeStore) (node : Node)
    → lookup k s.nodes ≡ none
    → lookup (other_form k) s.nodes ≡ some node
    → get_node k s ≡ some node
unfolding get_node
get_node_other k s node missing e = rw (get_node, missing) e

-- A node that is stored under one form of its id alone, with or without the leading '!', is found under
-- both forms.
pub get_node_either_form :
    (t : String) (s : NodeStore) (node : Node)
    → has_mark t ≡ false
    → ((lookup t s.nodes ≡ some node) × (lookup (join "!" t) s.nodes ≡ none))
      ⊎ ((lookup t s.nodes ≡ none) × (lookup (join "!" t) s.nodes ≡ some node))
    → (get_node t s ≡ some node) × (get_node (join "!" t) s ≡ some node)
get_node_either_form t s node bare (inl (here, missing)) = (
  get_node_direct t s node here,
  get_node_other (join "!" t) s node missing (rw (other_form_marked t bare) here),
)
get_node_either_form t s node bare (inr (missing, here)) = (
  get_node_other t s node missing (rw (other_form_bare t bare) here),
  get_node_direct (join "!" t) s node here,
)
