-- ===== src/Geo/Rings.antt =====
-- src/collectors/base.py, `point_in_polygon`: open and closed rings.
use meshforge_maps.Base.{
  ◌≤◌, ◌≡◌, refl, ◌∙◌, ap, sym, Bool, true, false, Option, none, some, List, [], ◌∷◌, ◌++◌, arith,
  not, if◌then◌else◌, length, length-append, Option-cases, Bool-cases, inl, inr,
}
use meshforge_maps.Float.{Float, finite, plus_inf, minus_inf, nan}
use meshforge_maps.Geo.{
  Coordinate, to_float, Vertex, crosses, cast, last_of, cast_ring, point_in_polygon,
}

-- an edge from a vertex to itself toggles nothing
crosses_self : (x y : Float) (v : Vertex) → crosses x y v v ≡ false
unfolding crosses
crosses_self x (finite y) v = ground arith
crosses_self x plus_inf v = refl
crosses_self x minus_inf v = refl
crosses_self x nan v = refl

-- where the walk starts only toggles its outcome, unless a bad vertex ends it
all_good : List (Option Vertex) → Bool
all_good [] = true
all_good (none ∷ rest) = false
all_good (some v ∷ rest) = all_good rest

cast_bad :
    (x y : Float) (inside : Bool) (j : Vertex) (rest : List (Option Vertex))
    → all_good rest ≡ false
    → cast x y inside j rest ≡ false
unfolding cast all_good
cast_bad x y inside j [] h = absurd (cc)
cast_bad x y inside j (none ∷ rest) h = refl
cast_bad x y inside j (some v ∷ rest) h =
    cast_bad x y (if crosses x y v j then not inside else inside) v rest h

cast_toggle :
    (x y : Float) (inside : Bool) (j : Vertex) (rest : List (Option Vertex))
    → all_good rest ≡ true
    → cast x y (not inside) j rest ≡ not (cast x y inside j rest)
unfolding cast all_good
cast_toggle x y inside j [] h = refl
cast_toggle x y inside j (none ∷ rest) h = absurd (cc)
cast_toggle x y inside j (some v ∷ rest) h =
    ground (arith, cast_toggle x y inside v rest h, cast_toggle x y (not inside) v rest h)

-- walking on to one vertex more
cast-append :
    (x y : Float) (inside : Bool) (j v w : Vertex) (rest : List (Option Vertex))
    → last_of (some j) rest ≡ some w
    → all_good rest ≡ true
    → cast x y inside j (rest ++ some v ∷ [])
      ≡ (if crosses x y v w then not (cast x y inside j rest) else cast x y inside j rest)
unfolding cast all_good
cast-append x y inside j v w [] e h = ground (arith, e, ap (crosses x y v))
cast-append x y inside j v w (none ∷ rest) e h = absurd (cc)
cast-append x y inside j v w (some u ∷ rest) e h =
    cast-append x y (if crosses x y u j then not inside else inside) u v w rest e h

last_of-append :
    (j v : Option Vertex) (rest : List (Option Vertex)) → last_of j (rest ++ v ∷ []) ≡ v
last_of-append j v [] = refl
last_of-append j v (u ∷ rest) = last_of-append u v rest

all_good-append :
    (rest : List (Option Vertex)) (v : Vertex) → all_good (rest ++ some v ∷ []) ≡ all_good rest
unfolding all_good
all_good-append [] v = refl
all_good-append (none ∷ rest) v = refl
all_good-append (some u ∷ rest) v = all_good-append rest v

last_good :
    (v : Vertex) (rest : List (Option Vertex))
    → all_good rest ≡ true
    → (w : Vertex) × (last_of (some v) rest ≡ some w)
unfolding all_good
last_good v [] h = (v, refl)
last_good v (none ∷ rest) h = absurd (cc)
last_good v (some u ∷ rest) h = last_good u rest h

cast_ring_good :
    (x y : Float) (v w : Vertex) (rest : List (Option Vertex))
    → last_of (some v) rest ≡ some w
    → cast_ring x y (some v ∷ rest) ≡ cast x y false w (some v ∷ rest)
unfolding cast_ring
cast_ring_good x y v w rest e = rw (cast_ring, e) refl

cast_ring_bad :
    (x y : Float) (v : Option Vertex) (rest : List (Option Vertex))
    → all_good (v ∷ rest) ≡ false
    → cast_ring x y (v ∷ rest) ≡ false
unfolding cast_ring
cast_ring_bad x y v rest h = elim (Option-cases (last_of v rest)) [
  | inl bad ↦ rw (cast_ring, bad) refl
  | inr (w, e) ↦ rw (cast_ring, e) (cast_bad x y false w (v ∷ rest) h)
]

cast_ring_closed_good :
    (x y : Float) (v : Vertex) (rest : List (Option Vertex))
    → all_good rest ≡ true
    → cast_ring x y (some v ∷ (rest ++ some v ∷ [])) ≡ cast_ring x y (some v ∷ rest)
unfolding cast
cast_ring_closed_good x y v rest h =
    let (w, e) = last_good v rest h in
    rw
      (
        cast_ring_good x y v v (rest ++ some v ∷ []) (last_of-append (some v) (some v) rest),
        cast_ring_good x y v w rest e,
      )
      (ground (
        arith,
        crosses_self x y v,
        cast-append x y false v v w rest e h,
        cast_toggle x y false v rest h,
      ))

cast_ring_closed :
    (x y : Float) (v : Option Vertex) (rest : List (Option Vertex))
    → cast_ring x y (v ∷ (rest ++ v ∷ [])) ≡ cast_ring x y (v ∷ rest)
unfolding all_good
cast_ring_closed x y none rest =
    cast_ring_bad x y none (rest ++ none ∷ []) refl ∙ sym (cast_ring_bad x y none rest refl)
cast_ring_closed x y (some v) rest = elim (Bool-cases (all_good rest)) [
  | inl good ↦ cast_ring_closed_good x y v rest good
  | inr bad ↦
      cast_ring_bad x y (some v) (rest ++ some v ∷ []) (all_good-append rest v ∙ bad)
      ∙ sym (cast_ring_bad x y (some v) rest bad)
]

-- Closing a ring of three vertices or more, by its first vertex again at the end, does not change
-- which points are inside, whether the vertices and the coordinates are numbers or not.
pub point_in_polygon_closed :
    (lat lon : Coordinate) (v : Option Vertex) (rest : List (Option Vertex))
    → 3 ≤ length (v ∷ rest)
    → point_in_polygon lat lon (v ∷ (rest ++ v ∷ [])) ≡ point_in_polygon lat lon (v ∷ rest)
unfolding point_in_polygon
point_in_polygon_closed lat lon v rest enough = elim (Option-cases (to_float lat)) [
  | inl bad ↦ ground (arith, bad)
  | inr (y, ey) ↦ elim (Option-cases (to_float lon)) [
    | inl bad ↦ ground (arith, bad, ey)
    | inr (x, ex) ↦ ground (arith, ex, ey, cast_ring_closed x y v rest, length-append rest (v ∷ []))
  ]
]
