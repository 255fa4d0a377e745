-- ===== src/Geo.antt =====
-- src/collectors/base.py: coordinates, and the tests of a point against regions.
-- Floats are exact, in units of 10⁻⁷ (`Float`): the quotient of the ray cast is compared by cross
-- multiplication. A coordinate is a Python value of one of the kinds that `float()` tells apart; a
-- string comes with the number that `float()` reads in it, if it reads one. A vertex that is no pair
-- of finite numbers is `none`; the numbers of a box are floats.
pub mod Coordinates
pub mod Boxes
pub mod Rings
use meshforge_maps.Base.{
  ℕ, suc, ◌*◌, Bool, true, false, Option, none, some, List, [], ◌∷◌, not, ◌&&◌, ◌||◌, if◌then◌else◌,
  ltb, ◌==◌, length,
}
use meshforge_maps.Int.{ℤ, pos, negsuc, sub_ℕ, ◌+ℤ◌, ◌-ℤ◌, ltb_ℤ, leb_ℤ}
use meshforge_maps.Float.{
  Float, finite, plus_inf, minus_inf, nan, lt_float, le_float, is_nan, is_inf, whole,
}

pub data Coordinate : Type 0 where
  null other : Coordinate
  int : ℤ → Coordinate
  number : Float → Coordinate
  text : Option Float → Coordinate

abbrev pub degree : ℕ
degree = 10_000_000

abbrev pub magnitude : ℤ → ℕ
magnitude (pos n) = n
magnitude (negsuc n) = suc n

-- a whole number, times a natural one
abbrev pub scale : ℤ → ℕ → ℤ
scale (pos n) k = pos (n * k)
scale (negsuc n) k = sub_ℕ 0 (suc n * k)

-- `float()`; `none` is the `ValueError` or `TypeError`
abbrev pub to_float : Coordinate → Option Float
to_float (int n) = some (finite (scale n degree))
to_float (number x) = some x
to_float (text x) = x
to_float _ = none

-- the conversion of an `int` that is too large to be degrees
abbrev pub converted : ℕ → Coordinate → Coordinate
converted limit (int n) = if ltb limit (magnitude n) then number (finite n) else int n
converted limit c = c

-- the checks on the two floats: finite, in range, not at (0, 0)
unfoldable pub check_range : Float → Float → Option (ℤ × ℤ)
check_range (finite lat) (finite lon) =
    if not (
      leb_ℤ (scale (negsuc 89) degree) lat
      && leb_ℤ lat (pos (90 * degree))
      && leb_ℤ (scale (negsuc 179) degree) lon
      && leb_ℤ lon (pos (180 * degree)))
    then none
    else if ltb (magnitude lat) 100_000 && ltb (magnitude lon) 100_000
    then none
    else some (lat, lon)
check_range _ _ = none

abbrev pub both : Option Float → Option Float → Option (ℤ × ℤ)
both (some lat) (some lon) = check_range lat lon
both _ _ = none

unfoldable pub validate_coordinates : Coordinate → Coordinate → Bool → Option (ℤ × ℤ)
validate_coordinates lat lon convert_int =
    if convert_int
    then both (to_float (converted 900 lat)) (to_float (converted 1800 lon))
    else both (to_float lat) (to_float lon)

-- the longitude against the sides of a box: w > e crosses the antimeridian
abbrev pub in_span : Float → Float → Float → Bool
in_span w e lon =
    if le_float w e then le_float w lon && le_float lon e else le_float w lon || le_float lon e

-- one box [s, w, n, e]; a shorter list is passed over
unfoldable pub in_bbox : Float → Float → List Float → Bool
in_bbox lat lon (s ∷ w ∷ n ∷ e ∷ rest) = le_float s lat && le_float lat n && in_span w e lon
in_bbox lat lon _ = false

unfoldable pub any_bbox : Float → Float → List (List Float) → Bool
any_bbox lat lon [] = false
any_bbox lat lon (bbox ∷ bboxes) = in_bbox lat lon bbox || any_bbox lat lon bboxes

unfoldable pub point_in_bboxes : Coordinate → Coordinate → List (List Float) → Bool
point_in_bboxes lat lon [] = true
point_in_bboxes lat lon bboxes = elim (to_float lat) [
  | none ↦ false
  | some y ↦ elim (to_float lon) [ none ↦ false | some x ↦ any_bbox y x bboxes ]
]

abbrev pub times_ℤ : ℤ → ℤ → ℤ
times_ℤ a (pos n) = scale a n
times_ℤ a (negsuc n) = pos 0 -ℤ scale a (suc n)

abbrev pub Vertex : Type 0
Vertex = ℤ × ℤ

-- x < (xj - xi) * (y - yi) / (yj - yi) + xi, for yi and yj that differ
abbrev pub left_of : Float → ℤ → Vertex → Vertex → Bool
left_of (finite x) y (xi, yi) (xj, yj) =
    let near = times_ℤ (x -ℤ xi) (yj -ℤ yi) in
    let far = times_ℤ (xj -ℤ xi) (y -ℤ yi) in if ltb_ℤ yi yj then ltb_ℤ near far else ltb_ℤ far near
left_of minus_inf y i j = true
left_of _ y i j = false

-- the edge from j to i toggles: it straddles the point's latitude, to the right of the point
unfoldable pub crosses : Float → Float → Vertex → Vertex → Bool
crosses x (finite y) (xi, yi) (xj, yj) =
    let above_i = ltb_ℤ y yi in
    let above_j = ltb_ℤ y yj in
    (if above_i then not above_j else above_j) && left_of x y (xi, yi) (xj, yj)
crosses x _ i j = false

-- the loop, from the vertex `j` before the first; a bad vertex ends it with False
unfoldable pub cast : Float → Float → Bool → Vertex → List (Option Vertex) → Bool
cast x y inside j [] = inside
cast x y inside j (none ∷ rest) = false
cast x y inside j (some i ∷ rest) = cast x y (if crosses x y i j then not inside else inside) i rest

abbrev pub last_of : Option Vertex → List (Option Vertex) → Option Vertex
last_of v [] = v
last_of v (w ∷ rest) = last_of w rest

unfoldable pub cast_ring : Float → Float → List (Option Vertex) → Bool
cast_ring x y [] = false
cast_ring x y (v ∷ rest) = elim (last_of v rest) [
  | none ↦ false
  | some j ↦ cast x y false j (v ∷ rest)
]

unfoldable pub point_in_polygon : Coordinate → Coordinate → List (Option Vertex) → Bool
point_in_polygon lat lon polygon = if ltb (length polygon) 3 then false else elim (to_float lat) [
  | none ↦ false
  | some y ↦ elim (to_float lon) [ none ↦ false | some x ↦ cast_ring x y polygon ]
]

unfoldable pub any_polygon : Coordinate → Coordinate → List (List (Option Vertex)) → Bool
any_polygon lat lon [] = false
any_polygon lat lon (p ∷ polygons) = point_in_polygon lat lon p || any_polygon lat lon polygons

unfoldable pub point_in_polygons : Coordinate → Coordinate → List (List (Option Vertex)) → Bool
point_in_polygons lat lon polygons =
    if length polygons == 0 then true else any_polygon lat lon polygons

unfoldable pub point_in_region :
    Coordinate → Coordinate → List (List Float) → List (List (Option Vertex)) → Bool
point_in_region lat lon bboxes polygons =
    if length bboxes == 0 && length polygons == 0
    then true
    else (not (length bboxes == 0) && point_in_bboxes lat lon bboxes)
      || (not (length polygons == 0) && point_in_polygons lat lon polygons)
