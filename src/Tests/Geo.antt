-- ===== src/Tests/Geo.antt =====
-- Runs of the coordinate checks of src/collectors/base.py, and their theorems at concrete inputs.
use meshforge_maps.Base.{
  ◌≡◌, refl, ◌++◌, true, false, Option, none, some, List, [], ◌∷◌, arith, inl,
}
use meshforge_maps.Int.{ℤ, pos, negsuc, ◌+ℤ◌, ◌-ℤ◌}
use meshforge_maps.Float.{finite, nan}
use meshforge_maps.Geo.{
  int, number, Vertex, check_range, validate_coordinates, crosses, cast, cast_ring,
  point_in_polygon,
}
use meshforge_maps.Geo.Coordinates.{IsPosition, validate_coordinates-IsPosition}
use meshforge_maps.Geo.Rings.{point_in_polygon_closed}

-- Hawaii, as Meshtastic sends it
abbrev lat : ℤ
lat = pos 210_000_000

abbrev lon : ℤ
lon = negsuc 1_569_999_999

hawaii_runs : validate_coordinates (int lat) (int lon) true ≡ some (lat, lon)
unfolding validate_coordinates check_range
hawaii_runs = refl

nan_runs : validate_coordinates (number nan) (int lon) true ≡ none
unfolding validate_coordinates check_range
nan_runs = refl

hawaii : IsPosition lat lon
hawaii = record {
  south = omega arith;
  north = omega arith;
  west = omega arith;
  east = omega arith;
  off_null = inl (omega arith);
}

validate_coordinates-IsPosition_example :
    IsPosition lat lon
    × (validate_coordinates (number (finite lat)) (number (finite lon)) false ≡ some (lat, lon))
validate_coordinates-IsPosition_example =
    validate_coordinates-IsPosition (int lat) (int lon) true false lat lon hawaii_runs

abbrev triangle : List (Option Vertex)
triangle = some (pos 0, pos 0) ∷ some (pos 40_000_000, pos 0) ∷ some (pos 0, pos 40_000_000) ∷ []

inside_runs : point_in_polygon (int (pos 1)) (int (pos 1)) triangle ≡ true
unfolding point_in_polygon cast_ring cast crosses ◌+ℤ◌ ◌-ℤ◌
inside_runs = refl

outside_runs : point_in_polygon (int (pos 3)) (int (pos 3)) triangle ≡ false
unfolding point_in_polygon cast_ring cast crosses ◌+ℤ◌ ◌-ℤ◌
outside_runs = refl

point_in_polygon_closed_example :
    point_in_polygon (int (pos 1)) (int (pos 1)) (triangle ++ some (pos 0, pos 0) ∷ [])
    ≡ point_in_polygon (int (pos 1)) (int (pos 1)) triangle
point_in_polygon_closed_example =
    point_in_polygon_closed (int (pos 1)) (int (pos 1)) (some (pos 0, pos 0))
      (some (pos 40_000_000, pos 0) ∷ some (pos 0, pos 40_000_000) ∷ []) (omega arith)
