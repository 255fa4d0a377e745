-- ===== src/Geo/Boxes.antt =====
-- src/collectors/base.py, `point_in_bboxes`: a box over the antimeridian.
use meshforge_maps.Base.{◌≡◌, [], ◌∷◌, arith, ◌||◌}
use meshforge_maps.Int.{ℤ, pos, negsuc, ◌≤ℤ◌, ◌<ℤ◌}
use meshforge_maps.Float.{Float, finite}
use meshforge_maps.Geo.{in_bbox}

abbrev pub east_edge : Float
east_edge = finite (pos 1_800_000_000)

abbrev pub west_edge : Float
west_edge = finite (negsuc 1_799_999_999)

-- For longitudes from -180 to 180, a box whose west is at most 180 and lies east of its east, which
-- is at least -180, is the union of the two boxes that the antimeridian cuts it into.
pub antimeridian_splits :
    (lat s n : Float) (lon w e : ℤ)
    → e <ℤ w
    → (negsuc 1_799_999_999 ≤ℤ lon) × (lon ≤ℤ pos 1_800_000_000)
    → (negsuc 1_799_999_999 ≤ℤ e) × (w ≤ℤ pos 1_800_000_000)
    → in_bbox lat (finite lon) (s ∷ finite w ∷ n ∷ finite e ∷ []) ≡ (
        in_bbox lat (finite lon) (s ∷ finite w ∷ n ∷ east_edge ∷ [])
        || in_bbox lat (finite lon) (s ∷ west_edge ∷ n ∷ finite e ∷ []))
unfolding in_bbox
antimeridian_splits lat s n lon w e over (low, high) (east, west) = ground arith
