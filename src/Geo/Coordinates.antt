-- ===== src/Geo/Coordinates.antt =====
-- src/collectors/base.py, `validate_coordinates`: what it lets through.
use meshforge_maps.Base.{
  ◌*◌, ap, ◌∙◌, ◌≤◌, ◌<◌, ◌≡◌, ◌⊎◌, inl, inr, refl, Bool, true, false, Option, none, some, arith,
  ltb, not, ◌&&◌, if_both, if◌then◌else◌, Bool-cases,
}
use meshforge_maps.Int.{ℤ, pos, negsuc, ◌≤ℤ◌, leb_ℤ}
use meshforge_maps.Float.{Float, finite, plus_inf, minus_inf, nan}
use meshforge_maps.Geo.{
  Coordinate, int, number, magnitude, scale, to_float, converted, check_range, both,
  validate_coordinates, degree,
}

-- in range, and not within 0.01 degrees of (0, 0)
pub record IsPosition (lat lon : ℤ) : Type 0 where
  pub south : negsuc 899_999_999 ≤ℤ lat
  pub north : lat ≤ℤ pos 900_000_000
  pub west : negsuc 1_799_999_999 ≤ℤ lon
  pub east : lon ≤ℤ pos 1_800_000_000
  pub off_null : (100_000 ≤ magnitude lat) ⊎ (100_000 ≤ magnitude lon)

abbrev in_range : ℤ → ℤ → Bool
in_range lat lon =
    leb_ℤ (scale (negsuc 89) degree) lat
    && leb_ℤ lat (pos (90 * degree))
    && leb_ℤ (scale (negsuc 179) degree) lon
    && leb_ℤ lon (pos (180 * degree))

abbrev near_null : ℤ → ℤ → Bool
near_null lat lon = ltb (magnitude lat) 100_000 && ltb (magnitude lon) 100_000

position : (lat lon : ℤ) → in_range lat lon ≡ true → near_null lat lon ≡ false → IsPosition lat lon
position lat lon r o = record {
  south = ground arith;
  north = ground arith;
  west = ground arith;
  east = ground arith;
  off_null = elim (Bool-cases (ltb (magnitude lat) 100_000)) [
    | inl l ↦ inr (ground arith)
    | inr l ↦ inl (ground arith)
  ];
}

check_range_lem :
    (lat lon : ℤ)
    → check_range (finite lat) (finite lon) ≡ (
        if not (in_range lat lon)
        then none
        else if near_null lat lon
        then none
        else some (lat, lon))
unfolding check_range
check_range_lem lat lon = refl

check_range-IsPosition :
    (x y : Float) (lat lon : ℤ)
    → check_range x y ≡ some (lat, lon)
    → (x ≡ finite lat) × (y ≡ finite lon) × IsPosition lat lon
unfolding check_range
check_range-IsPosition (finite a) (finite b) lat lon e =
    let range : in_range a b ≡ true = ground (arith, e, check_range_lem a b) in
    let off : near_null a b ≡ false = ground (arith, e, check_range_lem a b, range) in
    let same : ◌≡◌ {A = Option (ℤ × ℤ)} (some (a, b)) (some (lat, lon)) =
      ground (arith, e, check_range_lem a b, range, off) in
    let same_lat : a ≡ lat = ground arith in
    let same_lon : b ≡ lon = ground arith in
    (ap finite same_lat, ap finite same_lon, rw (← same_lat, ← same_lon) (position a b range off))
check_range-IsPosition (finite a) plus_inf lat lon e = absurd (cc)
check_range-IsPosition (finite a) minus_inf lat lon e = absurd (cc)
check_range-IsPosition (finite a) nan lat lon e = absurd (cc)
check_range-IsPosition plus_inf y lat lon e = absurd (cc)
check_range-IsPosition minus_inf y lat lon e = absurd (cc)
check_range-IsPosition nan y lat lon e = absurd (cc)

IsPosition-check_range :
    (lat lon : ℤ) → IsPosition lat lon → check_range (finite lat) (finite lon) ≡ some (lat, lon)
IsPosition-check_range lat lon p =
    let range : in_range lat lon ≡ true = ground (arith, p.south, p.north, p.west, p.east) in
    let off : near_null lat lon ≡ false = ground (arith, p.off_null) in
    check_range_lem lat lon ∙ rw range (rw off refl)

both-IsPosition :
    (x y : Option Float) (lat lon : ℤ) → both x y ≡ some (lat, lon) → IsPosition lat lon
both-IsPosition none y lat lon e = absurd (cc)
both-IsPosition (some x) none lat lon e = absurd (cc)
both-IsPosition (some x) (some y) lat lon e = (check_range-IsPosition x y lat lon e).2

-- What `validate_coordinates` lets through is a pair of finite numbers in range, not within 0.01
-- degrees of (0, 0); and it lets that pair through again, unchanged.
pub validate_coordinates-IsPosition :
    (lat lon : Coordinate) (convert_int again : Bool) (a b : ℤ)
    → validate_coordinates lat lon convert_int ≡ some (a, b)
    → IsPosition a b
      × (validate_coordinates (number (finite a)) (number (finite b)) again ≡ some (a, b))
unfolding validate_coordinates
validate_coordinates-IsPosition lat lon convert_int again a b e =
    let p : IsPosition a b = elim (Bool-cases convert_int) [
      | inl on ↦
          both-IsPosition (to_float (converted 900 lat)) (to_float (converted 1800 lon)) a b
            (rw on at e)
      | inr off ↦ both-IsPosition (to_float lat) (to_float lon) a b (rw off at e)
    ] in
    (
      p,
      if_both (λ o. o ≡ some (a, b)) again _ _ (IsPosition-check_range a b p)
          (IsPosition-check_range a b p),
    )

-- Meshtastic's integer coordinates, in units of 10⁻⁷ degrees, come out unchanged, wherever they are a
-- position and further from 0 than 900 and 1800 units.
pub validate_coordinates_int :
    (lat lon : ℤ)
    → IsPosition lat lon
    → 900 < magnitude lat
    → 1800 < magnitude lon
    → validate_coordinates (int lat) (int lon) true ≡ some (lat, lon)
unfolding validate_coordinates
validate_coordinates_int lat lon p far_lat far_lon =
    let big_lat : ltb 900 (magnitude lat) ≡ true = ground arith in
    let big_lon : ltb 1800 (magnitude lon) ≡ true = ground arith in
    rw (big_lat, big_lon) (IsPosition-check_range lat lon p)
