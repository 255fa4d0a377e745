-- ===== src/Float.antt =====
-- Python's floats, as far as the program compares them: a finite number is a whole number of 10⁻⁷
-- (an integer latitude of Meshtastic is exactly one unit), beside the infinities and NaN. Rounding is
-- not modelled.
use meshforge_maps.Base.{ℕ, ◌*◌, Bool, true, false}
use meshforge_maps.Int.{ℤ, pos, leb_ℤ, ltb_ℤ, eqb_ℤ}

pub data Float : Type 0 where
  finite : ℤ → Float
  plus_inf minus_inf nan : Float

-- `x < y`; a comparison with NaN is false
abbrev pub lt_float : Float → Float → Bool
lt_float (finite a) (finite b) = ltb_ℤ a b
lt_float (finite a) plus_inf = true
lt_float minus_inf (finite b) = true
lt_float minus_inf plus_inf = true
lt_float _ _ = false

-- `x == y`
abbrev pub eq_float : Float → Float → Bool
eq_float (finite a) (finite b) = eqb_ℤ a b
eq_float plus_inf plus_inf = true
eq_float minus_inf minus_inf = true
eq_float _ _ = false

-- `x <= y`
abbrev pub le_float : Float → Float → Bool
le_float (finite a) (finite b) = leb_ℤ a b
le_float (finite a) plus_inf = true
le_float minus_inf (finite b) = true
le_float minus_inf plus_inf = true
le_float plus_inf plus_inf = true
le_float minus_inf minus_inf = true
le_float _ _ = false

abbrev pub is_nan : Float → Bool
is_nan nan = true
is_nan _ = false

abbrev pub is_inf : Float → Bool
is_inf plus_inf = true
is_inf minus_inf = true
is_inf _ = false

-- a whole number
abbrev pub whole : ℕ → Float
whole n = finite (pos (n * 10_000_000))
