-- ===== src/Base/Texts.antt =====
-- Python's `in` on texts.
use Prim.Native.String.{String}
use mathlib.Core.Bool.{Bool, true, false, ◌&&◌, ◌||◌}
use text.Mathlib.Text.{◌==◌ as str_eq}

abbrev pub is_prefix : String → String → Bool
is_prefix String.[] s = true
is_prefix (String.◌∷◌ c sub) String.[] = false
is_prefix (String.◌∷◌ c sub) (String.◌∷◌ x s) =
    str_eq (String.◌∷◌ c String.[]) (String.◌∷◌ x String.[]) && is_prefix sub s

-- `sub in s`
abbrev pub is_infix : String → String → Bool
is_infix sub String.[] = is_prefix sub String.[]
is_infix sub (String.◌∷◌ x s) = is_prefix sub (String.◌∷◌ x s) || is_infix sub s
