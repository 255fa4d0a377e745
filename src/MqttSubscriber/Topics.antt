-- ===== src/MqttSubscriber/Topics.antt =====
-- src/collectors/mqtt_subscriber.py, `_on_connect`: the topics that are subscribed to.
use Prim.Native.String.{◌++◌ as join}
use meshforge_maps.Base.{
  ℕ, zero, suc, String, Bool, List, [], ◌∷◌, not, ◌&&◌, ◌||◌, if◌then◌else◌, str_eq, is_prefix,
  is_infix,
}

-- `s.endswith(suffix)`
abbrev pub ends_with : String → String → Bool
ends_with suffix String.[] = str_eq suffix String.[]
ends_with suffix (String.◌∷◌ c s) = str_eq suffix (String.◌∷◌ c s) || ends_with suffix s

abbrev pub slash : String
slash = "/"

-- `s.rstrip("/")`
abbrev pub rstrip : String → String
rstrip String.[] = String.[]
rstrip (String.◌∷◌ c s) =
    let rest = rstrip s in
    if str_eq rest String.[] && str_eq (String.◌∷◌ c String.[]) slash
    then String.[]
    else String.◌∷◌ c rest

-- `s.replace(old, new)` for an old text of `suc n` characters, after `skip` characters of the last match
abbrev pub replace_from : String → ℕ → String → ℕ → String → String
replace_from old n new skip String.[] = String.[]
replace_from old n new (suc skip) (String.◌∷◌ c s) = replace_from old n new skip s
replace_from old n new zero (String.◌∷◌ c s) =
    let replaced = join new (replace_from old n new n s) in
    let kept = String.◌∷◌ c (replace_from old n new zero s) in
    if is_prefix old (String.◌∷◌ c s) then replaced else kept

abbrev pub json_form : String → String
json_form topic = replace_from "/2/e/" 4 "/2/json/" 0 topic

-- a root topic, such as "msh/US/HI", made into a full one
unfoldable pub expand : String → String
expand topic =
    if not (ends_with "/#" topic) && not (is_infix "/2/e/" topic) && not (is_infix "/2/json/" topic)
    then join (rstrip topic) "/2/e/#"
    else topic

unfoldable pub subscriptions : String → List String
subscriptions topic =
    let full = expand topic in full ∷ (if is_infix "/2/e/" full then json_form full ∷ [] else [])
