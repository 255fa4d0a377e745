-- ===== src/Aggregator/Brokers.antt =====
-- src/collectors/aggregator.py: the MQTT brokers of a configuration, and the subscribers that are started
-- for them. A key that the configuration does not have is none; ports are numbers already. The library
-- of the clients is third-party code, and `available` is whether it is installed.
use mathlib.Core.List.{append-nil, append_assoc}
use meshforge_maps.Base.{
  ℕ, zero, suc, ◌<◌, ◌≡◌, refl, String, Bool, true, false, Option, none, some, List, [], ◌∷◌, ◌++◌,
  arith, ◌==◌, not, if◌then◌else◌, length, str_eq, get_or, is_some, count, Option-cases, inl, inr,
  ap, sym, ◌∙◌,
}

-- an entry of `mqtt_brokers` that is a dictionary
pub record Entry : Type 0 where
  pub broker : Option String
  pub port : Option ℕ
  pub topic : Option String
  pub username : Option String
  pub password : Option String
  pub use_tls : Bool
  pub label : Option String

-- the properties of a `MapsConfig` that tell its deployment profile
pub record Profile : Type 0 where
  pub is_lite : Bool
  pub is_medium : Bool

-- a `MapsConfig`, or the dictionary of its settings, which has no such attributes
pub record Config : Type 0 where
  pub mqtt_brokers : List (Option Entry)
  pub single : Entry  -- the keys mqtt_broker, mqtt_port, …
  pub enable_meshtastic : Bool
  pub profile : Option Profile

-- `MapsConfig.to_dict`
unfoldable pub to_dict : Config → Config
to_dict c = record c { profile = none }

pub record Spec : Type 0 where
  pub broker : String
  pub port : ℕ
  pub topic : String
  pub username : Option String
  pub password : Option String
  pub use_tls : Bool
  pub label : Option String

unfoldable pub mqtt_store_cap : Config → ℕ
mqtt_store_cap c = elim c.profile [
  | none ↦ 10_000
  | some p ↦ if p.is_lite then 1000 else if p.is_medium then 5000 else 10_000
]

abbrev pub spec_with : String → Entry → Spec
spec_with broker e = record {
  broker = broker;
  port = get_or e.port 1883;
  topic = get_or e.topic "msh/#";
  username = e.username;
  password = e.password;
  use_tls = e.use_tls;
  label = e.label;
}

-- the spec of an entry; one that is no dictionary, or has no broker, is skipped
abbrev pub spec_of : Option Entry → Option Spec
spec_of none = none
spec_of (some e) =
    if str_eq (get_or e.broker "") "" then none else some (spec_with (get_or e.broker "") e)

unfoldable pub specs_of : List (Option Entry) → List Spec
specs_of [] = []
specs_of (e ∷ entries) =
    let rest = specs_of entries in elim (spec_of e) [ none ↦ rest | some spec ↦ spec ∷ rest ]

abbrev pub single_spec : Entry → Spec
single_spec e = record {
  broker = get_or e.broker "mqtt.meshtastic.org";
  port = get_or e.port 1883;
  topic = get_or e.topic "msh/#";
  username = some (get_or e.username "");
  password = some (get_or e.password "");
  use_tls = e.use_tls;
  label = some "primary";
}

abbrev pub or_single : Entry → List Spec → List Spec
or_single e [] = single_spec e ∷ []
or_single e (spec ∷ specs) = spec ∷ specs

unfoldable pub resolve_broker_specs : Config → List Spec
resolve_broker_specs c = or_single c.single (specs_of c.mqtt_brokers)

-- a subscriber, and whether it publishes on the event bus
pub record Client : Type 0 where
  pub spec : Spec
  pub on_bus : Bool

pub record Mqtt : Type 0 where
  pub primary : Option Client
  pub secondary : List Client
  pub max_nodes : ℕ  -- of the store that was made last, 0 if none was

abbrev pub is_first : ℕ → Bool
is_first zero = true
is_first (suc idx) = false

-- the loop over the specs, from an index on
unfoldable pub start_all : Bool → ℕ → List Spec → Mqtt → Mqtt
start_all available idx [] m = m
start_all available idx (spec ∷ specs) m =
    let client : Client = record { spec = spec; on_bus = is_first idx } in
    start_all available (suc idx) specs (
      if not available
      then m
      else if is_some m.primary
      then record m { secondary = m.secondary ++ client ∷ [] }
      else record m { primary = some client })

-- the subscribers that the constructor of the aggregator starts
unfoldable pub init_mqtt : Bool → Config → Mqtt
init_mqtt available c =
    let idle : Mqtt = record { primary = none; secondary = []; max_nodes = 0 } in
    if c.enable_meshtastic
    then start_all available 0 (resolve_broker_specs c)
        (record idle { max_nodes = mqtt_store_cap c })
    else idle

-- the subscribers of a configuration, and whether there are any
unfoldable pub restart_mqtt : Bool → Config → Mqtt → Mqtt × Bool
restart_mqtt available c m =
    let stopped : Mqtt = record m { primary = none; secondary = [] } in
    if not c.enable_meshtastic
    then (stopped, false)
    else let started =
        start_all available 0 (resolve_broker_specs c)
          (record stopped { max_nodes = mqtt_store_cap c }) in
      (started, is_some started.primary)

abbrev pub mqtt_subscribers : Mqtt → List Client
mqtt_subscribers m = elim m.primary [ none ↦ m.secondary | some client ↦ client ∷ m.secondary ]

-- the clients of specs that do not publish
abbrev quiet : List Spec → List Client
quiet [] = []
quiet (spec ∷ specs) = record { spec = spec; on_bus = false } ∷ quiet specs

-- the clients of a configuration: the first alone publishes
abbrev pub clients_of : List Spec → List Client
clients_of [] = []
clients_of (spec ∷ specs) = record { spec = spec; on_bus = true } ∷ quiet specs

start_rest :
    (idx : ℕ) (specs : List Spec) (first : Client) (others : List Client) (max_nodes : ℕ)
    → start_all true
        (suc idx)
        specs
        (record { primary = some first; secondary = others; max_nodes = max_nodes })
      ≡ record { primary = some first; secondary = others ++ quiet specs; max_nodes = max_nodes }
unfolding start_all
start_rest idx [] first others max_nodes =
    ap (λ l. record { primary = some first; secondary = l; max_nodes = max_nodes })
      (sym (append-nil others))
start_rest idx (spec ∷ specs) first others max_nodes =
    start_rest (suc idx) specs first (others ++ record { spec = spec; on_bus = false } ∷ [])
      max_nodes
    ∙ ap (λ l. record { primary = some first; secondary = l; max_nodes = max_nodes })
        (append_assoc others (record { spec = spec; on_bus = false } ∷ []) (quiet specs))

-- what a restart leaves, if it starts the subscribers of `specs`
abbrev Started : ℕ → List Spec → Mqtt → Type 0
Started max_nodes specs m =
    (is_some m.primary ≡ true) × (mqtt_subscribers m ≡ clients_of specs) × (m.max_nodes ≡ max_nodes)

start_all-Started :
    (specs : List Spec) (max_nodes : ℕ)
    → 0 < length specs
    → Started max_nodes specs
        (start_all true 0 specs (record { primary = none; secondary = []; max_nodes = max_nodes }))
unfolding start_all
start_all-Started [] max_nodes some_spec = absurd (omega (arith, some_spec))
start_all-Started (spec ∷ specs) max_nodes some_spec =
    rw (start_rest 0 specs (record { spec = spec; on_bus = true }) [] max_nodes) (refl, refl, refl)

-- the entries that have a broker
abbrev pub usable : Option Entry → Bool
usable e = is_some (spec_of e)

length-specs_of : (entries : List (Option Entry)) → length (specs_of entries) ≡ count usable entries
unfolding specs_of
length-specs_of [] = refl
length-specs_of (e ∷ entries) = elim (Option-cases (spec_of e)) [
  | inl bad ↦ rw (specs_of, bad) (omega (arith, length-specs_of entries))
  | inr (spec, good) ↦ rw (specs_of, good) (omega (arith, length-specs_of entries))
]

length-quiet : (specs : List Spec) → length (quiet specs) ≡ length specs
length-quiet [] = refl
length-quiet (spec ∷ specs) = ap suc (length-quiet specs)

-- how many specs there are, if `n` entries are usable
abbrev pub number_of_specs : ℕ → ℕ
number_of_specs n = if n == 0 then 1 else n

length-or_single :
    (e : Entry) (specs : List Spec) → length (or_single e specs) ≡ number_of_specs (length specs)
length-or_single e [] = refl
length-or_single e (spec ∷ specs) = ground arith

length-resolve_broker_specs :
    (c : Config) → length (resolve_broker_specs c) ≡ number_of_specs (count usable c.mqtt_brokers)
unfolding resolve_broker_specs
length-resolve_broker_specs c =
    length-or_single c.single (specs_of c.mqtt_brokers)
    ∙ ap number_of_specs (length-specs_of c.mqtt_brokers)

length-clients_of : (specs : List Spec) → length (clients_of specs) ≡ length specs
length-clients_of [] = refl
length-clients_of (spec ∷ specs) = ap suc (length-quiet specs)

-- With the client library there, and Meshtastic enabled, a restart from the settings of a configuration
-- succeeds and starts one subscriber for each entry that has a broker, in their order, or one for the
-- single keys where no entry has; the first alone publishes on the event bus. These are the subscribers
-- that the aggregator starts with, but there the store has the size of the deployment profile, and after
-- the restart it has 10000 nodes whatever the profile is.
pub restart_starts :
    (c : Config) (m : Mqtt)
    → c.enable_meshtastic ≡ true
    → let (m', success) = restart_mqtt true (to_dict c) m in
      (success ≡ true)
      × (mqtt_subscribers m' ≡ clients_of (resolve_broker_specs c))
      × (length (mqtt_subscribers m') ≡ number_of_specs (count usable c.mqtt_brokers))
      × (mqtt_subscribers m' ≡ mqtt_subscribers (init_mqtt true c))
      × ((init_mqtt true c).max_nodes ≡ mqtt_store_cap c)
      × (m'.max_nodes ≡ 10_000)
unfolding restart_mqtt init_mqtt resolve_broker_specs mqtt_store_cap to_dict
restart_starts c m enabled =
    let specs = resolve_broker_specs c in
    let number = length-resolve_broker_specs c in
    let (success, same, size) = start_all-Started specs 10_000 (ground (arith, number)) in
    let (_, first, cap) = start_all-Started specs (mqtt_store_cap c) (ground (arith, number)) in
    rw enabled (
      success,
      same,
      ap length same ∙ length-clients_of specs ∙ number,
      same ∙ sym first,
      cap,
      size,
    )
