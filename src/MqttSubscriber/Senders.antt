-- ===== src/MqttSubscriber/Senders.antt =====
-- src/collectors/mqtt_subscriber.py: what a packet does to the nodes other than its sender.
use mathlib.Core.Path.{subst}
use meshforge_maps.Base.{
  ℕ, ◌^◌, ◌<◌, ◌≡◌, ◌≢◌, ◌⊎◌, refl, ap, sym, ◌∙◌, String, Bool, true, false, Option, none, some,
  List, [], ◌∷◌, All, if_both, Bool-cases, inl, inr, str_eq, str_eq_iff, length, ◌||◌,
}
use meshforge_maps.Int.{ℤ, pos, eqb_ℤ}
use meshforge_maps.Float.{Float, finite}
use meshforge_maps.Dict.{Dict, lookup, contains, lookup-insert}
use meshforge_maps.Geo.{Coordinate, validate_coordinates}
use meshforge_maps.NodeStore.{
  Value, Node, NodeStore, put, node_or_new, place, time_or, update_position, update_nodeinfo,
  update_telemetry, update_neighbors,
}
use meshforge_maps.NodeStore.Eviction.{update_position_room}
use meshforge_maps.MqttSubscriber.{
  Reading, Safe, kept, dropped, overflow, safe_int, Metric, read_metrics,
}
use meshforge_maps.MqttSubscriber.Handlers.{
  Effect, announced, broken, unchanged, altitude_of, handle_position, handle_nodeinfo, Telemetry,
  groups_of, store_groups, handle_telemetry, handle_neighborinfo, node_name,
}
use meshforge_maps.MqttSubscriber.Decoding.{
  MapReport, report_position, report_fields, store_report, handle_map_report, Packet, position,
  nodeinfo, telemetry, neighborinfo, map_report, other, handle,
}
use meshforge_maps.MqttSubscriber.Messages.{packet, decode_protobuf}
use meshforge_maps.MqttSubscriber.Ids.{id_of, id_of-node_name}

-- The store has the same of `j`: its node, and its links.
abbrev pub Keeps : String → NodeStore → NodeStore → Type 0
Keeps j s s' =
    (lookup j s'.nodes ≡ lookup j s.nodes) × (lookup j s'.neighbors ≡ lookup j s.neighbors)

Keeps-trans : (j : String) (s s' s'' : NodeStore) → Keeps j s s' → Keeps j s' s'' → Keeps j s s''
Keeps-trans j s s' s'' h k = (k.0 ∙ h.0, k.1 ∙ h.1)

-- An effect concerns `k`, and not `j`: what is announced is of `k`, and the store keeps what it has of `j`.
abbrev pub Concerns : String → String → NodeStore → Effect → Type 0
Concerns k j s e = All (λ u. u.0 ≡ k) e.updates × Keeps j s e.store

-- the node is known, or there is room for it
abbrev pub HasRoom : String → NodeStore → Type 0
HasRoom k s = (contains k s.nodes ≡ true) ⊎ (length s.nodes < s.max_nodes)

module _ (k j : String) (apart : str_eq k j ≡ false) where
  put-Keeps : (node : Node) (s : NodeStore) → Keeps j s (put k node s)
  put-Keeps node s = (rw (lookup-insert, apart) refl, refl)

  update_nodeinfo-Keeps :
      (long_name short_name hw_model role : String) (now : ℕ) (s : NodeStore)
      → Keeps j s (update_nodeinfo k long_name short_name hw_model role now s)
  unfolding update_nodeinfo
  update_nodeinfo-Keeps long_name short_name hw_model role now s = put-Keeps _ s

  update_telemetry-Keeps :
      (fields : Dict (Option Value)) (now : ℕ) (s : NodeStore)
      → Keeps j s (update_telemetry k fields now s)
  unfolding update_telemetry
  update_telemetry-Keeps fields now s = put-Keeps _ s

  update_position-Keeps :
      (lat lon : Float) (altitude : Option ℤ) (timestamp : Option ℕ) (now : ℕ) (s : NodeStore)
      → HasRoom k s
      → Keeps j s (update_position k lat lon altitude timestamp now s).0
  update_position-Keeps lat lon altitude timestamp now s room =
      subst (λ (x : NodeStore × Option String). Keeps j s x.0)
        (sym (update_position_room k lat lon altitude timestamp now s room))
        (put-Keeps (place lat lon altitude (time_or timestamp now) (node_or_new k s)) s)

  handle_position-Concerns :
      (lat lon altitude : ℤ) (now : ℕ) (s : NodeStore)
      → HasRoom k s
      → Concerns k j s (handle_position k lat lon altitude now s)
  unfolding handle_position
  handle_position-Concerns lat lon altitude now s room =
      elim (validate_coordinates (Coordinate.int lat) (Coordinate.int lon) true)
        as (λ o. Concerns k j s (elim o as (λ _. Effect) [
          | none ↦ unchanged s
          | some (y, x) ↦
              announced k "position"
                (update_position k (finite y) (finite x) (altitude_of altitude) none now s).0
        ])) [
          | none ↦ (tt, (refl, refl))
          | some (y, x) ↦ (
            (refl, tt),
            update_position-Keeps (finite y) (finite x) (altitude_of altitude) none now s room,
          )
        ]

  store_groups-Keeps :
      (now : ℕ) (groups : List (List Metric × Option (Dict Reading))) (s : NodeStore)
      → Keeps j s (store_groups k now groups s).0
  unfolding store_groups
  store_groups-Keeps now [] s = (refl, refl)
  store_groups-Keeps now ((metrics, none) ∷ groups) s = store_groups-Keeps now groups s
  store_groups-Keeps now ((metrics, some message) ∷ groups) s =
      elim (read_metrics metrics message)
        as (λ o.
          Keeps j s
            (elim o as (λ _. NodeStore × Bool) [
              | none ↦ (s, true)
              | some fields ↦ store_groups k now groups (update_telemetry k fields now s)
            ]).0) [
              | none ↦ (refl, refl)
              | some fields ↦
                  Keeps-trans j s (update_telemetry k fields now s)
                    (store_groups k now groups (update_telemetry k fields now s)).0
                    (update_telemetry-Keeps fields now s)
                    (store_groups-Keeps now groups (update_telemetry k fields now s))
            ]

  handle_telemetry-Concerns :
      (t : Telemetry) (now : ℕ) (s : NodeStore) → Concerns k j s (handle_telemetry k t now s)
  unfolding handle_telemetry
  handle_telemetry-Concerns t now s =
      let stored = store_groups k now (groups_of t) s in
      if_both (Concerns k j s) stored.1 (broken stored.0) (announced k "telemetry" stored.0)
        (tt, store_groups-Keeps now (groups_of t) s)
        ((refl, tt), store_groups-Keeps now (groups_of t) s)

  report_position-Keeps :
      (r : MapReport) (now : ℕ) (s : NodeStore)
      → HasRoom k s
      → Keeps j s (report_position k r now s)
  unfolding report_position
  report_position-Keeps r now s room =
      if_both (Keeps j s) (eqb_ℤ r.latitude_i (pos 0) || eqb_ℤ r.longitude_i (pos 0)) s _
        (refl, refl)
        (elim (validate_coordinates (Coordinate.int r.latitude_i) (Coordinate.int r.longitude_i)
            true)
          as (λ o. Keeps j s (elim o as (λ _. NodeStore) [
            | none ↦ s
            | some (y, x) ↦ (update_position k (finite y) (finite x) r.altitude none now s).0
          ])) [
            | none ↦ (refl, refl)
            | some (y, x) ↦ update_position-Keeps (finite y) (finite x) r.altitude none now s room
          ])

  store_report-Keeps :
      (r : MapReport) (online : Safe ℤ) (now : ℕ) (s : NodeStore)
      → HasRoom k s
      → Keeps j s (store_report k r online now s)
  store_report-Keeps r online now s room =
      let placed = report_position-Keeps r now s room in
      let named = update_nodeinfo-Keeps _ _ _ _ now (report_position k r now s) in
      let measured = update_telemetry-Keeps (report_fields r online) now _ in
      (measured.0 ∙ named.0 ∙ placed.0, measured.1 ∙ named.1 ∙ placed.1)

  handle_map_report-Concerns :
      (r : MapReport) (now : ℕ) (s : NodeStore)
      → HasRoom k s
      → Concerns k j s (handle_map_report k r now s)
  unfolding handle_map_report
  handle_map_report-Concerns r now s room =
      elim (safe_int (pos 0) (pos 100_000) r.num_online)
        as (λ o. Concerns k j s (elim o as (λ _. Effect) [
          | overflow ↦ broken s
          | dropped ↦ announced k "nodeinfo" (store_report k r dropped now s)
          | kept n ↦ announced k "nodeinfo" (store_report k r (kept n) now s)
        ])) [
          | overflow ↦ (tt, (refl, refl))
          | dropped ↦ ((refl, tt), store_report-Keeps r dropped now s room)
          | kept n ↦ ((refl, tt), store_report-Keeps r (kept n) now s room)
        ]

  handle-Concerns :
      (p : Packet) (now : ℕ) (s : NodeStore) → HasRoom k s → Concerns k j s (handle k p now s)
  unfolding handle handle_nodeinfo handle_neighborinfo update_neighbors
  handle-Concerns (position lat lon altitude) now s room =
      handle_position-Concerns lat lon altitude now s room
  handle-Concerns (nodeinfo long_name short_name hw_model role) now s room =
      ((refl, tt), update_nodeinfo-Keeps long_name short_name hw_model role now s)
  handle-Concerns (telemetry t) now s room = handle_telemetry-Concerns t now s
  handle-Concerns (neighborinfo neighbors) now s room =
      ((refl, tt), (refl, rw (lookup-insert, apart) refl))
  handle-Concerns (map_report r) now s room = handle_map_report-Concerns r now s room
  handle-Concerns other now s room = (tt, (refl, refl))

some-injective : (m n : ℕ) → some m ≡ some n → m ≡ n
some-injective m n e = cc

-- the ids of two nodes of 32 bits differ
names_apart :
    (n m : ℕ) → n < 2 ^ 32 → m < 2 ^ 32 → n ≢ m → str_eq (node_name n) (node_name m) ≡ false
names_apart n m small_n small_m apart = elim (Bool-cases (str_eq (node_name n) (node_name m))) [
  | inl same ↦
      let ids : node_name n ≡ node_name m = (str_eq_iff (node_name n) (node_name m)).0 same in
      absurd (
        apart (
          some-injective n m
            (sym (id_of-node_name n small_n) ∙ ap id_of ids ∙ id_of-node_name m small_m)))
  | inr differ ↦ differ
]

-- A packet from the node of one number, of 32 bits, concerns the node that is stored under the id of that
-- number alone: where that one is known, or the store has room for it, the node and the links that are
-- stored for any other number of 32 bits stay, and whatever is announced is of the sender.
pub packet-Concerns :
    (n m : ℕ) (p : Packet) (now : ℕ) (s : NodeStore)
    → n < 2 ^ 32
    → m < 2 ^ 32
    → n ≢ m
    → HasRoom (node_name n) s
    → Concerns (node_name n) (node_name m) s (decode_protobuf (packet n p) now s)
unfolding decode_protobuf
packet-Concerns n m p now s small_n small_m apart room =
    handle-Concerns (node_name n) (node_name m) (names_apart n m small_n small_m apart) p now s room
