-- ===== src/NodeHistory/Specification.antt =====
-- src/utils/node_history.py: its specification, the two tables alone, where every write reads the node's last
-- row and the number of its rows from the table; and one write, or one batch, that follows it.

use mathlib.Core.Path.{subst}
use meshforge_maps.Base.{
  ℕ, ◌+◌, ◌<◌, ◌≡◌, refl, Bool, true, false, Option, none, some, List, [], ◌∷◌, arith,
  if◌then◌else◌, map,
}
use meshforge_maps.Float.{Float}
use meshforge_maps.Int.{ℤ}
use meshforge_maps.Dict.{Dict, lookup, insert}
use meshforge_maps.NodeHistory.{
  Arithmetic, Row, NodeHistoryDb, create, Exec, Result, ok, sql_error, value_error, chain, last_row,
  has_moved, append_if, maybe_append, upsert_current, write_row,
}
use meshforge_maps.NodeHistory.Methods.{Observation, row_of, write_all}
use meshforge_maps.NodeHistory.Caches.{
  calm, Agrees, with_caches, pos_of, IsPrimed, prime_caches-IsPrimed, appended, append_row_lem,
  after_append-Agrees,
}

-- The specification: the tables, and the settings.
pub record Tables : Type 0 where
  pub threshold : Float
  pub cap : ℕ
  pub retention : ℕ
  pub current : Dict Row
  pub rows : List Row

-- the tables of a database
abbrev pub tables_of : NodeHistoryDb → Tables
tables_of d = record {
  threshold = d.move_threshold_meters;
  cap = d.trajectory_rows_per_node;
  retention = d.retention_seconds;
  current = d.nodes_current;
  rows = d.trajectory;
}

-- one observation; `none` is the ValueError of `math`
unfoldable pub spec_append : Option Bool → Row → Tables → Tables × Option Bool
spec_append none row t = (t, none)
spec_append (some false) row t = (t, some false)
spec_append (some true) row t = (record t { rows = appended t.cap row t.rows }, some true)

unfoldable pub spec_write : Arithmetic → Row → Tables → Tables × Option Bool
spec_write m row t =
    spec_append (has_moved m t.threshold (pos_of (last_row row.node_id t.rows)) row) row
      (record t { current = insert row.node_id row t.current })

abbrev pub spec_chain :
    {A B : Type 0} → Tables × Option A → (Tables → A → Tables × Option B) → Tables × Option B
spec_chain (t, none) f = (t, none)
spec_chain (t, some a) f = f t a

unfoldable pub spec_all : Arithmetic → ℕ → ℕ → List Observation → Tables → Tables × Option ℕ
spec_all m now n [] t = (t, some n)
spec_all m now n (o ∷ rest) t =
    let skipped = spec_all m now n rest t in
    elim (row_of now o) [
      | none ↦ skipped
      | some row ↦
          spec_chain (spec_write m row t)
            (λ t' appended. spec_all m now (if appended then n + 1 else n) rest t')
    ]

-- What every write of the specification keeps, a batch keeps.
spec_chain_keeps :
    {A B : Type 0} (P : Tables → Type 0) (s : Tables × Option A)
    (f : Tables → A → Tables × Option B)
    → P s.0
    → ((t : Tables) (a : A) → P t → P (f t a).0)
    → P (spec_chain s f).0
spec_chain_keeps P (t, none) f h next = h
spec_chain_keeps P (t, some a) f h next = next t a h

pub spec_all_keeps :
    (P : Tables → Type 0) (m : Arithmetic)
    → ((row : Row) (t : Tables) → P t → P (spec_write m row t).0)
    → (now n : ℕ) (observations : List Observation) (t : Tables) → P t
    → P (spec_all m now n observations t).0
unfolding spec_all
spec_all_keeps P m write now n [] t h = h
spec_all_keeps P m write now n (o ∷ rest) t h =
    elim (row_of now o)
      as (λ r.
        P
          (elim r as (λ _. Tables × Option ℕ) [
            | none ↦ spec_all m now n rest t
            | some row ↦
                spec_chain (spec_write m row t)
                  (λ t' appended. spec_all m now (if appended then n + 1 else n) rest t')
          ]).0) [
            | none ↦ spec_all_keeps P m write now n rest t h
            | some row ↦
                spec_chain_keeps P (spec_write m row t) _ (write row t h) (λ t' appended h'.
                  spec_all_keeps P m write now (if appended then n + 1 else n) rest t' h')
          ]

-- a result of the specification, as a result of the code
abbrev pub result_of : {A : Type 0} → Option A → Result A
result_of none = value_error
result_of (some a) = ok a

abbrev pub IsValid : NodeHistoryDb → Type 0
IsValid d = (d.connected ≡ true) × (0 < d.trajectory_rows_per_node) × Agrees d

-- A database that opens is valid, whatever its tables hold.
pub create-IsValid :
    (retention : ℕ) (threshold : Float) (rows_per_node : ℤ) (current : Dict Row) (rows : List Row)
    → IsValid (create retention threshold rows_per_node true current rows)
unfolding create lookup
create-IsValid retention threshold rows_per_node current rows = (refl, omega arith, λ k. tt)

-- The code has the tables and the answer of the specification, and stays valid.
abbrev pub Follows : {A : Type 0} → Exec A → Tables × Option A → Type 0
Follows x s = (tables_of x.0 ≡ s.0) × (x.1 ≡ result_of s.1) × IsValid x.0

append_if-Follows :
    (row : Row) (d : NodeHistoryDb) (moved : Option Bool)
    → d.connected ≡ true
    → 0 < d.trajectory_rows_per_node
    → IsPrimed row.node_id d
    → Follows (append_if moved calm row d) (spec_append moved row (tables_of d))
unfolding spec_append
append_if-Follows row d none on pos h = (refl, refl, (on, pos, h.agrees))
append_if-Follows row d (some false) on pos h = (refl, refl, (on, pos, h.agrees))
append_if-Follows row d (some true) on pos h =
    rw (append_row_lem row d h) (refl, refl, (on, pos, after_append-Agrees row d pos h))

maybe_append-Follows :
    (m : Arithmetic) (row : Row) (d : NodeHistoryDb)
    → IsValid d
    → Follows (maybe_append m calm row d) (
        spec_append
          (has_moved m d.move_threshold_meters (pos_of (last_row row.node_id d.trajectory)) row)
          row
          (tables_of d))
unfolding maybe_append
maybe_append-Follows m row d v =
    let (p, c, primed, h) = prime_caches-IsPrimed row.node_id d v.2 in
    rw (primed, ← h.place)
      (append_if-Follows row (with_caches p c d)
        (has_moved m d.move_threshold_meters (lookup row.node_id p) row) v.0 v.1 h)

pub write_row-Follows :
    (m : Arithmetic) (row : Row) (d : NodeHistoryDb)
    → IsValid d
    → Follows (write_row m calm row d) (spec_write m row (tables_of d))
unfolding write_row upsert_current spec_write
write_row-Follows m row d v = maybe_append-Follows m row (upsert_current row d) v

-- The next part of a write goes on from the specification's tables.
chain-Follows :
    {A B : Type 0} (x : Exec A) (s : Tables × Option A) (f : NodeHistoryDb → A → Exec B)
    (g : Tables → A → Tables × Option B)
    → Follows x s
    → ((d : NodeHistoryDb) (a : A) → IsValid d → Follows (f d a) (g (tables_of d) a))
    → Follows (chain x f) (spec_chain s g)
chain-Follows (d, ok a) (t, some b) f g h next =
    let same : a ≡ b = cc (h.1) in
    subst (λ u. Follows (f d a) (g u b)) h.0
      (subst (λ y. Follows (f d a) (g (tables_of d) y)) same (next d a h.2))
chain-Follows (d, ok a) (t, none) f g h next = absurd (cc (h.1))
chain-Follows (d, value_error) (t, none) f g h next = (h.0, refl, h.2)
chain-Follows (d, value_error) (t, some b) f g h next = absurd (cc (h.1))
chain-Follows (d, sql_error e) (t, none) f g h next = absurd (cc (h.1))
chain-Follows (d, sql_error e) (t, some b) f g h next = absurd (cc (h.1))

pub write_all-Follows :
    (m : Arithmetic) (now n : ℕ) (observations : List Observation) (d : NodeHistoryDb)
    → IsValid d
    → Follows
        (write_all m now n (map (λ o. (o, calm)) observations) d)
        (spec_all m now n observations (tables_of d))
unfolding write_all spec_all
write_all-Follows m now n [] d v = (refl, refl, v)
write_all-Follows m now n (o ∷ rest) d v =
    elim (row_of now o)
      as (λ r.
        Follows
          (elim r as (λ _. Exec ℕ) [
            | none ↦ write_all m now n (map (λ o. (o, calm)) rest) d
            | some row ↦ chain (write_row m calm row d) (λ d' appended.
                write_all m now (if appended then n + 1 else n) (map (λ o. (o, calm)) rest) d')
          ])
          (elim r as (λ _. Tables × Option ℕ) [
            | none ↦ spec_all m now n rest (tables_of d)
            | some row ↦
                spec_chain (spec_write m row (tables_of d))
                  (λ t' appended. spec_all m now (if appended then n + 1 else n) rest t')
          ])) [
            | none ↦ write_all-Follows m now n rest d v
            | some row ↦
                chain-Follows (write_row m calm row d) (spec_write m row (tables_of d)) _ _
                  (write_row-Follows m row d v)
                  (λ d' appended v'.
                    write_all-Follows m now (if appended then n + 1 else n) rest d' v')
          ]
