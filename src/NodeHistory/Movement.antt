-- ===== src/NodeHistory/Movement.antt =====
-- src/utils/node_history.py: the trajectory is a log of movement.
use meshforge_maps.Base.{
  ℕ, ◌+◌, ◌≡◌, refl, String, Bool, true, false, Option, none, some, List, [], ◌∷◌, ◌++◌, arith,
  str_eq, str_eq_iff, if◌then◌else◌, filter, Option-cases, inl, inr, if_split, sym, ltb,
}
use mathlib.Core.Path.{subst}
use meshforge_maps.Float.{Float, lt_float}
use meshforge_maps.Dict.{insert}
use meshforge_maps.NodeHistory.{
  Arithmetic, Row, NodeHistoryDb, of_node, count_rows, last_row, delete_oldest, haversine_meters,
  has_moved,
}
use meshforge_maps.NodeHistory.Caches.{pos_of, appended}
use meshforge_maps.NodeHistory.Specification.{
  Tables, tables_of, spec_append, spec_write, spec_all_keeps, IsValid,
}
use meshforge_maps.NodeHistory.Refinement.{
  Event, observe, batch, prune, run, spec_step, spec_run, run-refines,
}

-- The distance from the one row to the other is not below the threshold.
abbrev pub Apart : Arithmetic → Float → Row → Row → Type 0
Apart m threshold a b =
    (distance : Float) × (haversine_meters m a.latitude a.longitude b.latitude b.longitude
      ≡ some distance)
    × (lt_float distance threshold ≡ false)

-- neighbours are related
abbrev pub Linked : (Row → Row → Type 0) → List Row → Type 0
Linked R [] = Unit
Linked R (a ∷ []) = Unit
Linked R (a ∷ b ∷ rows) = R a b × Linked R (b ∷ rows)

-- The rows of each node are apart from the node's row before.
abbrev pub Spaced : Arithmetic → Float → List Row → Type 0
Spaced m threshold rows = (k : String) → Linked (Apart m threshold) (filter (of_node k) rows)

-- what is asked of a row that follows the last one
abbrev Follows : (Row → Row → Type 0) → Option Row → Row → Type 0
Follows R none b = Unit
Follows R (some a) b = R a b

abbrev last_of : List Row → Option Row
last_of [] = none
last_of (a ∷ []) = some a
last_of (a ∷ b ∷ rows) = last_of (b ∷ rows)

Linked-snoc :
    (R : Row → Row → Type 0) (rows : List Row) (row : Row)
    → Linked R rows
    → Follows R (last_of rows) row
    → Linked R (rows ++ row ∷ [])
Linked-snoc R [] row h f = tt
Linked-snoc R (a ∷ []) row h f = (f, tt)
Linked-snoc R (a ∷ b ∷ rows) row h f = (h.0, Linked-snoc R (b ∷ rows) row h.1 f)

abbrev tail : List Row → List Row
tail [] = []
tail (a ∷ rows) = rows

Linked-tail : (R : Row → Row → Type 0) (rows : List Row) → Linked R rows → Linked R (tail rows)
Linked-tail R [] h = tt
Linked-tail R (a ∷ []) h = tt
Linked-tail R (a ∷ b ∷ rows) h = h.1

filter-snoc :
    (k : String) (rows : List Row) (row : Row)
    → filter (of_node k) (rows ++ row ∷ [])
      ≡ (if of_node k row then filter (of_node k) rows ++ row ∷ [] else filter (of_node k) rows)
filter-snoc k [] row = ground arith
filter-snoc k (r ∷ rows) row = ground (arith, filter-snoc k rows row)

filter-delete_oldest :
    (j k : String) (rows : List Row)
    → filter (of_node k) (delete_oldest j rows)
      ≡ (if str_eq j k then tail (filter (of_node k) rows) else filter (of_node k) rows)
unfolding delete_oldest
filter-delete_oldest j k [] = ground arith
filter-delete_oldest j k (r ∷ rows) = ground (
  arith,
  filter-delete_oldest j k rows,
  str_eq_iff j k,
  str_eq_iff r.node_id j,
  str_eq_iff r.node_id k,
)

last_of-cons :
    (a : Row) (rows : List Row)
    → last_of (a ∷ rows) ≡ elim (last_of rows) [ none ↦ some a | some b ↦ some b ]
last_of-cons a [] = refl
last_of-cons a (b ∷ []) = refl
last_of-cons a (b ∷ c ∷ rows) = ground (arith, last_of-cons c rows)

last_of-filter :
    (k : String) (rows : List Row) → last_of (filter (of_node k) rows) ≡ last_row k rows
unfolding last_row
last_of-filter k [] = refl
last_of-filter k (r ∷ rows) =
    ground (arith, last_of-cons r (filter (of_node k) rows), last_of-filter k rows)

module _ (m : Arithmetic) (threshold : Float) where
  has_moved-Follows :
      (last : Option Row) (row : Row)
      → has_moved m threshold (pos_of last) row ≡ some true
      → Follows (Apart m threshold) last row
  unfolding has_moved
  has_moved-Follows none row h = tt
  has_moved-Follows (some a) row h =
      elim (Option-cases (haversine_meters m a.latitude a.longitude row.latitude row.longitude)) [
        | inl e ↦ absurd (cc (rw e at h))
        | inr (x, e) ↦ (x, e, ground (arith, rw e at h))
      ]

  appended-Spaced :
      (cap : ℕ) (row : Row) (rows : List Row)
      → has_moved m threshold (pos_of (last_row row.node_id rows)) row ≡ some true
      → Spaced m threshold rows
      → Spaced m threshold (appended cap row rows)
  unfolding appended
  appended-Spaced cap row rows moved s k =
      let linked : Linked (Apart m threshold) (filter (of_node k) (rows ++ row ∷ [])) =
        rw (filter-snoc k rows row) (
          if_split (Linked (Apart m threshold)) (of_node k row) _ _
            (λ mine. Linked-snoc _ (filter (of_node k) rows) row (s k) (
              rw (last_of-filter k rows) (
                subst (λ j. Follows (Apart m threshold) (last_row j rows) row)
                  ((str_eq_iff row.node_id k).0 mine)
                  (has_moved-Follows (last_row row.node_id rows) row moved))))
            (λ other. s k)) in
      if_split (λ r. Linked (Apart m threshold) (filter (of_node k) r))
        (ltb cap (count_rows row.node_id rows + 1)) (delete_oldest row.node_id (rows ++ row ∷ []))
        (rows ++ row ∷ [])
        (λ full. rw (filter-delete_oldest row.node_id k (rows ++ row ∷ [])) (
          if_split (Linked (Apart m threshold)) (str_eq row.node_id k) _ _
            (λ same. Linked-tail _ _ linked) (λ other. linked)))
        (λ room. linked)

abbrev IsLog : Arithmetic → Tables → Type 0
IsLog m t = Spaced m t.threshold t.rows

spec_append-IsLog :
    (m : Arithmetic) (moved : Option Bool) (row : Row) (t : Tables)
    → moved ≡ has_moved m t.threshold (pos_of (last_row row.node_id t.rows)) row
    → IsLog m t
    → IsLog m (spec_append moved row t).0
unfolding spec_append
spec_append-IsLog m none row t e s = s
spec_append-IsLog m (some false) row t e s = s
spec_append-IsLog m (some true) row t e s = appended-Spaced m t.threshold t.cap row t.rows (sym e) s

spec_write-IsLog :
    (m : Arithmetic) (row : Row) (t : Tables) → IsLog m t → IsLog m (spec_write m row t).0
unfolding spec_write
spec_write-IsLog m row t s =
    spec_append-IsLog m _ row (record t { current = insert row.node_id row t.current }) refl s

-- no event prunes
abbrev pub Writes : List Event → Type 0
Writes [] = Unit
Writes (prune before clock ∷ events) = ⊥
Writes (e ∷ events) = Writes events

spec_run-IsLog :
    (m : Arithmetic) (t : Tables) (events : List Event)
    → Writes events
    → IsLog m t
    → IsLog m (spec_run m t events).0
unfolding spec_run spec_step
spec_run-IsLog m t [] w b = b
spec_run-IsLog m t (observe row clock ∷ events) w b =
    spec_run-IsLog m (spec_step m t (observe row clock)).0 events w (spec_write-IsLog m row t b)
spec_run-IsLog m t (batch observations clock ∷ events) w b =
    spec_run-IsLog m (spec_step m t (batch observations clock)).0 events w
      (spec_all_keeps (IsLog m) m (spec_write-IsLog m) clock 0 observations t b)
spec_run-IsLog m t (prune before clock ∷ events) w b = absurd w

-- While no statement fails, the rows of each node, in the order in which they were written, stay at
-- least the threshold apart from the node's row before, whatever a valid database whose rows are so
-- observes, alone or in batches: jitter below the threshold leaves no row.
pub rows_apart :
    (m : Arithmetic) (d : NodeHistoryDb) (events : List Event)
    → IsValid d
    → Writes events
    → Spaced m d.move_threshold_meters d.trajectory
    → Spaced m (run m d events).0.move_threshold_meters (run m d events).0.trajectory
rows_apart m d events v w s =
    subst (IsLog m) (sym (run-refines m d events v).0) (spec_run-IsLog m (tables_of d) events w s)
