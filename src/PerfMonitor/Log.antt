-- ===== src/PerfMonitor/Log.antt =====
-- src/utils/perf_monitor.py: the statistics of a source against the log of its timings.
use meshforge_maps.Base.{
  ℕ, zero, suc, ◌+◌, ◌-◌, ◌≤◌, ◌<◌, ◌≡◌, refl, ap, sym, ◌∙◌, String, Bool, Option, none, some, List,
  [], ◌∷◌, ◌++◌, arith, str_eq, str_eq_iff, if◌then◌else◌, length, drop, length-append, length-drop,
  push, map, count, All, Bool-cases, inl, inr, ◌==◌, ltb,
}
use mathlib.Core.Path.{subst}
use mathlib.Core.List.{append-nil, append_assoc}
use meshforge_maps.Dict.{lookup, lookup-insert, lookup-insert_self}
use meshforge_maps.PerfMonitor.{
  Source, new_source, source_of, Timing, PerfMonitor, create, add_timing, lower, sample_window,
  record_timing, record_cycle,
}
use meshforge_maps.PerfMonitor.Timings.{
  Call, timing, cycle, run, timings_of, sum_of, last_of, Describes,
}

sum_of-snoc :
    (f : Timing → ℕ) (ts : List Timing) (t : Timing) → sum_of f (ts ++ t ∷ []) ≡ sum_of f ts + f t
sum_of-snoc f [] t = omega arith
sum_of-snoc f (u ∷ ts) t = omega (arith, sum_of-snoc f ts t)

count-snoc :
    (p : Timing → Bool) (ts : List Timing) (t : Timing)
    → count p (ts ++ t ∷ []) ≡ count p ts + (if p t then 1 else 0)
count-snoc p [] t = omega arith
count-snoc p (u ∷ ts) t = omega (arith, count-snoc p ts t)

All-snoc :
    (P : Timing → Type 0) (ts : List Timing) (t : Timing) → All P ts → P t → All P (ts ++ t ∷ [])
All-snoc P [] t h p = (p, tt)
All-snoc P (u ∷ ts) t h p = (h.0, All-snoc P ts t h.1 p)

All-mono :
    (P Q : Timing → Type 0) (ts : List Timing) → ((t : Timing) → P t → Q t) → All P ts → All Q ts
All-mono P Q [] f h = tt
All-mono P Q (t ∷ ts) f h = (f t h.0, All-mono P Q ts f h.1)

last_of-snoc : (first : Timing) (ts : List Timing) (t : Timing) → last_of first (ts ++ t ∷ []) ≡ t
last_of-snoc first [] t = refl
last_of-snoc first (u ∷ ts) t = last_of-snoc u ts t

map-snoc :
    (ts : List Timing) (t : Timing)
    → map (λ (u : Timing). u.duration_ms) (ts ++ t ∷ [])
      ≡ map (λ (u : Timing). u.duration_ms) ts ++ t.duration_ms ∷ []
map-snoc [] t = refl
map-snoc (u ∷ ts) t = ap (◌∷◌ u.duration_ms) (map-snoc ts t)

length-map : (ts : List Timing) → length (map (λ (u : Timing). u.duration_ms) ts) ≡ length ts
length-map [] = refl
length-map (t ∷ ts) = omega (arith, length-map ts)

drop-snoc :
    (k : ℕ) (xs : List ℕ) (x : ℕ) → k ≤ length xs → drop k xs ++ x ∷ [] ≡ drop k (xs ++ x ∷ [])
drop-snoc zero xs x h = refl
drop-snoc (suc k) [] x h = absurd (omega arith)
drop-snoc (suc k) (y ∷ xs) x h = drop-snoc k xs x (omega arith)

drop-nil : (j : ℕ) → drop {A = ℕ} j [] ≡ []
drop-nil zero = refl
drop-nil (suc j) = refl

drop-drop : (j k : ℕ) (xs : List ℕ) → drop j (drop k xs) ≡ drop (k + j) xs
drop-drop j zero xs = ap (λ n. drop n xs) (omega arith)
drop-drop j (suc k) [] = drop-nil j ∙ sym (drop-nil (suc k + j))
drop-drop j (suc k) (x ∷ xs) =
    let e : suc (k + j) ≡ suc k + j = omega arith in drop-drop j k xs ∙ ap (λ n. drop n (x ∷ xs)) e

-- the queue of the last `bound` items, when one more comes
push-drop :
    (bound : ℕ) (xs : List ℕ) (x : ℕ)
    → push bound (drop (length xs - bound) xs) x
      ≡ drop (length (xs ++ x ∷ []) - bound) (xs ++ x ∷ [])
unfolding push
push-drop bound xs x =
    let k : ℕ = length xs - bound in
    let j : ℕ = suc (length (drop k xs)) - bound in
    ap (drop j) (drop-snoc k xs x (omega arith))
    ∙ drop-drop j k (xs ++ x ∷ [])
    ∙ ap (λ n. drop n (xs ++ x ∷ [])) (omega (arith, length-drop k xs, length-append xs (x ∷ [])))

least-snoc :
    (ts : List Timing) (t : Timing) (least : ℕ)
    → 0 < count (λ (u : Timing). u.duration_ms == least) ts
    → 0 < count (λ (u : Timing). u.duration_ms == lower t.duration_ms (some least)) (ts ++ t ∷ [])
least-snoc ts t least h = elim (Bool-cases (ltb t.duration_ms least)) [
  | inl below ↦ rw (below, count-snoc (λ u. u.duration_ms == t.duration_ms) ts t) (ground arith)
  | inr above ↦ rw (above, count-snoc (λ u. u.duration_ms == least) ts t) (ground (arith, h))
]

greatest-snoc :
    (ts : List Timing) (t : Timing) (most : ℕ)
    → 0 < count (λ (u : Timing). u.duration_ms == most) ts
    → 0
      < count
          (λ (u : Timing).
            u.duration_ms == (if ltb most t.duration_ms then t.duration_ms else most))
          (ts ++ t ∷ [])
greatest-snoc ts t most h = elim (Bool-cases (ltb most t.duration_ms)) [
  | inl above ↦ rw (above, count-snoc (λ u. u.duration_ms == t.duration_ms) ts t) (ground arith)
  | inr below ↦ rw (below, count-snoc (λ u. u.duration_ms == most) ts t) (ground (arith, h))
]

-- the queue of durations, when one more comes
kept-snoc :
    (ts : List Timing) (t : Timing)
    → push sample_window
        (drop (length ts - sample_window) (map (λ (u : Timing). u.duration_ms) ts))
        t.duration_ms
      ≡ drop
          (length (ts ++ t ∷ []) - sample_window)
          (map (λ (u : Timing). u.duration_ms) (ts ++ t ∷ []))
kept-snoc ts t =
    let ms : List ℕ = map (λ (u : Timing). u.duration_ms) ts in
    ap (λ n. push sample_window (drop (n - sample_window) ms) t.duration_ms) (sym (length-map ts))
    ∙ push-drop sample_window ms t.duration_ms
    ∙ ap (λ l. drop (length l - sample_window) l) (sym (map-snoc ts t))
    ∙ ap (λ n. drop (n - sample_window) (map (λ (u : Timing). u.duration_ms) (ts ++ t ∷ [])))
        (length-map (ts ++ t ∷ []))

add_timing-Describes :
    (first : Timing) (rest : List Timing) (s : Source) (t : Timing)
    → Describes first rest s
    → Describes first (rest ++ t ∷ []) (add_timing t s)
unfolding add_timing
add_timing-Describes first rest s t d =
    let low : ℕ = lower t.duration_ms (some d.least) in
    record {
      counted = omega (arith, d.counted, length-append rest (t ∷ []));
      total = omega (arith, d.total, sum_of-snoc (λ u. u.duration_ms) rest t);
      hits = ground (arith, d.hits, count-snoc (λ u. u.from_cache) rest t);
      nodes = omega (arith, d.nodes, sum_of-snoc (λ u. u.node_count) rest t);
      last = rw (last_of-snoc first rest t) refl;
      time = rw (last_of-snoc first rest t) refl;
      least = low;
      least_lem = ap (λ m. some (lower t.duration_ms m)) d.least_lem;
      above =
          All-snoc _ (first ∷ rest) t
            (All-mono _ _ (first ∷ rest) (λ u (h : d.least ≤ u.duration_ms). ground arith) d.above)
            (ground arith);
      attained = least-snoc (first ∷ rest) t d.least d.attained;
      below =
          All-snoc _ (first ∷ rest) t
            (All-mono _ _ (first ∷ rest) (λ u (h : u.duration_ms ≤ s.max_ms). ground arith) d.below)
            (ground arith);
      reached = greatest-snoc (first ∷ rest) t s.max_ms d.reached;
      kept = ap (λ q. push sample_window q t.duration_ms) d.kept ∙ kept-snoc (first ∷ rest) t;
    }

first-Describes : (t : Timing) → Describes t [] (add_timing t new_source)
unfolding add_timing push
first-Describes t = record {
  counted = refl;
  total = omega arith;
  hits = ground arith;
  nodes = omega arith;
  last = refl;
  time = refl;
  least = t.duration_ms;
  least_lem = refl;
  above = (omega arith, tt);
  attained = ground arith;
  below = (ground arith, tt);
  reached = ground arith;
  kept = refl;
}

-- a source's entry, after further timings
abbrev add_all : Option Source → List Timing → Option Source
add_all o [] = o
add_all o (t ∷ ts) = add_all (some (add_timing t (source_of o))) ts

lookup-run :
    (source : String) (p : PerfMonitor) (calls : List Call)
    → lookup source (run p calls).sources
      ≡ add_all (lookup source p.sources) (timings_of source calls)
unfolding run record_timing record_cycle
lookup-run source p [] = refl
lookup-run source p (timing name t ∷ calls) = elim (Bool-cases (str_eq name source)) [
  | inl same ↦
      let named : name ≡ source = (str_eq_iff name source).0 same in
      rw (same, lookup-run source (record_timing name t p) calls, named, lookup-insert_self) refl
  | inr other ↦
      rw
        (
          other,
          lookup-run source (record_timing name t p) calls,
          lookup-insert name source _ p.sources,
          other,
        )
        refl
]
lookup-run source p (cycle duration_ms total_nodes ∷ calls) =
    lookup-run source (record_cycle duration_ms total_nodes p) calls

add_all-Describes :
    (first : Timing) (rest ts : List Timing) (s : Source)
    → Describes first rest s
    → (s' : Source) × (add_all (some s) ts ≡ some s') × Describes first (rest ++ ts) s'
add_all-Describes first rest [] s d =
    (s, refl, subst (λ l. Describes first l s) (sym (append-nil rest)) d)
add_all-Describes first rest (t ∷ ts) s d =
    let (s', e, d') =
      add_all-Describes first (rest ++ t ∷ []) ts (add_timing t s)
        (add_timing-Describes first rest s t d) in
    (s', e, subst (λ l. Describes first l s') (append_assoc rest (t ∷ []) ts) d')

-- nothing, or an entry that describes the timings
abbrev pub IsSummary : List Timing → Option Source → Type 0
IsSummary [] o = o ≡ none
IsSummary (first ∷ rest) o = (s : Source) × (o ≡ some s) × Describes first rest s

add_all-IsSummary : (ts : List Timing) → IsSummary ts (add_all none ts)
add_all-IsSummary [] = refl
add_all-IsSummary (t ∷ ts) = add_all-Describes t [] ts (add_timing t new_source) (first-Describes t)

-- Whatever timings of sources and of cycles a new monitor records: a source without timings has no
-- entry, and the entry of any other has their number, their sums, their least and greatest duration, the
-- last of them, and the durations of the last thousand in the order in which they came.
pub source-IsSummary :
    (now : ℕ) (calls : List Call) (source : String)
    → IsSummary (timings_of source calls) (lookup source (run (create now) calls).sources)
unfolding create lookup
source-IsSummary now calls source =
    rw (lookup-run source (create now) calls) (add_all-IsSummary (timings_of source calls))
