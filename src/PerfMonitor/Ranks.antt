-- ===== src/PerfMonitor/Ranks.antt =====
-- src/utils/perf_monitor.py, `_percentiles`: the rank of the values that it picks.
use meshforge_maps.Base.{
  ℕ, zero, suc, ◌+◌, ◌-◌, ◌*◌, ◌/◌, ◌≤◌, ◌<◌, ◌≡◌, refl, Bool, Option, some, List, [], ◌∷◌, arith,
  ltb, leb, if◌then◌else◌, length, count, min, All,
}
use meshforge_maps.PerfMonitor.{
  insert_sorted, sorted, get_elem?, at_index, percentiles, round_div, round2, millisecond,
}

abbrev IsSorted : List ℕ → Type 0
IsSorted [] = Unit
IsSorted (x ∷ xs) = All (λ y. x ≤ y) xs × IsSorted xs

All-mono : (a b : ℕ) (xs : List ℕ) → a ≤ b → All (λ y. b ≤ y) xs → All (λ y. a ≤ y) xs
All-mono a b [] h k = tt
All-mono a b (x ∷ xs) h k = (omega (arith, k.0), All-mono a b xs h k.1)

All-insert_sorted :
    (a x : ℕ) (xs : List ℕ) → a ≤ x → All (λ y. a ≤ y) xs → All (λ y. a ≤ y) (insert_sorted x xs)
unfolding insert_sorted
All-insert_sorted a x [] h k = (h, tt)
All-insert_sorted a x (y ∷ ys) h k = ground (arith, All-insert_sorted a x ys h k.1)

insert_sorted-IsSorted : (x : ℕ) (xs : List ℕ) → IsSorted xs → IsSorted (insert_sorted x xs)
unfolding insert_sorted
insert_sorted-IsSorted x [] s = (tt, tt)
insert_sorted-IsSorted x (y ∷ ys) s =
    ground (arith, insert_sorted-IsSorted x ys s.1, All-mono x y ys, All-insert_sorted y x ys)

sorted-IsSorted : (xs : List ℕ) → IsSorted (sorted xs)
unfolding sorted
sorted-IsSorted [] = tt
sorted-IsSorted (x ∷ xs) = insert_sorted-IsSorted x (sorted xs) (sorted-IsSorted xs)

count-insert_sorted :
    (p : ℕ → Bool) (x : ℕ) (xs : List ℕ)
    → count p (insert_sorted x xs) ≡ (if p x then 1 else 0) + count p xs
unfolding insert_sorted
count-insert_sorted p x [] = refl
count-insert_sorted p x (y ∷ ys) = ground (arith, count-insert_sorted p x ys)

count-sorted : (p : ℕ → Bool) (xs : List ℕ) → count p (sorted xs) ≡ count p xs
unfolding sorted
count-sorted p [] = refl
count-sorted p (x ∷ xs) = omega (arith, count-insert_sorted p x (sorted xs), count-sorted p xs)

length-insert_sorted : (x : ℕ) (xs : List ℕ) → length (insert_sorted x xs) ≡ suc (length xs)
unfolding insert_sorted
length-insert_sorted x [] = refl
length-insert_sorted x (y ∷ ys) = ground (arith, length-insert_sorted x ys)

length-sorted : (xs : List ℕ) → length (sorted xs) ≡ length xs
unfolding sorted
length-sorted [] = refl
length-sorted (x ∷ xs) = omega (arith, length-insert_sorted x (sorted xs), length-sorted xs)

get_elem?_found : (xs : List ℕ) (i : ℕ) → i < length xs → (v : ℕ) × (get_elem? xs i ≡ some v)
get_elem?_found [] i h = absurd (omega arith)
get_elem?_found (x ∷ xs) zero h = (x, refl)
get_elem?_found (x ∷ xs) (suc i) h = get_elem?_found xs i (omega arith)

All-get_elem? :
    (a : ℕ) (xs : List ℕ) (i v : ℕ) → All (λ y. a ≤ y) xs → get_elem? xs i ≡ some v → a ≤ v
All-get_elem? a [] i v h e = absurd (cc)
All-get_elem? a (x ∷ xs) zero v h e = ground (arith, h.0)
All-get_elem? a (x ∷ xs) (suc i) v h e = All-get_elem? a xs i v h.1 e

count_below : (a : ℕ) (xs : List ℕ) → All (λ y. a ≤ y) xs → count (λ s. ltb s a) xs ≡ 0
count_below a [] h = refl
count_below a (x ∷ xs) h = ground (arith, count_below a xs h.1, h.0)

-- the value at an index of a sorted list has more than `i` values up to it, and `i` at most below it
rank :
    (xs : List ℕ) (i v : ℕ)
    → IsSorted xs
    → get_elem? xs i ≡ some v
    → (i < count (λ s. leb s v) xs) × (count (λ s. ltb s v) xs ≤ i)
rank [] i v s e = absurd (cc)
rank (x ∷ xs) zero v s e = ground (arith, count_below x xs s.0)
rank (x ∷ xs) (suc i) v s e = ground (arith, rank xs i v s.1 e, All-get_elem? x xs i v s.0 e)

-- Of `samples`, at most `q` percent are below `v`, and more than `q` percent are not above it.
abbrev pub IsPercentile : ℕ → List ℕ → ℕ → Type 0
IsPercentile q samples v =
    (100 * count (λ s. ltb s v) samples ≤ q * length samples)
    × (q * length samples < 100 * count (λ s. leb s v) samples)

-- The hundredths nearest to a duration: half a hundredth away from it at most.
abbrev pub IsNearest : ℕ → ℕ → Type 0
IsNearest v hundredths =
    (2 * (v * 100) ≤ (2 * hundredths + 1) * millisecond)
    × (2 * hundredths * millisecond ≤ 2 * (v * 100) + millisecond)

round2-IsNearest : (v : ℕ) → IsNearest v (round2 v)
unfolding round_div
round2-IsNearest v = (ground arith, ground arith)

-- what is reported for `q` percent of the samples: the rounded value of a percentile
abbrev pub Reported : ℕ → List ℕ → Option ℕ → Type 0
Reported q samples reported =
    (v : ℕ) × (reported ≡ some (round2 v)) × IsPercentile q samples v × IsNearest v (round2 v)

at_index-some :
    (samples : List ℕ) (i v : ℕ)
    → get_elem? (sorted samples) i ≡ some v
    → at_index samples i ≡ some (round2 v)
unfolding at_index
at_index-some samples i v e = rw (at_index, e) refl

at_index-Reported :
    (q i : ℕ) (samples : List ℕ)
    → i < length samples
    → 100 * i ≤ q * length samples
    → q * length samples < 100 * suc i
    → Reported q samples (at_index samples i)
at_index-Reported q i samples inside low high =
    let (v, e) = get_elem?_found (sorted samples) i (omega (arith, length-sorted samples)) in
    let ranked = rank (sorted samples) i v (sorted-IsSorted samples) e in
    (
      v,
      at_index-some samples i v e,
      (
        omega (arith, ranked, count-sorted (λ s. ltb s v) samples),
        omega (arith, ranked, count-sorted (λ s. leb s v) samples),
      ),
      round2-IsNearest v,
    )

-- Of at least one sample, in whatever order they came, the three values are there (no index is out of
-- range), and each is a percentile, rounded: at most 50, 90 and 99 percent of the samples are below
-- the value before it is rounded, and more than that are not above it; what is reported is a whole
-- number of hundredths of a millisecond, at most half a hundredth away from that value.
pub percentiles_rank :
    (x : ℕ) (xs : List ℕ)
    → let samples = x ∷ xs in
      Reported 50 samples (percentiles samples).p50_ms
      × Reported 90 samples (percentiles samples).p90_ms
      × Reported 99 samples (percentiles samples).p99_ms
unfolding percentiles
percentiles_rank x xs =
    let samples : List ℕ = x ∷ xs in
    let n : ℕ = length samples in
    (
      at_index-Reported 50 (n * 50 / 100) samples (omega arith) (omega arith) (omega arith),
      at_index-Reported 90 (min (n * 90 / 100) (n - 1)) samples (omega arith) (omega arith)
          (omega arith),
      at_index-Reported 99 (min (n * 99 / 100) (n - 1)) samples (omega arith) (omega arith)
          (omega arith),
    )
