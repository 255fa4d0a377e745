-- ===== src/Aggregator/Cycles.antt =====
-- src/collectors/aggregator.py, the loop of `collect_all`: what one cycle gathers, and what it counts.
use meshforge_maps.Base.{
  ℕ, ◌≡◌, refl, ap, sym, ◌∙◌, String, Bool, true, false, Option, none, some, List, [], ◌∷◌, ◌++◌,
  arith, not, ◌&&◌, if◌then◌else◌, length, str_eq, str_eq_iff, Bool-cases, inl, inr,
}
use mathlib.Core.Path.{subst}
use mathlib.Core.List.{append-nil, append_assoc}
use meshforge_maps.Dict.{Dict, lookup, insert, lookup-insert, IsDistinct}
use meshforge_maps.Collector.{Feature}
use meshforge_maps.Aggregator.{
  Collection, Sources, World, DataAggregator, Cycle, is_overlay_only, zero_counts, note_source,
  collect_each, new_cycle,
}

-- the features of one source; one that raised has no list
abbrev pub features_of : Option (Collection × Bool) → List (List (Option Feature))
features_of none = []
features_of (some (fc, _)) = fc.features ∷ []

abbrev pub count_of : Option (Collection × Bool) → ℕ
count_of none = 0
count_of (some (fc, _)) = length fc.features

module _ {C : Type 0} (ops : Sources C) where
  -- the lists of the sources, in the order of the collectors
  abbrev pub gathered : Dict C → List (List (Option Feature))
  gathered [] = []
  gathered ((name, c) ∷ rest) =
      (if is_overlay_only name then [] else features_of (ops.gather name c).1) ++ gathered rest

  -- the count of a source, if it is collected
  abbrev pub counted : String → Option C → Option ℕ
  counted name none = none
  counted name (some c) =
      if is_overlay_only name then none else some (count_of (ops.gather name c).1)

  note_source_features :
      (w : World) (name : String) (p : C × Option (Collection × Bool)) (cycle : Cycle C)
      → (note_source w name p cycle).per_source_features
        ≡ cycle.per_source_features ++ features_of p.1
  unfolding note_source
  note_source_features w name (c, none) cycle = sym (append-nil cycle.per_source_features)
  note_source_features w name (c, some (fc, hit)) cycle = refl

  next_features :
      (overlay : Bool) (w : World) (name : String) (p : C × Option (Collection × Bool))
      (cycle : Cycle C)
      → (if overlay then cycle else note_source w name p cycle).per_source_features
        ≡ cycle.per_source_features ++ (if overlay then [] else features_of p.1)
  next_features true w name p cycle = sym (append-nil cycle.per_source_features)
  next_features false w name p cycle = note_source_features w name p cycle

  note_source_counts :
      (w : World) (name : String) (p : C × Option (Collection × Bool)) (cycle : Cycle C)
      → (note_source w name p cycle).source_counts ≡ insert name (count_of p.1) cycle.source_counts
  unfolding note_source
  note_source_counts w name (c, none) cycle = refl
  note_source_counts w name (c, some (fc, hit)) cycle = refl

  next_counts :
      (overlay : Bool) (w : World) (name k : String) (p : C × Option (Collection × Bool))
      (cycle : Cycle C)
      → lookup k (if overlay then cycle else note_source w name p cycle).source_counts ≡ (
          if not overlay && str_eq name k
          then some (count_of p.1)
          else lookup k cycle.source_counts)
  next_counts true w name k p cycle = refl
  next_counts false w name k p cycle =
      ap (lookup k) (note_source_counts w name p cycle)
      ∙ lookup-insert name k (count_of p.1) cycle.source_counts

  pub collect_each_features :
      (w : World) (sources : Dict C) (cycle : Cycle C)
      → (collect_each ops w sources cycle).per_source_features
        ≡ cycle.per_source_features ++ gathered sources
  unfolding collect_each
  collect_each_features w [] cycle = sym (append-nil cycle.per_source_features)
  collect_each_features w ((name, c) ∷ rest) cycle =
      let overlay = is_overlay_only name in
      collect_each_features w rest
        (if overlay then cycle else note_source w name (ops.gather name c) cycle)
      ∙ ap (λ l. l ++ gathered rest) (next_features overlay w name (ops.gather name c) cycle)
      ∙ append_assoc cycle.per_source_features
          (if overlay then [] else features_of (ops.gather name c).1) (gathered rest)

  -- what is counted for a source, or was before
  abbrev counted_or : String → Option C → Option ℕ → Option ℕ
  counted_or name none old = old
  counted_or name (some c) old =
      if is_overlay_only name then old else some (count_of (ops.gather name c).1)

  counted_first :
      (name k : String) (c : C) (rest : Dict C) (old : Option ℕ)
      → lookup name rest ≡ none
      → counted_or k (lookup k rest) (
          if not (is_overlay_only name) && str_eq name k
          then some (count_of (ops.gather name c).1)
          else old)
        ≡ counted_or k (if str_eq name k then some c else lookup k rest) old
  counted_first name k c rest old absent = elim (Bool-cases (str_eq name k)) [
    | inl same ↦ rw same (
        subst
          (λ j.
            counted_or j (lookup j rest) (
              if not (is_overlay_only name) && true
              then some (count_of (ops.gather name c).1)
              else old)
            ≡ counted_or j (some c) old)
          ((str_eq_iff name k).0 same) (ground (arith, absent)))
    | inr apart ↦ ground (arith, apart)
  ]

  collect_each_counts :
      (w : World) (sources : Dict C) (cycle : Cycle C) (k : String)
      → IsDistinct sources
      → lookup k (collect_each ops w sources cycle).source_counts
        ≡ counted_or k (lookup k sources) (lookup k cycle.source_counts)
  unfolding collect_each lookup
  collect_each_counts w [] cycle k h = refl
  collect_each_counts w ((name, c) ∷ rest) cycle k h =
      let overlay = is_overlay_only name in
      collect_each_counts w rest
        (if overlay then cycle else note_source w name (ops.gather name c) cycle) k h.1
      ∙ ap (counted_or k (lookup k rest)) (next_counts overlay w name k (ops.gather name c) cycle)
      ∙ counted_first name k c rest (lookup k cycle.source_counts) h.0

  zero_counts_absent :
      (sources : Dict C) (counts : Dict ℕ) (k : String)
      → lookup k sources ≡ none
      → lookup k (zero_counts sources counts) ≡ lookup k counts
  unfolding zero_counts lookup
  zero_counts_absent [] counts k absent = refl
  zero_counts_absent ((name, c) ∷ rest) counts k absent =
      zero_counts_absent rest (if is_overlay_only name then counts else insert name 0 counts) k
        (ground (arith, absent))
      ∙ ground (arith, absent, lookup-insert name k 0 counts)

  zero_counts_overlay :
      (sources : Dict C) (counts : Dict ℕ) (k : String)
      → is_overlay_only k ≡ true
      → lookup k (zero_counts sources counts) ≡ lookup k counts
  unfolding zero_counts lookup
  zero_counts_overlay [] counts k overlay = refl
  zero_counts_overlay ((name, c) ∷ rest) counts k overlay =
      zero_counts_overlay rest (if is_overlay_only name then counts else insert name 0 counts) k
        overlay
      ∙ ground
          (arith, overlay, lookup-insert name k 0 counts, str_eq_iff name k, ap is_overlay_only)

  counted_new :
      (sources : Dict C) (k : String) (found : Option C)
      → lookup k sources ≡ found
      → counted_or k found (lookup k (zero_counts sources [])) ≡ counted k found
  unfolding lookup
  counted_new sources k none e = zero_counts_absent sources [] k e
  counted_new sources k (some c) e = elim (Bool-cases (is_overlay_only k)) [
    | inl overlay ↦ rw overlay (zero_counts_overlay sources [] k overlay)
    | inr source ↦ rw source refl
  ]

  -- After a cycle over distinct sources each one that is collected has its count.
  pub cycle_counts :
      (w : World) (d : DataAggregator C) (k : String)
      → IsDistinct d.collectors
      → lookup k (collect_each ops w d.collectors (new_cycle d)).source_counts
        ≡ counted k (lookup k d.collectors)
  unfolding new_cycle
  cycle_counts w d k h =
      collect_each_counts w d.collectors (new_cycle d) k h
      ∙ counted_new d.collectors k (lookup k d.collectors) refl
