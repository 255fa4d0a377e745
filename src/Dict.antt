-- ===== src/Dict.antt =====
-- Python's `dict` with string keys, in insertion order, and the eviction of the oldest entry that
-- the stores of the program share: `min(d, key=…)` followed by `del`.
pub mod Evict
use mathlib.Core.Path.{subst}
use meshforge_maps.Base.{
  ℕ, suc, ◌+◌, ◌≤◌, ◌≡◌, ◌≢◌, refl, String, Bool, true, false, Option, none, some, List, [], ◌∷◌,
  arith, str_eq, str_eq_iff, if◌then◌else◌, length, is_some, Bool-cases, inl, inr,
}

abbrev pub Dict {ℓ} : Type ℓ → Type ℓ
Dict V = List (String × V)

module _ {ℓ} {V : Type ℓ} where
  -- `d.get(k)`
  unfoldable pub lookup : String → Dict V → Option V
  lookup k [] = none
  lookup k ((j, v) ∷ d) = if str_eq j k then some v else lookup k d

  -- `k in d`
  abbrev pub contains : String → Dict V → Bool
  contains k d = is_some (lookup k d)

  -- `d[k] = v`: in place for a key that is there, at the end for a new one
  unfoldable pub insert : String → V → Dict V → Dict V
  insert k v [] = (k, v) ∷ []
  insert k v ((j, w) ∷ d) = if str_eq j k then (j, v) ∷ d else (j, w) ∷ insert k v d

  -- `d.pop(k, None)`; keys are distinct, so that at most one entry goes
  unfoldable pub erase : String → Dict V → Dict V
  erase k [] = []
  erase k ((j, w) ∷ d) = let rest = erase k d in if str_eq j k then rest else (j, w) ∷ rest

  pub lookup-insert :
      (k j : String) (v : V) (d : Dict V)
      → lookup j (insert k v d) ≡ (if str_eq k j then some v else lookup j d)
  unfolding lookup insert
  lookup-insert k j v [] = refl
  lookup-insert k j v ((i, w) ∷ d) =
      ground (arith, str_eq_iff k j, str_eq_iff i k, str_eq_iff i j, lookup-insert k j v d)

  pub lookup-insert_self : (k : String) (v : V) (d : Dict V) → lookup k (insert k v d) ≡ some v
  lookup-insert_self k v d = rw (lookup-insert k k v d, (str_eq_iff k k).1 refl)

  pub lookup-erase :
      (k j : String) (d : Dict V) → lookup j (erase k d) ≡ (if str_eq k j then none else lookup j d)
  unfolding lookup erase
  lookup-erase k j [] = ground arith
  lookup-erase k j ((i, w) ∷ d) =
      ground (arith, str_eq_iff k j, str_eq_iff i k, str_eq_iff i j, lookup-erase k j d)

  pub length-insert :
      (k : String) (v : V) (d : Dict V)
      → length (insert k v d) ≡ (if contains k d then length d else length d + 1)
  unfolding lookup insert
  length-insert k v [] = omega arith
  length-insert k v ((j, w) ∷ d) = ground (arith, length-insert k v d)

  pub length-erase : (k : String) (d : Dict V) → length (erase k d) ≤ length d
  unfolding erase
  length-erase k [] = omega arith
  length-erase k ((j, w) ∷ d) = ground (arith, length-erase k d)

  pub length-erase_mem :
      (k : String) (d : Dict V) → contains k d ≡ true → length (erase k d) + 1 ≤ length d
  unfolding lookup erase
  length-erase_mem k [] h = cc
  length-erase_mem k ((j, w) ∷ d) h = ground (arith, length-erase_mem k d, length-erase k d)

  -- Every value satisfies `P`.
  abbrev pub AllValues {κ} : (V → Type κ) → Dict V → Type κ
  AllValues P [] = Unit
  AllValues P ((k, v) ∷ d) = P v × AllValues P d

  pub AllValues-insert {κ} :
      (P : V → Type κ) (k : String) (v : V) (d : Dict V)
      → P v
      → AllValues P d
      → AllValues P (insert k v d)
  unfolding insert
  AllValues-insert P k v [] p h = (p, tt)
  AllValues-insert P k v ((j, w) ∷ d) p h = elim (Bool-cases (str_eq j k)) [
    | inl same ↦ rw same (p, h.1)
    | inr other ↦ rw other (h.0, AllValues-insert P k v d p h.1)
  ]

  pub AllValues-erase {κ} :
      (P : V → Type κ) (k : String) (d : Dict V) → AllValues P d → AllValues P (erase k d)
  unfolding erase
  AllValues-erase P k [] h = tt
  AllValues-erase P k ((j, w) ∷ d) h = elim (Bool-cases (str_eq j k)) [
    | inl same ↦ rw same (AllValues-erase P k d h.1)
    | inr other ↦ rw other (h.0, AllValues-erase P k d h.1)
  ]

  pub AllValues-lookup {κ} :
      (P : V → Type κ) (k : String) (d : Dict V) (v : V) → AllValues P d → lookup k d ≡ some v → P v
  unfolding lookup
  AllValues-lookup P k [] v h e = absurd (cc)
  AllValues-lookup P k ((j, w) ∷ d) v h e = elim (Bool-cases (str_eq j k)) [
    | inl same ↦ let found : w ≡ v = ground arith in subst P found h.0
    | inr other ↦ AllValues-lookup P k d v h.1 (rw other at e)
  ]

  pub AllValues-mono {κ μ} :
      (P : V → Type κ) (Q : V → Type μ) (d : Dict V)
      → ((v : V) → P v → Q v)
      → AllValues P d
      → AllValues Q d
  AllValues-mono P Q [] f h = tt
  AllValues-mono P Q ((j, w) ∷ d) f h = (f w h.0, AllValues-mono P Q d f h.1)

  -- No key is listed twice.
  abbrev pub IsDistinct : Dict V → Type ℓ
  IsDistinct [] = Unit
  IsDistinct ((k, v) ∷ d) = (lookup k d ≡ none) × IsDistinct d

  pub IsDistinct-insert :
      (k : String) (v : V) (d : Dict V) → IsDistinct d → IsDistinct (insert k v d)
  unfolding lookup insert
  IsDistinct-insert k v [] h = (refl, tt)
  IsDistinct-insert k v ((j, w) ∷ d) h =
      ground
        (arith, IsDistinct-insert k v d h.1, lookup-insert k j v d, str_eq_iff j k, str_eq_iff k j)

  pub IsDistinct-erase : (k : String) (d : Dict V) → IsDistinct d → IsDistinct (erase k d)
  unfolding lookup erase
  IsDistinct-erase k [] h = tt
  IsDistinct-erase k ((j, w) ∷ d) h = ground (arith, IsDistinct-erase k d h.1, lookup-erase k j d)

-- Distinct keys that all stand in `d` are no more than `d` has.
pub length-subset {ℓ κ} :
    {V : Type ℓ} {W : Type κ} (ks : Dict W) (d : Dict V)
    → IsDistinct ks
    → ((k : String) → contains k ks ≡ true → contains k d ≡ true)
    → length ks ≤ length d
unfolding lookup
length-subset [] d h all = omega arith
length-subset ((k, w) ∷ ks) d h all =
    let there : contains k d ≡ true = all k (ground (arith, str_eq_iff k k)) in
    let rest : (j : String) → contains j ks ≡ true → contains j (erase k d) ≡ true =
      λ j m. ground (arith, lookup-erase k j d, all j, str_eq_iff k j, h.0) in
    omega (arith, length-subset ks (erase k d) h.1 rest, length-erase_mem k d there)
