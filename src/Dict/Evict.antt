-- ===== src/Dict/Evict.antt =====
-- `min(d, key=lambda k: age(d[k]))`: the first entry, in insertion order, with the least value of
-- `age`; and its removal.
use meshforge_maps.Base.{
  ℕ, ◌+◌, ◌≤◌, ◌<◌, ◌≡◌, ◌⊎◌, refl, String, Option, none, some, [], ◌∷◌, arith, str_eq, str_eq_iff,
  ltb, leb, not, ◌&&◌, if◌then◌else◌, if_both, length, inl,
}
use meshforge_maps.Dict.{
  Dict, lookup, contains, insert, erase, lookup-erase, length-insert, length-erase,
  length-erase_mem, AllValues, AllValues-erase, AllValues-insert, IsDistinct, IsDistinct-erase,
  IsDistinct-insert,
}

module _ {ℓ} {V : Type ℓ} (age : V → ℕ) where
  unfoldable pub least : String × V → Dict V → String × V
  least best [] = best
  least best (e ∷ d) = least (if ltb (age e.1) (age best.1) then e else best) d

  unfoldable pub oldest : Dict V → Option String
  oldest [] = none
  oldest (e ∷ d) = some (least e d).0

  -- `if d: del d[min(d, key=…)]`
  unfoldable pub evict : Dict V → Dict V
  evict d = elim (oldest d) [ none ↦ d | some k ↦ erase k d ]

  least_found :
      (best : String × V) (d : Dict V)
      → IsDistinct d
      → (least best d ≡ best) ⊎ (lookup (least best d).0 d ≡ some (least best d).1)
  unfolding least lookup
  least_found best [] h = inl refl
  least_found best (e ∷ d) h = ground (
    arith,
    least_found (if ltb (age e.1) (age best.1) then e else best) d h.1,
    str_eq_iff e.0 (least (if ltb (age e.1) (age best.1) then e else best) d).0,
    str_eq_iff e.0 e.0,
  )

  age-least_le : (best : String × V) (d : Dict V) → age (least best d).1 ≤ age best.1
  unfolding least
  age-least_le best [] = omega arith
  age-least_le best (e ∷ d) =
      ground (arith, age-least_le (if ltb (age e.1) (age best.1) then e else best) d)

  age-least_all : (best : String × V) (d : Dict V) → AllValues (λ w. age (least best d).1 ≤ age w) d
  unfolding least
  age-least_all best [] = tt
  age-least_all best (e ∷ d) =
      let best' : String × V = if ltb (age e.1) (age best.1) then e else best in
      (ground (arith, age-least_le best' d), age-least_all best' d)

  pub oldest_found : (d : Dict V) → 0 < length d → (k : String) × (oldest d ≡ some k)
  unfolding oldest
  oldest_found [] h = elim h [ ]
  oldest_found (e ∷ d) h = ((least e d).0, refl)

  -- The evicted key is there, and no entry is older.
  pub oldest_lem :
      (d : Dict V) (k : String)
      → IsDistinct d
      → oldest d ≡ some k
      → (v : V) × (lookup k d ≡ some v) × AllValues (λ w. age v ≤ age w) d
  unfolding oldest lookup
  oldest_lem [] k h e = absurd (cc)
  oldest_lem (x ∷ d) k h e =
      let named : (least x d).0 ≡ k = ground arith in
      (
        (least x d).1,
        ground (arith, least_found x d h.1, str_eq_iff x.0 k, str_eq_iff x.0 x.0),
        (age-least_le x d, age-least_all x d),
      )

  pub lookup-evict :
      (d : Dict V) (k j : String)
      → oldest d ≡ some k
      → lookup j (evict d) ≡ (if str_eq k j then none else lookup j d)
  unfolding evict
  lookup-evict d k j e = rw (e, evict) (lookup-erase k j d)

  pub length-evict_le : (d : Dict V) → length (evict d) ≤ length d
  unfolding evict
  length-evict_le d =
      elim (oldest d) as (λ o. length (elim o [ none ↦ d | some k ↦ erase k d ]) ≤ length d) [
        | none ↦ omega arith
        | some k ↦ length-erase k d
      ]

  pub length-evict : (d : Dict V) → IsDistinct d → 0 < length d → length (evict d) + 1 ≤ length d
  unfolding evict
  length-evict d h n =
      let (k, e) = oldest_found d n in
      let (v, found, _) = oldest_lem d k h e in rw (e, evict) (length-erase_mem k d (rw found))

  pub AllValues-evict {κ} : (P : V → Type κ) (d : Dict V) → AllValues P d → AllValues P (evict d)
  unfolding evict
  AllValues-evict P d h =
      elim (oldest d) as (λ o. AllValues P (elim o [ none ↦ d | some k ↦ erase k d ])) [
        | none ↦ h
        | some k ↦ AllValues-erase P k d h
      ]

  pub IsDistinct-evict : (d : Dict V) → IsDistinct d → IsDistinct (evict d)
  unfolding evict
  IsDistinct-evict d h =
      elim (oldest d) as (λ o. IsDistinct (elim o [ none ↦ d | some k ↦ erase k d ])) [
        | none ↦ h
        | some k ↦ IsDistinct-erase k d h
      ]

  -- `if k not in d and len(d) >= bound: evict`, then `d[k] = v`
  unfoldable pub insert_bounded : ℕ → String → V → Dict V → Dict V
  insert_bounded bound k v d =
      insert k v (if not (contains k d) && leb bound (length d) then evict d else d)

  pub length-insert_bounded :
      (bound : ℕ) (k : String) (v : V) (d : Dict V)
      → 0 < bound
      → IsDistinct d
      → length d ≤ bound
      → length (insert_bounded bound k v d) ≤ bound
  unfolding insert_bounded
  length-insert_bounded bound k v d pos h fits =
      ground (arith, length-insert k v d, length-insert k v (evict d), length-evict d h)

  pub IsDistinct-insert_bounded :
      (bound : ℕ) (k : String) (v : V) (d : Dict V)
      → IsDistinct d
      → IsDistinct (insert_bounded bound k v d)
  unfolding insert_bounded
  IsDistinct-insert_bounded bound k v d h =
      IsDistinct-insert k v _ (if_both IsDistinct _ (evict d) d (IsDistinct-evict d h) h)

  pub AllValues-insert_bounded {κ} :
      (P : V → Type κ) (bound : ℕ) (k : String) (v : V) (d : Dict V)
      → P v
      → AllValues P d
      → AllValues P (insert_bounded bound k v d)
  unfolding insert_bounded
  AllValues-insert_bounded P bound k v d p h =
      AllValues-insert P k v _ p (if_both (AllValues P) _ _ _ (AllValues-evict P d h) h)
