-- ===== src/AlertEngine/Capping.antt =====
-- src/utils/alert_engine.py, `_cleanup_stale_cooldowns`: the entries that are dropped for their age,
-- and for the bound on their number.
use meshforge_maps.Base.{
  ℕ, zero, suc, ◌+◌, ◌-◌, ◌≤◌, ◌≡◌, refl, ◌∙◌, ap, String, true, none, some, [], ◌∷◌, arith, str_eq,
  str_eq_iff, if◌then◌else◌, length, take, length-take, Bool-cases, inl, inr,
}
use meshforge_maps.Dict.{
  Dict, lookup, contains, erase, lookup-erase, length-erase_mem, AllValues, AllValues-erase,
  IsDistinct, IsDistinct-erase,
}
use meshforge_maps.AlertEngine.{cooldown_max_age}
use meshforge_maps.AlertEngine.Methods.{
  is_stale, drop_stale, insert_sorted, sort_by_time, erase_keys, cap_entries,
}

pub lookup-drop_stale :
    (now : ℕ) (k : String) (d : Dict ℕ)
    → IsDistinct d
    → lookup k (drop_stale now d)
      ≡ elim (lookup k d) [ none ↦ none | some t ↦ if is_stale now t then none else some t ]
unfolding lookup drop_stale
lookup-drop_stale now k [] h = refl
lookup-drop_stale now k ((j, t) ∷ d) h =
    ground (arith, lookup-drop_stale now k d h.1, str_eq_iff j k)

pub IsDistinct-drop_stale : (now : ℕ) (d : Dict ℕ) → IsDistinct d → IsDistinct (drop_stale now d)
unfolding drop_stale
IsDistinct-drop_stale now [] h = tt
IsDistinct-drop_stale now ((j, t) ∷ d) h =
    ground (arith, IsDistinct-drop_stale now d h.1, lookup-drop_stale now j d h.1)

pub length-drop_stale : (now : ℕ) (d : Dict ℕ) → length (drop_stale now d) ≤ length d
unfolding drop_stale
length-drop_stale now [] = omega arith
length-drop_stale now ((j, t) ∷ d) = ground (arith, length-drop_stale now d)

pub fresh-drop_stale :
    (now : ℕ) (d : Dict ℕ) → AllValues (λ t. now ≤ t + cooldown_max_age) (drop_stale now d)
unfolding drop_stale
fresh-drop_stale now [] = tt
fresh-drop_stale now ((j, t) ∷ d) = elim (Bool-cases (is_stale now t)) [
  | inl stale ↦ rw stale (fresh-drop_stale now d)
  | inr fresh ↦ rw fresh (ground arith, fresh-drop_stale now d)
]

lookup-insert_sorted :
    (k j : String) (t : ℕ) (d : Dict ℕ)
    → lookup k d ≡ none
    → lookup j (insert_sorted (k, t) d) ≡ (if str_eq k j then some t else lookup j d)
unfolding lookup insert_sorted
lookup-insert_sorted k j t [] h = refl
lookup-insert_sorted k j t ((i, u) ∷ d) h =
    ground (arith, lookup-insert_sorted k j t d, str_eq_iff i k, str_eq_iff i j, str_eq_iff k j)

length-insert_sorted : (e : String × ℕ) (d : Dict ℕ) → length (insert_sorted e d) ≡ suc (length d)
unfolding insert_sorted
length-insert_sorted e [] = refl
length-insert_sorted e (x ∷ d) = ground (arith, length-insert_sorted e d)

IsDistinct-insert_sorted :
    (k : String) (t : ℕ) (d : Dict ℕ)
    → lookup k d ≡ none
    → IsDistinct d
    → IsDistinct (insert_sorted (k, t) d)
unfolding lookup insert_sorted
IsDistinct-insert_sorted k t [] h r = (refl, tt)
IsDistinct-insert_sorted k t ((i, u) ∷ d) h r = ground (
  arith,
  IsDistinct-insert_sorted k t d,
  lookup-insert_sorted k i t d,
  str_eq_iff i k,
  str_eq_iff k i,
)

-- sorting keeps the entries
lookup-sort_by_time :
    (k : String) (d : Dict ℕ) → IsDistinct d → lookup k (sort_by_time d) ≡ lookup k d
unfolding lookup sort_by_time
lookup-sort_by_time k [] h = refl
lookup-sort_by_time k ((j, t) ∷ d) h =
    lookup-insert_sorted j k t (sort_by_time d) (lookup-sort_by_time j d h.1 ∙ h.0)
    ∙ ap (λ o. if str_eq j k then some t else o) (lookup-sort_by_time k d h.1)

length-sort_by_time : (d : Dict ℕ) → length (sort_by_time d) ≡ length d
unfolding sort_by_time
length-sort_by_time [] = refl
length-sort_by_time (e ∷ d) =
    length-insert_sorted e (sort_by_time d) ∙ ap suc (length-sort_by_time d)

IsDistinct-sort_by_time : (d : Dict ℕ) → IsDistinct d → IsDistinct (sort_by_time d)
unfolding sort_by_time
IsDistinct-sort_by_time [] h = tt
IsDistinct-sort_by_time ((j, t) ∷ d) h =
    IsDistinct-insert_sorted j t (sort_by_time d) (lookup-sort_by_time j d h.1 ∙ h.0)
      (IsDistinct-sort_by_time d h.1)

contains-take :
    (n : ℕ) (k : String) (d : Dict ℕ) → contains k (take n d) ≡ true → contains k d ≡ true
unfolding lookup
contains-take zero k d h = absurd (cc)
contains-take (suc n) k [] h = absurd (cc)
contains-take (suc n) k ((j, t) ∷ d) h = ground (arith, contains-take n k d)

lookup-take-none :
    (n : ℕ) (k : String) (d : Dict ℕ) → lookup k d ≡ none → lookup k (take n d) ≡ none
unfolding lookup
lookup-take-none zero k d h = refl
lookup-take-none (suc n) k [] h = refl
lookup-take-none (suc n) k ((j, t) ∷ d) h = ground (arith, lookup-take-none n k d)

IsDistinct-take : (n : ℕ) (d : Dict ℕ) → IsDistinct d → IsDistinct (take n d)
IsDistinct-take zero d h = tt
IsDistinct-take (suc n) [] h = tt
IsDistinct-take (suc n) ((j, t) ∷ d) h = (lookup-take-none n j d h.0, IsDistinct-take n d h.1)

length-erase_keys :
    (ks d : Dict ℕ)
    → IsDistinct ks
    → ((k : String) → contains k ks ≡ true → contains k d ≡ true)
    → length (erase_keys ks d) + length ks ≤ length d
unfolding erase_keys lookup
length-erase_keys [] d h all = omega arith
length-erase_keys ((k, t) ∷ ks) d h all =
    let there : contains k d ≡ true = all k (ground (arith, str_eq_iff k k)) in
    let rest : (j : String) → contains j ks ≡ true → contains j (erase k d) ≡ true =
      λ j m. ground (arith, lookup-erase k j d, all j, str_eq_iff k j, h.0) in
    omega (arith, length-erase_keys ks (erase k d) h.1 rest, length-erase_mem k d there)

AllValues-erase_keys :
    (P : ℕ → Type 0) (ks d : Dict ℕ) → AllValues P d → AllValues P (erase_keys ks d)
unfolding erase_keys
AllValues-erase_keys P [] d h = h
AllValues-erase_keys P ((k, t) ∷ ks) d h =
    AllValues-erase_keys P ks (erase k d) (AllValues-erase P k d h)

IsDistinct-erase_keys : (ks d : Dict ℕ) → IsDistinct d → IsDistinct (erase_keys ks d)
unfolding erase_keys
IsDistinct-erase_keys [] d h = h
IsDistinct-erase_keys ((k, t) ∷ ks) d h =
    IsDistinct-erase_keys ks (erase k d) (IsDistinct-erase k d h)

pub length-cap_entries :
    (bound : ℕ) (d : Dict ℕ) → IsDistinct d → length (cap_entries bound d) ≤ bound
unfolding cap_entries
length-cap_entries bound d h =
    let n : ℕ = length d - bound in
    omega (
      arith,
      length-erase_keys (take n (sort_by_time d)) d
          (IsDistinct-take n _ (IsDistinct-sort_by_time d h))
          (λ k m. rw (← lookup-sort_by_time k d h) (contains-take n k _ m)),
      length-take n (sort_by_time d),
      length-sort_by_time d,
    )

pub IsDistinct-cap_entries :
    (bound : ℕ) (d : Dict ℕ) → IsDistinct d → IsDistinct (cap_entries bound d)
unfolding cap_entries
IsDistinct-cap_entries bound d h = IsDistinct-erase_keys _ d h

pub AllValues-cap_entries :
    (P : ℕ → Type 0) (bound : ℕ) (d : Dict ℕ) → AllValues P d → AllValues P (cap_entries bound d)
unfolding cap_entries
AllValues-cap_entries P bound d h = AllValues-erase_keys P _ d h

pub cap_entries_idle : (bound : ℕ) (d : Dict ℕ) → length d ≤ bound → cap_entries bound d ≡ d
unfolding cap_entries erase_keys
cap_entries_idle bound d fits = let none_over : length d - bound ≡ 0 = omega arith in rw none_over
