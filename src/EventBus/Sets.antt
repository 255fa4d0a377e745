-- ===== src/EventBus/Sets.antt =====
-- src/utils/event_bus.py: what a subscription and its removal do to the sets of callbacks.
use meshforge_maps.Base.{
  ℕ, ◌<◌, Option-cases, inl, inr, ◌≡◌, refl, ap, String, Bool, true, false, Option, List, [], ◌∷◌,
  ◌++◌, ◌==◌, arith, str_eq, str_eq_iff, if◌then◌else◌, if_both, if_split, length, get_or, not,
  ◌||◌, ◌&&◌,
}
use meshforge_maps.Dict.{
  Dict, lookup, insert, erase, lookup-insert, lookup-erase, AllValues, AllValues-insert,
  AllValues-erase, AllValues-lookup, IsDistinct, IsDistinct-insert, IsDistinct-erase,
}
use meshforge_maps.EventBus.{
  EventType, EventBus, key_of, member, add, discard, set_at, subscribe, unsubscribe,
}

-- The callback is subscribed to the key.
abbrev pub subscribed : ℕ → Option EventType → EventBus → Bool
subscribed c event_type bus = member c (set_at (key_of event_type) bus)

member-append : (c : ℕ) (a b : List ℕ) → member c (a ++ b) ≡ (member c a || member c b)
member-append c [] b = refl
member-append c (x ∷ a) b = ground (arith, member-append c a b)

member-add : (c d : ℕ) (set : List ℕ) → member d (add c set) ≡ (d == c || member d set)
unfolding add
member-add c d set = ground (arith, member-append d set (c ∷ []))

member-discard :
    (c d : ℕ) (set : List ℕ) → member d (discard c set) ≡ (not (d == c) && member d set)
unfolding discard
member-discard c d [] = ground arith
member-discard c d (x ∷ set) = ground (arith, member-discard c d set)

-- no callback stands twice
abbrev pub IsUnique : List ℕ → Type 0
IsUnique [] = Unit
IsUnique (x ∷ set) = (member x set ≡ false) × IsUnique set

IsUnique-append :
    (c : ℕ) (set : List ℕ) → member c set ≡ false → IsUnique set → IsUnique (set ++ c ∷ [])
IsUnique-append c [] new h = (refl, tt)
IsUnique-append c (x ∷ set) new h =
    (ground (arith, member-append x set (c ∷ []), h.0), IsUnique-append c set (ground arith) h.1)

IsUnique-add : (c : ℕ) (set : List ℕ) → IsUnique set → IsUnique (add c set)
unfolding add
IsUnique-add c set h =
    if_split IsUnique (member c set) set (set ++ c ∷ []) (λ there. h)
      (λ new. IsUnique-append c set new h)

IsUnique-discard : (c : ℕ) (set : List ℕ) → IsUnique set → IsUnique (discard c set)
unfolding discard
IsUnique-discard c [] h = tt
IsUnique-discard c (x ∷ set) h =
    if_both IsUnique (c == x) (discard c set) (x ∷ discard c set) (IsUnique-discard c set h.1)
      (ground (arith, member-discard c x set, h.0), IsUnique-discard c set h.1)

set_at-insert :
    (k j : String) (set : List ℕ) (bus : EventBus)
    → get_or (lookup j (insert k set bus.subscribers)) []
      ≡ (if str_eq k j then set else set_at j bus)
set_at-insert k j set bus = ground (arith, lookup-insert k j set bus.subscribers)

set_at-erase :
    (k j : String) (bus : EventBus)
    → get_or (lookup j (erase k bus.subscribers)) [] ≡ (if str_eq k j then [] else set_at j bus)
set_at-erase k j bus = ground (arith, lookup-erase k j bus.subscribers)

-- A subscription adds the callback to the event type, and changes no other subscription.
pub subscribed-subscribe :
    (c d : ℕ) (t u : Option EventType) (bus : EventBus)
    → subscribed d u (subscribe t c bus)
      ≡ ((str_eq (key_of t) (key_of u) && d == c) || subscribed d u bus)
unfolding subscribe
subscribed-subscribe c d t u bus = ground (
  arith,
  set_at-insert (key_of t) (key_of u) (add c (set_at (key_of t) bus)) bus,
  member-add c d (set_at (key_of t) bus),
  str_eq_iff (key_of t) (key_of u),
)

empty_set : (c : ℕ) (set : List ℕ) → (length set == 0) ≡ true → member c set ≡ false
empty_set c [] h = refl
empty_set c (x ∷ set) h = absurd (ground arith)

-- A removal takes the callback from the event type, and changes no other subscription.
pub subscribed-unsubscribe :
    (c d : ℕ) (t u : Option EventType) (bus : EventBus)
    → subscribed d u (unsubscribe t c bus)
      ≡ (not (str_eq (key_of t) (key_of u) && d == c) && subscribed d u bus)
unfolding unsubscribe
subscribed-unsubscribe c d t u bus =
    let set = set_at (key_of t) bus in
    if_split
      (λ (b : EventBus).
        subscribed d u b ≡ (not (str_eq (key_of t) (key_of u) && d == c) && subscribed d u bus))
      (length set == 0) bus
      (record bus {
        subscribers =
            if length (discard c set) == 0
            then erase (key_of t) bus.subscribers
            else insert (key_of t) (discard c set) bus.subscribers;
      })
      (λ empty. ground (
        arith,
        empty_set d set empty,
        str_eq_iff (key_of t) (key_of u),
        ap (λ k. member d (set_at k bus)),
      ))
      (λ some_callbacks.
        if_split
          (λ (s : Dict (List ℕ)).
            subscribed d u (record bus { subscribers = s })
            ≡ (not (str_eq (key_of t) (key_of u) && d == c) && subscribed d u bus))
          (length (discard c set) == 0) (erase (key_of t) bus.subscribers)
          (insert (key_of t) (discard c set) bus.subscribers)
          (λ gone. ground (
            arith,
            set_at-erase (key_of t) (key_of u) bus,
            empty_set d (discard c set) gone,
            member-discard c d set,
            str_eq_iff (key_of t) (key_of u),
            ap (λ k. member d (set_at k bus)),
          ))
          (λ left. ground (
            arith,
            set_at-insert (key_of t) (key_of u) (discard c set) bus,
            member-discard c d set,
            str_eq_iff (key_of t) (key_of u),
            ap (λ k. member d (set_at k bus)),
          )))

-- Distinct keys, and under each a set that is not empty.
pub record IsValid (bus : EventBus) : Type 0 where
  pub distinct : IsDistinct bus.subscribers
  pub sets : AllValues (λ (s : List ℕ). IsUnique s × (0 < length s)) bus.subscribers

pub set_at-IsUnique : (k : String) (bus : EventBus) → IsValid bus → IsUnique (set_at k bus)
set_at-IsUnique k bus v = elim (Option-cases (lookup k bus.subscribers)) [
  | inl none_there ↦ rw (none_there, get_or) tt
  | inr (s, e) ↦ rw (e, get_or) (AllValues-lookup _ k bus.subscribers s v.sets e).0
]

length-add_pos : (c : ℕ) (set : List ℕ) → 0 < length (add c set)
unfolding add
length-add_pos c [] = ground arith
length-add_pos c (x ∷ set) = ground arith

subscribe-IsValid :
    (t : Option EventType) (c : ℕ) (bus : EventBus) → IsValid bus → IsValid (subscribe t c bus)
unfolding subscribe
subscribe-IsValid t c bus v =
    let set = set_at (key_of t) bus in
    record {
      distinct = IsDistinct-insert (key_of t) (add c set) bus.subscribers v.distinct;
      sets =
          AllValues-insert _ (key_of t) (add c set) bus.subscribers
            (IsUnique-add c set (set_at-IsUnique (key_of t) bus v), length-add_pos c set) v.sets;
    }

unsubscribe-IsValid :
    (t : Option EventType) (c : ℕ) (bus : EventBus) → IsValid bus → IsValid (unsubscribe t c bus)
unfolding unsubscribe
unsubscribe-IsValid t c bus v =
    let set = set_at (key_of t) bus in
    let left = discard c set in
    if_both IsValid (length set == 0) bus
      (record bus {
        subscribers =
            if length left == 0
            then erase (key_of t) bus.subscribers
            else insert (key_of t) left bus.subscribers;
      })
      v
      (if_split (λ (s : Dict (List ℕ)). IsValid (record bus { subscribers = s })) (length left == 0)
        (erase (key_of t) bus.subscribers) (insert (key_of t) left bus.subscribers)
        (λ gone. record {
          distinct = IsDistinct-erase (key_of t) bus.subscribers v.distinct;
          sets = AllValues-erase _ (key_of t) bus.subscribers v.sets;
        })
        (λ more. record {
          distinct = IsDistinct-insert (key_of t) left bus.subscribers v.distinct;
          sets =
              AllValues-insert _ (key_of t) left bus.subscribers
                (IsUnique-discard c set (set_at-IsUnique (key_of t) bus v), ground arith) v.sets;
        }))

pub data Subscription : Type 0 where
  on off : Option EventType → ℕ → Subscription

unfoldable pub follow : EventBus → List Subscription → EventBus
follow bus [] = bus
follow bus (on t c ∷ rest) = follow (subscribe t c bus) rest
follow bus (off t c ∷ rest) = follow (unsubscribe t c bus) rest

-- After any subscriptions and removals on a valid bus no callback is registered twice under a key,
-- and no key is left with an empty set.
pub follow-IsValid :
    (bus : EventBus) (subscriptions : List Subscription)
    → IsValid bus
    → IsValid (follow bus subscriptions)
unfolding follow
follow-IsValid bus [] v = v
follow-IsValid bus (on t c ∷ rest) v =
    follow-IsValid (subscribe t c bus) rest (subscribe-IsValid t c bus v)
follow-IsValid bus (off t c ∷ rest) v =
    follow-IsValid (unsubscribe t c bus) rest (unsubscribe-IsValid t c bus v)
