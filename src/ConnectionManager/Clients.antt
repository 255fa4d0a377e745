-- ===== src/ConnectionManager/Clients.antt =====
-- src/utils/connection_manager.py: the phases of the threads, counted.
use meshforge_maps.Base.{
  ℕ, zero, suc, ◌+◌, ◌≤◌, ◌≡◌, ◌≢◌, refl, ap, Bool, true, false, some, List, [], ◌∷◌, arith,
  if◌then◌else◌, count, ◌==◌,
}
use meshforge_maps.ConnectionManager.{
  Phase, idle, expired, refused, cleared, taken, inside, phase_at, set_phase, idle_clients,
}

-- the thread has the lock
abbrev pub owns : Phase → Bool
owns (taken name) = true
owns (inside name) = true
owns cleared = true
owns _ = false

-- the thread is in the body of its `with`, with the lock
abbrev pub is_inside : Phase → Bool
is_inside (inside name) = true
is_inside _ = false

abbrev pub one_if : Bool → ℕ
one_if true = 1
one_if false = 0

pub count-set_phase :
    (f : Phase → Bool) (i : ℕ) (p q : Phase) (clients : List Phase)
    → phase_at i clients ≡ some p
    → count f (set_phase i q clients) + one_if (f p) ≡ count f clients + one_if (f q)
count-set_phase f i p q [] e = absurd (cc)
count-set_phase f zero p q (x ∷ clients) e = ground (arith, ap f)
count-set_phase f (suc i) p q (x ∷ clients) e = ground (arith, count-set_phase f i p q clients e)

pub phase_at-set_phase :
    (i j : ℕ) (p q : Phase) (clients : List Phase)
    → phase_at i clients ≡ some p
    → phase_at j (set_phase i q clients) ≡ (if i == j then some q else phase_at j clients)
phase_at-set_phase i j p q [] e = absurd (cc)
phase_at-set_phase zero zero p q (x ∷ clients) e = refl
phase_at-set_phase zero (suc j) p q (x ∷ clients) e = ground arith
phase_at-set_phase (suc i) zero p q (x ∷ clients) e = ground arith
phase_at-set_phase (suc i) (suc j) p q (x ∷ clients) e =
    ground (arith, phase_at-set_phase i j p q clients e)

pub one-le-count :
    (f : Phase → Bool) (i : ℕ) (p : Phase) (clients : List Phase)
    → phase_at i clients ≡ some p
    → f p ≡ true
    → 1 ≤ count f clients
one-le-count f i p [] e h = absurd (cc)
one-le-count f zero p (x ∷ clients) e h = ground (arith, ap f)
one-le-count f (suc i) p (x ∷ clients) e h = ground (arith, one-le-count f i p clients e h)

-- two threads are two
pub two-le-count :
    (f : Phase → Bool) (i j : ℕ) (p q : Phase) (clients : List Phase)
    → i ≢ j
    → phase_at i clients ≡ some p
    → phase_at j clients ≡ some q
    → f p ≡ true
    → f q ≡ true
    → 2 ≤ count f clients
two-le-count f i j p q [] other e e' h h' = absurd (cc)
two-le-count f zero zero p q (x ∷ clients) other e e' h h' = absurd (other refl)
two-le-count f zero (suc j) p q (x ∷ clients) other e e' h h' =
    ground (arith, one-le-count f j q clients e' h')
two-le-count f (suc i) zero p q (x ∷ clients) other e e' h h' =
    ground (arith, one-le-count f i p clients e h)
two-le-count f (suc i) (suc j) p q (x ∷ clients) other e e' h h' =
    ground (arith, two-le-count f i j p q clients (λ same. other (ap suc same)) e e' h h')

pub count-idle_clients : (f : Phase → Bool) (n : ℕ) → f idle ≡ false → count f (idle_clients n) ≡ 0
count-idle_clients f zero h = refl
count-idle_clients f (suc n) h = ground (arith, count-idle_clients f n h)

pub phase_at-idle_clients : (i n : ℕ) (p : Phase) → phase_at i (idle_clients n) ≡ some p → p ≡ idle
phase_at-idle_clients i zero p e = absurd (cc)
phase_at-idle_clients zero (suc n) p e = ground arith
phase_at-idle_clients (suc i) (suc n) p e = phase_at-idle_clients i n p e

pub inside-le-owns : (clients : List Phase) → count is_inside clients ≤ count owns clients
inside-le-owns [] = omega arith
inside-le-owns (idle ∷ clients) = omega (arith, inside-le-owns clients)
inside-le-owns (expired ∷ clients) = omega (arith, inside-le-owns clients)
inside-le-owns (refused ∷ clients) = omega (arith, inside-le-owns clients)
inside-le-owns (cleared ∷ clients) = omega (arith, inside-le-owns clients)
inside-le-owns (taken name ∷ clients) = omega (arith, inside-le-owns clients)
inside-le-owns (inside name ∷ clients) = omega (arith, inside-le-owns clients)

-- an owner that is not in the body comes on top of those that are
pub inside-lt-owns :
    (i : ℕ) (p : Phase) (clients : List Phase)
    → phase_at i clients ≡ some p
    → owns p ≡ true
    → is_inside p ≡ false
    → count is_inside clients + 1 ≤ count owns clients
inside-lt-owns i p [] e h out = absurd (cc)
inside-lt-owns zero p (x ∷ clients) e h out =
    ground (arith, inside-le-owns clients, ap owns, ap is_inside)
inside-lt-owns (suc i) p (x ∷ clients) e h out = ground (arith, inside-lt-owns i p clients e h out)
