-- ===== src/ConnectionManager/Accounts.antt =====
-- src/utils/connection_manager.py: what the lock and the statistics are at rest, and one thread alone.
use mathlib.Core.Path.{subst}
use meshforge_maps.Base.{
  ℕ, zero, suc, ◌+◌, ◌≡◌, refl, ap, String, Bool, true, false, none, some, List, [], ◌∷◌, arith,
  if◌then◌else◌, count, not, if_split,
}
use meshforge_maps.ConnectionManager.{
  ConnectionManager, System, Phase, idle, expired, refused, cleared, taken, inside, phase_at,
  set_phase, take_lock, note_acquired, note_timeout, clear_holder, release_lock, try_acquire,
  release, exit, acquire, expire, write_holder, count_timeout, Steps, here, later, start, go,
}
use meshforge_maps.ConnectionManager.Clients.{owns, inside-le-owns, phase_at-set_phase}
use meshforge_maps.ConnectionManager.Exclusion.{start-IsValid, Steps-IsValid, locked-cleared}

-- In any interleaving, once no thread owns the lock it is free, no holder is named, and as many
-- releases as acquisitions have been counted: no lock is lost.
pub at_rest :
    (n : ℕ) (s : System)
    → Steps (start n) s
    → count owns s.clients ≡ 0
    → (s.manager.locked ≡ false)
      × (s.manager.holder ≡ none)
      × (s.manager.total_acquisitions ≡ s.manager.total_releases)
at_rest n s steps none_owns =
    let v = Steps-IsValid (start n) s steps (start-IsValid n) in
    (
      ground (arith, v.exclusive, none_owns),
      ground (arith, v.held, none_owns, inside-le-owns s.clients),
      omega (arith, v.balanced, none_owns, inside-le-owns s.clients),
    )

-- In any interleaving the lock that a thread releases is taken, so that `_release` never meets the
-- `RuntimeError` that it catches.
pub release_never_fails :
    (n : ℕ) (s : System) (i : ℕ)
    → Steps (start n) s
    → phase_at i s.clients ≡ some cleared
    → (release_lock s.manager).1 ≡ false
unfolding release_lock
release_never_fails n s i steps e =
    rw (locked-cleared s i e (Steps-IsValid (start n) s steps (start-IsValid n))) refl

-- What holds of a `with` block that entered with this outcome, once it is left.
abbrev pub WithBlock : ConnectionManager → ConnectionManager × Bool → Type 0
WithBlock m (m', acquired) =
    let left = exit acquired m' in
    (acquired ≡ not m.locked)
    × (left.locked ≡ m.locked)
    × (left.holder ≡ (if m.locked then m.holder else none))
    × (left.total_acquisitions + m.total_releases ≡ left.total_releases + m.total_acquisitions)
    × (left.total_timeouts ≡ (if m.locked then m.total_timeouts + 1 else m.total_timeouts))

-- A `with` block that nothing comes between: on a free lock it gets the lock and leaves it free
-- again, with as many acquisitions as releases counted; on a taken lock it leaves the lock and its
-- holder alone, and counts a timeout.
pub with_block :
    (name : String) (now : ℕ) (m : ConnectionManager) → WithBlock m (try_acquire name now m)
unfolding try_acquire exit release release_lock note_acquired note_timeout clear_holder
with_block name now m =
    if_split (WithBlock m) m.locked (note_timeout m, false)
      (note_acquired name now (take_lock m), true)
      (λ busy. rw busy (refl, refl, refl, omega arith, refl))
      (λ free. rw free (refl, refl, refl, omega arith, refl))

set_phase-set_phase :
    (i : ℕ) (p q : Phase) (clients : List Phase)
    → set_phase i q (set_phase i p clients) ≡ set_phase i q clients
set_phase-set_phase i p q [] = refl
set_phase-set_phase zero p q (x ∷ clients) = refl
set_phase-set_phase (suc i) p q (x ∷ clients) = ap (λ c. x ∷ c) (set_phase-set_phase i p q clients)

-- `_try_acquire` by an idle thread that nothing comes between is a run of its steps.
pub try_acquire-Steps :
    (s : System) (i : ℕ) (name : String) (now : ℕ)
    → phase_at i s.clients ≡ some idle
    → let (m, acquired) = try_acquire name now s.manager in
      Steps s (go s m i (if acquired then inside name else refused))
unfolding try_acquire
try_acquire-Steps s i name now e =
    if_split
      (λ (r : ConnectionManager × Bool).
        Steps s (go s r.0 i (if r.1 then inside name else refused)))
      s.manager.locked (note_timeout s.manager, false)
      (note_acquired name now (take_lock s.manager), true)
      (λ busy.
        let waited : Steps s (go s s.manager i expired) = later here (expire i e busy) in
        let here_now : phase_at i (set_phase i expired s.clients) ≡ some expired =
          ground (arith, phase_at-set_phase i i idle expired s.clients e) in
        subst (λ c. Steps s (record { manager = note_timeout s.manager; clients = c }))
          (set_phase-set_phase i expired refused s.clients)
          (later waited (count_timeout i here_now)))
      (λ free.
        let took : Steps s (go s (take_lock s.manager) i (taken name)) =
          later here (acquire i name e free) in
        let here_now : phase_at i (set_phase i (taken name) s.clients) ≡ some (taken name) =
          ground (arith, phase_at-set_phase i i idle (taken name) s.clients e) in
        subst
          (λ c.
            Steps s
              (record { manager = note_acquired name now (take_lock s.manager); clients = c }))
          (set_phase-set_phase i (taken name) (inside name) s.clients)
          (later took (write_holder i name now here_now)))
