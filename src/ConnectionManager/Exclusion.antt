-- ===== src/ConnectionManager/Exclusion.antt =====
-- src/utils/connection_manager.py: one holder at a time, in any interleaving.
use meshforge_maps.Base.{
  ℕ, ◌+◌, ◌≤◌, ◌≡◌, refl, ap, ◌∙◌, String, true, false, some, List, arith, count, is_some, ◌==◌,
  Bool-cases, inl, inr,
}
use meshforge_maps.ConnectionManager.{
  ConnectionManager, System, Phase, idle, expired, refused, cleared, taken, inside, phase_at,
  set_phase, take_lock, note_acquired, note_timeout, clear_holder, release_lock, holder_name, Step,
  acquire, expire, write_holder, count_timeout, leave_refused, clear, unlock, Steps, here, later,
  start, go,
}
use meshforge_maps.ConnectionManager.Clients.{
  owns, is_inside, one_if, inside-le-owns, inside-lt-owns, count-set_phase, phase_at-set_phase,
  one-le-count, two-le-count, count-idle_clients, phase_at-idle_clients,
}

-- The lock is taken exactly while one thread owns it, and no two do; the thread in the body is the
-- holder that the statistics name, and there is a holder only while a thread is in the body; the
-- acquisitions are the releases and the threads in the body.
pub record IsValid (s : System) : Type 0 where
  pub exclusive : count owns s.clients ≡ one_if s.manager.locked
  pub held : one_if (is_some s.manager.holder) ≡ count is_inside s.clients
  pub named :
      (i : ℕ) (name : String)
      → phase_at i s.clients ≡ some (inside name)
      → s.manager.holder ≡ some (holder_name name)
  pub balanced : s.manager.total_acquisitions ≡ s.manager.total_releases + count is_inside s.clients

abbrev Named : ConnectionManager → List Phase → Type 0
Named m clients =
    (i : ℕ) (name : String)
    → phase_at i clients ≡ some (inside name)
    → m.holder ≡ some (holder_name name)

-- a step of a thread that does not come into the body leaves the names
Named-set_phase :
    (m : ConnectionManager) (clients : List Phase) (i : ℕ) (p q : Phase)
    → phase_at i clients ≡ some p
    → is_inside q ≡ false
    → Named m clients
    → Named m (set_phase i q clients)
Named-set_phase m clients i p q e out named j name at_j =
    ground (arith, at_j, phase_at-set_phase i j p q clients e, named j name, ap is_inside)

pub start-IsValid : (n : ℕ) → IsValid (start n)
start-IsValid n = record {
  exclusive = omega (arith, count-idle_clients owns n refl);
  held = omega (arith, count-idle_clients is_inside n refl);
  named =
      λ i name e. absurd (ground (arith, ap is_inside (phase_at-idle_clients i n (inside name) e)));
  balanced = omega (arith, count-idle_clients is_inside n refl);
}

at_most_one : (s : System) → IsValid s → count owns s.clients ≤ 1
at_most_one s v = ground (arith, v.exclusive)

-- a step outside of the lock, which leaves all but `total_timeouts`
outside-IsValid :
    (s : System) (m : ConnectionManager) (i : ℕ) (p q : Phase)
    → phase_at i s.clients ≡ some p
    → (owns p ≡ false) × (is_inside p ≡ false)
    → (owns q ≡ false) × (is_inside q ≡ false)
    → (m.locked ≡ s.manager.locked) × (m.holder ≡ s.manager.holder)
    → (m.total_acquisitions ≡ s.manager.total_acquisitions)
      × (m.total_releases ≡ s.manager.total_releases)
    → IsValid s
    → IsValid (go s m i q)
outside-IsValid s m i p q e out out' same same' v = record {
  exclusive = ground (arith, count-set_phase owns i p q s.clients e, v.exclusive, out, out', same);
  held = ground (arith, count-set_phase is_inside i p q s.clients e, v.held, out, out', same);
  named = Named-set_phase m s.clients i p q e out'.1 (λ j name at_j. same.1 ∙ v.named j name at_j);
  balanced =
      ground (arith, count-set_phase is_inside i p q s.clients e, v.balanced, out, out', same');
}

acquire-IsValid :
    (s : System) (i : ℕ) (name : String)
    → phase_at i s.clients ≡ some idle
    → s.manager.locked ≡ false
    → IsValid s
    → IsValid (go s (take_lock s.manager) i (taken name))
acquire-IsValid s i name e free v = record {
  exclusive = ground (arith, count-set_phase owns i idle (taken name) s.clients e, v.exclusive);
  held = omega (arith, count-set_phase is_inside i idle (taken name) s.clients e, v.held);
  named = Named-set_phase (take_lock s.manager) s.clients i idle (taken name) e refl v.named;
  balanced = omega (arith, count-set_phase is_inside i idle (taken name) s.clients e, v.balanced);
}

write_holder-IsValid :
    (s : System) (i : ℕ) (name : String) (now : ℕ)
    → phase_at i s.clients ≡ some (taken name)
    → IsValid s
    → IsValid (go s (note_acquired name now s.manager) i (inside name))
unfolding note_acquired
write_holder-IsValid s i name now e v = record {
  exclusive =
      omega (arith, count-set_phase owns i (taken name) (inside name) s.clients e, v.exclusive);
  held = omega (
    arith,
    count-set_phase is_inside i (taken name) (inside name) s.clients e,
    inside-lt-owns i (taken name) s.clients e refl refl,
    at_most_one s v,
  );
  named = λ j other at_j. ground (
    arith,
    at_j,
    phase_at-set_phase i j (taken name) (inside name) s.clients e,
    two-le-count owns i j (taken name) (inside other) s.clients,
    at_most_one s v,
  );
  balanced =
      omega (arith, count-set_phase is_inside i (taken name) (inside name) s.clients e, v.balanced);
}

clear-IsValid :
    (s : System) (i : ℕ) (name : String)
    → phase_at i s.clients ≡ some (inside name)
    → IsValid s
    → IsValid (go s (clear_holder s.manager) i cleared)
unfolding clear_holder
clear-IsValid s i name e v = record {
  exclusive = omega (arith, count-set_phase owns i (inside name) cleared s.clients e, v.exclusive);
  held = omega (
    arith,
    count-set_phase is_inside i (inside name) cleared s.clients e,
    inside-le-owns s.clients,
    at_most_one s v,
  );
  named = λ j other at_j. ground (
    arith,
    at_j,
    phase_at-set_phase i j (inside name) cleared s.clients e,
    two-le-count owns i j (inside name) (inside other) s.clients,
    at_most_one s v,
  );
  balanced =
      omega (arith, count-set_phase is_inside i (inside name) cleared s.clients e, v.balanced);
}

-- the lock that a thread releases is taken: there is no `RuntimeError`
pub locked-cleared :
    (s : System) (i : ℕ) → phase_at i s.clients ≡ some cleared → IsValid s → s.manager.locked ≡ true
locked-cleared s i e v = ground (arith, v.exclusive, one-le-count owns i cleared s.clients e refl)

release_lock_locked :
    (m : ConnectionManager)
    → m.locked ≡ true
    → release_lock m ≡ (record m { locked = false }, false)
unfolding release_lock
release_lock_locked m h = rw (release_lock, h) refl

unlock-IsValid :
    (s : System) (i : ℕ)
    → phase_at i s.clients ≡ some cleared
    → IsValid s
    → IsValid (go s (release_lock s.manager).0 i idle)
unlock-IsValid s i e v = rw (release_lock_locked s.manager (locked-cleared s i e v)) (record {
  exclusive = omega (arith, count-set_phase owns i cleared idle s.clients e, at_most_one s v);
  held = omega (arith, count-set_phase is_inside i cleared idle s.clients e, v.held);
  named =
      Named-set_phase (record s.manager { locked = false }) s.clients i cleared idle e refl v.named;
  balanced = omega (arith, count-set_phase is_inside i cleared idle s.clients e, v.balanced);
})

Step-IsValid : (s t : System) → Step s t → IsValid s → IsValid t
unfolding note_timeout
Step-IsValid s _ (acquire i name e free) v = acquire-IsValid s i name e free v
Step-IsValid s _ (expire i e busy) v =
    outside-IsValid s s.manager i idle expired e (refl, refl) (refl, refl) (refl, refl) (refl, refl)
      v
Step-IsValid s _ (write_holder i name now e) v = write_holder-IsValid s i name now e v
Step-IsValid s _ (count_timeout i e) v =
    outside-IsValid s (note_timeout s.manager) i expired refused e (refl, refl) (refl, refl)
      (refl, refl) (refl, refl) v
Step-IsValid s _ (leave_refused i e) v =
    outside-IsValid s s.manager i refused idle e (refl, refl) (refl, refl) (refl, refl) (refl, refl)
      v
Step-IsValid s _ (clear i name e) v = clear-IsValid s i name e v
Step-IsValid s _ (unlock i e) v = unlock-IsValid s i e v

pub Steps-IsValid : (s t : System) → Steps s t → IsValid s → IsValid t
Steps-IsValid s _ here v = v
Steps-IsValid s _ (later {t} {u} before step) v = Step-IsValid t u step (Steps-IsValid s t before v)

-- In any interleaving of any number of threads, two threads in the body of their `with` with the lock
-- are the same thread, and the manager names it as the holder.
pub mutual_exclusion :
    (n : ℕ) (s : System) (i j : ℕ) (a b : String)
    → Steps (start n) s
    → phase_at i s.clients ≡ some (inside a)
    → phase_at j s.clients ≡ some (inside b)
    → (i ≡ j) × (s.manager.holder ≡ some (holder_name a))
mutual_exclusion n s i j a b steps at_i at_j =
    let v = Steps-IsValid (start n) s steps (start-IsValid n) in
    (
      elim (Bool-cases (i == j)) [
        | inl same ↦ ground arith
        | inr other ↦ omega (
          arith,
          two-le-count owns i j (inside a) (inside b) s.clients (λ e. ground arith) at_i at_j refl
              refl,
          at_most_one s v,
        )
      ],
      v.named i a at_i,
    )
