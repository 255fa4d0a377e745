-- ===== src/ConnectionManager.antt =====
-- src/utils/connection_manager.py: the cooperative lock on the connection to meshtasticd, and the
-- threads that contend for it. A step is what a thread does atomically: a `threading.Lock` is taken
-- or released, or the statistics are written under their own lock. `locked` is the state of `_lock`.
-- A wait that ends without the lock ends while another thread has it. Clock values are natural
-- numbers. The messages of the logger are not modelled, nor is the table of instances.
pub mod Clients
pub mod Exclusion
pub mod Accounts
use meshforge_maps.Base.{
  ℕ, zero, suc, ◌+◌, ◌≡◌, String, Bool, true, false, Option, none, some, List, [], ◌∷◌,
  if◌then◌else◌, str_eq, is_some,
}

pub record ConnectionManager : Type 0 where
  pub locked : Bool
  pub holder : Option String
  pub acquire_time : ℕ
  pub total_acquisitions : ℕ
  pub total_timeouts : ℕ
  pub total_releases : ℕ

abbrev pub create : ConnectionManager
create = record {
  locked = false;
  holder = none;
  acquire_time = 0;
  total_acquisitions = 0;
  total_timeouts = 0;
  total_releases = 0;
}

-- holder or "unknown"
abbrev pub holder_name : String → String
holder_name name = if str_eq name "" then "unknown" else name

-- `self._lock.acquire` on a free lock
abbrev pub take_lock : ConnectionManager → ConnectionManager
take_lock m = record m { locked = true }

-- the statistics of an acquisition
unfoldable pub note_acquired : String → ℕ → ConnectionManager → ConnectionManager
note_acquired name now m = record m {
  holder = some (holder_name name);
  acquire_time = now;
  total_acquisitions = m.total_acquisitions + 1;
}

unfoldable pub note_timeout : ConnectionManager → ConnectionManager
note_timeout m = record m { total_timeouts = m.total_timeouts + 1 }

-- the first half of `_release`
unfoldable pub clear_holder : ConnectionManager → ConnectionManager
clear_holder m = record m { holder = none; acquire_time = 0; total_releases = m.total_releases + 1 }

-- the second half of `_release`; the flag is the `RuntimeError` of a lock that was free, which is caught
unfoldable pub release_lock : ConnectionManager → ConnectionManager × Bool
release_lock m = if m.locked then (record m { locked = false }, false) else (m, true)

-- `_try_acquire` and `_release` by a thread that nothing comes between
unfoldable pub try_acquire : String → ℕ → ConnectionManager → ConnectionManager × Bool
try_acquire name now m =
    if m.locked then (note_timeout m, false) else (note_acquired name now (take_lock m), true)

unfoldable pub release : ConnectionManager → ConnectionManager
release m = (release_lock (clear_holder m)).0

-- `_ConnectionContext`: what `__exit__` does depends on what `__enter__` got
unfoldable pub exit : Bool → ConnectionManager → ConnectionManager
exit acquired m = if acquired then release m else m

abbrev pub is_locked : ConnectionManager → Bool
is_locked m = is_some m.holder

-- Where a thread stands in its `with mgr.acquire(...)`: before it; after its `_lock.acquire`, which
-- gave it the lock or did not; in the body, with the lock or without; in `_release`, before the lock
-- goes.
pub data Phase : Type 0 where
  idle expired refused cleared : Phase
  taken inside : String → Phase

pub record System : Type 0 where
  pub manager : ConnectionManager
  pub clients : List Phase

abbrev pub phase_at : ℕ → List Phase → Option Phase
phase_at i [] = none
phase_at zero (p ∷ clients) = some p
phase_at (suc i) (p ∷ clients) = phase_at i clients

abbrev pub set_phase : ℕ → Phase → List Phase → List Phase
set_phase i q [] = []
set_phase zero q (p ∷ clients) = q ∷ clients
set_phase (suc i) q (p ∷ clients) = p ∷ set_phase i q clients

abbrev pub go : System → ConnectionManager → ℕ → Phase → System
go s m i p = record { manager = m; clients = set_phase i p s.clients }

-- one step of the thread `i`
pub data Step (s : System) : System → Type 0 where
  acquire :
      (i : ℕ) (name : String)
      → phase_at i s.clients ≡ some idle
      → s.manager.locked ≡ false
      → Step s (go s (take_lock s.manager) i (taken name))
  expire :
      (i : ℕ)
      → phase_at i s.clients ≡ some idle
      → s.manager.locked ≡ true
      → Step s (go s s.manager i expired)
  write_holder :
      (i : ℕ) (name : String) (now : ℕ)
      → phase_at i s.clients ≡ some (taken name)
      → Step s (go s (note_acquired name now s.manager) i (inside name))
  count_timeout :
      (i : ℕ)
      → phase_at i s.clients ≡ some expired
      → Step s (go s (note_timeout s.manager) i refused)
  leave_refused : (i : ℕ) → phase_at i s.clients ≡ some refused → Step s (go s s.manager i idle)
  clear :
      (i : ℕ) (name : String)
      → phase_at i s.clients ≡ some (inside name)
      → Step s (go s (clear_holder s.manager) i cleared)
  unlock :
      (i : ℕ)
      → phase_at i s.clients ≡ some cleared
      → Step s (go s (release_lock s.manager).0 i idle)

-- any interleaving of the threads' steps
pub data Steps (s : System) : System → Type 0 where
  here : Steps s s
  later : {t u : System} → Steps s t → Step t u → Steps s u

abbrev pub idle_clients : ℕ → List Phase
idle_clients zero = []
idle_clients (suc n) = idle ∷ idle_clients n

-- `n` threads before their first `with`
abbrev pub start : ℕ → System
start n = record { manager = create; clients = idle_clients n }
