-- ===== src/Tests/ConnectionManager.antt =====
-- Runs of src/utils/connection_manager.py, and its theorems at concrete inputs.
use meshforge_maps.Base.{ℕ, ◌≡◌, refl, false, some, if◌then◌else◌}
use meshforge_maps.ConnectionManager.{
  create, System, idle, expired, refused, cleared, taken, inside, note_acquired, clear_holder,
  release_lock, holder_name, take_lock, try_acquire, acquire, expire, write_holder, clear, unlock,
  Steps, here, later, start, go,
}
use meshforge_maps.ConnectionManager.Exclusion.{mutual_exclusion}
use meshforge_maps.ConnectionManager.Accounts.{release_never_fails, try_acquire-Steps}

-- the first thread is in its body, while the second waits in vain
abbrev first_inside : System
first_inside =
    go (go (start 2) (take_lock create) 0 (taken "maps"))
      (note_acquired "maps" 5 (take_lock create)) 0 (inside "maps")

first_inside-Steps : Steps (start 2) first_inside
first_inside-Steps = later (later here (acquire 0 "maps" refl refl)) (write_holder 0 "maps" 5 refl)

abbrev second_expired : System
second_expired = go first_inside first_inside.manager 1 expired

second_expired-Steps : Steps (start 2) second_expired
second_expired-Steps = later first_inside-Steps (expire 1 refl (unfold note_acquired in refl))

abbrev first_cleared : System
first_cleared = go second_expired (clear_holder second_expired.manager) 0 cleared

first_cleared-Steps : Steps (start 2) first_cleared
first_cleared-Steps = later second_expired-Steps (clear 0 "maps" refl)

abbrev all_left : System
all_left = go first_cleared (release_lock first_cleared.manager).0 0 idle

all_left-Steps : Steps (start 2) all_left
all_left-Steps = later first_cleared-Steps (unlock 0 refl)

mutual_exclusion_example :
    (◌≡◌ {A = ℕ} 0 0) × (second_expired.manager.holder ≡ some (holder_name "maps"))
mutual_exclusion_example =
    mutual_exclusion 2 second_expired 0 0 "maps" "maps" second_expired-Steps refl refl

release_never_fails_example : (release_lock first_cleared.manager).1 ≡ false
release_never_fails_example = release_never_fails 2 first_cleared 0 first_cleared-Steps refl

try_acquire-Steps_example :
    let (m, acquired) = try_acquire "core" 6 first_inside.manager in
    Steps first_inside (go first_inside m 1 (if acquired then inside "core" else refused))
try_acquire-Steps_example = try_acquire-Steps first_inside 1 "core" 6 refl
