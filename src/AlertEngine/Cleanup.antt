-- ===== src/AlertEngine/Cleanup.antt =====
-- src/utils/alert_engine.py, `_cleanup_stale_cooldowns`: what it forgets and what it keeps.
use meshforge_maps.Base.{
  ℕ, ◌+◌, ◌≤◌, ◌<◌, ◌≡◌, String, true, false, none, some, arith, if◌then◌else◌, length,
}
use meshforge_maps.Dict.{lookup, AllValues, IsDistinct}
use meshforge_maps.AlertEngine.{
  AlertEngine, max_cooldown_entries, cooldown_max_age, cooldown_cleanup_interval, in_cooldown,
}
use meshforge_maps.AlertEngine.Methods.{is_stale, drop_stale, cleanup, cleanup_if_due}
use meshforge_maps.AlertEngine.Capping.{
  lookup-drop_stale, IsDistinct-drop_stale, length-drop_stale, fresh-drop_stale, length-cap_entries,
  IsDistinct-cap_entries, AllValues-cap_entries, cap_entries_idle,
}

-- After a cleanup of distinct keys there are at most 10000 cooldowns, with distinct keys, and none
-- is older than 24 hours.
pub cleanup_bounds :
    (now : ℕ) (g : AlertEngine)
    → IsDistinct g.cooldowns
    → (length (cleanup now g).cooldowns ≤ max_cooldown_entries)
      × IsDistinct (cleanup now g).cooldowns
      × AllValues (λ t. now ≤ t + cooldown_max_age) (cleanup now g).cooldowns
unfolding cleanup
cleanup_bounds now g h =
    let d = drop_stale now g.cooldowns in
    (
      length-cap_entries max_cooldown_entries d (IsDistinct-drop_stale now _ h),
      IsDistinct-cap_entries _ d (IsDistinct-drop_stale now _ h),
      AllValues-cap_entries _ _ d (fresh-drop_stale now g.cooldowns),
    )

-- With at most 10000 cooldowns, a cleanup forgets exactly those that are older than 24 hours.
pub lookup-cleanup :
    (now : ℕ) (k : String) (g : AlertEngine)
    → IsDistinct g.cooldowns
    → length g.cooldowns ≤ max_cooldown_entries
    → lookup k (cleanup now g).cooldowns ≡ elim (lookup k g.cooldowns) [
      | none ↦ none
      | some t ↦ if is_stale now t then none else some t
    ]
unfolding cleanup
lookup-cleanup now k g h fits =
    rw
      (cap_entries_idle max_cooldown_entries (drop_stale now g.cooldowns)
        (omega (arith, length-drop_stale now g.cooldowns)))
      (lookup-drop_stale now k g.cooldowns h)

pub cleanup_due :
    (now : ℕ) (g : AlertEngine)
    → g.last_cooldown_cleanup + cooldown_cleanup_interval < now
    → cleanup_if_due now g ≡ cleanup now g
unfolding cleanup_if_due
cleanup_due now g due = ground arith

-- With at most 10000 cooldowns under distinct keys, and a clock value that is not below the length of
-- the cooldown: where a cooldown is longer than 24 hours, a cleanup that is due forgets it before it
-- has ended, once the firing is more than 24 hours old: the rule is free to fire again.
pub cleanup_forgets :
    (now : ℕ) (k : String) (g : AlertEngine) (t cooldown : ℕ)
    → IsDistinct g.cooldowns
    → length g.cooldowns ≤ max_cooldown_entries
    → lookup k g.cooldowns ≡ some t
    → g.last_cooldown_cleanup + cooldown_cleanup_interval < now
    → t + cooldown_max_age < now
    → now < t + cooldown
    → cooldown ≤ now
    → (in_cooldown g k cooldown now ≡ true)
      × (in_cooldown (cleanup_if_due now g) k cooldown now ≡ false)
unfolding in_cooldown
cleanup_forgets now k g t cooldown h fits known due old running long = (
  rw known (ground arith),
  rw (cleanup_due now g due, lookup-cleanup now k g h fits, known) (ground arith),
)
