-- ===== src/Tests/PluginLifecycle.antt =====
-- Runs of src/utils/plugin_lifecycle.py, and its theorems at concrete inputs.
use meshforge_maps.Base.{ℕ, ◌-◌, ◌≡◌, ◌≢◌, ◌⊎◌, refl, none, some, List, [], ◌∷◌}
use meshforge_maps.PluginLifecycle.{
  active, deactivating, error, create, transition_to, record_error, uptime_seconds, returns, raises,
  quits, phase, activate, deactivate,
}
use meshforge_maps.PluginLifecycle.Phases.{
  fail, change, Call, activation, deactivation, run, changes_of, last_active, lifecycle_uptime,
}

-- a failed activation, one that works, and an end by the keyboard
abbrev failing : List Call
failing = activation 1 2 [] (raises "no broker") ∷ []

abbrev calls : List Call
calls = activation 1 2 [] (raises "no broker") ∷ activation 10 15 (fail "late" ∷ []) returns ∷ []

abbrev interrupted : List Call
interrupted = deactivation 20 21 [] (quits "") ∷ []

failing_runs : (run create failing).last_error ≡ some "no broker"
unfolding run change activate phase record_error transition_to
failing_runs = refl

calls_run : uptime_seconds 40 (run create calls) ≡ some 25
unfolding run change activate phase record_error transition_to uptime_seconds
calls_run = refl

-- the plugin stays in the state in which the body left it
interrupted_runs : (run create interrupted).state ≡ deactivating
unfolding run change deactivate phase transition_to
interrupted_runs = refl

lifecycle_uptime_example :
    ((run create calls).last_error ≡ none ⊎ (run create calls).state ≡ error)
    × ((((run create calls).state ≢ active) × (uptime_seconds 40 (run create calls) ≡ none))
        ⊎ (((run create calls).state ≡ active)
            × ((t : ℕ) × (last_active none (changes_of calls) ≡ some t)
                × (uptime_seconds 40 (run create calls) ≡ some (40 - t)))))
lifecycle_uptime_example = lifecycle_uptime calls 40
