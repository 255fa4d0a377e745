-- ===== src/PluginLifecycle.antt =====
-- src/utils/plugin_lifecycle.py: the state of the plugin, and the two context managers that move it.
-- The body of a `with` is a function on the lifecycle that may raise: it hands back the lifecycle and
-- how it ended. What `except Exception` does not catch (KeyboardInterrupt, SystemExit) is `quits`.
-- `now` is the clock value of the call that reads it.
pub mod Phases
use meshforge_maps.Base.{ℕ, ◌-◌, String, Bool, true, false, Option, none, some, if◌then◌else◌}

pub data PluginState : Type 0 where
  loaded activating active deactivating stopped error : PluginState

pub record PluginLifecycle : Type 0 where
  pub state : PluginState
  pub last_error : Option String
  pub activated_at : Option ℕ

abbrev pub create : PluginLifecycle
create = record { state = loaded; last_error = none; activated_at = none }

abbrev pub started_at : PluginState → ℕ → Option ℕ → Option ℕ
started_at active now before = some now
started_at _ now before = before

abbrev pub error_after : PluginState → Option String → Option String
error_after error before = before
error_after _ before = none

unfoldable pub transition_to : PluginState → ℕ → PluginLifecycle → PluginLifecycle
transition_to new_state now p = record {
  state = new_state;
  last_error = error_after new_state p.last_error;
  activated_at = started_at new_state now p.activated_at;
}

unfoldable pub record_error : String → PluginLifecycle → PluginLifecycle
record_error text p = record p { last_error = some text; state = error }

unfoldable pub uptime_seconds : ℕ → PluginLifecycle → Option ℕ
uptime_seconds now p = elim p.state [
  | active ↦ elim p.activated_at [ none ↦ none | some t ↦ some (now - t) ]
  | _ ↦ none
]

-- how the body of a `with` ends: by itself, with an `Exception`, or with another exception
pub data Outcome : Type 0 where
  returns : Outcome
  raises quits : String → Outcome

abbrev pub Body : Type 0
Body = PluginLifecycle → PluginLifecycle × Outcome

-- a `with` that goes from `before` to `after`, with the exception that it lets out
unfoldable pub phase :
    PluginState → PluginState → ℕ → ℕ → Body → PluginLifecycle → PluginLifecycle × Outcome
phase before after begun ended body p =
    let (p', outcome) = body (transition_to before begun p) in
    elim outcome [
      | returns ↦ (transition_to after ended p', returns)
      | raises text ↦ (record_error text p', raises text)
      | quits text ↦ (p', quits text)
    ]

unfoldable pub activate : ℕ → ℕ → Body → PluginLifecycle → PluginLifecycle × Outcome
activate begun ended body p = phase activating active begun ended body p

unfoldable pub deactivate : ℕ → ℕ → Body → PluginLifecycle → PluginLifecycle × Outcome
deactivate begun ended body p = phase deactivating stopped begun ended body p
