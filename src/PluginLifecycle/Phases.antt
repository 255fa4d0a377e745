-- ===== src/PluginLifecycle/Phases.antt =====
-- src/utils/plugin_lifecycle.py: the lifecycle after any transitions, errors and `with` blocks.
use meshforge_maps.Base.{
  ℕ, ◌-◌, ◌≡◌, ◌≢◌, ◌⊎◌, inl, inr, refl, sym, ap, ◌∙◌, String, true, Option, none, some, List, [],
  ◌∷◌, ◌++◌, is_some, arith, Option-cases,
}
use meshforge_maps.PluginLifecycle.{
  PluginState, loaded, activating, active, deactivating, stopped, error, PluginLifecycle, create,
  transition_to, record_error, uptime_seconds, Outcome, returns, raises, quits, Body, phase,
  activate, deactivate,
}

pub data Change : Type 0 where
  move : PluginState → ℕ → Change
  fail : String → Change

unfoldable pub change : PluginLifecycle → List Change → PluginLifecycle
change p [] = p
change p (move state now ∷ rest) = change (transition_to state now p) rest
change p (fail text ∷ rest) = change (record_error text p) rest

-- a change by itself, or a `with` whose body makes changes of its own and ends in some way
pub data Call : Type 0 where
  single : Change → Call
  activation deactivation : ℕ → ℕ → List Change → Outcome → Call

abbrev pub body_of : List Change → Outcome → Body
body_of changes outcome p = (change p changes, outcome)

unfoldable pub run : PluginLifecycle → List Call → PluginLifecycle
run p [] = p
run p (single c ∷ calls) = run (change p (c ∷ [])) calls
run p (activation begun ended changes outcome ∷ calls) =
    run (activate begun ended (body_of changes outcome) p).0 calls
run p (deactivation begun ended changes outcome ∷ calls) =
    run (deactivate begun ended (body_of changes outcome) p).0 calls

-- the last change of a `with`, that goes to `after` where its body returns
abbrev pub end_of : PluginState → ℕ → Outcome → List Change
end_of after ended returns = move after ended ∷ []
end_of after ended (raises text) = fail text ∷ []
end_of after ended (quits text) = []

-- the changes of some calls in their order
abbrev pub changes_of : List Call → List Change
changes_of [] = []
changes_of (single c ∷ calls) = c ∷ changes_of calls
changes_of (activation begun ended changes outcome ∷ calls) =
    move activating begun ∷ changes ++ (end_of active ended outcome ++ changes_of calls)
changes_of (deactivation begun ended changes outcome ∷ calls) =
    move deactivating begun ∷ changes ++ (end_of stopped ended outcome ++ changes_of calls)

change-append :
    (p : PluginLifecycle) (a b : List Change) → change p (a ++ b) ≡ change (change p a) b
unfolding change
change-append p [] b = refl
change-append p (move state now ∷ a) b = change-append (transition_to state now p) a b
change-append p (fail text ∷ a) b = change-append (record_error text p) a b

phase_changes :
    (before after : PluginState) (begun ended : ℕ) (changes : List Change) (outcome : Outcome)
    (p : PluginLifecycle)
    → (phase before after begun ended (body_of changes outcome) p).0
      ≡ change (change (transition_to before begun p) changes) (end_of after ended outcome)
unfolding phase change
phase_changes before after begun ended changes returns p = refl
phase_changes before after begun ended changes (raises text) p = refl
phase_changes before after begun ended changes (quits text) p = refl

-- a `with` and what follows it
with_changes :
    (p : PluginLifecycle) (changes last rest : List Change)
    → change (change (change p changes) last) rest ≡ change p (changes ++ (last ++ rest))
with_changes p changes last rest =
    sym (change-append p changes (last ++ rest) ∙ change-append (change p changes) last rest)

run_changes : (p : PluginLifecycle) (calls : List Call) → run p calls ≡ change p (changes_of calls)
unfolding run activate deactivate change
run_changes p [] = refl
run_changes p (single (move state now) ∷ calls) = run_changes (transition_to state now p) calls
run_changes p (single (fail text) ∷ calls) = run_changes (record_error text p) calls
run_changes p (activation begun ended changes outcome ∷ calls) =
    run_changes (activate begun ended (body_of changes outcome) p).0 calls
    ∙ ap (λ q. change q (changes_of calls))
        (phase_changes activating active begun ended changes outcome p)
    ∙ with_changes (transition_to activating begun p) changes (end_of active ended outcome)
        (changes_of calls)
run_changes p (deactivation begun ended changes outcome ∷ calls) =
    run_changes (deactivate begun ended (body_of changes outcome) p).0 calls
    ∙ ap (λ q. change q (changes_of calls))
        (phase_changes deactivating stopped begun ended changes outcome p)
    ∙ with_changes (transition_to deactivating begun p) changes (end_of stopped ended outcome)
        (changes_of calls)

-- the time of the last move to ACTIVE, if there is one, else `before`
abbrev pub last_active : Option ℕ → List Change → Option ℕ
last_active before [] = before
last_active before (move active now ∷ rest) = last_active (some now) rest
last_active before (move _ now ∷ rest) = last_active before rest
last_active before (fail text ∷ rest) = last_active before rest

-- An error is recorded only in the state ERROR, and an active plugin knows when it became active.
record IsValid (p : PluginLifecycle) : Type 0 where
  no_stale_error : (p.last_error ≡ none) ⊎ (p.state ≡ error)
  since : (p.state ≢ active) ⊎ (is_some p.activated_at ≡ true)

transition_to-IsValid :
    (state : PluginState) (now : ℕ) (p : PluginLifecycle)
    → IsValid p
    → IsValid (transition_to state now p)
unfolding transition_to
transition_to-IsValid loaded now p v = record {
  no_stale_error = inl refl;
  since = inl (λ e. absurd (ground arith));
}
transition_to-IsValid activating now p v = record {
  no_stale_error = inl refl;
  since = inl (λ e. absurd (ground arith));
}
transition_to-IsValid active now p v = record { no_stale_error = inl refl; since = inr refl }
transition_to-IsValid deactivating now p v = record {
  no_stale_error = inl refl;
  since = inl (λ e. absurd (ground arith));
}
transition_to-IsValid stopped now p v = record {
  no_stale_error = inl refl;
  since = inl (λ e. absurd (ground arith));
}
transition_to-IsValid error now p v = record {
  no_stale_error = inr refl;
  since = inl (λ e. absurd (ground arith));
}

record_error-IsValid :
    (text : String) (p : PluginLifecycle) → IsValid p → IsValid (record_error text p)
unfolding record_error
record_error-IsValid text p v = record {
  no_stale_error = inr refl;
  since = inl (λ e. absurd (ground arith));
}

change-IsValid :
    (p : PluginLifecycle) (changes : List Change) → IsValid p → IsValid (change p changes)
unfolding change
change-IsValid p [] v = v
change-IsValid p (move state now ∷ rest) v =
    change-IsValid (transition_to state now p) rest (transition_to-IsValid state now p v)
change-IsValid p (fail text ∷ rest) v =
    change-IsValid (record_error text p) rest (record_error-IsValid text p v)

activated_at-change :
    (p : PluginLifecycle) (changes : List Change)
    → (change p changes).activated_at ≡ last_active p.activated_at changes
unfolding change transition_to record_error
activated_at-change p [] = refl
activated_at-change p (move loaded now ∷ rest) =
    activated_at-change (transition_to loaded now p) rest
activated_at-change p (move activating now ∷ rest) =
    activated_at-change (transition_to activating now p) rest
activated_at-change p (move active now ∷ rest) =
    activated_at-change (transition_to active now p) rest
activated_at-change p (move deactivating now ∷ rest) =
    activated_at-change (transition_to deactivating now p) rest
activated_at-change p (move stopped now ∷ rest) =
    activated_at-change (transition_to stopped now p) rest
activated_at-change p (move error now ∷ rest) = activated_at-change (transition_to error now p) rest
activated_at-change p (fail text ∷ rest) = activated_at-change (record_error text p) rest

active-cases : (s : PluginState) → (s ≡ active) ⊎ (s ≢ active)
active-cases active = inl refl
active-cases loaded = inr (λ e. absurd (ground arith))
active-cases activating = inr (λ e. absurd (ground arith))
active-cases deactivating = inr (λ e. absurd (ground arith))
active-cases stopped = inr (λ e. absurd (ground arith))
active-cases error = inr (λ e. absurd (ground arith))

uptime_seconds_lem :
    (p : PluginLifecycle) (now : ℕ)
    → IsValid p
    → ((p.state ≢ active) × (uptime_seconds now p ≡ none))
      ⊎ ((p.state ≡ active)
          × ((t : ℕ) × (p.activated_at ≡ some t) × (uptime_seconds now p ≡ some (now - t))))
unfolding uptime_seconds
uptime_seconds_lem p now v = elim (active-cases p.state) [
  | inl on ↦ elim (Option-cases p.activated_at) [
    | inl never ↦ absurd (ground (arith, v.since, on, never))
    | inr (t, at) ↦ inr (on, (t, at, (rw (on, at) refl)))
  ]
  | inr off ↦ inl (off, ground (arith, off))
]

-- After any transitions, recorded errors and `with` blocks of a new plugin, whose bodies may change it
-- too and return, raise an `Exception` or another one: an error is recorded only in the state ERROR,
-- and the plugin either is not active and has no uptime, or is active and its uptime is the time since
-- its last move to ACTIVE.
pub lifecycle_uptime :
    (calls : List Call) (now : ℕ)
    → let p = run create calls in
      ((p.last_error ≡ none) ⊎ (p.state ≡ error))
      × (((p.state ≢ active) × (uptime_seconds now p ≡ none))
          ⊎ ((p.state ≡ active)
              × ((t : ℕ) × (last_active none (changes_of calls) ≡ some t)
                  × (uptime_seconds now p ≡ some (now - t)))))
lifecycle_uptime calls now =
    let changes = changes_of calls in
    let fresh : IsValid create = record {
      no_stale_error = inl refl;
      since = inl (λ e. absurd (ground arith));
    } in
    let v = change-IsValid create changes fresh in
    rw (run_changes create calls, sym (activated_at-change create changes))
      (v.no_stale_error, uptime_seconds_lem (change create changes) now v)
