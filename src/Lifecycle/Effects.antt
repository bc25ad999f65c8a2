-- ===== src/Lifecycle/Effects.antt =====
-- The projection of external effects: `observe_effect_transition`.
mod Tests
pub mod Outcomes
use nix_ai.Lifecycle.Db.{
  ProviderState, EffectState, Effect, ProviderTransition, Objective, rejected,
}
use nix_ai.Prelude.{
  Option, String, Bool, some, ℕ, none, false, if◌then◌else◌, is_some, ◌==◌, value_error, ◌∷◌, not,
  unique_violation, ltb, ◌&&◌, ◌||◌, check_violation, key_error, [], is_canonical_digest, ◌+◌,
  text_append,
}
use nix_ai.Lifecycle.Transaction.{
  ◌>>=◌, recorded, Tx, fingerprint, gets, raise, require_row, ◌>>◌, raise_if, pure, modify, once,
}
use nix_ai.Json.{Json, str, maybe_str, object, nat}
use nix_ai.Table.{Table, pick, get, put}
use nix_ai.Lifecycle.States.{is_proposed, is_satisfied}
use nix_ai.Lifecycle.ProviderStates.{
  passes_state_check, provider_name, projected, provider_text, legal_provider, effect_eq,
  needs_external, coalesce, is_terminal_observation, is_absent,
}

-- A write of `durable_effects`, under its CHECK constraint.
unfoldable pub write_effect : String → Effect → Tx (Unit {0})
unfolding ◌>>=◌
write_effect effect_id e = do
  raise_if (not (passes_state_check e.state)) (check_violation "durable_effects_state_check")
  modify (λ db. record db { durable_effects = put effect_id e db.durable_effects })

-- INSERT INTO provider_effect_transitions
unfoldable pub insert_provider : String → ProviderTransition → Tx (Unit {0})
unfolding ◌>>=◌
insert_provider transition_id t = do
  used ← gets (λ db. is_some (get transition_id db.provider_transitions))
  raise_if used (unique_violation "provider_effect_transitions_pkey")
  modify (λ db. record db { provider_transitions = put transition_id t db.provider_transitions })

-- WHERE effect_id=… ORDER BY sequence DESC LIMIT 1
unfoldable pub latest_transition :
    String → Table ProviderTransition → Option (String × ProviderTransition)
latest_transition effect_id =
    pick (λ _ t. t.effect_id == effect_id) (λ s t. ltb t.1.sequence s.1.sequence)

abbrev is_state : ProviderState → Option (String × ProviderTransition) → Bool
is_state s none = false
is_state s (some (_, t)) = provider_name t.new_state == provider_name s

-- What the checks find, so that the writes can go on with it.
pub record Observed : Type 0 where
  pub effect_id : String
  pub objective_id : String
  pub request_digest : String
  pub new_state : ProviderState
  pub evidence_ref : Option String
  pub external_ref : Option String

-- The branch `previous_state is None`.
first_effect : Observed → Option Effect → Tx ℕ
unfolding write_effect
first_effect o (some row) = raise (value_error "effect identity already exists")
first_effect o none = do
  write_effect o.effect_id (record {
    activation_id = o.objective_id;
    request_digest = o.request_digest;
    state = elim o.new_state [ rejected ↦ EffectState.rejected | _ ↦ EffectState.proposed ];
    external_ref = o.external_ref;
    evidence_ref = o.evidence_ref;
    version = 1;
  })
  pure 1

abbrev bound_row : Observed → Option Effect → Option Effect
bound_row o none = none
bound_row o (some row) =
    if row.activation_id == o.objective_id && row.request_digest == o.request_digest
    then some row
    else none

-- The other branch, from `previous`.
pub next_effect : Observed → ProviderState → Option Effect → Tx ℕ
unfolding write_effect latest_transition
next_effect o previous found = do
  row ← require_row (bound_row o found) (value_error "provider transition binding mismatch")
  latest ← gets (λ db. latest_transition o.effect_id db.provider_transitions)
  raise_if (not (is_state previous latest))
      (value_error "provider transition predecessor history mismatch")
  before ← require_row (projected previous) (key_error (provider_name previous))
  raise_if (not (effect_eq row.state before))
      (value_error "provider transition predecessor mismatch")
  after ← require_row (projected o.new_state) (key_error (provider_name o.new_state))
  write_effect o.effect_id (record row {
    state = after;
    external_ref = coalesce o.external_ref row.external_ref;
    evidence_ref = coalesce o.evidence_ref row.evidence_ref;
    version = row.version + 1;
  })
  pure (row.version + 1)

pub project_effect : Observed → Option ProviderState → Option Effect → Tx ℕ
unfolding first_effect next_effect
project_effect o none row = first_effect o row
project_effect o (some previous) row = next_effect o previous row

abbrev is_effect_objective : Option Objective → Bool
is_effect_objective none = false
is_effect_objective (some o) = is_proposed o.state || is_satisfied o.state

pub effect_body : String → String → Observed → Option ProviderState → String → Tx Json
unfolding project_effect insert_provider recorded
effect_body transition_id command_id o previous fp = do
  objective ← gets (λ db. get o.objective_id db.objectives)
  raise_if (not (is_effect_objective objective))
      (value_error "CONFLICT: effect has no live objective projection")
  row ← gets (λ db. get o.effect_id db.durable_effects)
  version ← project_effect o previous row
  insert_provider transition_id (record {
    effect_id = o.effect_id;
    previous_state = previous;
    new_state = o.new_state;
    request_digest = o.request_digest;
    evidence_ref = o.evidence_ref;
    sequence = version;
  })
  recorded command_id fp (
      object (
        ("effect_id", str o.effect_id)
        ∷ ("state", str (provider_name o.new_state))
        ∷ ("version", nat version)
        ∷ ("external_ref", maybe_str o.external_ref)
        ∷ ("evidence_ref", maybe_str o.evidence_ref)
        ∷ []))

pub effect_fingerprint : (String → String) → Observed → Option ProviderState → String
effect_fingerprint sha256 o previous = fingerprint sha256 "observe_effect_transition" (
    str o.effect_id
    ∷ str o.objective_id
    ∷ str o.request_digest
    ∷ provider_text previous
    ∷ str (provider_name o.new_state)
    ∷ maybe_str o.evidence_ref
    ∷ maybe_str o.external_ref
    ∷ [])

-- The checks of `observe_effect_transition` before its transaction.
pub effect_checks : Observed → Option ProviderState → Tx (Unit {0})
unfolding ◌>>=◌ legal_provider needs_external is_terminal_observation
effect_checks o previous = do
  raise_if (not (is_canonical_digest o.request_digest))
      (value_error "effect request digest must be canonical sha256")
  raise_if (not (legal_provider previous o.new_state))
      (value_error "illegal provider effect transition")
  raise_if (needs_external o.new_state && is_absent o.external_ref)
      (value_error "provider transition requires stable external identity")
  raise_if (is_terminal_observation o.new_state && is_absent o.evidence_ref)
      (value_error "terminal provider observation requires evidence")

-- `observe_effect_transition`
pub observe_effect_transition :
    (String → String) → String → Observed → Option ProviderState → Tx Json
unfolding ◌>>=◌
observe_effect_transition sha256 transition_id o previous = do
  effect_checks o previous
  let command_id = text_append "effect-transition:" transition_id
  let fp = effect_fingerprint sha256 o previous
  once command_id fp (effect_body transition_id command_id o previous fp)
