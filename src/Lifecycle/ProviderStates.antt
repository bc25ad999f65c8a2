-- ===== src/Lifecycle/ProviderStates.antt =====
-- The states of provider transitions and of their projection, with the tables of
-- `observe_effect_transition`.
use nix_ai.Lifecycle.Db.{
  ProviderState, EffectState, other, proposed, rejected, dispatched, observed_succeeded, authorized,
  failed, committed, uncertain, resolved_succeeded, observed_failed, cancelled, reserved,
  resolved_failed, executing, outcome_unknown, reconciling, authority_required,
}
use nix_ai.Prelude.{
  Option, String, Bool, some, ℕ, true, none, false, beq, is_empty_text, if◌then◌else◌, ◌==◌,
}
use nix_ai.Json.{Json, null, str}

abbrev pub provider_name : ProviderState → String
provider_name proposed = "PROPOSED"
provider_name rejected = "REJECTED"
provider_name authorized = "AUTHORIZED"
provider_name dispatched = "DISPATCHED"
provider_name uncertain = "UNCERTAIN"
provider_name observed_succeeded = "OBSERVED_SUCCEEDED"
provider_name observed_failed = "OBSERVED_FAILED"
provider_name resolved_succeeded = "RESOLVED_SUCCEEDED"
provider_name resolved_failed = "RESOLVED_FAILED"
provider_name (other s) = s

abbrev pub provider_text : Option ProviderState → Json
provider_text none = null
provider_text (some s) = str (provider_name s)

-- The dict `legal` of `observe_effect_transition`.
unfoldable pub legal_provider : Option ProviderState → ProviderState → Bool
legal_provider none proposed = true
legal_provider none rejected = true
legal_provider (some proposed) authorized = true
legal_provider (some authorized) dispatched = true
legal_provider (some dispatched) observed_succeeded = true
legal_provider (some dispatched) observed_failed = true
legal_provider (some dispatched) uncertain = true
legal_provider (some uncertain) resolved_succeeded = true
legal_provider (some uncertain) resolved_failed = true
legal_provider _ _ = false

-- The states that need `external_ref`.
unfoldable pub needs_external : ProviderState → Bool
needs_external dispatched = true
needs_external observed_succeeded = true
needs_external observed_failed = true
needs_external uncertain = true
needs_external resolved_succeeded = true
needs_external resolved_failed = true
needs_external _ = false

-- `new_state.startswith("OBSERVED_") or new_state.startswith("RESOLVED_")`
unfoldable pub is_terminal_observation : ProviderState → Bool
is_terminal_observation observed_succeeded = true
is_terminal_observation observed_failed = true
is_terminal_observation resolved_succeeded = true
is_terminal_observation resolved_failed = true
is_terminal_observation _ = false

-- The dict `projected`, which has no entry for `REJECTED` (a `KeyError`).
unfoldable pub projected : ProviderState → Option EffectState
projected proposed = some EffectState.proposed
projected authorized = some EffectState.proposed
projected dispatched = some EffectState.proposed
projected uncertain = some EffectState.proposed
projected observed_succeeded = some EffectState.committed
projected resolved_succeeded = some EffectState.committed
projected observed_failed = some EffectState.failed
projected resolved_failed = some EffectState.failed
projected _ = none

-- The constraint `durable_effects_state_check` of the migration.
unfoldable pub passes_state_check : EffectState → Bool
passes_state_check failed = false
passes_state_check cancelled = false
passes_state_check _ = true

abbrev pub effect_tag : EffectState → ℕ
effect_tag proposed = 0
effect_tag rejected = 1
effect_tag reserved = 2
effect_tag executing = 3
effect_tag observed_succeeded = 4
effect_tag observed_failed = 5
effect_tag outcome_unknown = 6
effect_tag reconciling = 7
effect_tag resolved_succeeded = 8
effect_tag resolved_failed = 9
effect_tag authority_required = 10
effect_tag committed = 11
effect_tag failed = 12
effect_tag cancelled = 13

abbrev pub effect_eq : EffectState → EffectState → Bool
effect_eq a b = beq (effect_tag a) (effect_tag b)

abbrev pub is_committed : EffectState → Bool
is_committed committed = true
is_committed _ = false

-- A falsy text: `None` or the empty one.
abbrev pub is_absent : Option String → Bool
is_absent none = true
is_absent (some s) = is_empty_text s

-- COALESCE(new,old)
abbrev pub coalesce : Option String → Option String → Option String
coalesce none old = old
coalesce (some s) old = some s

-- The state that a request names.
unfoldable pub provider_state : String → ProviderState
provider_state s =
    if s == "PROPOSED"
    then proposed
    else if s == "REJECTED"
    then rejected
    else if s == "AUTHORIZED"
    then authorized
    else if s == "DISPATCHED"
    then dispatched
    else if s == "UNCERTAIN"
    then uncertain
    else if s == "OBSERVED_SUCCEEDED"
    then observed_succeeded
    else if s == "OBSERVED_FAILED"
    then observed_failed
    else if s == "RESOLVED_SUCCEEDED"
    then resolved_succeeded
    else if s == "RESOLVED_FAILED"
    then resolved_failed
    else other s

-- The text of a row of `durable_effects`.
abbrev pub effect_name : EffectState → String
effect_name proposed = "PROPOSED"
effect_name rejected = "REJECTED"
effect_name reserved = "RESERVED"
effect_name executing = "EXECUTING"
effect_name observed_succeeded = "OBSERVED_SUCCEEDED"
effect_name observed_failed = "OBSERVED_FAILED"
effect_name outcome_unknown = "OUTCOME_UNKNOWN"
effect_name reconciling = "RECONCILING"
effect_name resolved_succeeded = "RESOLVED_SUCCEEDED"
effect_name resolved_failed = "RESOLVED_FAILED"
effect_name authority_required = "AUTHORITY_REQUIRED"
effect_name committed = "COMMITTED"
effect_name failed = "FAILED"
effect_name cancelled = "CANCELLED"
