-- ===== src/Lifecycle/Db.antt =====
-- The tables that `LifecycleStore.migrate` creates. A table with a text primary key is a `Table`;
-- a history table is the list of its rows, the newest last.
use nix_ai.Prelude.{ℕ, String, Bool, Option, none, List, []}
use nix_ai.Json.{Json}
use nix_ai.Table.{Table}
use nix_ai.Lifecycle.States.{ObjectiveState, WakeState, ActivationState}

pub record Command : Type 0 where
  pub fingerprint : String
  pub result : Json

pub record Objective : Type 0 where
  pub state : ObjectiveState
  pub version : ℕ

pub record Wake : Type 0 where
  pub objective_id : String
  pub state : WakeState
  pub due_at : ℕ
  pub lease_owner : Option String
  pub lease_expires_at : Option ℕ
  pub version : ℕ
  pub created_command : String

pub record Activation : Type 0 where
  pub objective_id : String
  pub state : ActivationState
  pub lease_owner : Option String
  pub lease_expires_at : Option ℕ
  pub monotonic_started : Option ℕ
  pub version : ℕ
  pub wake_id : Option String
  pub machine_id : Option String
  pub agent_id : Option String
  pub lease_fence : Option ℕ
  pub system_generation_id : Option String
  pub capability_activation_set_id : Option String
  pub context_bundle_id : Option String
  pub capability_grant_ids : Option (List String)
  pub isolation_profile_id : Option String
  pub resource_lease_id : Option String
  pub deadline : Option ℕ
  pub trace_id : Option String
  pub correlation_id : Option String
  pub credential_digest : Option String
  pub credential_key_version : Option ℕ

pub record HistoryRow : Type 0 where
  pub entity_id : String
  pub previous_state : Option String
  pub new_state : String
  pub command_id : String
  pub actor : String
  pub evidence_ref : String

-- `binding` is the jsonb column.
pub record BindingRow : Type 0 where
  pub activation_id : String
  pub version : ℕ
  pub command_id : String
  pub binding : Json
  pub evidence_ref : String

-- The states that a row of `durable_effects` can be given.
pub data EffectState : Type 0 where
  proposed rejected reserved executing observed_succeeded observed_failed : EffectState
  outcome_unknown reconciling resolved_succeeded resolved_failed : EffectState
  authority_required committed failed cancelled : EffectState

-- The states of `provider_effect_transitions`.
pub data ProviderState : Type 0 where
  proposed rejected authorized dispatched uncertain : ProviderState
  observed_succeeded observed_failed resolved_succeeded resolved_failed : ProviderState
  other : String → ProviderState

pub record Effect : Type 0 where
  pub activation_id : String
  pub request_digest : String
  pub state : EffectState
  pub external_ref : Option String
  pub evidence_ref : Option String
  pub version : ℕ

pub record ProviderTransition : Type 0 where
  pub effect_id : String
  pub previous_state : Option ProviderState
  pub new_state : ProviderState
  pub request_digest : String
  pub evidence_ref : Option String
  pub sequence : ℕ

-- A row of `effect_records`, which the effect service writes: its state, and the field
-- `proposal.compensates_effect_id` of its canonical record.
pub record EffectRecord : Type 0 where
  pub objective_id : String
  pub request_digest : String
  pub state : String
  pub compensates_effect_id : Option String
  pub version : ℕ

pub record Guard : Type 0 where
  pub effect_set_digest : String
  pub effect_count : ℕ
  pub ready : Bool

pub record Package : Type 0 where
  pub content_digest : String
  pub manifest : Json
  pub evidence_ref : String
  pub version : ℕ

pub data ChangeState : Type 0 where
  proposed built evaluated signed staged activated confirmed : ChangeState
  rejected quarantined rolled_back : ChangeState
  other : String → ChangeState

-- A row of `change_candidates`; the columns that were added later may be NULL.
pub record Candidate : Type 0 where
  pub source_digest : String
  pub evaluator_generation : String
  pub target_generation : String
  pub rollback_generation : String
  pub threshold : Json
  pub state : ChangeState
  pub evidence_ref : String
  pub version : ℕ
  pub evaluator_closure : Option String
  pub active_generation : Option String
  pub dependency_closure_digest : Option String
  pub contract_version : Option String
  pub tests_digest : Option String
  pub requested_authority : Option (List String)
  pub signing_key_digest : Option String
  pub live_verification_contract : Option String
  pub expected_active_version : Option ℕ
  pub activation_binding_version : Option ℕ

pub record ChangeRow : Type 0 where
  pub candidate_id : String
  pub version : ℕ
  pub previous_state : Option ChangeState
  pub new_state : ChangeState
  pub command_id : String
  pub actor : String
  pub evidence_ref : String
  pub observation : Option Json

pub record ActiveGeneration : Type 0 where
  pub active_generation : String
  pub previous_generation : Option String
  pub candidate_id : String
  pub version : ℕ

pub record CapabilitySet : Type 0 where
  pub generation_id : String
  pub grant_ids : List String
  pub evidence_ref : String
  pub active : Bool
  pub version : ℕ

pub record CapabilityRow : Type 0 where
  pub set_id : String
  pub version : ℕ
  pub generation_id : String
  pub grant_ids : List String
  pub evidence_ref : String
  pub command_id : String
  pub active : Bool

pub record AuthorityBinding : Type 0 where
  pub generation : String
  pub grants_digest : String
  pub evidence_ref : String
  pub version : ℕ
  pub snapshot : Option Json
  pub snapshot_digest : Option String

pub record AuthorityRow : Type 0 where
  pub binding_id : String
  pub version : ℕ
  pub command_id : String
  pub generation : String
  pub grants_digest : String
  pub evidence_ref : String
  pub snapshot : Option Json
  pub snapshot_digest : Option String

pub record Db : Type 0 where
  pub commands : Table Command
  pub objectives : Table Objective
  pub wakes : Table Wake
  pub activations : Table Activation
  pub history : List HistoryRow
  pub binding_history : List BindingRow
  pub durable_effects : Table Effect
  pub provider_transitions : Table ProviderTransition
  pub effect_records : Table EffectRecord
  pub guards : Table Guard
  pub packages : Table Package
  pub candidates : Table Candidate
  pub change_history : List ChangeRow
  pub active_generation : Option ActiveGeneration
  pub capability_sets : Table CapabilitySet
  pub capability_history : List CapabilityRow
  pub authority_bindings : Table AuthorityBinding
  pub authority_history : List AuthorityRow

abbrev pub empty : Db
empty = record {
  commands = [];
  objectives = [];
  wakes = [];
  activations = [];
  history = [];
  binding_history = [];
  durable_effects = [];
  provider_transitions = [];
  effect_records = [];
  guards = [];
  packages = [];
  candidates = [];
  change_history = [];
  active_generation = none;
  capability_sets = [];
  capability_history = [];
  authority_bindings = [];
  authority_history = [];
}
