-- ===== src/Lifecycle/Recovery.antt =====
-- Recovery of expired activation leases: `recover_expired`.
mod Tests
pub mod Leases
pub mod Rounds
use nix_ai.Json.Dumps.{decimal}
use nix_ai.Lifecycle.Wakes.{update_wake, opt_le}
use nix_ai.Lifecycle.Activations.{write_activation}
use nix_ai.Lifecycle.Claims.{Publisher, insert_binding}
use nix_ai.Lifecycle.States.{
  ActivationState, WakeState, is_wake_leased, is_ended, waiting_effect, activation_name, wake_name,
}
use nix_ai.Prelude.{
  ℕ, String, Option, Bool, if◌then◌else◌, none, text_append, some, true, ◌&&◌, ◌+◌, is_empty_text,
  List, false, not, ◌==◌, value_error, any, is_some, ◌∷◌, [],
}
use nix_ai.Lifecycle.Db.{Activation, Wake, BindingRow, HistoryRow}
use nix_ai.Lifecycle.Transaction.{
  ◌>>=◌, insert_history, Tx, raise, gets, ◌>>◌, pure, lift, raise_if, require_row,
}
use nix_ai.Json.{Json, object, str, maybe_nat, nat, null, is_prefixed, as_str, array, maybe_str}
use nix_ai.Table.{Table, get, rows_where}

abbrev pub is_waiting_effect : ActivationState → Bool
is_waiting_effect waiting_effect = true
is_waiting_effect _ = false

-- `lease_expires_at<=now AND state NOT IN ('COMPLETED','FAILED','CANCELLED')`
abbrev pub is_expired : ℕ → Activation → Bool
is_expired now a = opt_le a.lease_expires_at now && not (is_ended a.state)

-- `new_state`: an activation that waited for an effect fails, any other is requested again.
abbrev pub recovered_state : Activation → ActivationState
recovered_state a =
    if is_waiting_effect a.state then ActivationState.failed else ActivationState.requested

abbrev pub recovered_row : Activation → Activation
recovered_row a = record a {
  state = recovered_state a;
  lease_owner = none;
  lease_expires_at = none;
  version = a.version + 1;
}

-- An entry of the result: `classification` is `RECONCILIATION_REQUIRED` where `reconcile` is true,
-- and `RETRYABLE` otherwise.
pub record Recovered : Type 0 where
  pub activation_id : String
  pub reconcile : Bool
  pub state : ActivationState

abbrev owner_eq : Option String → Option String → Bool
owner_eq none none = true
owner_eq (some a) (some b) = a == b
owner_eq _ _ = false

-- A wake that is leased to the activation's owner; in SQL a missing owner equals none.
abbrev pub leased_by : Option String → Option Wake → Option Wake
leased_by owner none = none
leased_by none (some w) = none
leased_by (some o) (some w) =
    if is_wake_leased w.state && owner_eq w.lease_owner (some o) then some w else none

abbrev pub released_wake : Wake → Wake
released_wake w = record w {
  state = WakeState.released;
  lease_owner = none;
  lease_expires_at = none;
  version = w.version + 1;
}

abbrev pub recovery_command : String → ℕ → String
recovery_command activation_id version =
    text_append "recovery:" (text_append activation_id (text_append ":" (decimal version)))

-- The payload of the recovery evidence.
recovery_payload : String → String → Activation → String → Wake → Json
recovery_payload command_id activation_id a wake_id w = object (
    ("command_id", str command_id)
    ∷ ("activation_id", str activation_id)
    ∷ ("wake_id", str wake_id)
    ∷ ("lease_fence", maybe_nat a.lease_fence)
    ∷ ("previous_activation_state", str (activation_name a.state))
    ∷ ("new_activation_state", str (activation_name (recovered_state a)))
    ∷ ("previous_activation_version", nat a.version)
    ∷ ("new_activation_version", nat (a.version + 1))
    ∷ ("previous_wake_state", str (wake_name w.state))
    ∷ ("new_wake_state", str "RELEASED")
    ∷ ("previous_wake_version", nat w.version)
    ∷ ("new_wake_version", nat (w.version + 1))
    ∷ [])

recovered_grants : List String → List Json
recovered_grants [] = []
recovered_grants (g ∷ gs) = str g ∷ recovered_grants gs

abbrev maybe_grants : Option (List String) → Json
maybe_grants none = null
maybe_grants (some gs) = array (recovered_grants gs)

-- `binding=dict(row)`, updated with the columns that the recovery writes.
recovered_binding : String → Activation → Json
unfolding recovered_grants
recovered_binding activation_id a = object (
    ("activation_id", str activation_id)
    ∷ ("objective_id", str a.objective_id)
    ∷ ("state", str (activation_name (recovered_state a)))
    ∷ ("lease_owner", null)
    ∷ ("lease_expires_at", null)
    ∷ ("monotonic_started", maybe_nat a.monotonic_started)
    ∷ ("version", nat (a.version + 1))
    ∷ ("wake_id", maybe_str a.wake_id)
    ∷ ("machine_id", maybe_str a.machine_id)
    ∷ ("agent_id", maybe_str a.agent_id)
    ∷ ("lease_fence", maybe_nat a.lease_fence)
    ∷ ("system_generation_id", maybe_str a.system_generation_id)
    ∷ ("capability_activation_set_id", maybe_str a.capability_activation_set_id)
    ∷ ("context_bundle_id", maybe_str a.context_bundle_id)
    ∷ ("capability_grant_ids", maybe_grants a.capability_grant_ids)
    ∷ ("isolation_profile_id", maybe_str a.isolation_profile_id)
    ∷ ("resource_lease_id", maybe_str a.resource_lease_id)
    ∷ ("deadline", maybe_nat a.deadline)
    ∷ ("trace_id", maybe_str a.trace_id)
    ∷ ("correlation_id", maybe_str a.correlation_id)
    ∷ ("credential_digest", maybe_str a.credential_digest)
    ∷ ("credential_key_version", maybe_nat a.credential_key_version)
    ∷ [])

-- `row.get("wake_id")` as a truth value
abbrev pub wake_ref : Activation → Option String
wake_ref a = elim a.wake_id [ none ↦ none | some s ↦ if is_empty_text s then none else some s ]

publish_recovery : Publisher → String → Json → Tx String
unfolding ◌>>=◌
publish_recovery none command_id payload =
    raise (value_error "protected activation recovery evidence publisher is unavailable")
publish_recovery (some publish) command_id payload = do
  reference ← lift (publish command_id payload)
  require_row (if is_prefixed "s3://" reference then as_str reference else none)
      (value_error "protected activation recovery evidence is invalid")

-- A legacy row with no fence: its wake is released if it is still leased to the row's owner.
recover_unfenced : String → Activation → Option String → Tx (Unit {0})
unfolding write_activation update_wake
recover_unfenced activation_id a none = write_activation activation_id (recovered_row a)
recover_unfenced activation_id a (some wake_id) = do
  wake ← gets (λ db. get wake_id db.wakes)
  elim (leased_by a.lease_owner wake) [
    | none ↦ pure tt
    | some w ↦ update_wake wake_id (released_wake w)
  ]
  write_activation activation_id (recovered_row a)

-- The writes of a protected row behind that of its wake.
unfoldable write_recovered : String → Activation → BindingRow → HistoryRow → Tx (Unit {0})
unfolding write_activation insert_binding insert_history
write_recovered activation_id a binding row = do
  write_activation activation_id (recovered_row a)
  insert_binding binding
  insert_history row

-- A protected row: its history must be there, and its wake leased to its owner.
recover_fenced : Publisher → String → Activation → Option String → Tx (Unit {0})
unfolding recovery_payload recovered_binding publish_recovery write_recovered update_wake
recover_fenced publish activation_id a wake_id = do
  known ← gets (λ db. any (λ r. r.activation_id == activation_id) db.binding_history)
  raise_if (not known) (value_error "activation binding history is missing during recovery")
  raise_if (not (is_some publish))
      (value_error "protected activation recovery evidence publisher is unavailable")
  wake_key ← require_row wake_id (value_error "activation binding has no recoverable wake")
  row ← gets (λ db. get wake_key db.wakes)
  wake ←
      require_row (leased_by a.lease_owner row)
        (value_error "activation wake lease disagrees during recovery")
  let command_id = recovery_command activation_id (a.version + 1)
  evidence ←
      publish_recovery publish command_id
        (recovery_payload command_id activation_id a wake_key wake)
  update_wake wake_key (released_wake wake)
  write_recovered activation_id a
      (record {
        activation_id = activation_id;
        version = a.version + 1;
        command_id = command_id;
        binding = recovered_binding activation_id a;
        evidence_ref = evidence;
      })
      (record {
        entity_id = wake_key;
        previous_state = some "LEASED";
        new_state = "RELEASED";
        command_id = text_append command_id ":wake";
        actor = "service:state-recovery";
        evidence_ref = evidence;
      })

-- One round of the loop.
pub recover_row : Publisher → String → Activation → Tx Recovered
unfolding ◌>>=◌ recover_fenced recover_unfenced
recover_row publish activation_id a = do
  if is_some a.lease_fence
      then recover_fenced publish activation_id a (wake_ref a)
      else recover_unfenced activation_id a (wake_ref a)
  pure (record {
    activation_id = activation_id;
    reconcile = is_waiting_effect a.state;
    state = recovered_state a;
  })

recover_rows : Publisher → Table Activation → Tx (List Recovered)
unfolding ◌>>=◌ recover_row
recover_rows publish [] = pure []
recover_rows publish ((activation_id, a) ∷ rows) = do
  first ← recover_row publish activation_id a
  rest ← recover_rows publish rows
  pure (first ∷ rest)

-- `recover_expired`
pub recover_expired : Publisher → ℕ → Tx (List Recovered)
unfolding ◌>>=◌ recover_rows
recover_expired publish now = do
  rows ← gets (λ db. rows_where (λ _ a. is_expired now a) db.activations)
  recover_rows publish rows
