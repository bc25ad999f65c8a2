-- ===== src/Verified/Activations.antt =====
-- The claim of an activation with its evidence: `claim_verified_activation`, and
-- `resolve_activation` for the agents' interface.
mod Tests
pub mod Replays
use nix_ai.Prelude.{
  List, Result, String, ok, ◌∷◌, text_append, if◌then◌else◌, ◌>>=◌, ℕ, err, [], ◌==◌, beq,
  expect_some, runtime_error, value_error, ◌>>◌, ledger_corrupt, reject_if, some, not, ◌-◌, none,
  ◌+◌, type_error, true, false,
}
use nix_ai.Json.Dumps.{dumps, canonical_style}
use nix_ai.Verified.{item, EvidenceAuthority, text, number, payload_of, binds, principal_text}
use nix_ai.Json.{
  Fields, Json, get_field, field, int, obj, py_eq, object, str, null, as_str, end, nat, boolean,
}
use nix_ai.Lifecycle.Claims.{Claim}
use nix_ai.Json.Int.{pos, negsuc}
use nix_ai.Protocol.Roles.{Service, service_name}

abbrev bound_fields : List String
bound_fields =
    "command_id" ∷ "objective_id" ∷ "wake_id" ∷ "machine_id" ∷ "agent_id" ∷ "lease_owner"
    ∷ "context_bundle_id" ∷ "isolation_profile_id" ∷ "resource_lease_id" ∷ "trace_id"
    ∷ "correlation_id" ∷ "credential_key_version" ∷ "lease_seconds" ∷ []

-- `"sha256:"+hashlib.sha256(canonical).hexdigest()`, for the sorted and dense text of a payload.
unfoldable pub source_of : (String → String) → Json → String
unfolding dumps
source_of sha256 payload = text_append "sha256:" (sha256 (dumps canonical_style payload))

-- The envelope that `publish` puts.
unfoldable pub envelope_of : (String → String) → Json → Json → Json
envelope_of sha256 payload activation_id = object (
    ("schema_version", str "1")
    ∷ ("producer", str "service:state")
    ∷ ("subject", activation_id)
    ∷ ("operation", str "activation.claimed")
    ∷ ("source", str (source_of sha256 payload))
    ∷ ("payload", payload)
    ∷ [])

unfoldable pub claimed_envelope : (String → String) → Json → Result Json
unfolding item
claimed_envelope sha256 payload = do
  binding ← item "binding" payload
  activation_id ← item "activation_id" binding
  ok (envelope_of sha256 payload activation_id)

-- `publish`, over `put_evidence` with its arguments.
unfoldable pub publish :
    (String → String) → (Json → String → String → Result Json) → String → Json → Result Json
unfolding claimed_envelope item
publish sha256 put_evidence command_id payload = do
  envelope ← claimed_envelope sha256 payload
  stored ← put_evidence envelope "service:state" (text_append "claimed:" command_id)
  item "evidence_ref" stored

-- `{key:value for key,value in result.items() if key!="binding_evidence_ref"}`
unfoldable pub without_evidence : Fields → Fields
without_evidence end = end
without_evidence (field k v fs) =
    let rest = without_evidence fs in if k == "binding_evidence_ref" then rest else field k v rest

-- `None if value==1 else value-1`; `True` is 1.
unfoldable pub prior_number : Json → Result Json
prior_number (int (pos n)) =
    ok (if beq n 1 then null else if beq n 0 then int (negsuc 0) else nat (n - 1))
prior_number (int (negsuc n)) = ok (int (negsuc (n + 1)))
prior_number (boolean true) = ok null
prior_number (boolean false) = ok (int (negsuc 0))
prior_number _ = err (type_error "unsupported operand type(s) for -")

-- The payload that `verify` rebuilds from the recorded result of a claim.
unfoldable pub replayed_payload : String → Fields → Result Json
unfolding item prior_number without_evidence
replayed_payload command_id result = do
  let binding = obj (without_evidence result)
  version ← item "version" binding >>= prior_number
  fence ← item "lease_fence" binding >>= prior_number
  ok (
      object (
        ("command_id", str command_id)
        ∷ ("prior_activation_version", version)
        ∷ ("prior_lease_fence", fence)
        ∷ ("binding", binding)
        ∷ []))

-- The arguments of `claim_activation` in a request. A value of another type than the code asks for
-- fails the first test of `claim_activation`.
typed : {A : Type 0} → Result A → Result A
typed (ok a) = ok a
typed (err (runtime_error m)) = err (value_error "complete typed activation claim is required")
typed (err e) = err e

claim_text : String → Json → Result String
unfolding item text typed
claim_text key request = item key request >>= λ v. typed (text v)

claim_number : String → Json → Result ℕ
unfolding item number typed
claim_number key request = item key request >>= λ v. typed (number v)

unfoldable pub read_claim : Json → Result Claim
unfolding claim_text claim_number
read_claim request = do
  command_id ← claim_text "command_id" request
  activation_id ← claim_text "activation_id" request
  objective_id ← claim_text "objective_id" request
  wake_id ← claim_text "wake_id" request
  machine_id ← claim_text "machine_id" request
  agent_id ← claim_text "agent_id" request
  lease_owner ← claim_text "lease_owner" request
  lease_seconds ← claim_number "lease_seconds" request
  context_bundle_id ← claim_text "context_bundle_id" request
  isolation_profile_id ← claim_text "isolation_profile_id" request
  resource_lease_id ← claim_text "resource_lease_id" request
  trace_id ← claim_text "trace_id" request
  correlation_id ← claim_text "correlation_id" request
  credential_digest ← claim_text "credential_digest" request
  credential_key_version ← claim_number "credential_key_version" request
  evidence_ref ← claim_text "evidence_ref" request
  ok (record {
    command_id = command_id;
    activation_id = activation_id;
    objective_id = objective_id;
    wake_id = wake_id;
    machine_id = machine_id;
    agent_id = agent_id;
    lease_owner = lease_owner;
    lease_seconds = lease_seconds;
    context_bundle_id = context_bundle_id;
    isolation_profile_id = isolation_profile_id;
    resource_lease_id = resource_lease_id;
    trace_id = trace_id;
    correlation_id = correlation_id;
    credential_digest = credential_digest;
    credential_key_version = credential_key_version;
    evidence_ref = evidence_ref;
  })

module _ (authority : EvidenceAuthority) where
  open authority use {verify_record}

  -- `verify`, on the recorded result of a claim.
  unfoldable pub verify_replayed : (String → String) → String → Json → Result (Unit {0})
  unfolding replayed_payload source_of get_field py_eq item
  verify_replayed sha256 command_id (obj result) = do
    reference ←
        expect_some (as_str (get_field "binding_evidence_ref" (obj result)))
          (ledger_corrupt "activation replay omitted binding evidence")
    payload ← replayed_payload command_id result
    activation_id ← item "activation_id" (obj (without_evidence result))
    evidence ←
        verify_record
          (record {
            subject = activation_id;
            producer = str "service:state";
            source = str (source_of sha256 payload);
            operation = some (str "activation.claimed");
            disposition = none;
          })
          (str reference)
    reject_if (not (py_eq (get_field "payload" evidence) payload))
        (ledger_corrupt "activation replay binding evidence is corrupt")
  verify_replayed sha256 command_id _ = err (runtime_error "AttributeError: no attribute 'get'")

  -- The checks of `claim_verified_activation` on its request.
  unfoldable pub check_claim : Json → Service → Result (Unit {0})
  unfolding item payload_of binds
  check_claim request principal = do
    reject_if (not (service_name principal == "service:scheduler"))
        (value_error "activation claim requires scheduler principal")
    reference ← item "evidence_ref" request
    activation_id ← item "activation_id" request
    credential ← item "credential_digest" request
    evidence ←
        verify_record
          (record {
            subject = activation_id;
            producer = principal_text principal;
            source = credential;
            operation = some (str "activation.claim");
            disposition = some (str "LEASED");
          })
          reference
    payload ← payload_of evidence
    reject_if (not (binds bound_fields payload request))
        (ledger_corrupt "activation claim evidence does not bind the complete request")
