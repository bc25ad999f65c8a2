-- ===== src/Verified/Commands.antt =====
-- The agents' commands under an activation: `commit_activation_command` and
-- `get_activation_command`. The activation is resolved in the lifecycle tables `db`, which are only
-- read; the ledger's rows follow them.
mod Tests
pub mod Replays
pub mod Bindings
use nix_ai.Json.{Json, get_field, py_eq, object, str, maybe_nat, maybe_str}
use nix_ai.Verified.{EvidenceAuthority, payload_of, item, text_item, principal_text, given}
use nix_ai.Prelude.{
  Result, String, List, Option, if◌then◌else◌, ◌∷◌, Bool, ℕ, ok, ◌>>=◌, some, is_canonical_digest,
  true, [], reject_if, ◌==◌, ◌>>◌, none, err, ◌&&◌, not, ◌++◌, value_error, ledger_corrupt,
}
use nix_ai.Protocol.Roles.{Service, service_name}
use nix_ai.Ledger.{validate_result, LedgerRow, find_commit, written}
use nix_ai.Lifecycle.Db.{Activation, Db}
use nix_ai.Evidence.{Expected}
use nix_ai.Lifecycle.Resolve.{resolve_activation}

-- `request["request_digest"]`, which is a canonical digest.
unfoldable pub digest_of : Json → Result String
digest_of (str s) =
    if is_canonical_digest s then ok s else err (value_error "canonical request digest is required")
digest_of _ = err (value_error "canonical request digest is required")

-- The dict `expected` of `_verify_activation_command_evidence`.
unfoldable pub command_bindings : Json → String → String × Activation → List (String × Json)
unfolding get_field
command_bindings result digest (activation_id, a) =
    ("activation_id", str activation_id)
    ∷ ("command_id", get_field "command_id" result)
    ∷ ("request_digest", str digest)
    ∷ ("lease_fence", maybe_nat a.lease_fence)
    ∷ ("machine_id", maybe_str a.machine_id)
    ∷ ("agent_id", maybe_str a.agent_id)
    ∷ ("objective_id", str a.objective_id)
    ∷ ("trace_id", maybe_str a.trace_id)
    ∷ ("system_generation_id", maybe_str a.system_generation_id)
    ∷ ("capability_activation_set_id", maybe_str a.capability_activation_set_id)
    ∷ []

-- `payload.get(field)==value` for every field
unfoldable pub has_bindings : List (String × Json) → Json → Bool
unfolding get_field py_eq
has_bindings [] payload = true
has_bindings ((k, v) ∷ more) payload = py_eq (get_field k payload) v && has_bindings more payload

-- The evidence of a command: its subject is the command, its source the request's digest.
unfoldable pub command_evidence : Json → Service → String → Expected
unfolding get_field
command_evidence result principal digest = record {
  subject = get_field "command_id" result;
  producer = principal_text principal;
  source = str digest;
  operation = some (str "command.commit");
  disposition = given (get_field "state" result);
}

-- `result["durable_record_id"]` of a result that was validated.
abbrev pub durable_of : Json → Json
durable_of result = get_field "durable_record_id" result

-- The answer to a command that is stored under another digest.
abbrev pub mismatch_answer : Json → Json
mismatch_answer stored = object (("status", str "digest_mismatch") ∷ ("result", stored) ∷ [])

-- `_resolve_activation` on the items of a request; `now` is the database's clock.
unfoldable pub resolved : (String → String) → Json → ℕ → Db → Result (String × Activation)
unfolding item
resolved sha256 request now db = do
  binding ← item "binding" request
  credential ← item "activation_credential" request
  found ← resolve_activation sha256 binding credential now db
  ok found.0

module _ (authority : EvidenceAuthority) where
  open authority use {verify_record}

  -- `_verify_activation_command_evidence`
  unfoldable pub verify_command :
      Json → String → Json → String × Activation → Service → Result (Unit {0})
  unfolding command_evidence command_bindings has_bindings payload_of
  verify_command reference digest result activation principal = do
    evidence ← verify_record (command_evidence result principal digest) reference
    payload ← payload_of evidence
    reject_if (not (has_bindings (command_bindings result digest activation) payload))
        (ledger_corrupt "command evidence does not bind the activation command")

  -- The checks on a row that was found.
  unfoldable pub check_stored : LedgerRow → String → String × Activation → Service → Result Json
  unfolding validate_result verify_command get_field py_eq
  check_stored row command_id activation principal = do
    stored ← validate_result row.committed_result command_id
    reject_if (not (py_eq (durable_of stored) (str row.evidence_ref)))
        (ledger_corrupt "command ledger evidence binding is corrupt")
    verify_command (durable_of stored) row.request_digest stored activation principal
    ok stored

  -- The branches `if row:` and the insertion behind it.
  unfoldable pub commit_found :
      Json
      → String
      → String
      → String × Activation
      → Service
      → Option LedgerRow
      → List LedgerRow
      → Result (Json × List LedgerRow)
  unfolding check_stored validate_result verify_command item
  commit_found request digest command_id activation principal (some row) rows = do
    stored ← check_stored row command_id activation principal
    ok (if row.request_digest == digest then stored else mismatch_answer stored, rows)
  commit_found request digest command_id activation principal none rows = do
    proposed ← item "result" request
    result ← validate_result proposed command_id
    verify_command (durable_of result) digest result activation principal
    ok (result, rows ++ written activation.0 command_id digest result ∷ [])

  module _ (sha256 : String → String) where
    -- `commit_activation_command`
    unfoldable pub commit_activation_command :
        Json → Service → ℕ → Db → List LedgerRow → Result (Json × List LedgerRow)
    unfolding resolved item text_item digest_of commit_found find_commit
    commit_activation_command request principal now db rows = do
      reject_if (not (service_name principal == "service:abi"))
          (value_error "activation command commit requires ABI principal")
      digest ← item "request_digest" request >>= digest_of
      activation ← resolved sha256 request now db
      command_id ← text_item "command_id" request
      commit_found request digest command_id activation principal
          (find_commit activation.0 command_id rows) rows

    unfoldable answer_stored :
        Option LedgerRow → String → String × Activation → Service → Result (Option Json)
    unfolding check_stored
    answer_stored none command_id activation principal = ok none
    answer_stored (some row) command_id activation principal =
        check_stored row command_id activation principal >>= λ stored. ok (some stored)

    -- `get_activation_command`
    unfoldable pub get_activation_command :
        Json → Service → ℕ → Db → List LedgerRow → Result (Option Json)
    unfolding resolved text_item answer_stored find_commit
    get_activation_command request principal now db rows = do
      reject_if (not (service_name principal == "service:abi"))
          (value_error "activation command lookup requires ABI principal")
      activation ← resolved sha256 request now db
      command_id ← text_item "command_id" request
      answer_stored (find_commit activation.0 command_id rows) command_id activation principal
