-- ===== src/Verified/Commands/Tests.antt =====
-- Tests of an activation's commands, over an evidence store with one record.
use nix_ai.Prelude.{String, text_append, ◌∷◌, true, [], ◌≡◌, ok, some, ◌⊎◌, refl}
use nix_ai.Json.{has_exactly, Json, object, str, boolean, nat, null, array}
use nix_ai.Verified.{EvidenceAuthority, payload_of, text_item, item}
use nix_ai.Ledger.{LedgerRow, written, find_commit, validate_result}
use nix_ai.Verified.Commands.{
  commit_activation_command, commit_found, resolved, get_activation_command, mismatch_answer,
  command_evidence, has_bindings, command_bindings,
}
use nix_ai.Verified.Bound.{bind_evidence}
use nix_ai.Verified.Examples.{hexes, one_digest, one_object, loads}
use nix_ai.Lifecycle.Resolve.{resolve_activation}
use nix_ai.Lifecycle.Examples.{shown, digest, held}
use nix_ai.Evidence.{verify_record}
use nix_ai.Table.{get, find_row}
use nix_ai.Lifecycle.Db.{Activation}
use nix_ai.Protocol.Roles.{abi, service_name}
use nix_ai.Evidence.Bindings.{Binds}
use nix_ai.Verified.Commands.Replays.{commit_activation_command_again, told}
use nix_ai.Verified.Commands.Bindings.{commit_activation_command-Binds}

abbrev durable : String
durable = text_append "s3://evidence/sha256/" hexes

abbrev request_digest : String
request_digest = text_append "sha256:" hexes

abbrev result : Json
result = object (
    ("command_id", str "command:1")
    ∷ ("committed", boolean true)
    ∷ ("durable_record_id", str durable)
    ∷ ("state", str "DISPOSITION_COMMITTED")
    ∷ ("error", null)
    ∷ ("evidence_refs", array (str durable ∷ []))
    ∷ [])

abbrev evidence : Json
evidence = object (
    ("producer", str "service:abi")
    ∷ ("subject", str "command:1")
    ∷ ("operation", str "command.commit")
    ∷ ("source", str request_digest)
    ∷ (
      "payload",
      object (
          ("disposition", str "DISPOSITION_COMMITTED")
          ∷ ("activation_id", str "activation:1")
          ∷ ("command_id", str "command:1")
          ∷ ("request_digest", str request_digest)
          ∷ ("lease_fence", nat 3)
          ∷ ("machine_id", str "machine:1")
          ∷ ("agent_id", str "agent:1")
          ∷ ("objective_id", str "objective:1")
          ∷ ("trace_id", str "trace:1")
          ∷ ("system_generation_id", str "generation:1")
          ∷ ("capability_activation_set_id", str "set:1")
          ∷ []),
    )
    ∷ [])

abbrev authority : EvidenceAuthority
authority = bind_evidence one_digest "evidence" one_object (loads evidence)

abbrev request : Json
request = object (
    ("request_digest", str request_digest)
    ∷ ("binding", shown)
    ∷ ("activation_credential", str "secret")
    ∷ ("command_id", str "command:1")
    ∷ ("result", result)
    ∷ [])

abbrev committed : LedgerRow
committed = written "activation:1" "command:1" request_digest result

commit_activation_command_again_example :
    (commit_activation_command authority digest request abi 50 held (committed ∷ [])
      ≡ ok (result, committed ∷ []))
    × ((stored : Json) × (get_activation_command authority digest request abi 50 held
            (committed ∷ [])
          ≡ ok (some stored))
        × ((result ≡ stored) ⊎ (result ≡ mismatch_answer stored)))
unfolding commit_activation_command commit_found resolved resolve_activation verify_record
    bind_evidence get find_row has_exactly
commit_activation_command_again_example =
    commit_activation_command_again authority digest request abi 40 50 held held [] (committed ∷ [])
      result refl refl

commit_activation_command-Binds_example :
    (activation : String × Activation) × (command_id : String) × (row : LedgerRow) × (stored
      evidence payload : Json)
    × (service_name abi ≡ "service:abi")
    × (resolved digest request 40 held ≡ ok activation)
    × (text_item "command_id" request ≡ ok command_id)
    × (find_commit activation.0 command_id (committed ∷ []) ≡ some row)
    × (validate_result row.committed_result command_id ≡ ok stored)
    × (authority.verify_record
          (command_evidence stored abi row.request_digest)
          (str row.evidence_ref)
        ≡ ok evidence)
    × Binds (command_evidence stored abi row.request_digest) evidence
    × (payload_of evidence ≡ ok payload)
    × (has_bindings (command_bindings stored row.request_digest activation) payload ≡ true)
    × ((digest : String) × (item "request_digest" request ≡ ok (str digest))
        × (result ≡ told row digest stored))
unfolding commit_activation_command commit_found resolved resolve_activation verify_record
    bind_evidence get find_row has_exactly
commit_activation_command-Binds_example =
    commit_activation_command-Binds authority digest request abi 40 held [] (committed ∷ []) result
      refl
