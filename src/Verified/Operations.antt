-- ===== src/Verified/Operations.antt =====
-- The operations of `PostgresRepository` that check evidence, as transactions of the lifecycle store.
mod Tests
pub mod Origins
use nix_ai.Verified.{EvidenceAuthority, payload_of, text_item, item, number_item}
use nix_ai.Prelude.{String, value_error, ℕ, not, Result, ◌==◌, some}
use nix_ai.Lifecycle.Transaction.{◌>>=◌, Tx, gets, lift, ◌>>◌, require_row, pure, raise_if}
use nix_ai.Verified.Effects.{observed_answer, read_effect, check_effect, effect_evidence}
use nix_ai.Verified.Changes.{check_proposal, read_proposal, check_transition, read_transition}
use nix_ai.Verified.Packages.{check_package, check_set, check_snapshot, read_set}
use nix_ai.Lifecycle.Inspection.{inspect_effect_projection, admit_package}
use nix_ai.Json.{Json, str, maybe_str, null}
use nix_ai.Protocol.Roles.{Service, service_name}
use nix_ai.Lifecycle.Effects.{observe_effect_transition}
use nix_ai.Lifecycle.Proposals.{propose_governed_change}
use nix_ai.Lifecycle.Capabilities.{publish_capability_activation_set}
use nix_ai.Lifecycle.Authority.{commit_authority_snapshot}
use nix_ai.Lifecycle.Changes.{transition_governed_change}
use nix_ai.Verified.Activations.{check_claim, read_claim, publish, verify_replayed}
use nix_ai.Lifecycle.Db.{Activation}
use nix_ai.Lifecycle.Claims.{claim_activation}
use nix_ai.Lifecycle.Resolve.{resolve_activation}

module _ (authority : EvidenceAuthority) (sha256 : String → String) where
  open authority use {verify_record}

  -- `observe_verified_effect`
  unfoldable pub observe_verified_effect : String → String → Tx Json
  unfolding ◌>>=◌ observed_answer inspect_effect_projection effect_evidence
  observe_verified_effect objective_id effect_id = do
    found ← gets (inspect_effect_projection objective_id effect_id)
    projection ← require_row found (value_error "effect projection not found")
    evidence ← lift (
        verify_record (effect_evidence (str effect_id) (maybe_str projection.0.external_ref) null)
          (maybe_str projection.0.evidence_ref))
    pure (observed_answer objective_id effect_id projection.0 projection.1 evidence)

  -- `apply_verified_effect_transition`
  unfoldable pub apply_verified_effect_transition : Json → Tx Json
  unfolding ◌>>=◌ read_effect check_effect
  apply_verified_effect_transition request = do
    lift (check_effect authority request)
    arguments ← lift (read_effect request)
    observe_effect_transition sha256 arguments.0 arguments.1 arguments.2

  -- `propose_verified_change`
  unfoldable pub propose_verified_change : Json → Service → Tx Json
  unfolding ◌>>=◌ check_proposal read_proposal
  propose_verified_change request principal = do
    lift (check_proposal authority request principal)
    arguments ← lift (read_proposal request)
    propose_governed_change sha256 arguments.0 arguments.1 arguments.2

  -- `transition_verified_change`
  unfoldable pub transition_verified_change : Json → Service → Tx Json
  unfolding ◌>>=◌ payload_of
  transition_verified_change request principal = do
    evidence ← lift (check_transition authority request principal)
    observation ← lift (payload_of evidence)
    q ← lift (read_transition request)
    transition_governed_change sha256 q.0 q.1 q.2 q.3 q.4 observation

  -- `admit_verified_package`
  unfoldable pub admit_verified_package : Json → Tx Json
  unfolding ◌>>=◌ check_package text_item item
  admit_verified_package request = do
    lift (check_package authority request)
    package_id ← lift (text_item "package_id" request)
    content_digest ← lift (text_item "content_digest" request)
    manifest ← lift (item "manifest" request)
    evidence_ref ← lift (text_item "evidence_ref" request)
    admit_package package_id content_digest manifest evidence_ref

  -- `publish_verified_capability_set`
  unfoldable pub publish_verified_capability_set : Json → Service → Tx Json
  unfolding ◌>>=◌ check_set read_set
  publish_verified_capability_set request principal = do
    lift (check_set authority request principal)
    p ← lift (read_set request)
    publish_capability_activation_set sha256 p

  -- `commit_verified_authority`
  unfoldable pub commit_verified_authority : Json → Tx Json
  unfolding ◌>>=◌ check_snapshot text_item item number_item
  commit_verified_authority request = do
    lift (check_snapshot authority request)
    binding_id ← lift (text_item "binding_id" request)
    command_id ← lift (text_item "command_id" request)
    expected_version ← lift (number_item "expected_version" request)
    generation ← lift (text_item "generation" request)
    snapshot ← lift (item "snapshot" request)
    snapshot_digest ← lift (text_item "snapshot_digest" request)
    evidence_ref ← lift (text_item "evidence_ref" request)
    commit_authority_snapshot sha256 binding_id command_id expected_version generation snapshot
        snapshot_digest evidence_ref

  -- `claim_verified_activation`; `now` is the database's clock.
  unfoldable pub claim_verified_activation :
      (Json → String → String → Result Json) → Json → Service → ℕ → Tx Json
  unfolding ◌>>=◌ check_claim read_claim publish verify_replayed
  claim_verified_activation put_evidence request principal now = do
    lift (check_claim authority request principal)
    claim ← lift (read_claim request)
    claim_activation sha256 (some (publish sha256 put_evidence))
        (some (verify_replayed authority sha256)) claim now

-- `resolve_activation`; the row is without the credential.
unfoldable pub resolve_for_abi : (String → String) → Json → Service → ℕ → Tx (String × Activation)
unfolding ◌>>=◌ item
resolve_for_abi sha256 request principal now = do
  raise_if (not (service_name principal == "service:abi"))
      (value_error "activation resolution requires ABI principal")
  binding ← lift (item "binding" request)
  credential ← lift (item "activation_credential" request)
  resolve_activation sha256 binding credential now
