-- ===== src/Verified/Changes.antt =====
-- `propose_verified_change` and `transition_verified_change`.
use nix_ai.Prelude.{
  List, String, Result, ◌∷◌, [], err, ◌>>=◌, value_error, ok, some, reject_if, not, ledger_corrupt,
}
use nix_ai.Verified.{
  texts, text_item, EvidenceAuthority, item, payload_of, principal_text, binds, given,
}
use nix_ai.Json.{Json, arr, str}
use nix_ai.Protocol.Roles.{Service}
use nix_ai.Protocol.Repository.{change_state}
use nix_ai.Lifecycle.Proposals.{Proposal}
use nix_ai.Evidence.{Expected}
use nix_ai.Protocol.ChangeRole.{evidence_operation}
use nix_ai.Lifecycle.Db.{ChangeState}

unfoldable pub proposal_fields : List String
proposal_fields =
    "dependency_closure_digest" ∷ "contract_version" ∷ "tests_digest" ∷ "requested_authority"
    ∷ "signing_key_digest" ∷ "live_verification_contract" ∷ "evaluator" ∷ "evaluator_closure"
    ∷ "target_generation" ∷ "rollback_generation" ∷ "threshold" ∷ []

-- A list of texts; a value of another type fails the first checks of `propose_governed_change`.
unfoldable pub authority_texts : Json → Result (List String)
unfolding texts
authority_texts (arr xs) = texts xs
authority_texts _ = err (value_error "governed candidate immutable bindings are incomplete")

-- The arguments of `propose_governed_change` in a request.
unfoldable pub read_proposal : Json → Result (String × String × Proposal)
unfolding text_item item authority_texts
read_proposal request = do
  candidate_id ← text_item "candidate_id" request
  command_id ← text_item "command_id" request
  source_digest ← text_item "source_digest" request
  evaluator ← text_item "evaluator" request
  evaluator_closure ← text_item "evaluator_closure" request
  target_generation ← text_item "target_generation" request
  rollback_generation ← text_item "rollback_generation" request
  threshold ← item "threshold" request
  evidence_ref ← text_item "evidence_ref" request
  dependency_closure_digest ← text_item "dependency_closure_digest" request
  contract_version ← text_item "contract_version" request
  tests_digest ← text_item "tests_digest" request
  requested_authority ← item "requested_authority" request >>= authority_texts
  signing_key_digest ← text_item "signing_key_digest" request
  live_verification_contract ← text_item "live_verification_contract" request
  ok (
    candidate_id,
    command_id,
    record {
      source_digest = source_digest;
      evaluator = evaluator;
      evaluator_closure = evaluator_closure;
      target_generation = target_generation;
      rollback_generation = rollback_generation;
      threshold = threshold;
      evidence_ref = evidence_ref;
      dependency_closure_digest = dependency_closure_digest;
      contract_version = contract_version;
      tests_digest = tests_digest;
      requested_authority = requested_authority;
      signing_key_digest = signing_key_digest;
      live_verification_contract = live_verification_contract;
    },
  )

-- The evidence of a change: its subject is the candidate, its producer the caller.
abbrev pub change_evidence : Json → Service → Json → String → Json → Expected
change_evidence candidate principal source operation disposition = record {
  subject = candidate;
  producer = principal_text principal;
  source = source;
  operation = some (str operation);
  disposition = given disposition;
}

-- The arguments of `transition_governed_change` in a request.
unfoldable pub read_transition : Json → Result (String × String × ChangeState × String × String)
unfolding text_item change_state
read_transition request = do
  candidate_id ← text_item "candidate_id" request
  command_id ← text_item "command_id" request
  new_state ← text_item "new_state" request
  actor ← text_item "actor" request
  evidence_ref ← text_item "evidence_ref" request
  ok (candidate_id, command_id, change_state new_state, actor, evidence_ref)

module _ (authority : EvidenceAuthority) where
  open authority use {verify_record}

  unfoldable pub check_proposal : Json → Service → Result (Unit {0})
  unfolding item payload_of binds proposal_fields
  check_proposal request principal = do
    reference ← item "evidence_ref" request
    candidate ← item "candidate_id" request
    source ← item "source_digest" request
    evidence ←
        verify_record (change_evidence candidate principal source "change.propose" (str "PROPOSED"))
          reference
    payload ← payload_of evidence
    reject_if (not (binds proposal_fields payload request))
        (ledger_corrupt "change proposal evidence does not bind the request")

  -- The evidence of a transition, whose payload is its observation. The state is one that
  -- `owns_transition` lets through.
  unfoldable pub check_transition : Json → Service → Result Json
  unfolding item text_item change_state evidence_operation
  check_transition request principal = do
    reference ← item "evidence_ref" request
    candidate ← item "candidate_id" request
    source ← item "evidence_source" request
    state ← text_item "new_state" request
    verify_record
        (change_evidence candidate principal source (evidence_operation (change_state state))
          (str state))
        reference
