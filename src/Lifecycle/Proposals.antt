-- ===== src/Lifecycle/Proposals.antt =====
-- Proposals of governed changes: `propose_governed_change`, the legacy `propose_change` and
-- `ensure_active_generation`, the states
-- of a change, and the writes of its tables.
use nix_ai.Json.{Json, str, array, object, nat}
use nix_ai.Lifecycle.Db.{
  ChangeState, Candidate, ChangeRow, ActiveGeneration, other, proposed, built, evaluated, confirmed,
  signed, staged, activated, rejected, quarantined, rolled_back,
}
use nix_ai.Lifecycle.Transaction.{
  ◌>>=◌, recorded, Tx, fingerprint, modify, gets, ◌>>◌, raise_if, require_row, once, pure,
}
use nix_ai.Prelude.{
  String, List, ℕ, Option, Bool, ◌∷◌, none, true, ◌==◌, if◌then◌else◌, false, some, is_some, any,
  ◌&&◌, beq, [], not, is_empty_text, unique_violation, value_error, starts_with, ◌||◌, ◌++◌,
  is_digest_text,
}
use nix_ai.Table.{put, get}

abbrev pub change_name : ChangeState → String
change_name proposed = "PROPOSED"
change_name built = "BUILT"
change_name evaluated = "EVALUATED"
change_name signed = "SIGNED"
change_name staged = "STAGED"
change_name activated = "ACTIVATED"
change_name confirmed = "CONFIRMED"
change_name rejected = "REJECTED"
change_name quarantined = "QUARANTINED"
change_name rolled_back = "ROLLED_BACK"
change_name (other s) = s

-- The dict `legal` of `transition_governed_change`.
unfoldable pub legal_change : ChangeState → ChangeState → Bool
legal_change proposed built = true
legal_change proposed rejected = true
legal_change built evaluated = true
legal_change built rejected = true
legal_change built quarantined = true
legal_change evaluated signed = true
legal_change evaluated rejected = true
legal_change evaluated quarantined = true
legal_change signed staged = true
legal_change signed quarantined = true
legal_change staged activated = true
legal_change staged quarantined = true
legal_change activated confirmed = true
legal_change activated quarantined = true
legal_change activated rolled_back = true
legal_change quarantined rolled_back = true
legal_change _ _ = false

-- `new_state in {"BUILT","EVALUATED","SIGNED","STAGED","ACTIVATED"}`
abbrev pub is_measured : ChangeState → Bool
is_measured built = true
is_measured evaluated = true
is_measured signed = true
is_measured staged = true
is_measured activated = true
is_measured _ = false

abbrev pub is_built : ChangeState → Bool
is_built built = true
is_built _ = false

abbrev pub is_evaluated : ChangeState → Bool
is_evaluated evaluated = true
is_evaluated _ = false

abbrev pub is_confirmed : ChangeState → Bool
is_confirmed confirmed = true
is_confirmed _ = false

-- `ensure_active_generation`
pub ensure_active_generation : String → Tx (Unit {0})
unfolding ◌>>=◌
ensure_active_generation generation = do
  raise_if (not (starts_with generation "generation:"))
      (value_error "active generation identity is invalid")
  modify (λ db. record db {
    active_generation = elim db.active_generation [
      | some bound ↦ some bound
      | none ↦ some (record {
        active_generation = generation;
        previous_generation = none;
        candidate_id = "system:boot";
        version = 1;
      })
    ];
  })

-- The arguments of `propose_governed_change` behind the identities of candidate and command.
pub record Proposal : Type 0 where
  pub source_digest : String
  pub evaluator : String
  pub evaluator_closure : String
  pub target_generation : String
  pub rollback_generation : String
  pub threshold : Json
  pub evidence_ref : String
  pub dependency_closure_digest : String
  pub contract_version : String
  pub tests_digest : String
  pub requested_authority : List String
  pub signing_key_digest : String
  pub live_verification_contract : String

proposal_checks : Proposal → Tx (Unit {0})
unfolding ◌>>=◌
proposal_checks p = do
  raise_if
      (is_empty_text p.evaluator
        || not (starts_with p.evaluator_closure "sha256:")
        || not (is_digest_text p.source_digest))
      (value_error "protected evaluator identity and closure are required")
  raise_if
      (not (p.contract_version == "V2.0.1")
        || not (is_digest_text p.dependency_closure_digest)
        || not (is_digest_text p.tests_digest)
        || not (is_digest_text p.signing_key_digest)
        || any is_empty_text p.requested_authority
        || is_empty_text p.live_verification_contract)
      (value_error "governed candidate immutable bindings are incomplete")
  raise_if (p.target_generation == p.rollback_generation)
      (value_error "rollback generation must precede candidate generation")

json_texts : List String → List Json
json_texts [] = []
json_texts (s ∷ ss) = str s ∷ json_texts ss

proposal_fingerprint : (String → String) → String → Proposal → String
unfolding json_texts
proposal_fingerprint sha256 candidate_id p = fingerprint sha256 "propose_governed_change" (
    str candidate_id
    ∷ str p.source_digest
    ∷ str p.evaluator
    ∷ str p.evaluator_closure
    ∷ str p.target_generation
    ∷ str p.rollback_generation
    ∷ p.threshold
    ∷ str p.evidence_ref
    ∷ str p.dependency_closure_digest
    ∷ str p.contract_version
    ∷ str p.tests_digest
    ∷ array (json_texts p.requested_authority)
    ∷ str p.signing_key_digest
    ∷ str p.live_verification_contract
    ∷ [])

-- The row that a proposal inserts; `version` is that of the active generation's binding.
abbrev pub proposed_candidate : Proposal → ℕ → Candidate
proposed_candidate p version = record {
  source_digest = p.source_digest;
  evaluator_generation = p.evaluator;
  target_generation = p.target_generation;
  rollback_generation = p.rollback_generation;
  threshold = p.threshold;
  state = ChangeState.proposed;
  evidence_ref = p.evidence_ref;
  version = 1;
  evaluator_closure = some p.evaluator_closure;
  active_generation = none;
  dependency_closure_digest = some p.dependency_closure_digest;
  contract_version = some p.contract_version;
  tests_digest = some p.tests_digest;
  requested_authority = some p.requested_authority;
  signing_key_digest = some p.signing_key_digest;
  live_verification_contract = some p.live_verification_contract;
  expected_active_version = some version;
  activation_binding_version = none;
}

unfoldable pub update_candidate : String → Candidate → Tx (Unit {0})
unfolding ◌>>=◌
update_candidate candidate_id c =
    modify (λ db. record db { candidates = put candidate_id c db.candidates })

-- INSERT INTO change_candidates
unfoldable pub insert_candidate : String → Candidate → Tx (Unit {0})
unfolding update_candidate
insert_candidate candidate_id c = do
  used ← gets (λ db. is_some (get candidate_id db.candidates))
  raise_if used (unique_violation "change_candidates_pkey")
  update_candidate candidate_id c

-- The row of the legacy proposal, which has NULL in the later columns.
abbrev legacy_candidate : String → String → String → String → Json → String → Candidate
legacy_candidate source_digest evaluator_generation target_generation rollback_generation threshold
      evidence_ref =
    record {
      source_digest = source_digest;
      evaluator_generation = evaluator_generation;
      target_generation = target_generation;
      rollback_generation = rollback_generation;
      threshold = threshold;
      state = ChangeState.proposed;
      evidence_ref = evidence_ref;
      version = 1;
      evaluator_closure = none;
      active_generation = none;
      dependency_closure_digest = none;
      contract_version = none;
      tests_digest = none;
      requested_authority = none;
      signing_key_digest = none;
      live_verification_contract = none;
      expected_active_version = none;
      activation_binding_version = none;
    }

-- `propose_change`, the legacy proposal: no command and no history.
pub propose_change : String → String → String → String → String → Json → String → Tx Json
unfolding ◌>>=◌ insert_candidate
propose_change candidate_id source_digest evaluator_generation target_generation rollback_generation
      threshold evidence_ref =
    do
      raise_if (target_generation == rollback_generation)
          (value_error "rollback generation must precede candidate generation")
      insert_candidate candidate_id (
          legacy_candidate source_digest evaluator_generation target_generation rollback_generation
            threshold evidence_ref)
      pure (
          object (
            ("candidate_id", str candidate_id)
            ∷ ("state", str "PROPOSED")
            ∷ ("version", nat 1)
            ∷ []))

-- INSERT INTO change_history: the key is (candidate_id,version), and `command_id` is UNIQUE.
unfoldable pub insert_change : ChangeRow → Tx (Unit {0})
unfolding ◌>>=◌
insert_change row = do
  used ← gets (λ db.
      any (λ r. r.candidate_id == row.candidate_id && beq r.version row.version) db.change_history)
  raise_if used (unique_violation "change_history_pkey")
  sent ← gets (λ db. any (λ r. r.command_id == row.command_id) db.change_history)
  raise_if sent (unique_violation "change_history_command_id_key")
  modify (λ db. record db { change_history = db.change_history ++ row ∷ [] })

abbrev bound_to : String → Option ActiveGeneration → Option ActiveGeneration
bound_to generation none = none
bound_to generation (some b) = if b.active_generation == generation then some b else none

propose_body : String → String → Proposal → String → Tx Json
unfolding insert_candidate insert_change recorded
propose_body candidate_id command_id p fp = do
  row ← gets (λ db. db.active_generation)
  binding ←
      require_row (bound_to p.rollback_generation row)
        (value_error "rollback generation is not the active generation")
  insert_candidate candidate_id (proposed_candidate p binding.version)
  insert_change (record {
    candidate_id = candidate_id;
    version = 1;
    previous_state = none;
    new_state = ChangeState.proposed;
    command_id = command_id;
    actor = p.evaluator;
    evidence_ref = p.evidence_ref;
    observation = none;
  })
  recorded command_id fp (
      object (
        ("candidate_id", str candidate_id)
        ∷ ("state", str "PROPOSED")
        ∷ ("version", nat 1)
        ∷ ("target_generation", str p.target_generation)
        ∷ ("rollback_generation", str p.rollback_generation)
        ∷ []))

-- `propose_governed_change`
pub propose_governed_change : (String → String) → String → String → Proposal → Tx Json
unfolding ◌>>=◌
propose_governed_change sha256 candidate_id command_id p = do
  proposal_checks p
  let fp = proposal_fingerprint sha256 candidate_id p
  once command_id fp (propose_body candidate_id command_id p fp)
