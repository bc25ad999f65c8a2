-- ===== src/Lifecycle/Examples.antt =====
-- Test data of the lifecycle store, and what a transaction that is run on it leaves.
use nix_ai.Lifecycle.Claims.{Claim}
-- A stand-in for the digest.
use nix_ai.Prelude.{String, Result, ok, err, ◌∷◌, none, [], true, some}
use nix_ai.Json.{Json, null, object, str, boolean, nat}
use nix_ai.Lifecycle.States.{ActivationState, ObjectiveState, WakeState}
use nix_ai.Lifecycle.Db.{Db, empty, ChangeState, Candidate, Activation}

abbrev pub digest : String → String
digest s = "0"

abbrev pub answer_of : Result (Json × Db) → Json
answer_of (ok (r, db)) = r
answer_of (err e) = null

abbrev pub after_of {ℓ} : {A : Type ℓ} → Result (A × Db) → Db
after_of (ok (a, db)) = db
after_of (err e) = empty

abbrev pub row_of {ℓ} : {A : Type ℓ} → A → Result (A × Db) → A
row_of d (ok (a, db)) = a
row_of d (err e) = d

-- A governed change in a state, over the active generation that it replaces.
abbrev pub artifact : String
artifact = "sha256:aaaaaaaaaaaaaaaaaaaaaaaaaaaaaaaaaaaaaaaaaaaaaaaaaaaaaaaaaaaaaaaa"

abbrev pub candidate_in : ChangeState → Candidate
candidate_in state = record {
  source_digest = artifact;
  evaluator_generation = "service:evaluator";
  target_generation = "generation:2";
  rollback_generation = "generation:1";
  threshold = null;
  state = state;
  evidence_ref = "evidence:1";
  version = 2;
  evaluator_closure = some "closure:1";
  active_generation = none;
  dependency_closure_digest = some artifact;
  contract_version = some "1";
  tests_digest = some artifact;
  requested_authority = some [];
  signing_key_digest = some artifact;
  live_verification_contract = some "contract:1";
  expected_active_version = some 4;
  activation_binding_version = none;
}

abbrev pub observed : Json
observed = object (
    ("artifact_digest", str artifact)
    ∷ ("evaluator_closure", str "closure:1")
    ∷ ("passed", boolean true)
    ∷ [])

abbrev pub change_in : ChangeState → Db
change_in state = record empty {
  candidates = ("change:1", candidate_in state) ∷ [];
  change_history =
      record {
        candidate_id = "change:1";
        version = 2;
        previous_state = none;
        new_state = state;
        command_id = "command:0";
        actor = "service:controller";
        evidence_ref = "evidence:0";
        observation = some observed;
      }
      ∷ [];
  active_generation = some (record {
    active_generation = "generation:1";
    previous_generation = none;
    candidate_id = "bootstrap";
    version = 4;
  });
}

-- An activation, its binding as it is shown, and the tables that hold it.
abbrev pub bound_row : Activation
bound_row = record {
  objective_id = "objective:1";
  state = ActivationState.leased;
  lease_owner = some "worker:1";
  lease_expires_at = some 90;
  monotonic_started = none;
  version = 1;
  wake_id = some "wake:1";
  machine_id = some "machine:1";
  agent_id = some "agent:1";
  lease_fence = some 3;
  system_generation_id = some "generation:1";
  capability_activation_set_id = some "set:1";
  context_bundle_id = none;
  capability_grant_ids = none;
  isolation_profile_id = none;
  resource_lease_id = none;
  deadline = some 90;
  trace_id = some "trace:1";
  correlation_id = none;
  credential_digest = some "sha256:0";
  credential_key_version = some 1;
}

abbrev pub shown : Json
shown = object (
    ("activation_id", str "activation:1")
    ∷ ("machine_id", str "machine:1")
    ∷ ("agent_id", str "agent:1")
    ∷ ("objective_id", str "objective:1")
    ∷ ("lease_fence", nat 3)
    ∷ ("system_generation_id", str "generation:1")
    ∷ ("capability_activation_set_id", str "set:1")
    ∷ ("deadline", nat 80)
    ∷ ("trace_id", str "trace:1")
    ∷ [])

abbrev pub held : Db
held = record empty {
  activations = ("activation:1", bound_row) ∷ [];
  active_generation = some (record {
    active_generation = "generation:1";
    previous_generation = none;
    candidate_id = "bootstrap";
    version = 1;
  });
  capability_sets =
      (
        "set:1",
        record {
          generation_id = "generation:1";
          grant_ids = [];
          evidence_ref = "evidence:1";
          active = true;
          version = 1;
        },
      )
      ∷ [];
}

-- A claim, and tables in which it claims an activation anew.
abbrev pub claim : Claim
claim = record {
  command_id = "command:1";
  activation_id = "activation:1";
  objective_id = "objective:1";
  wake_id = "wake:1";
  machine_id = "machine:1";
  agent_id = "agent:1";
  lease_owner = "service:scheduler";
  lease_seconds = 60;
  context_bundle_id = "context:1";
  isolation_profile_id = "isolation:1";
  resource_lease_id = "resource-lease:1";
  trace_id = "trace:1";
  correlation_id = "correlation:1";
  credential_digest = artifact;
  credential_key_version = 1;
  evidence_ref = "s3://evidence/sha256/1";
}

abbrev pub reclaimable_row : Activation
reclaimable_row = record bound_row {
  state = ActivationState.requested;
  lease_owner = none;
  lease_expires_at = none;
}

abbrev pub reclaimable : Db
reclaimable = record held {
  objectives = ("objective:1", record { state = ObjectiveState.proposed; version = 1 }) ∷ [];
  wakes =
      (
        "wake:1",
        record {
          objective_id = "objective:1";
          state = WakeState.released;
          due_at = 10;
          lease_owner = none;
          lease_expires_at = none;
          created_command = "command:0";
          version = 3;
        },
      )
      ∷ [];
  activations = ("activation:1", reclaimable_row) ∷ [];
}
