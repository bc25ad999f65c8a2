-- ===== src/Lifecycle/Runtime/Tests.antt =====
-- Tests of the runtime's operations on concrete tables.

use nix_ai.Lifecycle.Db.{Wake, Db, empty, EffectState, Objective}
use nix_ai.Prelude.{Result, Option, none, ◌∷◌, false, some, [], String, true, ◌≡◌, ◌+◌, refl, ok}
use nix_ai.Lifecycle.Runtime.{
  complete_ready_objective, is_complete, schedule_objective, schedule_body,
}
use nix_ai.Lifecycle.States.{WakeState, ObjectiveState, is_proposed}
use nix_ai.Json.{Json, null}
use nix_ai.Table.{get, put, pick, find_row}
use nix_ai.Lifecycle.Examples.{digest, after_of, row_of, answer_of}
use nix_ai.Lifecycle.Wakes.{next_due}
use nix_ai.Lifecycle.Guards.{joined_effects}
use nix_ai.Lifecycle.Runtime.Completion.{complete_ready_objective-guarded}
use nix_ai.Lifecycle.Transaction.{once}
use nix_ai.Lifecycle.Replays.{schedule_objective_again}

abbrev due_wake : Wake
due_wake = record {
  objective_id = "objective:1";
  state = WakeState.pending;
  due_at = 5;
  lease_owner = none;
  lease_expires_at = none;
  version = 1;
  created_command = "command:1";
}

abbrev ready : Db
ready = record empty {
  objectives = ("objective:1", record { state = ObjectiveState.proposed; version = 1 }) ∷ [];
  wakes = ("wake:1", due_wake) ∷ [];
  durable_effects =
      (
        "effect:1",
        record {
          activation_id = "objective:1";
          request_digest = "sha256:1";
          state = EffectState.committed;
          external_ref = some "provider://call/1";
          evidence_ref = some "evidence:1";
          version = 3;
        },
      )
      ∷ [];
  effect_records =
      (
        "effect:1",
        record {
          objective_id = "objective:1";
          request_digest = "sha256:1";
          state = "ObservedSucceeded";
          compensates_effect_id = none;
          version = 3;
        },
      )
      ∷ [];
  guards =
      ("objective:1", record { effect_set_digest = "sha256:0"; effect_count = 1; ready = true })
      ∷ [];
}

abbrev completed : Result (Option Json × Db)
completed = complete_ready_objective digest (λ s. false) 10 ready

abbrev json_of : Option Json → Json
json_of none = null
json_of (some r) = r

complete_ready_objective-guarded_example :
    (wake_id : String) × (wake : Wake) × (objective : Objective) × (next_due
        (λ s. false)
        10
        ready.wakes
      ≡ some (wake_id, wake))
    × (get wake.objective_id ready.objectives ≡ some objective)
    × (is_proposed objective.state ≡ true)
    × (is_complete digest
          (get wake.objective_id ready.guards)
          (joined_effects wake.objective_id ready)
        ≡ true)
    × (get wake.objective_id (after_of completed).objectives
        ≡ some (record { state = ObjectiveState.satisfied; version = objective.version + 1 }))
    × (get wake_id (after_of completed).wakes
        ≡ some (record wake { state = WakeState.acknowledged; version = wake.version + 1 }))
unfolding complete_ready_objective get put pick
complete_ready_objective-guarded_example =
    complete_ready_objective-guarded digest (λ s. false) 10 ready (after_of completed)
      (json_of (row_of none completed)) refl

abbrev scheduled : Result (Json × Db)
scheduled = schedule_objective digest "objective:2" 10 empty

schedule_objective_again_example :
    schedule_objective digest "objective:2" 99 (after_of scheduled)
    ≡ ok (answer_of scheduled, after_of scheduled)
unfolding schedule_objective schedule_body once get put find_row
schedule_objective_again_example =
    schedule_objective_again digest "objective:2" 10 99 empty (after_of scheduled)
      (answer_of scheduled) refl
