-- ===== src/Lifecycle/Changes/Tests.antt =====
-- Tests of the governed changes on concrete tables.

use nix_ai.Prelude.{Result, true, some, ◌≡◌, ok, refl}
use nix_ai.Lifecycle.Db.{Candidate, Db, activated, evaluated, staged, built, ActiveGeneration}
use nix_ai.Json.{Json, str, py_eq, get_field, is_true, maybe_str}
use nix_ai.Lifecycle.Changes.{
  transition_governed_change, change_body, same_artifact, prior_observation,
}
use nix_ai.Lifecycle.Examples.{digest, after_of, answer_of, observed, change_in}
use nix_ai.Lifecycle.Transaction.{once}
use nix_ai.Table.{get, put}
use nix_ai.Lifecycle.Proposals.{legal_change}
use nix_ai.Lifecycle.Replays.{transition_governed_change_again}
use nix_ai.Lifecycle.Changes.Stages.{transition_evaluated, activated_over, transition_activated}

abbrev activating : Result (Json × Db)
activating =
    transition_governed_change digest "change:1" "command:1" activated "service:controller"
      "evidence:2" observed (change_in staged)

transition_activated_example :
    (c : Candidate) × (b : ActiveGeneration) × (get "change:1" (change_in staged).candidates
      ≡ some c)
    × (legal_change c.state activated ≡ true)
    × (same_artifact observed
          (prior_observation "change:1" c.state (change_in staged).change_history)
        ≡ true)
    × ((change_in staged).active_generation ≡ some b)
    × (b.active_generation ≡ c.rollback_generation)
    × (c.expected_active_version ≡ some b.version)
    × ((after_of activating).active_generation ≡ some (activated_over "change:1" c b))
unfolding transition_governed_change change_body once get put
transition_activated_example =
    transition_activated digest "change:1" "command:1" "service:controller" "evidence:2" observed
      (change_in staged) (after_of activating) (answer_of activating) refl refl

abbrev evaluating : Result (Json × Db)
evaluating =
    transition_governed_change digest "change:1" "command:1" evaluated "service:evaluator"
      "evidence:2" observed (change_in built)

transition_evaluated_example :
    (c : Candidate) × (get "change:1" (change_in built).candidates ≡ some c)
    × (c.state ≡ built)
    × ("service:evaluator" ≡ c.evaluator_generation)
    × (py_eq (get_field "evaluator_closure" observed) (maybe_str c.evaluator_closure) ≡ true)
    × (py_eq (get_field "artifact_digest" observed) (str c.source_digest) ≡ true)
    × (is_true (get_field "passed" observed) ≡ true)
    × ((after_of evaluating).active_generation ≡ (change_in built).active_generation)
unfolding transition_governed_change change_body once get put
transition_evaluated_example =
    transition_evaluated digest "change:1" "command:1" "service:evaluator" "evidence:2" observed
      (change_in built) (after_of evaluating) (answer_of evaluating) refl refl

transition_governed_change_again_example :
    transition_governed_change digest "change:1" "command:1" evaluated "service:evaluator"
      "evidence:2" observed
      (after_of evaluating)
    ≡ ok (answer_of evaluating, after_of evaluating)
unfolding transition_governed_change change_body once get put
transition_governed_change_again_example =
    transition_governed_change_again digest "change:1" "command:1" evaluated "service:evaluator"
      "evidence:2" observed (change_in built) (after_of evaluating) (answer_of evaluating) refl
