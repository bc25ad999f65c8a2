-- ===== src/Verified/Operations/Tests.antt =====
-- Tests of the operations that check evidence, over an evidence store with one record.
use nix_ai.Prelude.{String, Result, ok, some, ◌∷◌, ◌≡◌, [], text_append, true, refl}
use nix_ai.Json.{Json, object, str}
use nix_ai.Verified.{EvidenceAuthority, payload_of, text_item, item}
use nix_ai.Verified.Operations.{transition_verified_change}
use nix_ai.Verified.Bound.{bind_evidence}
use nix_ai.Lifecycle.Db.{Db, Candidate, ActiveGeneration, staged}
use nix_ai.Verified.Changes.{check_transition, read_transition, change_evidence}
use nix_ai.Lifecycle.Examples.{digest, artifact, change_in, after_of, answer_of}
use nix_ai.Lifecycle.Changes.{
  transition_governed_change, change_body, same_artifact, prior_observation,
}
use nix_ai.Protocol.Roles.{controller}
use nix_ai.Lifecycle.Transaction.{once}
use nix_ai.Table.{get, put}
use nix_ai.Evidence.{verify_record}
use nix_ai.Evidence.Bindings.{Binds}
use nix_ai.Lifecycle.Changes.Stages.{activated_over}
use nix_ai.Verified.Operations.Origins.{transition_verified_change-activated}
use nix_ai.Verified.Examples.{one_digest, hexes, one_object, loads}

abbrev observation : Json
observation = object (("artifact_digest", str artifact) ∷ ("disposition", str "ACTIVATED") ∷ [])

abbrev activation_record : Json
activation_record = object (
    ("schema_version", str "1")
    ∷ ("producer", str "service:controller")
    ∷ ("subject", str "change:1")
    ∷ ("operation", str "change.activated")
    ∷ ("source", str artifact)
    ∷ ("payload", observation)
    ∷ [])

abbrev authority : EvidenceAuthority
authority = bind_evidence one_digest "evidence" one_object (loads activation_record)

abbrev activation_request : Json
activation_request = object (
    ("candidate_id", str "change:1")
    ∷ ("command_id", str "command:1")
    ∷ ("new_state", str "ACTIVATED")
    ∷ ("actor", str "service:controller")
    ∷ ("evidence_source", str artifact)
    ∷ ("evidence_ref", str (text_append "s3://evidence/sha256/" hexes))
    ∷ [])

abbrev transitioned : Result (Json × Db)
transitioned =
    transition_verified_change authority digest activation_request controller (change_in staged)

transition_verified_change-activated_example :
    (candidate_id : String) × (reference evidence observation source : Json) × (c : Candidate)
    × (b : ActiveGeneration) × (text_item "candidate_id" activation_request ≡ ok candidate_id)
    × (get candidate_id (change_in staged).candidates ≡ some c)
    × (item "evidence_ref" activation_request ≡ ok reference)
    × (item "evidence_source" activation_request ≡ ok source)
    × (authority.verify_record
          (change_evidence
            (str candidate_id)
            controller
            source
            "change.activated"
            (str "ACTIVATED"))
          reference
        ≡ ok evidence)
    × Binds
        (change_evidence (str candidate_id) controller source "change.activated" (str "ACTIVATED"))
        evidence
    × (payload_of evidence ≡ ok observation)
    × (same_artifact observation
          (prior_observation candidate_id c.state (change_in staged).change_history)
        ≡ true)
    × ((change_in staged).active_generation ≡ some b)
    × (b.active_generation ≡ c.rollback_generation)
    × (c.expected_active_version ≡ some b.version)
    × ((after_of transitioned).active_generation ≡ some (activated_over candidate_id c b))
unfolding transition_verified_change check_transition transition_governed_change change_body once
    get put verify_record payload_of read_transition bind_evidence
transition_verified_change-activated_example =
    transition_verified_change-activated authority digest activation_request controller "command:1"
      (change_in staged) (after_of transitioned) (answer_of transitioned) refl refl refl refl
