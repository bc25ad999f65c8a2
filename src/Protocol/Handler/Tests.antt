-- ===== src/Protocol/Handler/Tests.antt =====
-- Tests of the handler over a repository that counts its calls.

use nix_ai.Protocol.Repository.{Call, Repository, dispatch}
use nix_ai.Protocol.Handler.{Server, serve, operation_of, uid_is, token_of}
use nix_ai.Json.{Json, object, str, null, get_field}
use nix_ai.Prelude.{ℕ, some, ok, ◌∷◌, ◌+◌, [], ◌≡◌, true, ◌&&◌, not, ◌==◌, false, arith}
use nix_ai.Protocol.Roles.{Operation, may_call, effects, is_effect_operation}
use nix_ai.Protocol.Handler.Admission.{serve-is_admitted}

abbrev counted : Call ℕ
counted n = (ok null, n + 1)

abbrev counter : Repository ℕ
counter = record {
  put_evidence = λ _ _ _. counted;
  apply_verified_effect_transition = λ _. counted;
  observe_verified_effect = λ _ _. counted;
  guard_objective_effects = λ _ _ _. counted;
  invalidate_objective_effect_guard = λ _ _. counted;
  claim_verified_activation = λ _ _. counted;
  resolve_activation = λ _ _. counted;
  commit_activation_command = λ _ _. counted;
  get_activation_command = λ _ _. counted;
  publish_verified_capability_set = λ _ _. counted;
  propose_verified_change = λ _ _. counted;
  transition_verified_change = λ _ _. counted;
  governed_change = λ _. counted;
  governed_change_history = λ _ _ _. counted;
  admit_verified_package = λ _. counted;
  recover = λ _. counted;
  schedule_objective = λ _ _. counted;
  complete_ready_objective = λ _. counted;
  inspect_objective = λ _. counted;
  pending_objectives = λ _. counted;
  cancel_denied_objective = λ _ _. counted;
  authority_binding = λ _ _ _. counted;
  commit_verified_authority = λ _. counted;
}

abbrev server : Server
server = record { effect_uid = some 7; effect_token = "token"; max_request_bytes = 1000 }

abbrev observing : Json
observing = object (
    ("operation", str "effect_observe")
    ∷ ("admission_token", str "token")
    ∷ ("objective_id", str "objective:1")
    ∷ ("effect_id", str "effect:1")
    ∷ [])

serve-is_admitted_example :
    (operation : Operation) × (operation_of observing ≡ some operation)
    × (may_call effects operation ≡ true)
    × ((is_effect_operation operation
          && not (
              uid_is server.effect_uid 7
              && token_of (get_field "admission_token" observing) == server.effect_token))
        ≡ false)
unfolding serve dispatch
serve-is_admitted_example =
    serve-is_admitted counter 40 server effects 7 observing 0 (λ same. absurd (one_ne_zero same))
  where
    one_ne_zero : ◌≡◌ {A = ℕ} 1 0 → ⊥
    one_ne_zero same = omega (arith, same)
