-- ===== src/Verified/Effects.antt =====
-- `observe_verified_effect` and `apply_verified_effect_transition`.
use nix_ai.Json.{Json, str, object, get_field, maybe_str}
use nix_ai.Lifecycle.ProviderStates.{provider_state, effect_name, provider_text}
use nix_ai.Verified.{EvidenceAuthority, text_item, item, opt_text, given}
use nix_ai.Evidence.{Expected}
use nix_ai.Prelude.{Option, String, Result, some, ◌>>=◌, ◌∷◌, none, ok, []}
use nix_ai.Lifecycle.Db.{ProviderState, Effect}
use nix_ai.Lifecycle.Effects.{Observed}

-- The evidence of an effect: its subject is the effect, its source the provider's identity.
unfoldable pub effect_evidence : Json → Json → Json → Expected
effect_evidence effect external disposition = record {
  subject = effect;
  producer = str "service:effects";
  source = external;
  operation = some (str "effect.transition");
  disposition = given disposition;
}

unfoldable pub map_state : Option String → Option ProviderState
unfolding provider_state
map_state none = none
map_state (some s) = some (provider_state s)

-- The answer of `observe_verified_effect`.
unfoldable pub observed_answer : String → String → Effect → Option ProviderState → Json → Json
observed_answer objective_id effect_id e s evidence = object (
    (
      "projection",
      object (
          ("effect_id", str effect_id)
          ∷ ("objective_id", str objective_id)
          ∷ ("request_digest", str e.request_digest)
          ∷ ("state", str (effect_name e.state))
          ∷ ("external_ref", maybe_str e.external_ref)
          ∷ ("evidence_ref", maybe_str e.evidence_ref)
          ∷ ("provider_state", provider_text s)
          ∷ []),
    )
    ∷ ("evidence", evidence)
    ∷ [])

-- The arguments of `observe_effect_transition` in a request.
unfoldable pub read_effect : Json → Result (String × Observed × Option ProviderState)
unfolding text_item opt_text get_field item
read_effect request = do
  transition_id ← text_item "transition_id" request
  effect_id ← text_item "effect_id" request
  objective_id ← text_item "objective_id" request
  request_digest ← text_item "request_digest" request
  previous ← opt_text (get_field "previous_state" request)
  new_state ← text_item "new_state" request
  evidence_ref ← item "evidence_ref" request >>= opt_text
  external_ref ← opt_text (get_field "external_ref" request)
  ok (
    transition_id,
    record {
      effect_id = effect_id;
      objective_id = objective_id;
      request_digest = request_digest;
      new_state = provider_state new_state;
      evidence_ref = evidence_ref;
      external_ref = external_ref;
    },
    map_state previous,
  )

module _ (authority : EvidenceAuthority) where
  open authority use {verify_record}

  unfoldable pub check_effect : Json → Result Json
  unfolding item effect_evidence
  check_effect request = do
    reference ← item "evidence_ref" request
    effect ← item "effect_id" request
    external ← item "external_ref" request
    new_state ← item "new_state" request
    verify_record (effect_evidence effect external new_state) reference
