-- ===== src/Protocol/ChangeRole.antt =====
-- src/habitat_state/change_role.py: the service of one governed-change role. It checks a request
-- against its role, and plans the evidence that it stores before it hands the request on.

use nix_ai.Json.{field_of, get_field, Json, obj, str, py_eq, arr, object, is_dict}
use nix_ai.Lifecycle.Db.{
  ChangeState, built, evaluated, signed, staged, activated, confirmed, rejected, quarantined,
  rolled_back,
}
use nix_ai.Prelude.{
  String, List, Option, ◌∷◌, Bool, Result, [], true, false, if◌then◌else◌, ok, err, ◌>>◌, ◌>>=◌,
  some, expect_some, reject_if, ◌&&◌, value_error, key_error, not, type_error, none,
}
use nix_ai.Protocol.Roles.{Role, role_may, service_name, role_service}
use nix_ai.Protocol.Repository.{change_state}
use nix_ai.Lifecycle.Proposals.{change_name}

item : String → Json → Result Json
unfolding field_of
item key (obj fs) = expect_some (field_of key fs) (key_error key)
item key _ = err (type_error "request is no dict")

-- `response["result"]` of an accepted request.
unfoldable pub accepted : Json → Result Json
unfolding get_field item
accepted response =
    if py_eq (get_field "status" response) (str "ok")
    then item "result" response
    else err (value_error "state rejected governed change")

-- `"change."+state.lower()` for the states that a role may ask for.
unfoldable pub evidence_operation : ChangeState → String
evidence_operation built = "change.built"
evidence_operation evaluated = "change.evaluated"
evidence_operation signed = "change.signed"
evidence_operation staged = "change.staged"
evidence_operation activated = "change.activated"
evidence_operation confirmed = "change.confirmed"
evidence_operation rejected = "change.rejected"
evidence_operation quarantined = "change.quarantined"
evidence_operation rolled_back = "change.rolled_back"
evidence_operation _ = "change."

-- The evidence of a request: its operation, its source, its disposition and its payload.
pub record Plan : Type 0 where
  pub operation : String
  pub source : Json
  pub disposition : String
  pub payload : Json

proposal_keys : List String
proposal_keys =
    "dependency_closure_digest" ∷ "contract_version" ∷ "tests_digest" ∷ "requested_authority"
    ∷ "signing_key_digest" ∷ "live_verification_contract" ∷ "evaluator" ∷ "evaluator_closure"
    ∷ "target_generation" ∷ "rollback_generation" ∷ "threshold" ∷ []

-- `{key: request[key] for key in keys}`
picked : List String → Json → Result (List (String × Json))
unfolding item
picked [] request = ok []
picked (k ∷ ks) request = do v ← item k request; rest ← picked ks request; ok ((k, v) ∷ rest)

is_controller : Role → Bool
is_controller Role.controller = true
is_controller _ = false

-- The branch `change_propose`.
unfoldable pub plan_proposal : Role → Json → Result Plan
unfolding picked item proposal_keys is_controller
plan_proposal role request = do
  reject_if
      (not (is_controller role && py_eq (get_field "evaluator" request) (str "service:evaluator")))
      (value_error "only the controller may bind the protected evaluator")
  source ← item "source_digest" request
  fields ← picked proposal_keys request
  ok (record {
    operation = "change.propose";
    source = source;
    disposition = "PROPOSED";
    payload = object fields;
  })

-- `request.get("new_state")`; a list or a dict has no hash.
state_in : Json → Result (Option ChangeState)
unfolding change_state
state_in (str s) = ok (some (change_state s))
state_in (arr _) = err (type_error "unhashable type: 'list'")
state_in (obj _) = err (type_error "unhashable type: 'dict'")
state_in _ = ok none

is_own : Role → Option ChangeState → Json → Bool
unfolding role_may
is_own role none actor = false
is_own role (some s) actor = role_may role s && py_eq actor (str (service_name (role_service role)))

plan_state : Option ChangeState → Json → Result Plan
unfolding item evidence_operation
plan_state none request = err (value_error "governed transition is outside this role's authority")
plan_state (some s) request = do
  source ← item "evidence_source" request
  reject_if (not (is_dict (get_field "observation" request)))
      (value_error "governed transition requires an observation")
  ok (record {
    operation = evidence_operation s;
    source = source;
    disposition = change_name s;
    payload = get_field "observation" request;
  })

-- The branch `change_transition`.
unfoldable pub plan_transition : Role → Json → Result Plan
unfolding state_in is_own plan_state
plan_transition role request = do
  state ← state_in (get_field "new_state" request)
  reject_if (not (is_own role state (get_field "actor" request)))
      (value_error "governed transition is outside this role's authority")
  plan_state state request
