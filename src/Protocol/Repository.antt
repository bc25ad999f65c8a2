-- ===== src/Protocol/Repository.antt =====
-- `StateProtocol.dispatch`, over the operations of the repository that it calls. A call returns a
-- value or raises, and hands the repository's state on.
use nix_ai.Json.{
  get_field, field_of, obj, py_eq, Json, as_int, Items, str, nat, object, truthy, cons, arr,
  field_count, boolean, nil,
}
use nix_ai.Protocol.Roles.{
  Service, Operation, owner, service_name, controller, packages, evidence_put, effect_transition,
  effect_observe, effect_guard, effect_guard_invalidate, activation_claim, activation_resolve,
  activation_commit_command, activation_get_command, capability_set_publish, change_propose,
  change_transition, change_get, package_admit, runtime_status, runtime_schedule, runtime_tick,
  runtime_inspect, runtime_pending, runtime_cancel_denied, authority_get, authority_commit,
}
use nix_ai.Prelude.{
  Result, Exception, String, ℕ, err, Option, none, key_error, some, value_error, Bool, ok,
  if◌then◌else◌, text_len, ◌==◌, false, not, ◌+◌, ◌&&◌, type_error, ◌∷◌, ◌||◌, [], true, ltb,
}
use nix_ai.Lifecycle.Db.{ChangeState}
use nix_ai.Json.Int.{in_range, is_negative, to_ℕ}

abbrev pub Call : Type 0 → Type 0
Call S = S → Result Json × S

-- The methods of `PostgresRepository` that `dispatch` calls, with the request or its items.
pub record Repository (S : Type 0) : Type 0 where
  pub put_evidence : Json → Service → Json → Call S
  pub apply_verified_effect_transition : Json → Call S
  pub observe_verified_effect : Json → Json → Call S
  pub guard_objective_effects : Json → Json → Json → Call S
  pub invalidate_objective_effect_guard : Json → Json → Call S
  pub claim_verified_activation : Json → Service → Call S
  pub resolve_activation : Json → Service → Call S
  pub commit_activation_command : Json → Service → Call S
  pub get_activation_command : Json → Service → Call S
  pub publish_verified_capability_set : Json → Service → Call S
  pub propose_verified_change : Json → Service → Call S
  pub transition_verified_change : Json → Service → Call S
  pub governed_change : Json → Call S
  pub governed_change_history : Json → ℕ → ℕ → Call S
  pub admit_verified_package : Json → Call S
  pub recover : ℕ → Call S
  pub schedule_objective : Json → ℕ → Call S
  pub complete_ready_objective : ℕ → Call S
  pub inspect_objective : Json → Call S
  pub pending_objectives : Json → Call S
  pub cancel_denied_objective : Json → Json → Call S
  pub authority_binding : Json → ℕ → ℕ → Call S
  pub commit_verified_authority : Json → Call S

abbrev raised : {S : Type 0} → Exception → Call S
raised e s = (err e, s)

abbrev bind_call : {S : Type 0} → Call S → (Json → Call S) → Call S
bind_call m f s = let (r, s') = m s in elim r [ err e ↦ (err e, s') | ok v ↦ f v s' ]

abbrev item_of : String → Json → Option Json
item_of key (obj fs) = field_of key fs
item_of key _ = none

-- `request[key]`
abbrev with_item : {S : Type 0} → String → Json → (Json → Call S) → Call S
with_item key request use' = elim (item_of key request) [
  | none ↦ raised (key_error key)
  | some v ↦ use' v
]

-- `request.get(key,default)`
abbrev get_default : String → Json → Json → Json
get_default key request default = elim (item_of key request) [ none ↦ default | some v ↦ v ]

-- `isinstance(limit,int) and 1<=limit<=100 and isinstance(cursor,int) and cursor>=0`
unfoldable pub page : Json → Option (ℕ × ℕ)
page request = elim (as_int (get_default "limit" request (nat 50))) [
  | none ↦ none
  | some limit ↦ elim (as_int (get_default "cursor" request (nat 0))) [
    | none ↦ none
    | some cursor ↦
        if in_range 1 100 limit && not (is_negative cursor)
        then some (to_ℕ limit, to_ℕ cursor)
        else none
  ]
]

abbrev with_page : {S : Type 0} → Json → (ℕ → ℕ → Call S) → Call S
with_page request use' = elim (page request) [
  | none ↦ raised (value_error "invalid pagination")
  | some (limit, cursor) ↦ use' limit cursor
]

items_count : Items → ℕ
items_count nil = 0
items_count (cons _ xs) = items_count xs + 1

-- `len(value)`
unfoldable pub json_len : Json → Option ℕ
unfolding items_count
json_len (str s) = some (text_len s)
json_len (arr xs) = some (items_count xs)
json_len (obj fs) = some (field_count fs)
json_len _ = none

-- The state that a request names.
unfoldable pub change_state : String → ChangeState
change_state s =
    if s == "PROPOSED"
    then ChangeState.proposed
    else if s == "BUILT"
    then ChangeState.built
    else if s == "EVALUATED"
    then ChangeState.evaluated
    else if s == "SIGNED"
    then ChangeState.signed
    else if s == "STAGED"
    then ChangeState.staged
    else if s == "ACTIVATED"
    then ChangeState.activated
    else if s == "CONFIRMED"
    then ChangeState.confirmed
    else if s == "REJECTED"
    then ChangeState.rejected
    else if s == "QUARANTINED"
    then ChangeState.quarantined
    else if s == "ROLLED_BACK"
    then ChangeState.rolled_back
    else ChangeState.other s

abbrev text_or_empty : Json → String
text_or_empty (str s) = s
text_or_empty _ = ""

abbrev is_service : Service → Service → Bool
is_service a b = service_name a == service_name b

-- `owners.get(request["new_state"])==principal and request["actor"]==principal`
unfoldable pub owns_transition : Service → String → Json → Bool
unfolding owner change_state
owns_transition principal new_state actor =
    elim (owner (change_state new_state)) [ none ↦ false | some s ↦ is_service s principal ]
    && py_eq actor (str (service_name principal))

module _ {S : Type 0} (repository : Repository S) (now : ℕ) where
  open repository use {
    put_evidence, apply_verified_effect_transition, observe_verified_effect,
    guard_objective_effects, invalidate_objective_effect_guard, claim_verified_activation,
    resolve_activation, commit_activation_command, get_activation_command,
    publish_verified_capability_set, propose_verified_change, transition_verified_change,
    governed_change, governed_change_history, admit_verified_package, recover, schedule_objective,
    complete_ready_objective, inspect_objective, pending_objectives, cancel_denied_objective,
    authority_binding, commit_verified_authority,
  }

  -- The answer to `runtime_status` from what recovery reports.
  status_of : Json → Call S
  status_of recovery = with_item "effects_classified" recovery λ effects.
      with_item "activations_classified" recovery λ activations.
        with_item "wakes_redelivered" recovery λ wakes. λ s. (
          ok (
              object (
                (
                  "readiness",
                  str (if truthy effects && truthy activations then "READY" else "RECOVERING"),
                )
                ∷ ("migrations", boolean true)
                ∷ ("leases_fenced", boolean true)
                ∷ ("activations_classified", activations)
                ∷ ("effects_classified", effects)
                ∷ ("wakes_redelivered", wakes)
                ∷ [])),
          s,
        )

  schedule_checked : Json → Call S
  schedule_checked objective = elim (json_len objective) [
    | none ↦
        if truthy objective
        then raised (type_error "object has no len()")
        else raised (value_error "invalid objective identity")
    | some n ↦
        if not (truthy objective) || ltb 128 n
        then raised (value_error "invalid objective identity")
        else schedule_objective objective now
  ]

  change_page : Json → ℕ → ℕ → Call S
  change_page request limit cursor = with_item "candidate_id" request λ candidate.
      bind_call (governed_change candidate) λ row.
        bind_call (governed_change_history candidate limit cursor) λ history. λ s. (
          ok (
              object (
                ("record", row)
                ∷ ("history", history)
                ∷ ("next_cursor", nat (cursor + limit))
                ∷ [])),
          s,
        )

  -- `StateProtocol.dispatch`
  unfoldable pub dispatch : Operation → Json → Service → Call S
  unfolding status_of schedule_checked change_page owns_transition
  dispatch evidence_put request principal =
      with_item "envelope" request
        λ envelope. put_evidence envelope principal (get_field "command_id" request)
  dispatch effect_transition request principal = apply_verified_effect_transition request
  dispatch effect_observe request principal =
      with_item "objective_id" request λ objective.
        with_item "effect_id" request λ effect. observe_verified_effect objective effect
  dispatch effect_guard request principal = with_item "objective_id" request λ objective.
      with_item "effect_ids" request λ ids.
        with_item "effect_set_digest" request λ digest. guard_objective_effects objective ids digest
  dispatch effect_guard_invalidate request principal = with_item "objective_id" request λ objective.
      with_item "compensates_effect_id" request
        λ effect. invalidate_objective_effect_guard objective effect
  dispatch activation_claim request principal = claim_verified_activation request principal
  dispatch activation_resolve request principal = resolve_activation request principal
  dispatch activation_commit_command request principal = commit_activation_command request principal
  dispatch activation_get_command request principal = get_activation_command request principal
  dispatch capability_set_publish request principal =
      publish_verified_capability_set request principal
  dispatch change_propose request principal =
      if not (is_service principal controller)
      then raised (value_error "governed proposal requires controller and protected evaluator")
      else with_item "evaluator" request λ evaluator'.
        if py_eq evaluator' (str "service:evaluator")
        then propose_verified_change request principal
        else raised (value_error "governed proposal requires controller and protected evaluator")
  dispatch change_transition request principal = with_item "new_state" request λ state.
      with_item "actor" request λ actor.
        if owns_transition principal (text_or_empty state) actor
        then transition_verified_change request principal
        else raised (value_error "governed transition principal mismatch")
  dispatch change_get request principal = with_page request (change_page request)
  dispatch package_admit request principal =
      if is_service principal packages
      then admit_verified_package request
      else raised (value_error "package admission requires verifier principal")
  dispatch runtime_status request principal = bind_call (recover now) status_of
  dispatch runtime_schedule request principal = with_item "objective_id" request schedule_checked
  dispatch runtime_tick request principal =
      bind_call (complete_ready_objective now)
        λ completion. λ s. (ok (object (("completion", completion) ∷ [])), s)
  dispatch runtime_inspect request principal = with_item "objective_id" request inspect_objective
  dispatch runtime_pending request principal =
      bind_call (pending_objectives (get_default "limit" request (nat 100)))
        λ objectives. λ s. (ok (object (("objectives", objectives) ∷ [])), s)
  dispatch runtime_cancel_denied request principal =
      with_item "objective_id" request
        λ objective. with_item "reason" request λ reason. cancel_denied_objective objective reason
  dispatch authority_get request principal = with_page request λ limit cursor.
      with_item "binding_id" request λ binding. authority_binding binding limit cursor
  dispatch authority_commit request principal = commit_verified_authority request
