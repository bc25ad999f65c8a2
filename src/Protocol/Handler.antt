-- ===== src/Protocol/Handler.antt =====
-- `_StateHandler.handle`: one frame, from the peer's identity to the answer.
mod Tests
pub mod Admission
use nix_ai.Protocol.Roles.{
  Service, Operation, may_call, is_effect_operation, evidence_put, effect_transition,
  effect_observe, effect_guard, effect_guard_invalidate, activation_claim, activation_resolve,
  activation_commit_command, activation_get_command, capability_set_publish, change_propose,
  change_transition, change_get, package_admit, runtime_status, runtime_schedule, runtime_tick,
  runtime_inspect, runtime_pending, runtime_cancel_denied, authority_get, authority_commit,
}
use nix_ai.Protocol.Repository.{Repository, dispatch}
use nix_ai.Prelude.{
  Option, Exception, List, String, ℕ, Bool, none, if◌then◌else◌, Result, some, evidence_not_found,
  ◌∷◌, false, ◌&&◌, beq, ledger_corrupt, ok, ◌==◌, true, not, [], ◌||◌, ledger_unavailable, err,
  ltb, activation_invalid, permission_error, key_error, type_error, value_error, text_len,
}
use nix_ai.Json.{Json, get_field, as_str, str, object, obj, field, end, is_dict}
use nix_ai.Json.Dumps.{dumps, compact_style}

-- What the handler has read: the length in the header, if four bytes came; whether that many bytes
-- followed; and the JSON value in them, if they hold one.
pub record Frame : Type 0 where
  pub header : Option ℕ
  pub is_whole : Bool
  pub value : Option Json

pub data Response : Type 0 where
  answer : Json → Response
  unauthorized : Response
  failure : String → String → Response

-- The `except` clauses. `none` is an exception that no clause catches: the connection is dropped
-- without an answer.
unfoldable pub caught : Exception → Option Response
caught (evidence_not_found m) = some (failure "not_found" m)
caught (ledger_corrupt m) = some (failure "corrupt" m)
caught (ledger_unavailable m) = some (failure "unavailable" m)
caught (activation_invalid m) = some (failure "invalid" m)
caught (permission_error m) = some (failure "unauthorized" m)
caught (key_error m) = some (failure "corrupt" m)
caught (type_error m) = some (failure "corrupt" m)
caught (value_error m) = some (failure "corrupt" m)
caught _ = none

operation_names : List (String × Operation)
operation_names =
    ("evidence_put", evidence_put)
    ∷ ("effect_transition", effect_transition)
    ∷ ("effect_observe", effect_observe)
    ∷ ("effect_guard", effect_guard)
    ∷ ("effect_guard_invalidate", effect_guard_invalidate)
    ∷ ("activation_claim", activation_claim)
    ∷ ("activation_resolve", activation_resolve)
    ∷ ("activation_commit_command", activation_commit_command)
    ∷ ("activation_get_command", activation_get_command)
    ∷ ("capability_set_publish", capability_set_publish)
    ∷ ("change_propose", change_propose)
    ∷ ("change_transition", change_transition)
    ∷ ("change_get", change_get)
    ∷ ("package_admit", package_admit)
    ∷ ("runtime_status", runtime_status)
    ∷ ("runtime_schedule", runtime_schedule)
    ∷ ("runtime_tick", runtime_tick)
    ∷ ("runtime_inspect", runtime_inspect)
    ∷ ("runtime_pending", runtime_pending)
    ∷ ("runtime_cancel_denied", runtime_cancel_denied)
    ∷ ("authority_get", authority_get)
    ∷ ("authority_commit", authority_commit)
    ∷ []

operation_in : String → List (String × Operation) → Option Operation
operation_in s [] = none
operation_in s ((n, o) ∷ os) = if n == s then some o else operation_in s os

-- `request.get("operation")`
unfoldable pub operation_of : Json → Option Operation
unfolding operation_names operation_in get_field
operation_of request = elim (as_str (get_field "operation" request)) [
  | none ↦ none
  | some s ↦ operation_in s operation_names
]

pub record Server : Type 0 where
  pub effect_uid : Option ℕ
  pub effect_token : String
  pub max_request_bytes : ℕ

abbrev pub uid_is : Option ℕ → ℕ → Bool
uid_is none uid = false
uid_is (some u) uid = beq u uid

-- `str(request.get("admission_token",""))`, for a token that is a text.
abbrev pub token_of : Json → String
token_of (str s) = s
token_of _ = ""

-- The operation may be called by the principal, and an effect operation only by the effect service's
-- user with its token.
unfoldable pub is_admitted : Server → Service → ℕ → Json → Operation → Bool
unfolding may_call get_field
is_admitted server principal uid request operation =
    may_call principal operation
    && (not (is_effect_operation operation)
        || uid_is server.effect_uid uid
          && token_of (get_field "admission_token" request) == server.effect_token)

-- `if isinstance(result,dict) and set(result)=={"status","result"}` sends the result itself.
abbrev is_enveloped : Json → Bool
is_enveloped (obj (field a _ (field b _ end))) =
    a == "status" && b == "result" || a == "result" && b == "status"
is_enveloped _ = false

wrap : Json → Response
wrap result = answer (
    if is_enveloped result then result else object (("status", str "ok") ∷ ("result", result) ∷ []))

module _ {S : Type 0} (repository : Repository S) (now : ℕ) (server : Server) where
  pub finish : Result Json × S → Option Response × S
  unfolding wrap caught
  finish (ok result, s) = (some (wrap result), s)
  finish (err e, s) = (caught e, s)

  -- From the decoded request on.
  unfoldable pub serve : Service → ℕ → Json → S → Option Response × S
  unfolding finish operation_of is_admitted
  serve principal uid request s =
      if is_dict request
      then elim (operation_of request) [
        | none ↦ (some unauthorized, s)
        | some operation ↦
            if is_admitted server principal uid request operation
            then finish (dispatch repository now operation request principal s)
            else (some unauthorized, s)
      ]
      else (some (failure "corrupt" "request must be a JSON object"), s)

  read_value : Service → ℕ → Option Json → S → Option Response × S
  unfolding serve
  read_value principal uid none s = (some (failure "corrupt" "invalid JSON"), s)
  read_value principal uid (some request) s = serve principal uid request s

  read_frame : Service → ℕ → Option ℕ → Frame → S → Option Response × S
  unfolding read_value
  read_frame principal uid none frame s = (some (failure "corrupt" "invalid request framing"), s)
  read_frame principal uid (some length) frame s =
      if beq length 0 || ltb server.max_request_bytes length
      then (some (failure "corrupt" "invalid request framing"), s)
      else if frame.is_whole
      then read_value principal uid frame.value s
      else (some (failure "corrupt" "truncated request frame"), s)

  -- `_StateHandler.handle`
  unfoldable pub handle : Option Service → ℕ → Frame → S → Option Response × S
  unfolding read_frame
  handle none uid frame s = (some unauthorized, s)
  handle (some principal) uid frame s = read_frame principal uid frame.header frame s

-- `_send`: a response that is too long is replaced.
unfoldable pub sent : ℕ → Json → String
unfolding dumps
sent max_response_bytes response =
    let payload = dumps compact_style response in
    if ltb max_response_bytes (text_len payload)
    then dumps compact_style (
        object (
          ("status", str "unavailable")
          ∷ ("message", str "response exceeds configured bound")
          ∷ []))
    else payload
