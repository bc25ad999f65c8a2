-- ===== src/Protocol/Roles.antt =====
-- Who may call what: `resolve_principal`, the dict `operations` of `CommandLedgerServer`, the dict
-- `owners` of `StateProtocol.dispatch`, and the dict `ROLE_STATES` of change_role.py.

mod Tests
pub mod Owners
use nix_ai.Prelude.{[], ◌∷◌, if◌then◌else◌, beq, ◌&&◌, ◌==◌}
use nix_ai.Prelude.{String, Bool, ℕ, List, true, Option, false, some, none}
use nix_ai.Lifecycle.Db.{
  ChangeState, built, evaluated, staged, signed, activated, confirmed, rolled_back, rejected,
  quarantined,
}

pub data Service : Type 0 where
  abi scheduler runtime packages authority effects controller evaluator signer health : Service

abbrev pub service_name : Service → String
service_name abi = "service:abi"
service_name scheduler = "service:scheduler"
service_name runtime = "service:runtime"
service_name packages = "service:packages"
service_name authority = "service:authority"
service_name effects = "service:effects"
service_name controller = "service:controller"
service_name evaluator = "service:evaluator"
service_name signer = "service:signer"
service_name health = "service:health"

pub data Operation : Type 0 where
  evidence_put effect_transition effect_observe effect_guard effect_guard_invalidate : Operation
  activation_claim activation_resolve activation_commit_command activation_get_command : Operation
  capability_set_publish change_propose change_transition change_get package_admit : Operation
  runtime_status runtime_schedule runtime_tick runtime_inspect runtime_pending : Operation
  runtime_cancel_denied authority_get authority_commit : Operation

-- `operations`, as a test.
unfoldable pub may_call : Service → Operation → Bool
may_call abi evidence_put = true
may_call abi activation_resolve = true
may_call abi activation_commit_command = true
may_call abi activation_get_command = true
may_call scheduler runtime_status = true
may_call scheduler runtime_schedule = true
may_call scheduler runtime_tick = true
may_call scheduler runtime_inspect = true
may_call scheduler activation_claim = true
may_call runtime evidence_put = true
may_call runtime runtime_status = true
may_call runtime runtime_schedule = true
may_call runtime runtime_tick = true
may_call runtime runtime_inspect = true
may_call runtime runtime_pending = true
may_call runtime runtime_cancel_denied = true
may_call runtime change_propose = true
may_call runtime change_transition = true
may_call runtime change_get = true
may_call runtime effect_guard = true
may_call runtime effect_guard_invalidate = true
may_call packages evidence_put = true
may_call packages package_admit = true
may_call packages capability_set_publish = true
may_call authority evidence_put = true
may_call authority authority_get = true
may_call authority authority_commit = true
may_call effects evidence_put = true
may_call effects effect_transition = true
may_call effects effect_observe = true
may_call effects effect_guard = true
may_call effects effect_guard_invalidate = true
may_call effects runtime_inspect = true
may_call effects runtime_status = true
may_call controller evidence_put = true
may_call controller change_propose = true
may_call controller change_transition = true
may_call controller change_get = true
may_call evaluator evidence_put = true
may_call evaluator change_transition = true
may_call evaluator change_get = true
may_call signer evidence_put = true
may_call signer change_transition = true
may_call signer change_get = true
may_call health evidence_put = true
may_call health change_transition = true
may_call health change_get = true
may_call _ _ = false

-- `operation.startswith("effect_")`
abbrev pub is_effect_operation : Operation → Bool
is_effect_operation effect_transition = true
is_effect_operation effect_observe = true
is_effect_operation effect_guard = true
is_effect_operation effect_guard_invalidate = true
is_effect_operation _ = false

-- `owners.get(new_state)`
unfoldable pub owner : ChangeState → Option Service
owner built = some controller
owner evaluated = some evaluator
owner signed = some signer
owner staged = some controller
owner activated = some controller
owner confirmed = some health
owner rejected = some evaluator
owner quarantined = some health
owner rolled_back = some controller
owner _ = none

-- The roles of change_role.py.
pub data Role : Type 0 where
  controller evaluator signer health : Role

-- `f"service:{role}"`
abbrev pub role_service : Role → Service
role_service controller = Service.controller
role_service evaluator = Service.evaluator
role_service signer = Service.signer
role_service health = Service.health

-- `ROLE_STATES`, as a test.
unfoldable pub role_may : Role → ChangeState → Bool
role_may controller built = true
role_may controller staged = true
role_may controller activated = true
role_may controller rolled_back = true
role_may evaluator evaluated = true
role_may evaluator rejected = true
role_may signer signed = true
role_may health confirmed = true
role_may health quarantined = true
role_may _ _ = false

-- A process as the kernel reports it: user, group and systemd unit.
pub record Identity : Type 0 where
  pub uid : ℕ
  pub gid : ℕ
  pub unit : String

-- `resolve_principal`: the dict of principals, keyed by user, group and unit.
unfoldable pub resolve_principal : List (Identity × Service) → Identity → Option Service
resolve_principal [] i = none
resolve_principal ((j, s) ∷ ps) i =
    if beq j.uid i.uid && (beq j.gid i.gid && j.unit == i.unit)
    then some s
    else resolve_principal ps i
