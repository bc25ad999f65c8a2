-- ===== src/Lifecycle/States.antt =====
-- The states that the lifecycle tables hold, and the text that each is stored as. A requested state
-- of another name is `other`.
use nix_ai.Prelude.{String, Bool, true, false, Option, none, some}

pub data ObjectiveState : Type 0 where
  proposed active waiting satisfied failed cancelled compensated : ObjectiveState
  other : String → ObjectiveState

pub data WakeState : Type 0 where
  pending leased acknowledged released : WakeState

pub data ActivationState : Type 0 where
  requested leased preparing running waiting_context waiting_effect sleeping : ActivationState
  completed failed cancelled : ActivationState
  other : String → ActivationState

abbrev pub objective_name : ObjectiveState → String
objective_name proposed = "PROPOSED"
objective_name active = "ACTIVE"
objective_name waiting = "WAITING"
objective_name satisfied = "SATISFIED"
objective_name failed = "FAILED"
objective_name cancelled = "CANCELLED"
objective_name compensated = "COMPENSATED"
objective_name (other s) = s

abbrev pub wake_name : WakeState → String
wake_name pending = "PENDING"
wake_name leased = "LEASED"
wake_name acknowledged = "ACKNOWLEDGED"
wake_name released = "RELEASED"

abbrev pub activation_name : ActivationState → String
activation_name requested = "REQUESTED"
activation_name leased = "LEASED"
activation_name preparing = "PREPARING"
activation_name running = "RUNNING"
activation_name waiting_context = "WAITING_CONTEXT"
activation_name waiting_effect = "WAITING_EFFECT"
activation_name sleeping = "SLEEPING"
activation_name completed = "COMPLETED"
activation_name failed = "FAILED"
activation_name cancelled = "CANCELLED"
activation_name (other s) = s

abbrev pub is_proposed : ObjectiveState → Bool
is_proposed proposed = true
is_proposed _ = false

abbrev pub is_satisfied : ObjectiveState → Bool
is_satisfied satisfied = true
is_satisfied _ = false

abbrev pub is_wake_leased : WakeState → Bool
is_wake_leased leased = true
is_wake_leased _ = false

-- `state in ('PENDING','RELEASED')`
abbrev pub is_claimable : WakeState → Bool
is_claimable pending = true
is_claimable released = true
is_claimable _ = false

-- The states of the partial unique index `activations_one_live_objective`, which are also those in
-- which `_resolve_activation` accepts a request.
abbrev pub is_live : ActivationState → Bool
is_live leased = true
is_live preparing = true
is_live running = true
is_live waiting_context = true
is_live waiting_effect = true
is_live sleeping = true
is_live _ = false

abbrev pub is_requested : ActivationState → Bool
is_requested requested = true
is_requested _ = false

-- `state IN ('COMPLETED','FAILED','CANCELLED')`
abbrev pub is_ended : ActivationState → Bool
is_ended completed = true
is_ended failed = true
is_ended cancelled = true
is_ended _ = false

-- The dict `legal` of `_objective_transition`; the previous state of a new objective is `None`.
unfoldable pub legal_objective : Option ObjectiveState → ObjectiveState → Bool
legal_objective none proposed = true
legal_objective (some proposed) active = true
legal_objective (some proposed) cancelled = true
legal_objective (some active) waiting = true
legal_objective (some active) satisfied = true
legal_objective (some active) failed = true
legal_objective (some active) cancelled = true
legal_objective (some waiting) active = true
legal_objective (some waiting) failed = true
legal_objective (some waiting) cancelled = true
legal_objective _ _ = false

-- The dict `legal` of `transition_activation`.
unfoldable pub legal_activation : ActivationState → ActivationState → Bool
legal_activation leased preparing = true
legal_activation preparing running = true
legal_activation running waiting_context = true
legal_activation running waiting_effect = true
legal_activation running sleeping = true
legal_activation running completed = true
legal_activation running failed = true
legal_activation running cancelled = true
legal_activation _ _ = false
