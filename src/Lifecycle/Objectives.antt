-- ===== src/Lifecycle/Objectives.antt =====
-- Objectives: `create_objective` and `transition_objective`, both by `_objective_transition`.
use nix_ai.Json.{boolean, Json, object, str, nat}
use nix_ai.Lifecycle.Transaction.{
  ◌>>=◌, insert_history, recorded, Tx, modify, gets, fingerprint, once, ◌>>◌, raise_if,
}
use nix_ai.Prelude.{
  String, Option, ℕ, Bool, some, false, none, ◌∷◌, [], not, value_error, ◌&&◌, ◌+◌, text_append,
}
use nix_ai.Lifecycle.Db.{Objective}
use nix_ai.Lifecycle.States.{ObjectiveState, objective_name, legal_objective, is_satisfied}
use nix_ai.Table.{put, get}

-- UPDATE and INSERT … ON CONFLICT DO UPDATE of the objective's row.
unfoldable pub update_objective : String → Objective → Tx (Unit {0})
unfolding ◌>>=◌
update_objective objective_id o =
    modify (λ db. record db { objectives = put objective_id o db.objectives })

abbrev pub objective_result : String → ObjectiveState → ℕ → Json
objective_result objective_id state version = object (
    ("objective_id", str objective_id)
    ∷ ("state", str (objective_name state))
    ∷ ("version", nat version)
    ∷ [])

abbrev pub objective_state : Option Objective → Option ObjectiveState
objective_state none = none
objective_state (some o) = some o.state

abbrev pub objective_version : Option Objective → ℕ
objective_version none = 0
objective_version (some o) = o.version

abbrev pub state_text : Option ObjectiveState → Option String
state_text none = none
state_text (some s) = some (objective_name s)

pub objective_body : String → String → String → ObjectiveState → Bool → String → Tx Json
unfolding update_objective insert_history recorded
objective_body objective_id command_id actor new_state accepted fp = do
  row ← gets (λ db. get objective_id db.objectives)
  let previous = objective_state row
  raise_if (not (legal_objective previous new_state)) (value_error "illegal objective transition")
  raise_if (is_satisfied new_state && not accepted)
      (value_error "accepted completion claim required")
  let version = objective_version row + 1
  update_objective objective_id (record { state = new_state; version = version })
  insert_history (record {
    entity_id = objective_id;
    previous_state = state_text previous;
    new_state = objective_name new_state;
    command_id = command_id;
    actor = actor;
    evidence_ref = text_append "evidence:" fp;
  })
  recorded command_id fp (objective_result objective_id new_state version)

pub objective_fingerprint : (String → String) → String → ObjectiveState → Bool → String
objective_fingerprint sha256 objective_id new_state accepted =
    fingerprint sha256 "objective"
      (str objective_id ∷ str (objective_name new_state) ∷ boolean accepted ∷ [])

-- `_objective_transition`; its argument `expected` is never read.
pub objective_transition :
    (String → String) → String → String → String → ObjectiveState → Bool → Tx Json
objective_transition sha256 objective_id command_id actor new_state accepted =
    let fp = objective_fingerprint sha256 objective_id new_state accepted in
    once command_id fp (objective_body objective_id command_id actor new_state accepted fp)

-- `create_objective`
pub create_objective : (String → String) → String → String → String → Tx Json
create_objective sha256 objective_id command_id actor =
    objective_transition sha256 objective_id command_id actor ObjectiveState.proposed false

-- `transition_objective`
pub transition_objective :
    (String → String) → String → String → String → ObjectiveState → Bool → Tx Json
transition_objective = objective_transition
