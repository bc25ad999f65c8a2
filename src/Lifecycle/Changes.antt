-- ===== src/Lifecycle/Changes.antt =====
-- Transitions of governed changes: `transition_governed_change`.
mod Tests
pub mod Stages
use nix_ai.Json.{get_field, py_eq, Json, str, is_true, object, is_digest, nat, maybe_str}
use nix_ai.Lifecycle.Db.{
  ChangeState, Candidate, ChangeRow, ActiveGeneration, activated, rolled_back,
}
use nix_ai.Lifecycle.Transaction.{
  ◌>>=◌, recorded, Tx, fingerprint, modify, gets, ◌>>◌, raise_if, require_row, once, pure,
}
use nix_ai.Prelude.{
  String, List, ℕ, Option, Bool, ◌∷◌, none, ◌==◌, if◌then◌else◌, false, some, ◌&&◌, beq, ◌+◌, [],
  not, value_error, ◌||◌,
}
use nix_ai.Table.{get}
use nix_ai.Lifecycle.Proposals.{
  change_name, legal_change, update_candidate, is_evaluated, insert_change, is_measured, is_built,
  is_confirmed,
}

-- The test on `EVALUATED`: the protected evaluator, its closure (a candidate with none is matched by
-- an observation with none, since None equals None), the proposed source, and
-- `observation["passed"] is True`.
pub is_evaluation : Candidate → String → Json → Bool
unfolding get_field py_eq
is_evaluation c actor observation =
    actor == c.evaluator_generation
    && (py_eq (get_field "evaluator_closure" observation) (maybe_str c.evaluator_closure)
        && (py_eq (get_field "artifact_digest" observation) (str c.source_digest)
            && is_true (get_field "passed" observation)))

abbrev pub artifact_of : Json → Json
artifact_of observation = get_field "artifact_digest" observation

-- The artifact of the stage that the candidate is in. `fetchone` takes some row of the state.
pub prior_observation : String → ChangeState → List ChangeRow → Option Json
prior_observation candidate_id state [] = none
prior_observation candidate_id state (r ∷ rs) =
    if r.candidate_id == candidate_id && change_name r.new_state == change_name state
    then r.observation
    else prior_observation candidate_id state rs

abbrev pub same_artifact : Json → Option Json → Bool
same_artifact observation none = false
same_artifact observation (some prior) = py_eq (artifact_of prior) (artifact_of observation)

-- The checks of a transition from the row `c` to `new_state`.
pub change_checks : String → Candidate → ChangeState → String → Json → Tx (Unit {0})
unfolding ◌>>=◌ legal_change is_evaluation prior_observation
change_checks candidate_id c new_state actor observation = do
  raise_if (not (legal_change c.state new_state)) (value_error "illegal governed-change transition")
  raise_if (is_evaluated new_state && not (is_evaluation c actor observation))
      (value_error "protected evaluator identity or closure mismatch")
  raise_if (is_measured new_state && not (is_digest (artifact_of observation)))
      (value_error "digest-addressed measured artifact is required")
  prior ← gets (λ db. prior_observation candidate_id c.state db.change_history)
  raise_if
      (is_measured new_state && not (is_built new_state) && not (same_artifact observation prior))
      (value_error "measured artifact changed between governed stages")
  raise_if
      (is_confirmed new_state
        && (actor == c.evaluator_generation
            || not (is_true (get_field "health_ready" observation))))
      (value_error "independent health confirmation required")

-- The generation that is active after the transition, and the version of its binding.
abbrev Active : Type 0
Active = Option String × Option ℕ

-- A column that is compared in SQL; NULL equals nothing.
abbrev opt_eq_nat : Option ℕ → ℕ → Bool
opt_eq_nat none n = false
opt_eq_nat (some m) n = beq m n

-- WHERE singleton AND active_generation=… AND version=…
abbrev activatable : Candidate → Option ActiveGeneration → Option ActiveGeneration
activatable c none = none
activatable c (some b) =
    if b.active_generation == c.rollback_generation
      && opt_eq_nat c.expected_active_version b.version
    then some b
    else none

-- WHERE singleton AND active_generation=… AND candidate_id=… AND version=…
abbrev revertible : String → Candidate → Option ActiveGeneration → Option ActiveGeneration
revertible candidate_id c none = none
revertible candidate_id c (some b) =
    if b.active_generation == c.target_generation
      && (b.candidate_id == candidate_id && opt_eq_nat c.activation_binding_version b.version)
    then some b
    else none

pub rebind : String → String → ActiveGeneration → Tx Active
unfolding ◌>>=◌
rebind candidate_id generation b = do
  modify (λ db. record db {
    active_generation = some (record {
      active_generation = generation;
      previous_generation = some b.active_generation;
      candidate_id = candidate_id;
      version = b.version + 1;
    });
  })
  pure (some generation, some (b.version + 1))

-- The two compare-and-swap updates of `active_generation_binding`.
pub switch_generation : String → Candidate → ChangeState → Tx Active
unfolding rebind
switch_generation candidate_id c activated = do
  row ← gets (λ db. db.active_generation)
  b ← require_row (activatable c row) (value_error "active generation changed during staging")
  rebind candidate_id c.target_generation b
switch_generation candidate_id c rolled_back = do
  row ← gets (λ db. db.active_generation)
  b ←
      require_row (revertible candidate_id c row)
        (value_error "candidate no longer owns active generation")
  rebind candidate_id c.rollback_generation b
switch_generation candidate_id c _ = pure (c.active_generation, c.activation_binding_version)

unfoldable pub change_body :
    String → String → ChangeState → String → String → Json → String → Tx Json
unfolding change_checks switch_generation update_candidate insert_change recorded
change_body candidate_id command_id new_state actor evidence_ref observation fp = do
  row ← gets (λ db. get candidate_id db.candidates)
  c ← require_row row (value_error "illegal governed-change transition")
  change_checks candidate_id c new_state actor observation
  active ← switch_generation candidate_id c new_state
  update_candidate candidate_id (record c {
    state = new_state;
    version = c.version + 1;
    active_generation = active.0;
    activation_binding_version = active.1;
  })
  insert_change (record {
    candidate_id = candidate_id;
    version = c.version + 1;
    previous_state = some c.state;
    new_state = new_state;
    command_id = command_id;
    actor = actor;
    evidence_ref = evidence_ref;
    observation = some observation;
  })
  recorded command_id fp (
      object (
        ("candidate_id", str candidate_id)
        ∷ ("state", str (change_name new_state))
        ∷ ("version", nat (c.version + 1))
        ∷ ("active_generation", maybe_str active.0)
        ∷ ("rollback_generation", str c.rollback_generation)
        ∷ []))

pub change_fingerprint : (String → String) → String → ChangeState → String → String → Json → String
change_fingerprint sha256 candidate_id new_state actor evidence_ref observation =
    fingerprint sha256 "transition_governed_change" (
      str candidate_id
      ∷ str (change_name new_state)
      ∷ str actor
      ∷ str evidence_ref
      ∷ observation
      ∷ [])

-- `transition_governed_change`
unfoldable pub transition_governed_change :
    (String → String) → String → String → ChangeState → String → String → Json → Tx Json
transition_governed_change sha256 candidate_id command_id new_state actor evidence_ref observation =
    let fp = change_fingerprint sha256 candidate_id new_state actor evidence_ref observation in
    once command_id fp
      (change_body candidate_id command_id new_state actor evidence_ref observation fp)
