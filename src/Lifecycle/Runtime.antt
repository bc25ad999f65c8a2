-- ===== src/Lifecycle/Runtime.antt =====
-- The runtime coordinator's operations: `schedule_objective`, `cancel_denied_objective`,
-- `complete_ready_objective` and `pending_objectives`.
mod Tests
pub mod Completion
use nix_ai.Lifecycle.Wakes.{insert_wake, update_wake, next_due}
use nix_ai.Lifecycle.Objectives.{update_objective}
use nix_ai.Lifecycle.Guards.{Joined, joined_effects, effect_set_digest, is_settled}
use nix_ai.Prelude.{
  String, Option, text_append, ℕ, none, Bool, false, List, some, is_some, if◌then◌else◌, true,
  unique_violation, value_error, ◌∷◌, ◌||◌, not, [], ◌==◌, leb, ◌+◌, ◌&&◌, take, beq,
  not_null_violation, length, all,
}
use nix_ai.Lifecycle.Transaction.{
  insert_history, ◌>>=◌, recorded, Tx, gets, fingerprint, pure, ◌>>◌, raise_if, require_row, once,
}
use nix_ai.Table.{Table, get, rows_where}
use nix_ai.Lifecycle.States.{
  ObjectiveState, is_proposed, is_claimable, satisfied, compensated, WakeState, is_wake_leased,
  failed, cancelled, wake_name,
}
use nix_ai.Lifecycle.Db.{Objective, Wake, Guard}
use nix_ai.Lifecycle.Sorted.{order_by_key, keys}
use nix_ai.Json.{Json, str, object, nat}

abbrev pub wake_of : String → String
wake_of objective_id = text_append "wake:" objective_id

-- INSERT INTO objectives
unfoldable pub insert_objective : String → Objective → Tx (Unit {0})
unfolding update_objective
insert_objective objective_id o = do
  used ← gets (λ db. is_some (get objective_id db.objectives))
  raise_if used (unique_violation "objectives_pkey")
  update_objective objective_id o

unfoldable pub schedule_body : String → ℕ → String → String → Tx Json
unfolding insert_objective insert_wake insert_history recorded
schedule_body objective_id now command_id fp = do
  used ← gets (λ db. is_some (get objective_id db.objectives))
  raise_if used (value_error "CONFLICT: objective identity reused")
  insert_objective objective_id (record { state = ObjectiveState.proposed; version = 1 })
  insert_wake (wake_of objective_id) (record {
    objective_id = objective_id;
    state = WakeState.pending;
    due_at = now;
    lease_owner = none;
    lease_expires_at = none;
    version = 1;
    created_command = command_id;
  })
  insert_history (record {
    entity_id = objective_id;
    previous_state = none;
    new_state = "PROPOSED";
    command_id = command_id;
    actor = "service:runtime-coordinator";
    evidence_ref = text_append "evidence:" fp;
  })
  recorded command_id fp (
      object (
        ("objective_id", str objective_id)
        ∷ ("wake_id", str (wake_of objective_id))
        ∷ ("state", str "PROPOSED")
        ∷ ("version", nat 1)
        ∷ []))

-- `schedule_objective`
unfoldable pub schedule_objective : (String → String) → String → ℕ → Tx Json
schedule_objective sha256 objective_id now =
    let command_id = text_append "schedule:" objective_id in
    let fp = fingerprint sha256 "schedule_objective" (str objective_id ∷ []) in
    once command_id fp (schedule_body objective_id now command_id fp)

abbrev proposed_row : Option Objective → Option Objective
proposed_row none = none
proposed_row (some o) = if is_proposed o.state then some o else none

-- `wake["state"] in ("PENDING","RELEASED","LEASED")`
abbrev pending_wake : Option Wake → Option Wake
pending_wake none = none
pending_wake (some w) = if is_claimable w.state || is_wake_leased w.state then some w else none

pub cancel_body : String → String → String → String → Tx Json
unfolding update_objective update_wake insert_history recorded
cancel_body objective_id reason command_id fp = do
  objective_row ← gets (λ db. get objective_id db.objectives)
  wake_row ← gets (λ db. get (wake_of objective_id) db.wakes)
  objective ←
      require_row (proposed_row objective_row)
        (value_error "CONFLICT: denied objective is not pending")
  wake ←
      require_row (pending_wake wake_row)
        (value_error "CONFLICT: denied objective wake is not pending")
  update_wake (wake_of objective_id) (record wake {
    state = WakeState.acknowledged;
    lease_owner = none;
    lease_expires_at = none;
    version = wake.version + 1;
  })
  update_objective objective_id
      (record { state = ObjectiveState.cancelled; version = objective.version + 1 })
  insert_history (record {
    entity_id = objective_id;
    previous_state = some "PROPOSED";
    new_state = "CANCELLED";
    command_id = command_id;
    actor = "service:runtime";
    evidence_ref = text_append "authority-denial:" fp;
  })
  insert_history (record {
    entity_id = wake_of objective_id;
    previous_state = some (wake_name wake.state);
    new_state = "ACKNOWLEDGED";
    command_id = text_append command_id ":wake";
    actor = "service:runtime";
    evidence_ref = text_append "authority-denial:" fp;
  })
  recorded command_id fp (
      object (
        ("objective_id", str objective_id)
        ∷ ("wake_id", str (wake_of objective_id))
        ∷ ("state", str "CANCELLED")
        ∷ ("reason", str reason)
        ∷ ("version", nat (objective.version + 1))
        ∷ []))

-- `cancel_denied_objective`
pub cancel_denied_objective : (String → String) → String → String → Tx Json
unfolding ◌>>=◌
cancel_denied_objective sha256 objective_id reason = do
  raise_if (not (reason == "UNAUTHORIZED")) (value_error "unsupported runtime denial disposition")
  let command_id = text_append "deny:" objective_id
  let fp = fingerprint sha256 "cancel_denied_objective" (str objective_id ∷ str reason ∷ [])
  once command_id fp (cancel_body objective_id reason command_id fp)

-- The test of `complete_ready_objective` on the guard and the effects of the objective.
unfoldable pub is_complete : (String → String) → Option Guard → Table Joined → Bool
unfolding effect_set_digest
is_complete sha256 none rows = false
is_complete sha256 (some g) [] = false
is_complete sha256 (some g) (r ∷ rows) =
    g.ready
    && (beq (length (r ∷ rows)) g.effect_count
        && (g.effect_set_digest == effect_set_digest sha256 (keys (r ∷ rows))
            && all is_settled (r ∷ rows)))

-- `effects[0]["evidence_ref"]`; the column of the history is NOT NULL.
abbrev first_evidence : Table Joined → Option String
first_evidence [] = none
first_evidence ((_, r) ∷ _) = r.evidence_ref

abbrev guard_digest : Option Guard → String
guard_digest none = ""
guard_digest (some g) = g.effect_set_digest

-- `complete_ready_objective` once it has found a wake; this operation records its command without
-- looking for an earlier one.
pub complete_wake : (String → String) → String → Wake → Tx Json
unfolding update_objective update_wake insert_history recorded is_complete joined_effects
complete_wake sha256 wake_id wake = do
  let objective_id = wake.objective_id
  objective_row ← gets (λ db. get objective_id db.objectives)
  guard ← gets (λ db. get objective_id db.guards)
  effects ← gets (joined_effects objective_id)
  objective ←
      require_row (proposed_row objective_row)
        (value_error "CONFLICT: objective is not schedulable")
  raise_if (not (is_complete sha256 guard effects))
      (value_error "CONFLICT: completion lacks effect-service guard")
  let command_id = text_append "complete:" wake_id
  let fp =
      fingerprint sha256 "complete_objective" (str objective_id ∷ str (guard_digest guard) ∷ [])
  update_wake wake_id (record wake { state = WakeState.acknowledged; version = wake.version + 1 })
  update_objective objective_id
      (record { state = ObjectiveState.satisfied; version = objective.version + 1 })
  evidence ← require_row (first_evidence effects) (not_null_violation "evidence_ref")
  insert_history (record {
    entity_id = objective_id;
    previous_state = some "PROPOSED";
    new_state = "SATISFIED";
    command_id = command_id;
    actor = "service:runtime-coordinator";
    evidence_ref = evidence;
  })
  recorded command_id fp (
      object (
        ("objective_id", str objective_id)
        ∷ ("wake_id", str wake_id)
        ∷ ("state", str "SATISFIED")
        ∷ ("version", nat (objective.version + 1))
        ∷ []))

pub complete_found : (String → String) → Option (String × Wake) → Tx (Option Json)
unfolding ◌>>=◌ complete_wake
complete_found sha256 none = pure none
complete_found sha256 (some (wake_id, wake)) = do
  result ← complete_wake sha256 wake_id wake
  pure (some result)

-- `complete_ready_objective`
pub complete_ready_objective : (String → String) → (String → Bool) → ℕ → Tx (Option Json)
unfolding ◌>>=◌ complete_found next_due
complete_ready_objective sha256 locked now = do
  wake ← gets (λ db. next_due locked now db.wakes)
  complete_found sha256 wake

-- `state NOT IN ('SATISFIED','COMPENSATED','FAILED','CANCELLED')`
abbrev is_pending : ObjectiveState → Bool
is_pending satisfied = false
is_pending compensated = false
is_pending failed = false
is_pending cancelled = false
is_pending _ = true

-- `pending_objectives`
pub pending_objectives : ℕ → Tx (List String)
unfolding ◌>>=◌ order_by_key
pending_objectives limit = do
  raise_if (not (leb 1 limit && leb limit 1000)) (value_error "invalid pending objective limit")
  gets (λ db.
      take limit (keys (order_by_key (rows_where (λ _ o. is_pending o.state) db.objectives))))
