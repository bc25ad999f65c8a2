-- ===== src/Lifecycle/Runtime/Completion.antt =====
-- Theorems on `complete_ready_objective`.

use nix_ai.Table.Laws.{get-put_self}
use nix_ai.Lifecycle.Runtime.{
  complete_wake, is_complete, proposed_row, first_evidence, complete_ready_objective,
  complete_found,
}
use nix_ai.Lifecycle.Wakes.{update_wake, next_due}
use nix_ai.Lifecycle.Objectives.{update_objective}
use nix_ai.Prelude.{
  String, ◌≡◌, ok, some, true, ◌+◌, value_error, not, Option, arith, not_null_violation, refl, Bool,
  ℕ, sym, none,
}
use nix_ai.Lifecycle.Db.{Wake, Db, Objective, HistoryRow}
use nix_ai.Json.{Json}
use nix_ai.Table.{get, put, Table}
use nix_ai.Lifecycle.States.{is_proposed, ObjectiveState, WakeState}
use nix_ai.Lifecycle.Guards.{joined_effects}
use nix_ai.Lifecycle.Transaction.Inversion.{require_row-eq-ok, raise_if-eq-ok, bind-eq-ok}
use nix_ai.Lifecycle.Transaction.Frames.{Keeps-ok, Keeps-insert_history, Keeps-recorded}
use nix_ai.Lifecycle.Transaction.Rules.{Keeps, Keeps-bind, Keeps-require_row}
use nix_ai.Lifecycle.Transaction.{require_row, ◌>>=◌, insert_history, ◌>>◌, recorded, pure}

abbrev HasRows : Table Objective → Table Wake → Db → Type 0
HasRows objectives wakes db = (db.objectives ≡ objectives) × (db.wakes ≡ wakes)

-- The history and the record of the command leave objectives and wakes alone.
writes-HasRows :
    (evidence : Option String) (history : String → HistoryRow) (command_id fp : String) (r : Json)
    (objectives : Table Objective) (wakes : Table Wake)
    → Keeps (HasRows objectives wakes) (
        require_row evidence (not_null_violation "evidence_ref") >>= λ e.
        (insert_history (history e) >> recorded command_id fp r))
writes-HasRows evidence history command_id fp r objectives wakes =
    Keeps-bind (require_row evidence (not_null_violation "evidence_ref")) _
      (Keeps-require_row evidence _)
      (λ e.
        Keeps-bind (insert_history (history e)) _
          (Keeps-insert_history (history e) (λ db rows h. h))
          (λ _. Keeps-recorded command_id fp r (λ db rows h. h)))

complete_wake-eq-ok :
    (sha256 : String → String) (wake_id : String) (wake : Wake) (db db' : Db) (r : Json)
    → complete_wake sha256 wake_id wake db ≡ ok (r, db')
    → (objective : Objective) × (get wake.objective_id db.objectives ≡ some objective)
      × (is_proposed objective.state ≡ true)
      × (is_complete sha256 (get wake.objective_id db.guards) (joined_effects wake.objective_id db)
          ≡ true)
      × (db'.objectives
          ≡ put wake.objective_id
              (record { state = ObjectiveState.satisfied; version = objective.version + 1 })
              db.objectives)
      × (db'.wakes
          ≡ put wake_id
              (record wake { state = WakeState.acknowledged; version = wake.version + 1 })
              db.wakes)
unfolding complete_wake update_wake update_objective
complete_wake-eq-ok sha256 wake_id wake db db' r h =
    let (objective, pending, h) =
      require_row-eq-ok {db = db} (proposed_row (get wake.objective_id db.objectives))
        (value_error "CONFLICT: objective is not schedulable") _ h in
    let (complete, h) =
      raise_if-eq-ok {db = db}
        (not (
          is_complete sha256 (get wake.objective_id db.guards)
            (joined_effects wake.objective_id db)))
        (value_error "CONFLICT: completion lacks effect-service guard") _ h in
    let kept =
      Keeps-ok _
        (record db {
          objectives =
              put wake.objective_id
                (record { state = ObjectiveState.satisfied; version = objective.version + 1 })
                db.objectives;
          wakes =
              put wake_id
                (record wake { state = WakeState.acknowledged; version = wake.version + 1 })
                db.wakes;
        })
        (writes-HasRows (first_evidence (joined_effects wake.objective_id db)) _ _ _ _ _ _)
        (refl, refl) h in
    (
      objective,
      ground (arith, pending),
      ground (arith, pending),
      ground (arith, complete),
      kept.0,
      kept.1,
    )

-- What `complete_ready_objective` has found when it completes an objective: a due wake of an
-- objective that is proposed, whose guard is ready and covers exactly the settled effects that there
-- are (`is_complete`). The objective is satisfied at the next version and the wake acknowledged.
pub complete_ready_objective-guarded :
    (sha256 : String → String) (locked : String → Bool) (now : ℕ) (db db' : Db) (r : Json)
    → complete_ready_objective sha256 locked now db ≡ ok (some r, db')
    → (wake_id : String) × (wake : Wake) × (objective : Objective) × (next_due locked now db.wakes
        ≡ some (wake_id, wake))
      × (get wake.objective_id db.objectives ≡ some objective)
      × (is_proposed objective.state ≡ true)
      × (is_complete sha256 (get wake.objective_id db.guards) (joined_effects wake.objective_id db)
          ≡ true)
      × (get wake.objective_id db'.objectives
          ≡ some (record { state = ObjectiveState.satisfied; version = objective.version + 1 }))
      × (get wake_id db'.wakes
          ≡ some (record wake { state = WakeState.acknowledged; version = wake.version + 1 }))
unfolding complete_ready_objective complete_found ◌>>=◌
complete_ready_objective-guarded sha256 locked now db db' r h =
    from (next_due locked now db.wakes) refl h
  where
    from :
        (found : Option (String × Wake))
        → next_due locked now db.wakes ≡ found
        → complete_found sha256 found db ≡ ok (some r, db')
        → (wake_id : String) × (wake : Wake) × (objective : Objective) × (next_due locked now
              db.wakes
            ≡ some (wake_id, wake))
          × (get wake.objective_id db.objectives ≡ some objective)
          × (is_proposed objective.state ≡ true)
          × (is_complete sha256
                (get wake.objective_id db.guards)
                (joined_effects wake.objective_id db)
              ≡ true)
          × (get wake.objective_id db'.objectives
              ≡ some (record { state = ObjectiveState.satisfied; version = objective.version + 1 }))
          × (get wake_id db'.wakes
              ≡ some (record wake { state = WakeState.acknowledged; version = wake.version + 1 }))
    from none e h = absurd (ground arith)
    from (some (wake_id, wake)) e h =
        let (q, d, done, rest) =
          bind-eq-ok (complete_wake sha256 wake_id wake) (λ result. pure (some result)) db h in
        let same : d ≡ db' = ground (arith, rest) in
        let (objective, found, pending, complete, objectives, wakes) =
          complete_wake-eq-ok sha256 wake_id wake db d q done in
        (
          wake_id,
          wake,
          objective,
          e,
          found,
          pending,
          complete,
          rw (sym same, objectives) (get-put_self wake.objective_id _ db.objectives),
          rw (sym same, wakes) (get-put_self wake_id _ db.wakes),
        )
