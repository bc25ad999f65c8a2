-- ===== src/Lifecycle/Replays.antt =====
-- Theorems on the repetition of `schedule_objective` and `transition_governed_change`.

use nix_ai.Lifecycle.Runtime.{schedule_body, schedule_objective}
use nix_ai.Lifecycle.Changes.{change_body, transition_governed_change, change_fingerprint}
use nix_ai.Prelude.{String, ℕ, ◌≡◌, ok, text_append, ◌∷◌, []}
use nix_ai.Lifecycle.Db.{ChangeState, Db}
use nix_ai.Lifecycle.Transaction.Rules.{Records, records_rules, once_again}
use nix_ai.Json.{Json, str}
use nix_ai.Lifecycle.Transaction.{fingerprint}

schedule_body-Records :
    (objective_id : String) (now : ℕ) (command_id fp : String)
    → Records command_id fp (schedule_body objective_id now command_id fp)
unfolding schedule_body
schedule_body-Records objective_id now command_id fp = search records_rules depth 20

-- An objective that was scheduled is scheduled again, at any later time, with the same answer and no
-- write: its identity is its command.
pub schedule_objective_again :
    (sha256 : String → String) (objective_id : String) (now now' : ℕ) (db db' : Db) (r : Json)
    → schedule_objective sha256 objective_id now db ≡ ok (r, db')
    → schedule_objective sha256 objective_id now' db' ≡ ok (r, db')
unfolding schedule_objective
schedule_objective_again sha256 objective_id now now' db db' r h =
    let command_id = text_append "schedule:" objective_id in
    let fp = fingerprint sha256 "schedule_objective" (str objective_id ∷ []) in
    once_again command_id fp (schedule_body objective_id now command_id fp)
      (schedule_body-Records objective_id now command_id fp)
      (schedule_body objective_id now' command_id fp) db r db' h

change_body-Records :
    (candidate_id command_id : String) (new_state : ChangeState) (actor evidence_ref : String)
    (observation : Json) (fp : String)
    → Records command_id fp
        (change_body candidate_id command_id new_state actor evidence_ref observation fp)
unfolding change_body
change_body-Records candidate_id command_id new_state actor evidence_ref observation fp =
    search records_rules depth 20

-- A governed transition that succeeded is answered again in the same words, and changes nothing.
pub transition_governed_change_again :
    (sha256 : String → String) (candidate_id command_id : String) (new_state : ChangeState)
    (actor evidence_ref : String) (observation : Json) (db db' : Db) (r : Json)
    → transition_governed_change sha256 candidate_id command_id new_state actor evidence_ref
        observation db
      ≡ ok (r, db')
    → transition_governed_change sha256 candidate_id command_id new_state actor evidence_ref
        observation db'
      ≡ ok (r, db')
unfolding transition_governed_change
transition_governed_change_again sha256 candidate_id command_id new_state actor evidence_ref
      observation db db' r h =
    let fp = change_fingerprint sha256 candidate_id new_state actor evidence_ref observation in
    let body = change_body candidate_id command_id new_state actor evidence_ref observation fp in
    once_again command_id fp body
      (change_body-Records candidate_id command_id new_state actor evidence_ref observation fp) body
      db r db' h
