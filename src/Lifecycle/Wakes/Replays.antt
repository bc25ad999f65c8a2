-- ===== src/Lifecycle/Wakes/Replays.antt =====
-- Theorems on the repetition of `create_wake` and `acknowledge_wake`.
use nix_ai.Lifecycle.Transaction.Rules.{Records, Records-recorded, records_rules, once_again}
use nix_ai.Lifecycle.Wakes.{
  insert_wake, created_wake, create_wake, acknowledge_wake, create_wake_body, acknowledge_body,
  wake_result, create_wake_tx, create_wake_fingerprint,
}
use nix_ai.Prelude.{
  is_some, some, none, text_append, unique_violation, ok_pair, ◌==◌, sym, ◌∙◌, String, ℕ, Result,
  ◌≡◌, refl, ok, Exception, err, ◌∷◌, [],
}
use nix_ai.Lifecycle.Db.{Db, Wake}
use nix_ai.Table.{get, find_row}
use nix_ai.Table.Laws.{get-put_self}
use mathlib.Core.Path.{subst}
use nix_ai.Lifecycle.Transaction.Inversion.{raise_if-eq-ok, bind-eq-ok}
use nix_ai.Lifecycle.Transaction.Frames.{Keeps-insert_history, Keeps-recorded, Keeps-ok}
use nix_ai.Lifecycle.Transaction.Rules.{Keeps-bind, once-fresh}
use nix_ai.Lifecycle.States.{WakeState}
use nix_ai.Json.{Json, str}
use nix_ai.Lifecycle.Transaction.{fingerprint}

create_wake_body-Records :
    (wake_id objective_id command_id : String) (due_at : ℕ) (fp : String)
    → Records command_id fp (create_wake_body wake_id objective_id command_id due_at fp)
unfolding create_wake_body
create_wake_body-Records wake_id objective_id command_id due_at fp =
    search (records_rules, Records-recorded (wake_result wake_id WakeState.pending 1) refl)

acknowledge_body-Records :
    (wake_id command_id worker : String) (now : ℕ) (fp : String)
    → Records command_id fp (acknowledge_body wake_id command_id worker now fp)
unfolding acknowledge_body
acknowledge_body-Records wake_id command_id worker now fp = search records_rules

abbrev IsCreated : String → Wake → Db → Type 0
IsCreated wake_id w db = get wake_id db.wakes ≡ some w

insert_wake-IsCreated :
    (wake_id : String) (w : Wake) (db db' : Db) (u : Unit {0})
    → insert_wake wake_id w db ≡ ok (u, db')
    → IsCreated wake_id w db'
unfolding insert_wake
insert_wake-IsCreated wake_id w db db' u h =
    let (_, h) =
      raise_if-eq-ok {db = db} (is_some (get wake_id db.wakes)) (unique_violation "wakes_pkey") _
        h in
    let (_, h) =
      raise_if-eq-ok {db = db}
        (is_some (find_row (λ _ v. v.created_command == w.created_command) db.wakes))
        (unique_violation "wakes_created_command_key") _ h in
    subst (IsCreated wake_id w) (ok_pair h).1 (get-put_self wake_id w db.wakes)

-- The wake that a new command leaves.
create_wake_body-wakes :
    (wake_id objective_id command_id : String) (due_at : ℕ) (fp : String) (db db' : Db) (r : Json)
    → create_wake_body wake_id objective_id command_id due_at fp db ≡ ok (r, db')
    → get wake_id db'.wakes ≡ some (created_wake objective_id command_id due_at)
unfolding create_wake_body
create_wake_body-wakes wake_id objective_id command_id due_at fp db db' r h =
    let w = created_wake objective_id command_id due_at in
    let (u, d, inserted, h) = bind-eq-ok (insert_wake wake_id w) _ db h in
    Keeps-ok {P = IsCreated wake_id w} _ d
      (Keeps-bind _ _
        (Keeps-insert_history
          (record {
            entity_id = wake_id;
            previous_state = none;
            new_state = "PENDING";
            command_id = command_id;
            actor = "service:wake-scheduler";
            evidence_ref = text_append "evidence:" fp;
          })
          (λ db rows h. h))
        (λ _.
          Keeps-recorded command_id fp (wake_result wake_id WakeState.pending 1) (λ db rows h. h)))
      (insert_wake-IsCreated wake_id w db d u inserted) h

-- `create_wake` tells its listener after the commit. Where the listener raises on a new command, the
-- wake is in the tables all the same, pending with its time, and the same call with a listener that
-- does not raise returns the result and writes nothing more.
pub create_wake_retry :
    (sha256 : String → String) (wake_id objective_id command_id : String) (due_at : ℕ) (db db' : Db)
    (r : Json) (e : Exception) (deaf notify : Json → Result (Unit {0}))
    → get command_id db.commands ≡ none
    → create_wake_tx sha256 wake_id objective_id command_id due_at db ≡ ok (r, db')
    → deaf r ≡ err e
    → notify r ≡ ok tt
    → (create_wake sha256 wake_id objective_id command_id due_at deaf db ≡ (err e, db'))
      × (get wake_id db'.wakes ≡ some (created_wake objective_id command_id due_at))
      × (create_wake sha256 wake_id objective_id command_id due_at notify db' ≡ (ok r, db'))
unfolding create_wake
create_wake_retry sha256 wake_id objective_id command_id due_at db db' r e deaf notify new h raised
      told =
    let fp = create_wake_fingerprint sha256 wake_id objective_id due_at in
    let body = create_wake_body wake_id objective_id command_id due_at fp in
    let again : create_wake_tx sha256 wake_id objective_id command_id due_at db' ≡ ok (r, db') =
      unfold create_wake_tx in
      once_again command_id fp body
        (create_wake_body-Records wake_id objective_id command_id due_at fp) body db r db' h in
    (
      rw (h, raised),
      create_wake_body-wakes wake_id objective_id command_id due_at fp db db' r
          (sym (once-fresh command_id fp body db new) ∙ unfold create_wake_tx in h),
      rw (again, told),
    )

-- An acknowledgement that succeeded is answered again in the same words, at any later time, and
-- writes nothing.
pub acknowledge_wake_again :
    (sha256 : String → String) (wake_id command_id worker : String) (now now' : ℕ) (db db' : Db)
    (r : Json)
    → acknowledge_wake sha256 wake_id command_id worker now db ≡ ok (r, db')
    → acknowledge_wake sha256 wake_id command_id worker now' db' ≡ ok (r, db')
unfolding acknowledge_wake
acknowledge_wake_again sha256 wake_id command_id worker now now' db db' r h =
    let fp = fingerprint sha256 "ack_wake" (str wake_id ∷ str worker ∷ []) in
    once_again command_id fp (acknowledge_body wake_id command_id worker now fp)
      (acknowledge_body-Records wake_id command_id worker now fp)
      (acknowledge_body wake_id command_id worker now' fp) db r db' h
