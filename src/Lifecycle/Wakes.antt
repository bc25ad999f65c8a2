-- ===== src/Lifecycle/Wakes.antt =====
-- Durable wakes: `create_wake`, `lease_wake` and `acknowledge_wake`.
mod Tests
pub mod Leases
pub mod Replays
use nix_ai.Prelude.{
  Option, ℕ, String, Bool, Result, false, leb, ltb, some, err, ◌+◌, ◌==◌, is_some, ◌&&◌, ◌||◌, ◌∷◌,
  type_error, value_error, ok, beq, not, if◌then◌else◌, [], unique_violation, none, text_append,
}
use nix_ai.Lifecycle.Transaction.{
  ◌>>=◌, insert_history, once, Tx, fingerprint, gets, modify, pure, run, ◌>>◌, raise_if, recorded,
  lift,
}
use nix_ai.Json.{Json, object, str, nat}
use nix_ai.Lifecycle.Db.{Wake, Db}
use nix_ai.Lifecycle.States.{WakeState, is_claimable, wake_name, is_wake_leased}
use nix_ai.Table.{Table, put, pick, get, find_row}
use text.Mathlib.Text.{is_lt}
use Prim.Native.String.{compare}

abbrev pub opt_le : Option ℕ → ℕ → Bool
opt_le none now = false
opt_le (some t) now = leb t now

abbrev pub opt_eq : Option String → String → Bool
opt_eq none s = false
opt_eq (some t) s = t == s

-- INSERT INTO wakes: `wake_id` is the primary key, and `created_command` is UNIQUE.
unfoldable pub insert_wake : String → Wake → Tx (Unit {0})
unfolding ◌>>=◌
insert_wake wake_id w = do
  used ← gets (λ db. is_some (get wake_id db.wakes))
  raise_if used (unique_violation "wakes_pkey")
  created ← gets (λ db. is_some (find_row (λ _ v. v.created_command == w.created_command) db.wakes))
  raise_if created (unique_violation "wakes_created_command_key")
  modify (λ db. record db { wakes = put wake_id w db.wakes })

-- UPDATE wakes … WHERE wake_id=… of a row that the transaction has read.
unfoldable pub update_wake : String → Wake → Tx (Unit {0})
unfolding ◌>>=◌
update_wake wake_id w = modify (λ db. record db { wakes = put wake_id w db.wakes })

-- `due_at<=now AND (state IN ('PENDING','RELEASED') OR (state='LEASED' AND lease_expires_at<=now))`
abbrev pub is_due : ℕ → Wake → Bool
is_due now w =
    leb w.due_at now
    && (is_claimable w.state || is_wake_leased w.state && opt_le w.lease_expires_at now)

-- ORDER BY due_at,wake_id
abbrev pub due_before : String × Wake → String × Wake → Bool
due_before (i, v) (j, w) = ltb v.due_at w.due_at || beq v.due_at w.due_at && is_lt (compare i j)

-- FOR UPDATE SKIP LOCKED LIMIT 1: `locked` holds of the rows that other transactions have locked.
unfoldable pub next_due : (String → Bool) → ℕ → Table Wake → Option (String × Wake)
next_due locked now = pick (λ k w. not (locked k) && is_due now w) due_before

pub leased_to : String → ℕ → Wake → Wake
leased_to worker expires w = record w {
  state = WakeState.leased;
  lease_owner = some worker;
  lease_expires_at = some expires;
  version = w.version + 1;
}

lease_row : String → ℕ → Option (String × Wake) → Tx (Option (String × Wake))
unfolding ◌>>=◌ leased_to update_wake
lease_row worker expires none = pure none
lease_row worker expires (some (wake_id, w)) = do
  update_wake wake_id (leased_to worker expires w)
  pure (some (wake_id, leased_to worker expires w))

-- `lease_wake`
pub lease_wake : (String → Bool) → String → ℕ → ℕ → Tx (Option (String × Wake))
unfolding lease_row next_due
lease_wake locked worker now lease_seconds = do
  row ← gets (λ db. next_due locked now db.wakes)
  lease_row worker (now + lease_seconds) row

abbrev pub wake_result : String → WakeState → ℕ → Json
wake_result wake_id state version =
    object
      (("wake_id", str wake_id) ∷ ("state", str (wake_name state)) ∷ ("version", nat version) ∷ [])

create_wake_fingerprint : (String → String) → String → String → ℕ → String
create_wake_fingerprint sha256 wake_id objective_id due_at =
    fingerprint sha256 "create_wake" (str wake_id ∷ str objective_id ∷ nat due_at ∷ [])

-- The row that `create_wake` inserts.
abbrev pub created_wake : String → String → ℕ → Wake
created_wake objective_id command_id due_at = record {
  objective_id = objective_id;
  state = WakeState.pending;
  due_at = due_at;
  lease_owner = none;
  lease_expires_at = none;
  version = 1;
  created_command = command_id;
}

create_wake_body : String → String → String → ℕ → String → Tx Json
unfolding insert_wake insert_history recorded
create_wake_body wake_id objective_id command_id due_at fp = do
  insert_wake wake_id (created_wake objective_id command_id due_at)
  insert_history (record {
    entity_id = wake_id;
    previous_state = none;
    new_state = "PENDING";
    command_id = command_id;
    actor = "service:wake-scheduler";
    evidence_ref = text_append "evidence:" fp;
  })
  recorded command_id fp (wake_result wake_id WakeState.pending 1)

-- The transaction of `create_wake`.
pub create_wake_tx : (String → String) → String → String → String → ℕ → Tx Json
create_wake_tx sha256 wake_id objective_id command_id due_at =
    let fp = create_wake_fingerprint sha256 wake_id objective_id due_at in
    once command_id fp (create_wake_body wake_id objective_id command_id due_at fp)

-- `notify(result)` and `return result`, once `with` has committed; an exception of the transaction
-- passes on, with the tables as they were.
after_commit : (Json → Result (Unit {0})) → Db → Result (Json × Db) → Result Json × Db
after_commit notify db (err e) = (err e, db)
after_commit notify db (ok (result, db')) =
    (elim (notify result) [ err e ↦ err e | ok _ ↦ ok result ], db')

-- `create_wake`: `notify` is called once the transaction has committed, and may raise.
pub create_wake :
    (String → String)
    → String
    → String
    → String
    → ℕ
    → (Json → Result (Unit {0}))
    → Db
    → Result Json × Db
unfolding after_commit
create_wake sha256 wake_id objective_id command_id due_at notify db =
    after_commit notify db (create_wake_tx sha256 wake_id objective_id command_id due_at db)

-- `lease_expires_at<=now`, of a row with no expiry a `TypeError`.
unexpired : ℕ → Wake → Option ℕ → Result Wake
unexpired now w none = err (type_error "'<=' not supported between 'NoneType' and 'int'")
unexpired now w (some t) =
    if leb t now then err (value_error "CONFLICT: wake lease expired") else ok w

-- The checks of `acknowledge_wake` on the wake's row.
owned_lease : String → ℕ → Option Wake → Result Wake
unfolding unexpired
owned_lease worker now none = err (value_error "CONFLICT: wake lease is not owned")
owned_lease worker now (some w) =
    if is_wake_leased w.state && opt_eq w.lease_owner worker
    then unexpired now w w.lease_expires_at
    else err (value_error "CONFLICT: wake lease is not owned")

acknowledged : Wake → Wake
acknowledged w = record w { state = WakeState.acknowledged; version = w.version + 1 }

acknowledge_body : String → String → String → ℕ → String → Tx Json
unfolding owned_lease acknowledged update_wake insert_history recorded
acknowledge_body wake_id command_id worker now fp = do
  row ← gets (λ db. get wake_id db.wakes)
  w ← lift (owned_lease worker now row)
  update_wake wake_id (acknowledged w)
  insert_history (record {
    entity_id = wake_id;
    previous_state = some "LEASED";
    new_state = "ACKNOWLEDGED";
    command_id = command_id;
    actor = worker;
    evidence_ref = text_append "evidence:" fp;
  })
  recorded command_id fp (wake_result wake_id WakeState.acknowledged (w.version + 1))

-- `acknowledge_wake`
pub acknowledge_wake : (String → String) → String → String → String → ℕ → Tx Json
acknowledge_wake sha256 wake_id command_id worker now =
    let fp = fingerprint sha256 "ack_wake" (str wake_id ∷ str worker ∷ []) in
    once command_id fp (acknowledge_body wake_id command_id worker now fp)
