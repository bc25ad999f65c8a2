-- ===== src/Lifecycle/Transaction.antt =====
-- A transaction of the lifecycle store. `with self._connect() as c` commits when its body returns
-- and rolls back when it raises, so a raised exception hands no tables on: `run` keeps the old ones.
pub mod Rules
pub mod Frames
pub mod Inversion
use nix_ai.Prelude.{
  String, Bool, true, false, Option, none, some, List, [], ◌∷◌, ◌++◌, any, ◌==◌, not, is_some,
  Result, ok, err, Exception, value_error, unique_violation,
}
use nix_ai.Json.{Json, str, array, truthy}
use nix_ai.Json.Dumps.{dumps, sorted_style}
use nix_ai.Table.{get, put}
use nix_ai.Lifecycle.Db.{Db, Command, HistoryRow}

abbrev pub Tx : Type 0 → Type 0
Tx A = Db → Result (A × Db)

module _ {A : Type 0} where
  pub pure : A → Tx A
  pure a db = ok (a, db)

  pub raise : Exception → Tx A
  raise e db = err e

  pub gets : (Db → A) → Tx A
  gets f db = ok (f db, db)

  -- A value that is computed with no access to the tables, and may raise.
  pub lift : Result A → Tx A
  lift (ok a) db = ok (a, db)
  lift (err e) db = err e

  -- `if not row: raise e`
  pub require_row : Option A → Exception → Tx A
  require_row none e db = err e
  require_row (some a) e db = ok (a, db)

pub modify : (Db → Db) → Tx (Unit {0})
modify f db = ok (tt, f db)

pub raise_if : Bool → Exception → Tx (Unit {0})
raise_if true e db = err e
raise_if false e db = ok (tt, db)

infixl 5 ◌>>=◌ ◌>>◌
-- Opening this opens the other ways to build a transaction too.
unfoldable pub ◌>>=◌ : {A B : Type 0} → Tx A → (A → Tx B) → Tx B
unfolding pure raise gets lift require_row modify raise_if
◌>>=◌ m f db = elim (m db) [ err e ↦ err e | ok (a, db') ↦ f a db' ]

abbrev pub ◌>>◌ : {A B : Type 0} → Tx A → Tx B → Tx B
m >> k = m >>= λ _. k

-- A transaction run by itself: its result, and the tables after it.
abbrev pub run : {A : Type 0} → Tx A → Db → Result A × Db
run m db = elim (m db) [ err e ↦ (err e, db) | ok (a, db') ↦ (ok a, db') ]

-- INSERT INTO lifecycle_history, whose `command_id` is UNIQUE.
unfoldable pub insert_history : HistoryRow → Tx (Unit {0})
unfolding ◌>>=◌
insert_history row = do
  used ← gets (λ db. any (λ r. r.command_id == row.command_id) db.history)
  raise_if used (unique_violation "lifecycle_history_command_id_key")
  modify (λ db. record db { history = db.history ++ row ∷ [] })

-- `_fingerprint`; `hashlib.sha256(…).hexdigest()` is the parameter.
pub fingerprint : (String → String) → String → List Json → String
unfolding dumps
fingerprint sha256 operation values = sha256 (dumps sorted_style (array (str operation ∷ values)))

pub replayed : String → Option Command → Tx (Option Json)
unfolding ◌>>=◌
replayed fp none = pure none
replayed fp (some row) = do
  raise_if (not (row.fingerprint == fp)) (value_error "CONFLICT: command identity reused")
  pure (some row.result)

-- `_replay`
unfoldable pub replay : String → String → Tx (Option Json)
unfolding replayed
replay command_id fp = do row ← gets (λ db. get command_id db.commands); replayed fp row

-- `_record`; `command_id` is the primary key.
unfoldable pub record_command : String → String → Json → Tx (Unit {0})
unfolding ◌>>=◌
record_command command_id fp result = do
  used ← gets (λ db. is_some (get command_id db.commands))
  raise_if used (unique_violation "lifecycle_commands_pkey")
  modify (λ db. record db {
    commands = put command_id (record { fingerprint = fp; result = result }) db.commands;
  })

-- `if test: return result`, and the rest of the body otherwise.
unfoldable pub return_if : Bool → Json → Tx Json → Tx Json
unfolding ◌>>=◌
return_if true result body = pure result
return_if false result body = body

-- `if replay: return replay`, and the rest of the body otherwise.
unfoldable pub or_replay : Option Json → Tx Json → Tx Json
unfolding return_if
or_replay none body = body
or_replay (some r) body = return_if (truthy r) r body

-- How every recorded command begins: `replay=self._replay(c,command_id,fp)` and
-- `if replay: return replay`.
unfoldable pub once : String → String → Tx Json → Tx Json
unfolding replay or_replay
once command_id fp body = do found ← replay command_id fp; or_replay found body

-- How every recorded command ends: `self._record(c,command_id,fp,result);return result`.
unfoldable pub recorded : String → String → Json → Tx Json
unfolding record_command
recorded command_id fp result = do record_command command_id fp result; pure result
