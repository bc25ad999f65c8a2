-- ===== src/Lifecycle/Transaction/Frames.antt =====
-- Which tables the shared steps leave alone.

use nix_ai.Lifecycle.Db.{Db, HistoryRow, Command}
use nix_ai.Lifecycle.Transaction.{
  insert_history, recorded, Tx, record_command, gets, ◌>>=◌, raise_if, ◌>>◌, modify,
}
use nix_ai.Lifecycle.Transaction.Rules.{
  Keeps, Keeps-modify, KeepsIn, Keeps-bind, Keeps-gets, Keeps-raise_if, Keeps-pure,
}
use nix_ai.Prelude.{unique_violation, List, String, ◌≡◌, ok, ◌++◌, ◌∷◌, [], Bool, Exception}
use nix_ai.Json.{Json}
use mathlib.Core.Path.{subst}
use nix_ai.Table.{Table, put}

module _ {P : Db → Type 0} where
  pub Keeps-insert_history :
      (row : HistoryRow)
      → ((db : Db) (rows : List HistoryRow) → P db → P (record db { history = rows }))
      → Keeps P (insert_history row)
  unfolding insert_history
  Keeps-insert_history row k = Keeps-bind _ _ (Keeps-gets _) (λ used.
      Keeps-bind _ _ (Keeps-raise_if used (unique_violation "lifecycle_history_command_id_key"))
        (λ _. Keeps-modify _ (λ db h. k db (db.history ++ row ∷ []) h)))

  pub Keeps-recorded :
      (command_id fp : String) (r : Json)
      → ((db : Db) (rows : Table Command) → P db → P (record db { commands = rows }))
      → Keeps P (recorded command_id fp r)
  unfolding recorded record_command
  Keeps-recorded command_id fp r k =
      Keeps-bind _ _
        (Keeps-bind _ _ (Keeps-gets _) (λ used.
          Keeps-bind _ _ (Keeps-raise_if used (unique_violation "lifecycle_commands_pkey")) (λ _.
            Keeps-modify _ (λ db h.
              k db (put command_id (record { fingerprint = fp; result = r }) db.commands) h))))
        (λ _. Keeps-pure r)

-- An INSERT behind the tests of two keys.
pub Keeps-keyed_insert :
    {P : Db → Type 0} (used sent : Db → Bool) (e f : Exception) (write : Db → Db)
    → ((db : Db) → P db → P (write db))
    → Keeps P
        (gets used >>= λ u. (raise_if u e >> (gets sent >>= λ s. (raise_if s f >> modify write))))
Keeps-keyed_insert used sent e f write k = Keeps-bind _ _ (Keeps-gets used) (λ u.
    Keeps-bind _ _ (Keeps-raise_if u e) (λ _.
      Keeps-bind _ _ (Keeps-gets sent)
        (λ s. Keeps-bind _ _ (Keeps-raise_if s f) (λ _. Keeps-modify write k))))

-- What a transaction that returned has kept.
pub Keeps-ok :
    {A : Type 0} {P : Db → Type 0} (m : Tx A) (db : Db) {a : A} {db' : Db}
    → Keeps P m
    → P db
    → m db ≡ ok (a, db')
    → P db'
Keeps-ok {P = P} m db k h e = subst (KeepsIn P) e (k.at db h)
