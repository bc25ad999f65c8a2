-- ===== src/Store/Restore/Corrections.antt =====
-- The corrections of a restored history: the rows are inserted in the order of the backup.
use nix_ai.Prelude.{
  String, ◌≡◌, ◌≢◌, ℕ, List, [], ◌∷◌, some, ok, Result, Option, Bool, true, false, Exception,
  reject_if, refl, arith, eq_iff, not, beq, is_some, ◌+◌, reject_if-eq-ok, >>=-eq-ok,
  check_violation, foreign_key_violation,
}
use mathlib.Core.Path.{subst}
use nix_ai.Table.{Table, get}
use nix_ai.Store.{Transition, StateDb, is_known}
use nix_ai.Store.Restore.{Backup, restore, insert_rows, insert_row}
use nix_ai.Store.Restore.History.{restore-filled}

-- A row that the next insertion refuses: it corrects a row that has not been inserted.
insert_rows-early :
    {A : Type 0} (refs : Table A) (t : Transition) (ts out : List Transition) (i : String)
    → t.correction_of ≡ some i
    → t.transition_id ≢ i
    → ¬ (insert_rows refs (t ∷ ts) [] ≡ ok out)
unfolding insert_rows insert_row
insert_rows-early refs t ts out i corrects other h =
    let (u, h, _) = >>=-eq-ok (insert_row refs t []) _ h in
    let (_, h) =
      reject_if-eq-ok (not (beq t.new_version (t.previous_version + 1)))
        (check_violation "state_transitions_check") _ h in
    let (_, h) =
      reject_if-eq-ok (not (is_some (get t.evidence_id refs)))
        (foreign_key_violation "state_transitions_evidence_id_fkey") _ h in
    unknown (
      subst (λ c. not (is_known t.transition_id c []) ≡ false) corrects
        (passed _ (foreign_key_violation "state_transitions_correction_of_fkey") h))
  where
    passed : (t : Bool) (e : Exception) {u : Unit {0}} → reject_if t e ≡ ok u → t ≡ false
    passed true e h = cc
    passed false e h = refl

    unknown : not (is_known t.transition_id (some i) []) ≡ false → ⊥
    unknown h = ground (arith, eq_iff t.transition_id i, other, h)

-- A backup whose first row of the history corrects another row is not restored.
pub restore-correction :
    (sha256 : String → String) (byte_len : String → ℕ) (b64decode : String → Option String)
    (is_uuid : String → Bool) (encoded_len : Backup → ℕ)
    (put_content : String → String → String → Result String) (mode : Bool) (backup : Backup)
    (db db' : StateDb) (t : Transition) (ts : List Transition) (i : String)
    → backup.transitions ≡ t ∷ ts
    → t.correction_of ≡ some i
    → t.transition_id ≢ i
    → ¬ (restore sha256 byte_len b64decode is_uuid encoded_len put_content mode backup db ≡ ok db')
restore-correction sha256 byte_len b64decode is_uuid encoded_len put_content mode backup db db' t ts
      i first corrects other h =
    let (_, _, refs, _, _, _, _, inserted, _) =
      restore-filled sha256 byte_len b64decode is_uuid encoded_len put_content mode backup db db'
        h in
    insert_rows-early refs t ts db'.transitions i corrects other
      (subst (λ l. insert_rows refs l [] ≡ ok db'.transitions) first inserted)
