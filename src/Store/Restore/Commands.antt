-- ===== src/Store/Restore/Commands.antt =====
-- The commands of a restored history: the insertion keeps them apart.
use nix_ai.Prelude.{
  String, ◌≡◌, ℕ, List, [], ◌∷◌, ◌++◌, ok, none, Result, Option, Bool, arith, any, ◌==◌, not, beq,
  ◌+◌, refl, reject_if-eq-ok, >>=-eq-ok, check_violation, unique_violation, false, ok_inj,
}
use nix_ai.Table.{Table}
use nix_ai.Store.{Transition, StateDb, find_command}
use nix_ai.Store.Log.{AreOnce, AreOnce-append}
use nix_ai.Store.Restore.{Backup, restore, insert_rows, insert_row}
use nix_ai.Store.Restore.History.{restore-filled}
use mathlib.Core.Path.{subst}

find_command-any :
    (c : String) (ts : List Transition)
    → any (λ r. r.command_id == c) ts ≡ false
    → find_command c ts ≡ none
unfolding find_command
find_command-any c [] h = refl
find_command-any c (t ∷ ts) h = ground (arith, h, find_command-any c ts)

insert_row-fresh :
    {A : Type 0} (refs : Table A) (t : Transition) (done : List Transition) (u : Unit {0})
    → insert_row refs t done ≡ ok u
    → find_command t.command_id done ≡ none
unfolding insert_row
insert_row-fresh refs t done u h =
    let (_, h) =
      reject_if-eq-ok (not (beq t.new_version (t.previous_version + 1)))
        (check_violation "state_transitions_check") _ h in
    let (_, h) =
      reject_if-eq-ok (any (λ r. r.transition_id == t.transition_id) done)
        (unique_violation "state_transitions_pkey") _ h in
    let (unused, _) =
      reject_if-eq-ok (any (λ r. r.command_id == t.command_id) done)
        (unique_violation "state_transitions_command_id_key") _ h in
    find_command-any t.command_id done unused

insert_rows-AreOnce :
    {A : Type 0} (refs : Table A) (ts done out : List Transition)
    → AreOnce done
    → insert_rows refs ts done ≡ ok out
    → AreOnce out
unfolding insert_rows
insert_rows-AreOnce refs [] done out once h = subst AreOnce (ok_inj h) once
insert_rows-AreOnce refs (t ∷ ts) done out once h =
    let (u, fresh, h) = >>=-eq-ok (insert_row refs t done) _ h in
    insert_rows-AreOnce refs ts (done ++ t ∷ []) out
      (AreOnce-append done t once (insert_row-fresh refs t done u fresh)) h

-- A restore that succeeds leaves a history in which no command has two rows, whatever the backup.
pub restore-AreOnce :
    (sha256 : String → String) (byte_len : String → ℕ) (b64decode : String → Option String)
    (is_uuid : String → Bool) (encoded_len : Backup → ℕ)
    (put_content : String → String → String → Result String) (mode : Bool) (backup : Backup)
    (db db' : StateDb)
    → restore sha256 byte_len b64decode is_uuid encoded_len put_content mode backup db ≡ ok db'
    → AreOnce db'.transitions
unfolding AreOnce
restore-AreOnce sha256 byte_len b64decode is_uuid encoded_len put_content mode backup db db' h =
    let (_, _, refs, _, _, _, _, inserted, _) =
      restore-filled sha256 byte_len b64decode is_uuid encoded_len put_content mode backup db db'
        h in
    insert_rows-AreOnce refs backup.transitions [] db'.transitions tt inserted
