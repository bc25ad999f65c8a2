-- ===== src/Ledger/Commits.antt =====
-- Theorems on `CommandLedgerStore.commit` and `CommandLedgerStore.get`.

use nix_ai.Ledger.{
  find_commit, LedgerRow, commit_row, Outcome, outcome, validate_result, commit, get_commit,
  commit_checks, written, checked_row, has_durable,
}
use nix_ai.Prelude.{
  String, List, ◌≡◌, true, none, not, ok, ◌++◌, ◌==◌, some, ◌∷◌, [], arith, refl, inl, inr, Option,
  >>=-eq-ok, Bool, false, Result-cases, eq_refl, sym,
}
use nix_ai.Json.{Json, get_field, str, boolean, int, arr, obj, null}

pub find_commit-append :
    (activation_id command_id : String) (rows : List LedgerRow) (r : LedgerRow)
    → find_commit activation_id command_id rows ≡ none
    → find_commit activation_id command_id (rows ++ r ∷ [])
      ≡ find_commit activation_id command_id (r ∷ [])
unfolding find_commit
find_commit-append activation_id command_id [] r h = refl
find_commit-append activation_id command_id (x ∷ rows) r h =
    ground (arith, find_commit-append activation_id command_id rows r)

pub validate_result-eq-ok :
    (r : Json) (command_id : String) {r' : Json} → validate_result r command_id ≡ ok r' → r' ≡ r
unfolding validate_result
validate_result-eq-ok r command_id {r'} h = ground arith

durable_text :
    (durable references : Json)
    → has_durable durable references ≡ true
    → (s : String) × (durable ≡ str s)
unfolding has_durable
durable_text (str s) references h = (s, refl)
durable_text null references h = absurd (ground arith)
durable_text (boolean b) references h = absurd (ground arith)
durable_text (int n) references h = absurd (ground arith)
durable_text (arr xs) references h = absurd (ground arith)
durable_text (obj fs) references h = absurd (ground arith)

-- What a validated result has for its durable record is a text.
pub validate_result-durable :
    (result : Json) (command_id : String) {r : Json}
    → validate_result result command_id ≡ ok r
    → (s : String) × (get_field "durable_record_id" result ≡ str s)
unfolding validate_result
validate_result-durable result command_id {r} h =
    durable_text (get_field "durable_record_id" result) (get_field "evidence_refs" result)
      (ground (arith, h))

outcome-eq-ok :
    (row : LedgerRow) (command_id request_digest : String) (duplicate : Bool) {o : Outcome}
    → outcome row command_id request_digest duplicate ≡ ok o
    → (validate_result row.committed_result command_id ≡ ok o.result)
      × (o.digest_mismatch ≡ not (row.request_digest == request_digest))
unfolding outcome
outcome-eq-ok row command_id request_digest duplicate {o} h =
    elim (Result-cases (validate_result row.committed_result command_id)) [
      | inl (r, e) ↦ ground (arith, e)
      | inr (e, f) ↦ absurd (ground (arith, f))
    ]

-- The row that a commit leaves for its command, and what it answered from it.
commit_row-eq-ok :
    (new : LedgerRow) (rows rows' : List LedgerRow) (o : Outcome) (found : Option LedgerRow)
    → find_commit new.activation_id new.command_id rows ≡ found
    → commit_row new found rows ≡ ok (o, rows')
    → (row : LedgerRow) × (find_commit new.activation_id new.command_id rows' ≡ some row)
      × (validate_result row.committed_result new.command_id ≡ ok o.result)
      × (o.digest_mismatch ≡ not (row.request_digest == new.request_digest))
unfolding commit_row find_commit
commit_row-eq-ok new rows rows' o none e h =
    let (p, answered, h) =
      >>=-eq-ok (outcome new new.command_id new.request_digest false)
        (λ o. ok (o, rows ++ new ∷ [])) h in
    let (a, b) = outcome-eq-ok new new.command_id new.request_digest false {o = p} answered in
    (
      new,
      ground (
        arith,
        find_commit-append new.activation_id new.command_id rows new,
        eq_refl new.activation_id,
        eq_refl new.command_id,
      ),
      ground (arith, a),
      ground (arith, b),
    )
commit_row-eq-ok new rows rows' o (some row) e h =
    let (p, answered, h) =
      >>=-eq-ok (outcome row new.command_id new.request_digest true) (λ o. ok (o, rows)) h in
    let (a, b) = outcome-eq-ok row new.command_id new.request_digest true {o = p} answered in
    (row, ground (arith, e), ground (arith, a), ground (arith, b))

-- A command that was committed is found by `get` with the result that `commit` answered; the same
-- command committed again, with whatever result, is answered as a duplicate with that first result
-- and changes nothing. It is told that its digest differs, if it does.
pub commit_once :
    (activation_id command_id request_digest digest : String) (proposed other : Json)
    (rows rows' : List LedgerRow) (o : Outcome)
    → commit activation_id command_id request_digest proposed rows ≡ ok (o, rows')
    → commit_checks activation_id command_id digest other ≡ ok tt
    → (get_commit activation_id command_id rows' ≡ ok (some o.result))
      × ((again : Outcome) × (commit activation_id command_id digest other rows'
            ≡ ok (again, rows'))
          × (again.result ≡ o.result)
          × (again.duplicate ≡ true))
unfolding commit get_commit checked_row commit_row outcome
commit_once activation_id command_id request_digest digest proposed other rows rows' o h c =
    let (_, _, h) =
      >>=-eq-ok (commit_checks activation_id command_id request_digest proposed) _ h in
    let (row, found, checked, told) =
      commit_row-eq-ok (written activation_id command_id request_digest proposed) rows rows' o
        (find_commit activation_id command_id rows) refl h in
    let same = validate_result-eq-ok row.committed_result command_id checked in
    (
      rw found (ground (arith, checked)),
      (
        record {
          result = row.committed_result;
          duplicate = true;
          digest_mismatch = not (row.request_digest == digest);
        },
        rw (c, found) (ground (arith, checked)),
        sym same,
        refl,
      ),
    )
