-- ===== src/Verified/Commands/Replays.antt =====
-- Theorems on `commit_activation_command` and `get_activation_command`.
use nix_ai.Ledger.{validate_result, written, LedgerRow, text_of, find_commit}
use nix_ai.Verified.Commands.{
  check_stored, durable_of, verify_command, commit_found, mismatch_answer,
  commit_activation_command, get_activation_command, resolved, digest_of, answer_stored,
}
use nix_ai.Json.{Json, str, py_eq}
use nix_ai.Verified.{EvidenceAuthority, item, text_item}
use nix_ai.Prelude.{
  String, ◌≡◌, ok, reject_if-eq-ok, Result, Bool, if◌then◌else◌, Exception, true, ledger_corrupt,
  ◌==◌, Option, List, reject_if, sym, some, not, eq_refl, >>=-eq-ok, ok_pair, ap, ◌∙◌, none, refl,
  ℕ, ◌⊎◌, value_error, ◌>>=◌, ◌>>◌, false, inl, inr,
}
use nix_ai.Lifecycle.Db.{Activation, Db}
use nix_ai.Protocol.Roles.{Service, service_name}
use nix_ai.Ledger.Commits.{validate_result-durable, validate_result-eq-ok, find_commit-append}
use mathlib.Core.Path.{subst}

chained :
    {r : Json} (v : Result Json) (f : Json → Bool) (e : Exception) (g : Json → Result (Unit {0}))
    → v ≡ ok r
    → f r ≡ true
    → g r ≡ ok tt
    → (v >>= λ s. (reject_if (not (f s)) e >> (g s >> ok s))) ≡ ok r
chained {r} v f e g is tested done =
    subst (λ x. (x >>= λ s. (reject_if (not (f s)) e >> (g s >> ok s))) ≡ ok r) (sym is)
      (rw (tested, done) refl)

durable_matches : (j : Json) (s : String) → j ≡ str s → py_eq j (str (text_of j)) ≡ true
unfolding py_eq
durable_matches j s e = subst (λ x. py_eq x (str (text_of x)) ≡ true) (sym e) (eq_refl s)

-- The row that a commit wrote passes the checks on a stored row.
written-check_stored :
    (authority : EvidenceAuthority) (activation : String × Activation) (principal : Service)
    (command_id digest : String) (result : Json)
    → validate_result result command_id ≡ ok result
    → verify_command authority (durable_of result) digest result activation principal ≡ ok tt
    → check_stored authority
        (written activation.0 command_id digest result)
        command_id
        activation
        principal
      ≡ ok result
unfolding check_stored
written-check_stored authority activation principal command_id digest result checked verified =
    let (s, durable) = validate_result-durable result command_id checked in
    chained (validate_result result command_id)
      (λ stored. py_eq (durable_of stored) (str (text_of (durable_of result))))
      (ledger_corrupt "command ledger evidence binding is corrupt")
      (λ stored. verify_command authority (durable_of stored) digest stored activation principal)
      checked (durable_matches (durable_of result) s durable) verified

abbrev pub told : LedgerRow → String → Json → Json
told row digest stored = if row.request_digest == digest then stored else mismatch_answer stored

-- The row that a commit leaves for its command, and what it answered from it.
pub commit_found-eq-ok :
    (authority : EvidenceAuthority) (request : Json) (digest command_id : String)
    (activation : String × Activation) (principal : Service) (found : Option LedgerRow)
    (rows rows' : List LedgerRow) (r : Json)
    → find_commit activation.0 command_id rows ≡ found
    → commit_found authority request digest command_id activation principal found rows
      ≡ ok (r, rows')
    → (row : LedgerRow) × (stored : Json) × (find_commit activation.0 command_id rows' ≡ some row)
      × (check_stored authority row command_id activation principal ≡ ok stored)
      × (r ≡ told row digest stored)
unfolding commit_found find_commit
commit_found-eq-ok authority request digest command_id activation principal (some row) rows rows' r
      e h =
    let (stored, checked, h) =
      >>=-eq-ok (check_stored authority row command_id activation principal) _ h in
    let (answer, table) = ok_pair h in
    (
      row,
      stored,
      ap (λ x. find_commit activation.0 command_id x) (sym table) ∙ e,
      checked,
      sym answer,
    )
commit_found-eq-ok authority request digest command_id activation principal none rows rows' r e h =
    let (proposed, _, h) = >>=-eq-ok (item "result" request) _ h in
    let (result, checked, h) = >>=-eq-ok (validate_result proposed command_id) _ h in
    let (done, verified, h) =
      >>=-eq-ok (verify_command authority (durable_of result) digest result activation principal) _
        h in
    let (answer, table) = ok_pair h in
    let same = validate_result-eq-ok proposed command_id checked in
    let row = written activation.0 command_id digest result in
    (
      row,
      result,
      ap (λ x. find_commit activation.0 command_id x) (sym table)
          ∙ find_commit-append activation.0 command_id rows row e
          ∙ rw (eq_refl activation.0, eq_refl command_id) refl,
      written-check_stored authority activation principal command_id digest result
          (subst (λ x. validate_result x command_id ≡ ok result) (sym same) checked) verified,
      sym answer ∙ rw (eq_refl digest) refl,
    )

again :
    (authority : EvidenceAuthority) (sha256 : String → String) (request : Json)
    (principal : Service) (now : ℕ) (db : Db) (digest command_id : String)
    (activation : String × Activation) (row : LedgerRow) (stored r : Json) (rows : List LedgerRow)
    → not (service_name principal == "service:abi") ≡ false
    → (item "request_digest" request >>= digest_of) ≡ ok digest
    → resolved sha256 request now db ≡ ok activation
    → text_item "command_id" request ≡ ok command_id
    → find_commit activation.0 command_id rows ≡ some row
    → check_stored authority row command_id activation principal ≡ ok stored
    → r ≡ told row digest stored
    → commit_activation_command authority sha256 request principal now db rows ≡ ok (r, rows)
unfolding commit_activation_command commit_found
again authority sha256 request principal now db digest command_id activation row stored r rows abi
      is_digest is_activation is_command found checked answer =
    rw (abi, is_digest, is_activation, is_command, found, checked, answer) refl

looked_up :
    (authority : EvidenceAuthority) (sha256 : String → String) (request : Json)
    (principal : Service) (now : ℕ) (db : Db) (command_id : String)
    (activation : String × Activation) (row : LedgerRow) (stored : Json) (rows : List LedgerRow)
    → not (service_name principal == "service:abi") ≡ false
    → resolved sha256 request now db ≡ ok activation
    → text_item "command_id" request ≡ ok command_id
    → find_commit activation.0 command_id rows ≡ some row
    → check_stored authority row command_id activation principal ≡ ok stored
    → get_activation_command authority sha256 request principal now db rows ≡ ok (some stored)
unfolding get_activation_command answer_stored
looked_up authority sha256 request principal now db command_id activation row stored rows abi
      is_activation is_command found checked =
    rw (abi, is_activation, is_command, found, checked) refl

told_one_of :
    (row : LedgerRow) (digest : String) (stored r : Json)
    → r ≡ told row digest stored
    → (r ≡ stored) ⊎ (r ≡ mismatch_answer stored)
told_one_of row digest stored r e = from (row.request_digest == digest) e
  where
    from :
        (b : Bool)
        → r ≡ (if b then stored else mismatch_answer stored)
        → (r ≡ stored) ⊎ (r ≡ mismatch_answer stored)
    from true e = inl e
    from false e = inr e

-- A commit of an activation's command that succeeded, sent again while its activation still resolves
-- to the same row, has the same answer and writes nothing; and the lookup returns the stored result,
-- which was that answer, or the one in the answer that the digests differ.
pub commit_activation_command_again :
    (authority : EvidenceAuthority) (sha256 : String → String) (request : Json)
    (principal : Service) (now now' : ℕ) (db db' : Db) (rows rows' : List LedgerRow) (r : Json)
    → commit_activation_command authority sha256 request principal now db rows ≡ ok (r, rows')
    → resolved sha256 request now' db' ≡ resolved sha256 request now db
    → (commit_activation_command authority sha256 request principal now' db' rows' ≡ ok (r, rows'))
      × ((stored : Json) × (get_activation_command authority sha256 request principal now' db' rows'
            ≡ ok (some stored))
          × ((r ≡ stored) ⊎ (r ≡ mismatch_answer stored)))
unfolding commit_activation_command
commit_activation_command_again authority sha256 request principal now now' db db' rows rows' r h
      same =
    let (abi, h) =
      reject_if-eq-ok (not (service_name principal == "service:abi"))
        (value_error "activation command commit requires ABI principal") _ h in
    let (digest, is_digest, h) = >>=-eq-ok (item "request_digest" request >>= digest_of) _ h in
    let (activation, is_activation, h) = >>=-eq-ok (resolved sha256 request now db) _ h in
    let (command_id, is_command, h) = >>=-eq-ok (text_item "command_id" request) _ h in
    let (row, stored, found, checked, answer) =
      commit_found-eq-ok authority request digest command_id activation principal
        (find_commit activation.0 command_id rows) rows rows' r refl h in
    (
      again authority sha256 request principal now' db' digest command_id activation row stored r
          rows' abi is_digest (same ∙ is_activation) is_command found checked answer,
      (
        stored,
        looked_up authority sha256 request principal now' db' command_id activation row stored rows'
            abi (same ∙ is_activation) is_command found checked,
        told_one_of row digest stored r answer,
      ),
    )
