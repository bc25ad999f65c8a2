-- ===== src/Ledger.antt =====
-- `CommandLedgerStore` of src/habitat_state/repository.py, the append-only ledger of the agents'
-- commands, with the evidence admissions of `PostgresRepository`.
mod Tests
pub mod Commits
pub mod Admissions
use nix_ai.Prelude.{
  String, List, Bool, Option, none, ◌∷◌, Result, true, ℕ, if◌then◌else◌, [], ok, false, err, ◌>>◌,
  ◌>>=◌, some, ◌==◌, not, reject_if, ◌++◌, value_error, ◌&&◌, ◌||◌, starts_with, is_empty_text, ◌+◌,
  leb, type_error, is_canonical_digest, ledger_corrupt,
}
use nix_ai.Json.{
  nil, Json, arr, str, cons, is_nonempty_str, get_field, null, py_eq, has_exactly, obj, is_true,
}

-- A row of `abi_command_ledger`; the key is the activation with the command.
pub record LedgerRow : Type 0 where
  pub activation_id : String
  pub command_id : String
  pub request_digest : String
  pub committed_result : Json
  pub evidence_ref : String

-- SELECT … WHERE activation_id=… AND command_id=…
unfoldable pub find_commit : String → String → List LedgerRow → Option LedgerRow
find_commit activation_id command_id [] = none
find_commit activation_id command_id (r ∷ rs) =
    if r.activation_id == activation_id && r.command_id == command_id
    then some r
    else find_commit activation_id command_id rs

result_keys : List String
result_keys =
    "command_id" ∷ "committed" ∷ "durable_record_id" ∷ "state" ∷ "error" ∷ "evidence_refs" ∷ []

-- `result.get("state") in {"DISPOSITION_COMMITTED","CANCELLED"}`; a list or a dict has no hash.
final_state : Json → Result Bool
final_state (str s) = ok (s == "DISPOSITION_COMMITTED" || s == "CANCELLED")
final_state (arr _) = err (type_error "unhashable type: 'list'")
final_state (obj _) = err (type_error "unhashable type: 'dict'")
final_state _ = ok false

-- `result.get("committed") is not True or state not in …`: the state is not looked at in the first case.
lacks_disposition : Bool → Json → Result Bool
unfolding final_state
lacks_disposition false state = ok true
lacks_disposition true state = final_state state >>= λ final. ok (not final)

abbrev is_none : Json → Bool
is_none null = true
is_none _ = false

-- `evidence_refs == [durable_ref]` for a non-empty text
has_durable : Json → Json → Bool
has_durable durable (arr (cons x nil)) = is_nonempty_str durable && py_eq x durable
has_durable durable _ = false

-- `_validate_result`
unfoldable pub validate_result : Json → String → Result Json
unfolding lacks_disposition has_durable result_keys
validate_result result command_id = do
  reject_if
      (not (
        starts_with command_id "command:"
        && (has_exactly result_keys result
            && py_eq (get_field "command_id" result) (str command_id))))
      (ledger_corrupt "committed result is not bound to its command")
  lacks ← lacks_disposition (is_true (get_field "committed" result)) (get_field "state" result)
  reject_if lacks (ledger_corrupt "committed result lacks mandatory disposition fields")
  reject_if (not (is_none (get_field "error" result)))
      (ledger_corrupt "committed result cannot contain an error disposition")
  reject_if
      (not (has_durable (get_field "durable_record_id" result) (get_field "evidence_refs" result)))
      (ledger_corrupt "committed result lacks its durable evidence reference")
  ok result

-- `ReplayOutcome`
pub record Outcome : Type 0 where
  pub result : Json
  pub duplicate : Bool
  pub digest_mismatch : Bool

-- What `commit` answers from the row that it finds.
outcome : LedgerRow → String → String → Bool → Result Outcome
unfolding validate_result
outcome row command_id request_digest duplicate =
    validate_result row.committed_result command_id >>= λ result. ok (
      if row.request_digest == request_digest
      then record { result = result; duplicate = duplicate; digest_mismatch = false }
      else record { result = result; duplicate = true; digest_mismatch = true })

abbrev pub text_of : Json → String
text_of (str s) = s
text_of _ = ""

-- The checks of `commit` before its transaction.
pub commit_checks : String → String → String → Json → Result (Unit {0})
unfolding validate_result
commit_checks activation_id command_id request_digest proposed = do
  reject_if
      (is_empty_text activation_id || (is_empty_text command_id || is_empty_text request_digest))
      (value_error "activation, command, and digest are required")
  reject_if (not (is_canonical_digest request_digest))
      (value_error "request digest must be canonical sha256:<lowercase-hex>")
  validate_result proposed command_id >>= λ _. ok tt

-- INSERT … ON CONFLICT DO NOTHING, and the SELECT behind it.
commit_row : LedgerRow → Option LedgerRow → List LedgerRow → Result (Outcome × List LedgerRow)
unfolding outcome
commit_row new none rows =
    outcome new new.command_id new.request_digest false >>= λ o. ok (o, rows ++ new ∷ [])
commit_row new (some row) rows =
    outcome row new.command_id new.request_digest true >>= λ o. ok (o, rows)

-- The row that `commit` inserts.
abbrev pub written : String → String → String → Json → LedgerRow
written activation_id command_id request_digest proposed = record {
  activation_id = activation_id;
  command_id = command_id;
  request_digest = request_digest;
  committed_result = proposed;
  evidence_ref = text_of (get_field "durable_record_id" proposed);
}

-- `commit`
unfoldable pub commit :
    String → String → String → Json → List LedgerRow → Result (Outcome × List LedgerRow)
unfolding commit_checks commit_row find_commit
commit activation_id command_id request_digest proposed rows = do
  commit_checks activation_id command_id request_digest proposed
  commit_row (written activation_id command_id request_digest proposed)
      (find_commit activation_id command_id rows) rows

checked_row : String → Option LedgerRow → Result (Option Json)
unfolding validate_result
checked_row command_id none = ok none
checked_row command_id (some row) =
    validate_result row.committed_result command_id >>= λ r. ok (some r)

-- `get`
unfoldable pub get_commit : String → String → List LedgerRow → Result (Option Json)
unfolding checked_row find_commit
get_commit activation_id command_id rows =
    checked_row command_id (find_commit activation_id command_id rows)

-- A row of `evidence_admissions`; the key is the producer with the command.
pub record Admission : Type 0 where
  pub producer : String
  pub command_id : String
  pub content_digest : String
  pub evidence_ref : Option String

unfoldable pub find_admission : String → String → List Admission → Option Admission
find_admission producer command_id [] = none
find_admission producer command_id (a ∷ more) =
    if a.producer == producer && a.command_id == command_id
    then some a
    else find_admission producer command_id more

-- SELECT count(*) … WHERE producer=…
unfoldable pub admitted : String → List Admission → ℕ
admitted producer [] = 0
admitted producer (a ∷ more) =
    let rest = admitted producer more in if a.producer == producer then rest + 1 else rest

reserve_row :
    String
    → String
    → String
    → ℕ
    → Option Admission
    → List Admission
    → Result (Option String × List Admission)
unfolding admitted
reserve_row producer command_id content_digest quota (some row) rows = do
  reject_if (not (row.content_digest == content_digest))
      (value_error "CONFLICT: evidence command identity reused")
  ok (row.evidence_ref, rows)
reserve_row producer command_id content_digest quota none rows = do
  reject_if (leb quota (admitted producer rows)) (value_error "evidence producer quota exceeded")
  ok (
    none,
    rows
        ++ record {
          producer = producer;
          command_id = command_id;
          content_digest = content_digest;
          evidence_ref = none;
        }
          ∷ [],
  )

-- `reserve_evidence`
unfoldable pub reserve_evidence :
    String → String → String → ℕ → List Admission → Result (Option String × List Admission)
unfolding reserve_row find_admission
reserve_evidence producer command_id content_digest quota rows = do
  reject_if (is_empty_text producer || (is_empty_text command_id || is_empty_text content_digest))
      (value_error "evidence admission identity is required")
  reserve_row producer command_id content_digest quota (find_admission producer command_id rows)
      rows

-- `evidence_ref IS NULL OR evidence_ref=…`
abbrev is_free : Option String → String → Bool
is_free none reference = true
is_free (some r) reference = r == reference

-- UPDATE evidence_admissions SET evidence_ref=… WHERE producer=… AND command_id=… AND …; the rows
-- after it, if it meets one.
unfoldable pub finalized :
    String → String → String → String → List Admission → Option (List Admission)
finalized producer command_id content_digest reference [] = none
finalized producer command_id content_digest reference (a ∷ more) =
    let rest = finalized producer command_id content_digest reference more in
    if a.producer == producer && a.command_id == command_id
    then (if a.content_digest == content_digest && is_free a.evidence_ref reference
        then some (record a { evidence_ref = some reference } ∷ more)
        else none)
    else elim rest [ none ↦ none | some more' ↦ some (a ∷ more') ]

-- `finalize_evidence`
unfoldable pub finalize_evidence :
    String → String → String → String → List Admission → Result (String × List Admission)
unfolding finalized
finalize_evidence producer command_id content_digest reference rows =
    elim (finalized producer command_id content_digest reference rows) [
      | none ↦ err (value_error "CONFLICT: evidence admission changed")
      | some rows' ↦ ok (reference, rows')
    ]
