-- ===== src/Verified/Commands/Bindings.antt =====
-- What the evidence behind an activation's command binds.
use nix_ai.Verified.Commands.{
  check_stored, verify_command, commit_activation_command, durable_of, command_evidence, resolved,
  has_bindings, command_bindings, digest_of,
}
use nix_ai.Verified.{EvidenceAuthority, payload_of, item, text_item}
use nix_ai.Ledger.{LedgerRow, validate_result, find_commit}
use nix_ai.Json.{Json, py_eq, str}
use nix_ai.Prelude.{
  String, ◌≡◌, ℕ, ok, List, >>=-eq-ok, reject_if-eq-ok, not, some, true, Bool, ◌==◌, ledger_corrupt,
  reject_if, false, arith, ok_inj, eq_iff, value_error, ◌>>=◌, refl, not-false, ap, ◌∙◌,
  is_canonical_digest, err, if◌then◌else◌,
}
use nix_ai.Lifecycle.Db.{Activation, Db}
use nix_ai.Protocol.Roles.{Service, service_name}
use nix_ai.Evidence.Bindings.{Binds, check_record-eq-ok}
use mathlib.Core.Path.{subst}
use nix_ai.Verified.Commands.Replays.{commit_found-eq-ok, told}

py_eq-str : (j : Json) (s : String) → py_eq j (str s) ≡ true → j ≡ str s
unfolding py_eq
py_eq-str (str t) s h = ap str ((eq_iff t s).0 h)
py_eq-str j s h = cc

check_stored-eq-ok :
    (authority : EvidenceAuthority) (row : LedgerRow) (command_id : String)
    (activation : String × Activation) (principal : Service) (stored : Json)
    → check_stored authority row command_id activation principal ≡ ok stored
    → (validate_result row.committed_result command_id ≡ ok stored)
      × (durable_of stored ≡ str row.evidence_ref)
      × (verify_command authority (durable_of stored) row.request_digest stored activation principal
          ≡ ok tt)
unfolding check_stored
check_stored-eq-ok authority row command_id activation principal stored h =
    let (s, valid, h) = >>=-eq-ok (validate_result row.committed_result command_id) _ h in
    let (matches, h) =
      reject_if-eq-ok (not (py_eq (durable_of s) (str row.evidence_ref)))
        (ledger_corrupt "command ledger evidence binding is corrupt") _ h in
    let (u, verified, h) =
      >>=-eq-ok (verify_command authority (durable_of s) row.request_digest s activation principal)
        _ h in
    let same = ok_inj h in
    (
      valid ∙ ap (λ x. ok x) same,
      subst (λ x. durable_of x ≡ str row.evidence_ref) same
          (py_eq-str (durable_of s) row.evidence_ref
            (not-false (py_eq (durable_of s) (str row.evidence_ref)) matches)),
      subst
          (λ x.
            verify_command authority (durable_of x) row.request_digest x activation principal
            ≡ ok tt)
          same verified,
    )

verify_command-eq-ok :
    (authority : EvidenceAuthority) (reference : Json) (digest : String) (result : Json)
    (activation : String × Activation) (principal : Service)
    → verify_command authority reference digest result activation principal ≡ ok tt
    → (evidence payload : Json) × (authority.verify_record
          (command_evidence result principal digest)
          reference
        ≡ ok evidence)
      × Binds (command_evidence result principal digest) evidence
      × (payload_of evidence ≡ ok payload)
      × (has_bindings (command_bindings result digest activation) payload ≡ true)
unfolding verify_command
verify_command-eq-ok authority reference digest result activation principal h =
    let expected = command_evidence result principal digest in
    let (evidence, verified, h) = >>=-eq-ok (authority.verify_record expected reference) _ h in
    let (payload, read, h) = >>=-eq-ok (payload_of evidence) _ h in
    (
      evidence,
      payload,
      verified,
      (check_record-eq-ok expected evidence evidence
          (authority.verify_record-check_record expected reference verified)).1,
      read,
      bound _ h,
    )
  where
    bound :
        (t : Bool)
        → reject_if (not t) (ledger_corrupt "command evidence does not bind the activation command")
          ≡ ok tt
        → t ≡ true
    bound t h = ground arith

digest_of-item :
    (request : Json) (digest : String)
    → (item "request_digest" request >>= digest_of) ≡ ok digest
    → item "request_digest" request ≡ ok (str digest)
unfolding digest_of
digest_of-item request digest h =
    let (j, found, h) = >>=-eq-ok (item "request_digest" request) digest_of h in
    found ∙ ap (λ x. ok x) (is j h)
  where
    is : (j : Json) → digest_of j ≡ ok digest → j ≡ str digest
    is (str s) h = from (is_canonical_digest s) h
      where
        from :
            (b : Bool)
            → (if b then ok s else err (value_error "canonical request digest is required"))
              ≡ ok digest
            → str s ≡ str digest
        from true h = ap str (ok_inj h)
        from false h = cc
    is j h = cc

-- A commit of an activation's command that succeeded resolved the activation, and leaves a row for
-- the request's command. The result that the row holds is valid, and the evidence store verified the
-- evidence that the row refers to: it names the command, the caller, the row's digest and the
-- result's state, and its payload names the activation with its lease fence, machine, agent,
-- objective, trace, generation and capability set. The answer is the row's result, as one of another
-- digest where the request's differs.
pub commit_activation_command-Binds :
    (authority : EvidenceAuthority) (sha256 : String → String) (request : Json)
    (principal : Service) (now : ℕ) (db : Db) (rows rows' : List LedgerRow) (r : Json)
    → commit_activation_command authority sha256 request principal now db rows ≡ ok (r, rows')
    → (activation : String × Activation) × (command_id : String) × (row : LedgerRow) × (stored
        evidence payload : Json)
      × (service_name principal ≡ "service:abi")
      × (resolved sha256 request now db ≡ ok activation)
      × (text_item "command_id" request ≡ ok command_id)
      × (find_commit activation.0 command_id rows' ≡ some row)
      × (validate_result row.committed_result command_id ≡ ok stored)
      × (authority.verify_record
            (command_evidence stored principal row.request_digest)
            (str row.evidence_ref)
          ≡ ok evidence)
      × Binds (command_evidence stored principal row.request_digest) evidence
      × (payload_of evidence ≡ ok payload)
      × (has_bindings (command_bindings stored row.request_digest activation) payload ≡ true)
      × ((digest : String) × (item "request_digest" request ≡ ok (str digest))
          × (r ≡ told row digest stored))
unfolding commit_activation_command
commit_activation_command-Binds authority sha256 request principal now db rows rows' r h =
    let (abi, h) =
      reject_if-eq-ok (not (service_name principal == "service:abi"))
        (value_error "activation command commit requires ABI principal") _ h in
    let (digest, is_digest, h) = >>=-eq-ok (item "request_digest" request >>= digest_of) _ h in
    let (activation, is_activation, h) = >>=-eq-ok (resolved sha256 request now db) _ h in
    let (command_id, is_command, h) = >>=-eq-ok (text_item "command_id" request) _ h in
    let (row, stored, found, checked, answer) =
      commit_found-eq-ok authority request digest command_id activation principal
        (find_commit activation.0 command_id rows) rows rows' r refl h in
    let (valid, durable, verified) =
      check_stored-eq-ok authority row command_id activation principal stored checked in
    let (evidence, payload, recorded, bound, read, binds_all) =
      verify_command-eq-ok authority (durable_of stored) row.request_digest stored activation
        principal verified in
    (
      activation,
      command_id,
      row,
      stored,
      evidence,
      payload,
      named _ _ abi,
      is_activation,
      is_command,
      found,
      valid,
      subst
          (λ x.
            authority.verify_record (command_evidence stored principal row.request_digest) x
            ≡ ok evidence)
          durable recorded,
      bound,
      read,
      binds_all,
      (digest, digest_of-item request digest is_digest, answer),
    )
  where
    named : (s t : String) → not (s == t) ≡ false → s ≡ t
    named s t h = ground (arith, eq_iff s t)
