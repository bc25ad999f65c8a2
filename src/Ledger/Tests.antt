-- ===== src/Ledger/Tests.antt =====
-- Tests of the command ledger and of the evidence admissions.

use nix_ai.Prelude.{String, List, ◌≡◌, none, ok, ◌∷◌, [], true, some, arith, refl, false}
use nix_ai.Json.{Json, object, has_exactly, str, py_eq, get_field, boolean, null, array}
use nix_ai.Ledger.{
  commit, reserve_evidence, LedgerRow, Admission, admitted, written, get_commit, Outcome,
}
use nix_ai.Ledger.Admissions.{IsWithin, reserve_evidence-IsWithin, reserve_evidence_again}
use nix_ai.Ledger.Commits.{commit_once}

abbrev request_digest : String
request_digest = "sha256:aaaaaaaaaaaaaaaaaaaaaaaaaaaaaaaaaaaaaaaaaaaaaaaaaaaaaaaaaaaaaaaa"

abbrev done : Json
done = object (
    ("command_id", str "command:1")
    ∷ ("committed", boolean true)
    ∷ ("durable_record_id", str "s3://bucket/1")
    ∷ ("state", str "CANCELLED")
    ∷ ("error", null)
    ∷ ("evidence_refs", array (str "s3://bucket/1" ∷ []))
    ∷ [])

abbrev one_row : List LedgerRow
one_row = written "activation:1" "command:1" request_digest done ∷ []

commit_once_example :
    (get_commit "activation:1" "command:1" one_row ≡ ok (some done))
    × ((again : Outcome) × (commit "activation:1" "command:1" request_digest done one_row
          ≡ ok (again, one_row))
        × (again.result ≡ done)
        × (again.duplicate ≡ true))
unfolding commit has_exactly py_eq get_field
commit_once_example =
    commit_once "activation:1" "command:1" request_digest request_digest done done [] one_row
      (record { result = done; duplicate = false; digest_mismatch = false }) refl refl

abbrev reserved : List Admission
reserved =
    record {
      producer = "service:abi";
      command_id = "command:1";
      content_digest = "aa";
      evidence_ref = none;
    }
    ∷ []

reserve_evidence-IsWithin_example : IsWithin 1 reserved
unfolding reserve_evidence admitted
reserve_evidence-IsWithin_example =
    reserve_evidence-IsWithin "service:abi" "command:1" "aa" 1 [] reserved none (λ p. omega arith)
      refl

reserve_evidence_again_example :
    reserve_evidence "service:abi" "command:1" "aa" 0 reserved ≡ ok (none, reserved)
unfolding reserve_evidence
reserve_evidence_again_example =
    reserve_evidence_again "service:abi" "command:1" "aa" 1 0 [] reserved none refl
