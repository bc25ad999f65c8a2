-- ===== src/Verified/Bound.antt =====
-- The evidence store that `bind_evidence` binds to the repository.
use nix_ai.Evidence.{verify_record, Expected, check_record, verify}
use nix_ai.Prelude.{
  String, Result, Option, ◌≡◌, ok, >>=-eq-ok, expect_some-eq-ok, ledger_corrupt, sym,
}
use nix_ai.Json.{Json}
use nix_ai.Verified.{EvidenceAuthority}
use mathlib.Core.Path.{subst}
use nix_ai.Evidence.Bindings.{check_record-eq-ok}

-- What `verify_record` returns passes the check of the record again.
pub verify_record-checked :
    (sha256 : String → String) (bucket : String) (get_content : String → Result String)
    (json_loads : String → Option Json) (e : Expected) (reference : Json) {r : Json}
    → verify_record sha256 bucket get_content json_loads e reference ≡ ok r
    → check_record e r ≡ ok r
unfolding verify_record
verify_record-checked sha256 bucket get_content json_loads e reference {r} h =
    let (raw, _, h) = >>=-eq-ok (verify sha256 bucket get_content reference) _ h in
    let (value, _, h) =
      expect_some-eq-ok (json_loads raw) (ledger_corrupt "evidence is not JSON") _ h in
    subst (λ x. check_record e x ≡ ok r) (sym (check_record-eq-ok e value r h).0) h

-- `bind_evidence`, for an evidence store over the bucket.
unfoldable pub bind_evidence :
    (String → String)
    → String
    → (String → Result String)
    → (String → Option Json)
    → EvidenceAuthority
bind_evidence sha256 bucket get_content json_loads = record {
  verify_record = verify_record sha256 bucket get_content json_loads;
  verify_record-check_record = verify_record-checked sha256 bucket get_content json_loads;
}
