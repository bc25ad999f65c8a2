-- ===== src/Verified/Packages.antt =====
-- `admit_verified_package`, `publish_verified_capability_set` and `commit_verified_authority`.
use nix_ai.Prelude.{
  List, String, Bool, Result, ◌∷◌, value_error, ◌>>◌, ok, [], is_some, true, reject_if, err, ◌>>=◌,
  false, not, runtime_error, ◌||◌, some, all, ◌==◌, none, ledger_corrupt,
}
use nix_ai.Json.{field_of, Json, get_field, py_eq, obj, arr, str, is_digest, object}
use nix_ai.Verified.{
  EvidenceAuthority, item, texts, text_item, payload_of, opt_text, binds, number_item,
  principal_text,
}
use nix_ai.Protocol.Roles.{Service, service_name}
use nix_ai.Lifecycle.Capabilities.{Publication}

material_keys : List String
material_keys =
    "manifest" ∷ "manifest_digest" ∷ "bundle_digest" ∷ "signature_digest" ∷ "provenance_digest"
    ∷ "sbom_digest" ∷ "dependency_closure" ∷ "admission_evidence" ∷ []

digest_keys : List String
digest_keys =
    "manifest_digest" ∷ "signature_digest" ∷ "provenance_digest" ∷ "sbom_digest"
    ∷ "admission_evidence" ∷ []

has_key : Json → String → Bool
unfolding field_of
has_key (obj fs) k = is_some (field_of k fs)
has_key _ k = false

abbrev is_list : Json → Bool
is_list (arr _) = true
is_list _ = false

-- The checks of `admit_verified_package` on the payload of its evidence.
unfoldable pub package_checks : Json → Json → Json → Result (Unit {0})
unfolding get_field py_eq has_key material_keys digest_keys
package_checks payload manifest content_digest = do
  reject_if
      (not (py_eq (get_field "manifest" payload) manifest)
        || not (all (has_key payload) material_keys))
      (ledger_corrupt "package evidence does not bind the admitted manifest and materials")
  reject_if (not (py_eq (get_field "bundle_digest" payload) content_digest))
      (ledger_corrupt "package evidence bundle digest mismatch")
  reject_if (not (all (λ k. is_digest (get_field k payload)) digest_keys))
      (ledger_corrupt "package evidence material digest is invalid")
  reject_if (not (is_list (get_field "dependency_closure" payload)))
      (ledger_corrupt "package evidence dependency closure is invalid")

set_fields : List String
set_fields = "command_id" ∷ "grant_ids" ∷ "expected_active_set_id" ∷ "expected_active_version" ∷ []

-- A value of a wrong type fails the first test of `publish_capability_activation_set`.
typed : {A : Type 0} → Result A → Result A
typed (ok a) = ok a
typed (err (runtime_error m)) =
    err (value_error "complete capability activation-set binding is required")
typed (err e) = err e

grants : Json → Result (List String)
unfolding texts
grants (arr xs) = texts xs
grants _ = err (runtime_error "no list")

unfoldable pub read_set : Json → Result Publication
unfolding text_item item opt_text number_item get_field typed grants
read_set request = do
  command_id ← typed (text_item "command_id" request)
  set_id ← typed (text_item "set_id" request)
  generation_id ← typed (text_item "generation_id" request)
  grant_ids ← item "grant_ids" request >>= λ g. typed (grants g)
  evidence_ref ← typed (text_item "evidence_ref" request)
  expected_active_set_id ← typed (opt_text (get_field "expected_active_set_id" request))
  expected_active_version ← typed (number_item "expected_active_version" request)
  ok (record {
    command_id = command_id;
    set_id = set_id;
    generation_id = generation_id;
    grant_ids = grant_ids;
    evidence_ref = evidence_ref;
    expected_active_set_id = expected_active_set_id;
    expected_active_version = expected_active_version;
  })

module _ (authority : EvidenceAuthority) where
  open authority use {verify_record}

  unfoldable pub check_package : Json → Result (Unit {0})
  unfolding item payload_of package_checks
  check_package request = do
    reference ← item "evidence_ref" request
    package_id ← item "package_id" request
    content_digest ← item "content_digest" request
    evidence ←
        verify_record
          (record {
            subject = package_id;
            producer = str "service:packages";
            source = content_digest;
            operation = some (str "package.admit");
            disposition = some (str "VERIFIED");
          })
          reference
    payload ← payload_of evidence
    manifest ← item "manifest" request
    package_checks payload manifest content_digest

  unfoldable pub check_set : Json → Service → Result (Unit {0})
  unfolding item payload_of binds set_fields get_field py_eq
  check_set request principal = do
    reject_if (not (service_name principal == "service:packages"))
        (value_error "capability set publication requires packages principal")
    reference ← item "evidence_ref" request
    set_id ← item "set_id" request
    generation ← item "generation_id" request
    evidence ←
        verify_record
          (record {
            subject = set_id;
            producer = principal_text principal;
            source = generation;
            operation = some (str "capability-set.publish");
            disposition = some (str "ACTIVE");
          })
          reference
    payload ← payload_of evidence
    reject_if (not (binds set_fields payload request))
        (ledger_corrupt "capability-set evidence does not bind the request")
    version ← item "expected_active_version" request
    let deactivates =
        object (("set_id", get_field "expected_active_set_id" request) ∷ ("version", version) ∷ [])
    reject_if (not (py_eq (get_field "deactivates" payload) deactivates))
        (ledger_corrupt "capability-set evidence does not bind deactivation")

  unfoldable pub check_snapshot : Json → Result (Unit {0})
  unfolding item payload_of get_field py_eq
  check_snapshot request = do
    digest ← item "snapshot_digest" request
    reference ← item "evidence_ref" request
    binding ← item "binding_id" request
    evidence ←
        verify_record
          (record {
            subject = binding;
            producer = str "service:authority";
            source = digest;
            operation = some (str "authority.snapshot");
            disposition = none;
          })
          reference
    payload ← payload_of evidence
    version ← item "expected_version" request
    reject_if (not (py_eq (get_field "expected_version" payload) version))
        (ledger_corrupt "authority evidence does not bind the expected version")
