-- ===== src/Verified/Activations/Tests.antt =====
-- A test of the evidence of a claim, over an evidence store with one record.
use nix_ai.Lifecycle.Claims.{claim_fields, evidence_payload}
use nix_ai.Prelude.{
  String, Option, List, text_append, ◌∷◌, [], some, ◌++◌, ◌≡◌, ok, arith, refl, Result, text_len,
}
use nix_ai.Json.{Json, str, object, has_exactly, get_field}
use nix_ai.Verified.{EvidenceAuthority}
use nix_ai.Verified.Activations.{claimed_envelope, envelope_of, verify_replayed, source_of}
use nix_ai.Lifecycle.Db.{Activation}
use nix_ai.Verified.Bound.{bind_evidence}
use nix_ai.Verified.Examples.{hexes, one_digest, one_object, loads}
use nix_ai.Evidence.{verify_record, verify}
use nix_ai.Lifecycle.Examples.{bound_row, claim}
use nix_ai.Verified.Activations.Replays.{
  canonical_source, verify_replayed-publish, verify_replayed-put_envelope,
}
use nix_ai.Evidence.Envelopes.{stored_answer, put_envelope, reserved, finish, closing, put_object}
use nix_ai.Ledger.{Admission, find_admission, reserve_evidence, finalize_evidence}
use nix_ai.Evidence.Examples.{Bucket, table_client}
use nix_ai.Json.Dumps.{dumps}
use nix_ai.Table.{get, put}
use nix_ai.Evidence.Objects.{content_of}

abbrev bound_to : String × String × List String
bound_to = ("generation:1", "set:1", "grant:1" ∷ "grant:2" ∷ [])

-- The row of an activation that was recovered once.
abbrev prior : Option (String × Activation)
prior = some ("activation:1", bound_row)

abbrev fields : List (String × Json)
fields = claim_fields claim 100 bound_to prior

abbrev envelope : Json
envelope = envelope_of one_digest (evidence_payload claim prior fields) (str "activation:1")

abbrev reference : String
reference = text_append "s3://evidence/sha256/" hexes

abbrev authority : EvidenceAuthority
authority = bind_evidence one_digest "evidence" one_object (loads envelope)

verify_replayed-publish_example :
    (verify_replayed authority one_digest "command:1"
        (object (fields ++ ("binding_evidence_ref", str reference) ∷ []))
      ≡ ok tt)
    × (get_field "source" envelope
        ≡ str (canonical_source one_digest (evidence_payload claim prior fields)))
unfolding claimed_envelope evidence_payload claim_fields bind_evidence verify_record
verify_replayed-publish_example =
    verify_replayed-publish authority one_digest claim 100 bound_to prior envelope reference refl
      (λ e. refl) (ground arith, ground arith)

abbrev published : Result Json × List Admission × Bucket
published =
    put_envelope table_client (λ s. text_len s) one_digest "evidence" envelope "service:state"
      "claimed:command:1" 10 [] []

abbrev published_answer : Json
published_answer = stored_answer reference

verify_replayed-put_envelope_example :
    (r : String) × (published_answer ≡ stored_answer r)
    × (verify_replayed
          (bind_evidence one_digest "evidence"
            (content_of table_client (λ s. text_len s) published.2)
            (loads envelope))
          one_digest
          "command:1"
          (object (fields ++ ("binding_evidence_ref", str r) ∷ []))
        ≡ ok tt)
    × (get_field "source" envelope
        ≡ str (canonical_source one_digest (evidence_payload claim prior fields)))
unfolding claimed_envelope evidence_payload claim_fields put_envelope reserved finish closing
    put_object table_client find_admission reserve_evidence finalize_evidence verify has_exactly
    get_field dumps get put envelope_of source_of
verify_replayed-put_envelope_example =
    verify_replayed-put_envelope table_client (λ s. text_len s) one_digest "evidence"
      (loads envelope) claim 100 bound_to prior envelope "claimed:command:1" 10 [] published.1 []
      published.2 published_answer (ground arith, ground arith) refl refl refl refl
