-- ===== src/Evidence/Envelopes/Tests.antt =====
-- A test of `put_envelope` on an empty bucket.
use nix_ai.Prelude.{String, Result, List, text_append, ◌∷◌, [], text_len, ◌≡◌, ok, ℕ, refl}
use nix_ai.Json.{Json, object, str, has_exactly, get_field}
use nix_ai.Evidence.Envelopes.{put_envelope, stored_answer, reserved, finish, closing, put_object}
use nix_ai.Ledger.{Admission, find_admission, reserve_evidence, finalize_evidence}
use nix_ai.Evidence.Examples.{Bucket, table_client}
use nix_ai.Evidence.{verify}
use nix_ai.Evidence.Objects.{content_of}
use nix_ai.Json.Dumps.{dumps, canonical_style}
use nix_ai.Evidence.Envelopes.Replays.{put_envelope-verify}
use nix_ai.Table.{get, put}

abbrev hexes : String
hexes = "aaaaaaaaaaaaaaaaaaaaaaaaaaaaaaaaaaaaaaaaaaaaaaaaaaaaaaaaaaaaaaaa"

abbrev one_digest : String → String
one_digest s = hexes

abbrev envelope : Json
envelope = object (
    ("schema_version", str "1")
    ∷ ("producer", str "service:state")
    ∷ ("subject", str "activation:1")
    ∷ ("operation", str "activation.claimed")
    ∷ ("source", str (text_append "sha256:" hexes))
    ∷ ("payload", object [])
    ∷ [])

abbrev run : Result Json × List Admission × Bucket
run =
    put_envelope table_client (λ s. text_len s) one_digest "evidence" envelope "service:state"
      "command:1" 10 [] []

abbrev answer : Json
answer = stored_answer (text_append "s3://evidence/sha256/" hexes)

put_envelope-verify_example :
    (reference : String) × (answer ≡ stored_answer reference)
    × (verify one_digest "evidence"
          (content_of table_client (λ s. text_len s) run.2)
          (str reference)
        ≡ ok (dumps canonical_style envelope))
    × ((quota : ℕ)
        → put_envelope table_client
            (λ s. text_len s)
            one_digest
            "evidence"
            envelope
            "service:state"
            "command:1"
            quota
            run.1
            run.2
          ≡ (ok answer, run.1, run.2))
unfolding put_envelope reserved finish closing put_object table_client find_admission
    reserve_evidence finalize_evidence verify has_exactly get_field dumps get put
put_envelope-verify_example =
    put_envelope-verify table_client (λ s. text_len s) one_digest "evidence" envelope
      "service:state" "command:1" 10 [] run.1 [] run.2 answer refl refl
