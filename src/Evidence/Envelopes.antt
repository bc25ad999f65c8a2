-- ===== src/Evidence/Envelopes.antt =====
-- `put_envelope`: the checks, the reservation, the write, the finalisation and the reading back.
mod Tests
pub mod Replays
use nix_ai.Prelude.{
  String, ℕ, Bool, text_len, suc, all_text, drop_text, List, not, ◌-◌, beq, if◌then◌else◌, ◌∷◌,
  Result, [], err, zero, text_append, ok, some, is_empty_text, ◌>>=◌, none, ledger_corrupt, ◌>>◌,
  reject_if, ◌==◌, Option,
}
use nix_ai.Evidence.Objects.{Client, put_content, content_of}
use nix_ai.Json.{Json, object, str}
use nix_ai.Evidence.{put, envelope_checks, verify}
use nix_ai.Ledger.{finalize_evidence, reserve_evidence, Admission}
use nix_ai.Json.Dumps.{dumps, canonical_style}

no_slash : String → Bool
no_slash s = all_text (λ c. not (beq c b'/')) s

-- `reference.rsplit("/",1)[-1]`
unfoldable pub last_part : String → String
unfolding no_slash
last_part String.[] = String.[]
last_part (String.◌∷◌ c s) =
    let rest = last_part s in if no_slash (String.◌∷◌ c s) then String.◌∷◌ c s else rest

-- {"evidence_ref":…,"sha256":…}
unfoldable pub stored_answer : String → Json
unfolding last_part
stored_answer reference =
    object (("evidence_ref", str reference) ∷ ("sha256", str (last_part reference)) ∷ [])

module _ {B : Type 0} (client : Client B) (byte_len : String → ℕ) (sha256 : String → String)
    (bucket : String) where
  -- `self.put(envelope)`, with the bucket behind it.
  unfoldable pub put_object : Json → B → Result String × B
  unfolding put put_content content_of dumps
  put_object envelope objects =
      let content = dumps canonical_style envelope in
      let digest = sha256 content in
      let sent =
        put_content client byte_len (text_append "sha256/" digest) content
          (object (("sha256", str digest) ∷ [])) objects in
      (
        put sha256 bucket (content_of client byte_len objects) (λ key body d. sent.0) envelope,
        sent.1,
      )

  -- The reading back of what was put, and the answer.
  unfoldable pub read_answer : String → B → String → Result Json
  unfolding verify content_of stored_answer
  read_answer content objects reference = do
    stored ← verify sha256 bucket (content_of client byte_len objects) (str reference)
    reject_if (not (stored == content))
        (ledger_corrupt "evidence read-back differs from canonical envelope")
    ok (stored_answer reference)

  -- The finalisation is a transaction of its own; what is read back comes behind it.
  unfoldable pub closing :
      Result (String × List Admission)
      → Result Json
      → List Admission
      → B
      → Result Json × List Admission × B
  closing (err e) answer rows objects = (err e, rows, objects)
  closing (ok (_, rows')) answer rows objects = (answer, rows', objects)

  unfoldable pub finish :
      String
      → String
      → String
      → String
      → List Admission
      → B
      → Result String
      → Result Json × List Admission × B
  unfolding finalize_evidence read_answer closing
  finish principal command_id digest content rows objects (err e) = (err e, rows, objects)
  finish principal command_id digest content rows objects (ok reference) =
      closing (finalize_evidence principal command_id digest reference rows)
        (read_answer content objects reference) rows objects

  -- What follows the reservation: its reference is the answer, if it has one.
  unfoldable pub reserved :
      Json
      → String
      → String
      → Result (Option String × List Admission)
      → List Admission
      → B
      → Result Json × List Admission × B
  unfolding put_object finish dumps stored_answer
  reserved envelope principal command_id (err e) rows objects = (err e, rows, objects)
  reserved envelope principal command_id (ok (some reference, rows')) rows objects =
      (ok (stored_answer reference), rows', objects)
  reserved envelope principal command_id (ok (none, rows')) rows objects =
      let content = dumps canonical_style envelope in
      let sent = put_object envelope objects in
      finish principal command_id (sha256 content) content rows' sent.1 sent.0

  -- `put_envelope` of a store that is bound to the admissions of the repository.
  unfoldable pub put_envelope :
      Json → String → String → ℕ → List Admission → B → Result Json × List Admission × B
  unfolding envelope_checks reserve_evidence reserved dumps
  put_envelope envelope principal command_id quota rows objects =
      elim (envelope_checks envelope principal) [
        | err e ↦ (err e, rows, objects)
        | ok _ ↦
            if is_empty_text command_id
            then (err (ledger_corrupt "evidence command identity is required"), rows, objects)
            else reserved envelope principal command_id
                (reserve_evidence principal command_id (sha256 (dumps canonical_style envelope))
                  quota rows)
                rows objects
      ]
