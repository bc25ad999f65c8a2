-- ===== src/Store/Bytes.antt =====
-- `StateStore.put_evidence` and `StateStore.verify_evidence`, over the object store's adapter.

use nix_ai.Prelude.{
  String, ℕ, Result, text_append, if◌then◌else◌, Bool, ◌>>=◌, err, is_some, integrity_error,
  expect_some, ◌>>◌, reject_if, ok, ltb, value_error, ◌||◌, not, runtime_error, beq, ◌==◌, ◌≡◌,
  reject_if-eq-ok, true, >>=-eq-ok, false, ok_pair, refl, ap, sym, ◌∙◌,
}
use nix_ai.Domain.{Correlation, EvidenceMetadata, evidence_id}
use nix_ai.Store.{EvidenceRef, StateDb}
use nix_ai.Table.{get, put}

module _ (sha256 : String → String) (byte_len : String → ℕ) (max_evidence_bytes : ℕ)
    (put_content : String → String → Correlation → Result String)
    (get_content : String → Result (ℕ × String)) where
  -- INSERT INTO evidence_refs … ON CONFLICT DO NOTHING
  insert_reference : String → EvidenceRef → StateDb → StateDb
  insert_reference evidence_id r db =
      if is_some (get evidence_id db.evidence_refs)
      then db
      else record db { evidence_refs = put evidence_id r db.evidence_refs }

  stored_key : String → String
  stored_key content = text_append "sha256/" (sha256 content)

  -- `put_evidence`
  unfoldable pub put_evidence :
      String → EvidenceMetadata → Bool → StateDb → Result (String × StateDb)
  unfolding insert_reference stored_key
  put_evidence content metadata crash_during_upload db = do
    reject_if (ltb max_evidence_bytes (byte_len content))
        (value_error "evidence exceeds byte limit")
    id ← evidence_id (text_append "sha256:" (sha256 content))
    stored ← put_content (stored_key content) content metadata.correlation
    reject_if crash_during_upload (runtime_error "during_upload")
    reject_if (not (stored == content))
        (integrity_error "evidence verification failed after upload")
    ok (
      id,
      insert_reference id
          (record {
            object_key = stored_key content;
            size_bytes = byte_len content;
            metadata = metadata;
          })
          db,
    )

  insert_reference-same :
      (id : String) (r : EvidenceRef) (db : StateDb)
      → ((insert_reference id r db).entities ≡ db.entities)
        × ((insert_reference id r db).transitions ≡ db.transitions)
  unfolding insert_reference
  insert_reference-same id r db = from (is_some (get id db.evidence_refs))
    where
      from :
          (b : Bool)
          → ((if b then db else record db { evidence_refs = put id r db.evidence_refs }).entities
              ≡ db.entities)
            × ((if b
                  then db
                  else record db { evidence_refs = put id r db.evidence_refs }).transitions
                ≡ db.transitions)
      from true = (refl, refl)
      from false = (refl, refl)

  -- The evidence that is put leaves the entities and the log alone.
  pub put_evidence-same :
      (content : String) (metadata : EvidenceMetadata) (crash : Bool) (db : StateDb) {db' : StateDb}
      {id : String}
      → put_evidence content metadata crash db ≡ ok (id, db')
      → (db'.entities ≡ db.entities) × (db'.transitions ≡ db.transitions)
  unfolding put_evidence
  put_evidence-same content metadata crash db {db'} h =
      let (_, h) =
        reject_if-eq-ok (ltb max_evidence_bytes (byte_len content))
          (value_error "evidence exceeds byte limit") _ h in
      let (id, _, h) = >>=-eq-ok (evidence_id (text_append "sha256:" (sha256 content))) _ h in
      let (stored, _, h) =
        >>=-eq-ok (put_content (stored_key content) content metadata.correlation) _ h in
      let (_, h) = reject_if-eq-ok crash (runtime_error "during_upload") _ h in
      let (_, h) =
        reject_if-eq-ok (not (stored == content))
          (integrity_error "evidence verification failed after upload") _ h in
      let (_, is) = ok_pair h in
      let (e, t) = insert_reference-same id _ db in
      (ap (λ d. d.entities) (sym is) ∙ e, ap (λ d. d.transitions) (sym is) ∙ t)

  -- The reading of the object; every exception of it becomes the same one.
  read_object : EvidenceRef → Result (ℕ × String) → Result String
  read_object r (err e) = err (integrity_error "referenced evidence is unavailable")
  read_object r (ok (size, content)) =
      if ltb max_evidence_bytes size || not (beq size r.size_bytes)
      then err (integrity_error "referenced evidence is unavailable")
      else ok content

  -- `verify_evidence`
  unfoldable pub verify_evidence : String → StateDb → Result String
  unfolding read_object
  verify_evidence id db = do
    r ← expect_some (get id db.evidence_refs) (integrity_error "unknown evidence reference")
    content ← read_object r (get_content r.object_key)
    reject_if
        (ltb max_evidence_bytes (byte_len content)
          || (not (text_append "sha256:" (sha256 content) == id)
              || not (beq (byte_len content) r.size_bytes)))
        (integrity_error "referenced evidence digest or size mismatch")
    ok content
