-- ===== src/Store/Restore.antt =====
-- `StateStore.restore` of src/habitat_state/store.py, over backups of the shape that `backup` writes.
mod Tests
pub mod Commands
pub mod Corrections
pub mod History
use nix_ai.Prelude.{
  String, ℕ, Bool, true, false, Option, none, some, List, [], ◌∷◌, Result, ok, err, reject_if,
  expect_some, ◌>>=◌, ◌>>◌, integrity_error, permission_error, unique_violation, check_violation,
  foreign_key_violation, text_append, is_empty_text, is_some, any, not, beq, leb, ltb, ◌==◌, ◌||◌,
  ◌++◌, ◌+◌, if◌then◌else◌,
}
use nix_ai.Table.{Table, get, put}
use nix_ai.Store.{Transition, Entity, EvidenceRef, StateDb, is_known}

-- An entry of `backup["evidence"]`.
pub record Item : Type 0 where
  pub evidence_id : String
  pub reference : EvidenceRef
  pub content_base64 : String
  pub consistency_marker : Option String

pub record Backup : Type 0 where
  pub consistency_marker : Option String
  pub entities : List (String × Entity)
  pub transitions : List Transition
  pub evidence : List Item

abbrev pub max_backup_bytes : ℕ
max_backup_bytes = 67108864

abbrev is_marker : String → Option String → Bool
is_marker marker none = false
is_marker marker (some m) = m == marker

-- `row.get("correction_of")` is empty or among the identities of the rows.
unfoldable pub is_listed : Option String → List Transition → Bool
is_listed none rows = true
is_listed (some i) rows = is_empty_text i || any (λ t. t.transition_id == i) rows

-- `versions.get(entity_id,0)`
abbrev pub version_in : String → Table ℕ → ℕ
version_in e versions = elim (get e versions) [ none ↦ 0 | some v ↦ v ]

abbrev pub larger : ℕ → ℕ → ℕ
larger a b = if leb a b then b else a

-- The loop over the rows of the history, which collects the last version of each entity.
unfoldable pub check_rows {ℓ} :
    {A : Type ℓ} → Table A → List Transition → List Transition → Table ℕ → Result (Table ℕ)
check_rows evidence all [] versions = ok versions
check_rows evidence all (t ∷ ts) versions = do
  reject_if (not (is_some (get t.evidence_id evidence)))
      (integrity_error "transition references missing evidence")
  reject_if (not (is_listed t.correction_of all))
      (integrity_error "correction references missing history")
  check_rows evidence all ts (
      put t.entity_id.value (larger (version_in t.entity_id.value versions) t.new_version) versions)

-- `versions.get(entity_id)!=version`
abbrev pub is_version : ℕ → Option ℕ → Bool
is_version version none = false
is_version version (some v) = beq v version

unfoldable pub check_entities : Table ℕ → List (String × Entity) → Result (Unit {0})
check_entities versions [] = ok tt
check_entities versions ((e, row) ∷ rows) = do
  reject_if (not (is_version row.version (get e versions)))
      (integrity_error "entity and history versions disagree")
  check_entities versions rows

-- INSERT INTO evidence_refs, of each verified item.
insert_references : Table (Item × String) → Table EvidenceRef → Result (Table EvidenceRef)
insert_references [] refs = ok refs
insert_references ((id, (item, content)) ∷ items) refs = do
  reject_if (is_some (get item.evidence_id refs)) (unique_violation "evidence_refs_pkey")
  reject_if (any (λ r. r.1.object_key == item.reference.object_key) refs)
      (unique_violation "evidence_refs_object_key_key")
  insert_references items (put item.evidence_id item.reference refs)

-- INSERT INTO authoritative_entities
unfoldable pub insert_entities : List (String × Entity) → Table Entity → Result (Table Entity)
insert_entities [] entities = ok entities
insert_entities ((e, row) ∷ rows) entities = do
  reject_if (beq row.version 0) (check_violation "authoritative_entities_version_check")
  reject_if (is_some (get e entities)) (unique_violation "authoritative_entities_pkey")
  insert_entities rows (put e row entities)

-- INSERT INTO state_transitions; a row may correct itself or one that has been inserted.
unfoldable pub insert_row {ℓ} :
    {A : Type ℓ} → Table A → Transition → List Transition → Result (Unit {0})
insert_row refs t done = do
  reject_if (not (beq t.new_version (t.previous_version + 1)))
      (check_violation "state_transitions_check")
  reject_if (any (λ r. r.transition_id == t.transition_id) done)
      (unique_violation "state_transitions_pkey")
  reject_if (any (λ r. r.command_id == t.command_id) done)
      (unique_violation "state_transitions_command_id_key")
  reject_if (not (is_some (get t.evidence_id refs)))
      (foreign_key_violation "state_transitions_evidence_id_fkey")
  reject_if (not (is_known t.transition_id t.correction_of done))
      (foreign_key_violation "state_transitions_correction_of_fkey")

unfoldable pub insert_rows {ℓ} :
    {A : Type ℓ} → Table A → List Transition → List Transition → Result (List Transition)
unfolding insert_row
insert_rows refs [] done = ok done
insert_rows refs (t ∷ ts) done = do insert_row refs t done; insert_rows refs ts (done ++ t ∷ [])

module _ (sha256 : String → String) (byte_len : String → ℕ) (b64decode : String → Option String)
    (is_uuid : String → Bool) (encoded_len : Backup → ℕ)
    (put_content : String → String → String → Result String) where
  -- One round of the loop over the evidence; the content is what the text decodes to.
  check_item : String → Item → Result (String × Item × String)
  check_item marker item = do
    reject_if (not (is_marker marker item.consistency_marker))
        (integrity_error "evidence consistency marker mismatch")
    content ←
        expect_some (b64decode item.content_base64) (integrity_error "invalid evidence encoding")
    let actual = text_append "sha256:" (sha256 content)
    reject_if
        (not (actual == item.evidence_id) || not (beq (byte_len content) item.reference.size_bytes))
        (integrity_error "backup evidence digest or size mismatch")
    ok (actual, item, content)

  check_items : String → List Item → Table (Item × String) → Result (Table (Item × String))
  unfolding check_item
  check_items marker [] found = ok found
  check_items marker (item ∷ items) found = do
    entry ← check_item marker item
    check_items marker items (put entry.0 (entry.1, entry.2) found)

  put_objects : String → Table (Item × String) → Result (Unit {0})
  put_objects marker [] = ok tt
  put_objects marker ((id, (item, content)) ∷ items) = do
    stored ← put_content item.reference.object_key content marker
    put_objects marker items

  -- The part inside the transaction: the tables are emptied and filled again.
  unfoldable pub refill : Backup → Table (Item × String) → StateDb → Result StateDb
  unfolding insert_references insert_entities insert_rows
  refill backup evidence db = do
    refs ← insert_references evidence []
    entities ← insert_entities backup.entities []
    transitions ← insert_rows refs backup.transitions []
    ok (record db { entities = entities; transitions = transitions; evidence_refs = refs })

  -- `StateStore.restore`, with the recovery mode of the store.
  unfoldable pub restore : Bool → Backup → StateDb → Result StateDb
  unfolding check_items check_rows check_entities put_objects refill
  restore recovery_mode backup db = do
    reject_if (not recovery_mode) (permission_error "restore requires dedicated recovery mode")
    reject_if (ltb max_backup_bytes (encoded_len backup))
        (integrity_error "backup exceeds bounded restore size")
    marker ←
        expect_some backup.consistency_marker (integrity_error "invalid backup consistency marker")
    reject_if (not (is_uuid marker)) (integrity_error "invalid backup consistency marker")
    evidence ← check_items marker backup.evidence []
    versions ← check_rows evidence backup.transitions backup.transitions []
    check_entities versions backup.entities
    put_objects marker evidence
    refill backup evidence db
