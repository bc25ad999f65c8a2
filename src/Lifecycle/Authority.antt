-- ===== src/Lifecycle/Authority.antt =====
-- Bindings of authority: `record_authority_binding`, `authority_binding` and
-- `commit_authority_snapshot`.
mod Tests
pub mod Versions
use nix_ai.Json.{get_field, obj, Json, py_eq, str, object, nat, is_digest}
use nix_ai.Lifecycle.Transaction.{
  ◌>>=◌, recorded, Tx, modify, gets, ◌>>◌, raise_if, fingerprint, once,
}
use nix_ai.Prelude.{
  Option, String, Bool, ℕ, true, text_append, some, false, none, any, ◌==◌, ◌+◌, not, ◌∷◌, ◌&&◌,
  starts_with, ◌||◌, beq, unique_violation, [], is_empty_text, value_error, ◌++◌,
}
use nix_ai.Json.Dumps.{dumps, canonical_style}
use nix_ai.Lifecycle.Db.{AuthorityRow, AuthorityBinding}
use nix_ai.Table.{put, get}

unfoldable pub write_binding : String → AuthorityBinding → Tx (Unit {0})
unfolding ◌>>=◌
write_binding binding_id b =
    modify (λ db. record db { authority_bindings = put binding_id b db.authority_bindings })

-- INSERT INTO authority_binding_history: the key is (binding_id,version), and `command_id` is UNIQUE.
unfoldable pub insert_authority : AuthorityRow → Tx (Unit {0})
unfolding ◌>>=◌
insert_authority row = do
  used ← gets (λ db.
      any (λ r. r.binding_id == row.binding_id && beq r.version row.version) db.authority_history)
  raise_if used (unique_violation "authority_binding_history_pkey")
  sent ← gets (λ db. any (λ r. r.command_id == row.command_id) db.authority_history)
  raise_if sent (unique_violation "authority_binding_history_command_id_key")
  modify (λ db. record db { authority_history = db.authority_history ++ row ∷ [] })

abbrev pub binding_version : Option AuthorityBinding → ℕ
binding_version none = 0
binding_version (some b) = b.version

abbrev binding_snapshot : Option AuthorityBinding → Option Json
binding_snapshot none = none
binding_snapshot (some b) = b.snapshot

abbrev binding_snapshot_digest : Option AuthorityBinding → Option String
binding_snapshot_digest none = none
binding_snapshot_digest (some b) = b.snapshot_digest

record_binding_body : String → String → String → String → String → String → Tx Json
unfolding write_binding insert_authority recorded
record_binding_body binding_id command_id generation grants_digest evidence_ref fp = do
  row ← gets (λ db. get binding_id db.authority_bindings)
  let version = binding_version row + 1
  write_binding binding_id (record {
    generation = generation;
    grants_digest = grants_digest;
    evidence_ref = evidence_ref;
    version = version;
    snapshot = binding_snapshot row;
    snapshot_digest = binding_snapshot_digest row;
  })
  insert_authority (record {
    binding_id = binding_id;
    version = version;
    command_id = command_id;
    generation = generation;
    grants_digest = grants_digest;
    evidence_ref = evidence_ref;
    snapshot = none;
    snapshot_digest = none;
  })
  recorded command_id fp (
      object (
        ("binding_id", str binding_id)
        ∷ ("generation", str generation)
        ∷ ("grants_digest", str grants_digest)
        ∷ ("evidence_ref", str evidence_ref)
        ∷ ("version", nat version)
        ∷ []))

-- `record_authority_binding`
pub record_authority_binding :
    (String → String) → String → String → String → String → String → Tx Json
unfolding ◌>>=◌
record_authority_binding sha256 binding_id command_id generation grants_digest evidence_ref = do
  raise_if (not (starts_with grants_digest "sha256:") || is_empty_text evidence_ref)
      (value_error "authority binding requires digest and evidence")
  let fp =
      fingerprint sha256 "record_authority_binding"
        (str binding_id ∷ str generation ∷ str grants_digest ∷ str evidence_ref ∷ [])
  once command_id fp
      (record_binding_body binding_id command_id generation grants_digest evidence_ref fp)

abbrev is_object : Json → Bool
is_object (obj _) = true
is_object _ = false

abbrev text_of : Json → String
text_of (str s) = s
text_of _ = ""

-- `"sha256:"+hashlib.sha256(canonical).hexdigest()`
pub canonical_digest : (String → String) → Json → String
unfolding dumps
canonical_digest sha256 value = text_append "sha256:" (sha256 (dumps canonical_style value))

-- The checks of `commit_authority_snapshot` before its transaction.
snapshot_checks : (String → String) → String → Json → String → String → Tx (Unit {0})
unfolding ◌>>=◌ canonical_digest get_field py_eq
snapshot_checks sha256 generation snapshot snapshot_digest evidence_ref = do
  raise_if
      (not (is_object snapshot)
        || not (starts_with snapshot_digest "sha256:")
        || is_empty_text evidence_ref)
      (value_error "authority snapshot requires object, digest, and evidence")
  raise_if (not (canonical_digest sha256 snapshot == snapshot_digest))
      (value_error "authority snapshot digest mismatch")
  raise_if (not (py_eq (get_field "generation" snapshot) (str generation)))
      (value_error "authority snapshot generation mismatch")
  raise_if (not (is_digest (get_field "configuration_digest" snapshot)))
      (value_error "authority snapshot grants digest is invalid")

snapshot_body : String → String → ℕ → String → Json → String → String → String → Tx Json
unfolding write_binding insert_authority recorded
snapshot_body binding_id command_id expected_version generation snapshot digest evidence_ref fp = do
  row ← gets (λ db. get binding_id db.authority_bindings)
  raise_if (not (beq (binding_version row) expected_version))
      (value_error "authority snapshot version conflict")
  let next_version = binding_version row + 1
  let grants_digest = text_of (get_field "configuration_digest" snapshot)
  write_binding binding_id (record {
    generation = generation;
    grants_digest = grants_digest;
    evidence_ref = evidence_ref;
    version = next_version;
    snapshot = some snapshot;
    snapshot_digest = some digest;
  })
  insert_authority (record {
    binding_id = binding_id;
    version = next_version;
    command_id = command_id;
    generation = generation;
    grants_digest = grants_digest;
    evidence_ref = evidence_ref;
    snapshot = some snapshot;
    snapshot_digest = some digest;
  })
  recorded command_id fp (
      object (
        ("binding_id", str binding_id)
        ∷ ("generation", str generation)
        ∷ ("snapshot_digest", str digest)
        ∷ ("evidence_ref", str evidence_ref)
        ∷ ("version", nat next_version)
        ∷ []))

-- `commit_authority_snapshot`
pub commit_authority_snapshot :
    (String → String) → String → String → ℕ → String → Json → String → String → Tx Json
unfolding ◌>>=◌
commit_authority_snapshot sha256 binding_id command_id expected_version generation snapshot digest
      evidence_ref =
    do
      snapshot_checks sha256 generation snapshot digest evidence_ref
      let fp = fingerprint sha256 "commit_authority_snapshot" (
          str binding_id
          ∷ nat expected_version
          ∷ str generation
          ∷ str digest
          ∷ str evidence_ref
          ∷ [])
      once command_id fp (
          snapshot_body binding_id command_id expected_version generation snapshot digest
            evidence_ref fp)
