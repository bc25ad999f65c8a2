-- ===== src/Lifecycle/Authority/Versions.antt =====
-- Theorems on `commit_authority_snapshot`: the compare-and-swap on the version of a binding.
use nix_ai.Prelude.{
  String, ℕ, ◌≡◌, some, ok, ◌+◌, not, beq, value_error, beq→eq, not-false, none, any, sym, ◌==◌, ap,
  ◌&&◌, ◌∙◌, unique_violation, true, arith, ◌++◌, eq_iff, ◌∷◌, [],
}
use nix_ai.Lifecycle.Authority.{
  insert_authority, snapshot_body, binding_version, snapshot_checks, commit_authority_snapshot,
  canonical_digest,
}
use nix_ai.Lifecycle.Db.{AuthorityBinding, Db, AuthorityRow}
use nix_ai.Json.{Json, get_field, py_eq, str}
use nix_ai.Table.{get, put}
use nix_ai.Lifecycle.Transaction.Rules.{Keeps, Keeps-bind, once-fresh}
use nix_ai.Ledger.{text_of}
use nix_ai.Lifecycle.Transaction.{◌>>◌, recorded, ◌>>=◌}
use nix_ai.Lifecycle.Transaction.Frames.{Keeps-recorded, Keeps-ok, Keeps-keyed_insert}
use nix_ai.Lifecycle.Transaction.Inversion.{raise_if-eq-ok, bind-eq-ok}
use nix_ai.Table.Laws.{get-put_self}
use mathlib.Core.Path.{subst}

abbrev HasBinding : String → AuthorityBinding → Db → Type 0
HasBinding k b db = get k db.authority_bindings ≡ some b

writes-HasBinding :
    (k : String) (b : AuthorityBinding) (row : AuthorityRow) (command_id fp : String) (r : Json)
    → Keeps (HasBinding k b) (insert_authority row >> recorded command_id fp r)
unfolding insert_authority
writes-HasBinding k b row command_id fp r =
    Keeps-bind (insert_authority row) _
      (Keeps-keyed_insert
        (λ db.
          any (λ r. r.binding_id == row.binding_id && beq r.version row.version)
            db.authority_history)
        (λ db. any (λ r. r.command_id == row.command_id) db.authority_history)
        (unique_violation "authority_binding_history_pkey")
        (unique_violation "authority_binding_history_command_id_key")
        (λ db. record db { authority_history = db.authority_history ++ row ∷ [] }) (λ db h. h))
      (λ _. Keeps-recorded command_id fp r (λ db rows h. h))

-- The row that a commit of a snapshot leaves.
abbrev pub committed_binding : String → Json → String → String → ℕ → AuthorityBinding
committed_binding generation snapshot digest evidence_ref version = record {
  generation = generation;
  grants_digest = text_of (get_field "configuration_digest" snapshot);
  evidence_ref = evidence_ref;
  version = version;
  snapshot = some snapshot;
  snapshot_digest = some digest;
}

snapshot_body-eq-ok :
    (binding_id command_id : String) (expected_version : ℕ) (generation : String) (snapshot : Json)
    (digest evidence_ref fp : String) (db db' : Db) (r : Json)
    → snapshot_body binding_id command_id expected_version generation snapshot digest evidence_ref
        fp db
      ≡ ok (r, db')
    → (binding_version (get binding_id db.authority_bindings) ≡ expected_version)
      × HasBinding binding_id
          (committed_binding generation snapshot digest evidence_ref
            (binding_version (get binding_id db.authority_bindings) + 1))
          db'
unfolding snapshot_body
snapshot_body-eq-ok binding_id command_id expected_version generation snapshot digest evidence_ref
      fp db db' r h =
    let current = binding_version (get binding_id db.authority_bindings) in
    let (same, h) =
      raise_if-eq-ok {db = db} (not (beq current expected_version))
        (value_error "authority snapshot version conflict") _ h in
    let b = committed_binding generation snapshot digest evidence_ref (current + 1) in
    (
      beq→eq current expected_version (not-false _ same),
      Keeps-ok _ (record db { authority_bindings = put binding_id b db.authority_bindings })
          (writes-HasBinding binding_id b _ _ _ _) (get-put_self binding_id b db.authority_bindings)
          h,
    )

snapshot_checks-eq-ok :
    (sha256 : String → String) (generation : String) (snapshot : Json)
    (digest evidence_ref : String) (db db' : Db) (u : Unit {0})
    → snapshot_checks sha256 generation snapshot digest evidence_ref db ≡ ok (u, db')
    → (canonical_digest sha256 snapshot ≡ digest)
      × (py_eq (get_field "generation" snapshot) (str generation) ≡ true)
      × (db ≡ db')
unfolding snapshot_checks ◌>>=◌
snapshot_checks-eq-ok sha256 generation snapshot digest evidence_ref db db' u h = (
  ground (arith, h, eq_iff (canonical_digest sha256 snapshot) digest),
  ground (arith, h),
  ground (arith, h),
)

-- A commit of a snapshot that succeeded as a new command was given the snapshot's own digest and
-- generation and the version that the binding had, and leaves the snapshot bound at the next one.
pub commit_authority_snapshot-eq-ok :
    (sha256 : String → String) (binding_id command_id : String) (expected_version : ℕ)
    (generation : String) (snapshot : Json) (digest evidence_ref : String) (db db' : Db) (r : Json)
    → get command_id db.commands ≡ none
    → commit_authority_snapshot sha256 binding_id command_id expected_version generation snapshot
        digest evidence_ref db
      ≡ ok (r, db')
    → (canonical_digest sha256 snapshot ≡ digest)
      × (py_eq (get_field "generation" snapshot) (str generation) ≡ true)
      × (binding_version (get binding_id db.authority_bindings) ≡ expected_version)
      × (get binding_id db'.authority_bindings
          ≡ some (committed_binding generation snapshot digest evidence_ref (expected_version + 1)))
unfolding commit_authority_snapshot
commit_authority_snapshot-eq-ok sha256 binding_id command_id expected_version generation snapshot
      digest evidence_ref db db' r new h =
    let (u, d, checked, h) =
      bind-eq-ok (snapshot_checks sha256 generation snapshot digest evidence_ref) _ db h in
    let (canonical, named, same) =
      snapshot_checks-eq-ok sha256 generation snapshot digest evidence_ref db d u checked in
    let (version, bound) =
      snapshot_body-eq-ok binding_id command_id expected_version generation snapshot digest
        evidence_ref _ d db' r
        (sym (once-fresh command_id _ _ d (subst (λ x. get command_id x.commands ≡ none) same new))
          ∙ h) in
    (
      canonical,
      named,
      subst (λ x. binding_version (get binding_id x.authority_bindings) ≡ expected_version)
          (sym same) version,
      bound
          ∙ ap (λ v. some (committed_binding generation snapshot digest evidence_ref (v + 1)))
              version,
    )

-- No update is lost: behind a commit that succeeded, another new command that expects the same
-- version does not succeed.
pub commit_authority_snapshot_conflict :
    (sha256 : String → String) (binding_id command_id other : String) (expected_version : ℕ)
    (generation generation' : String) (snapshot snapshot' : Json)
    (digest digest' evidence_ref evidence_ref' : String) (db db' db'' : Db) (r r' : Json)
    → get command_id db.commands ≡ none
    → commit_authority_snapshot sha256 binding_id command_id expected_version generation snapshot
        digest evidence_ref db
      ≡ ok (r, db')
    → get other db'.commands ≡ none
    → ¬ (
        commit_authority_snapshot sha256 binding_id other expected_version generation' snapshot'
          digest' evidence_ref' db'
        ≡ ok (r', db''))
commit_authority_snapshot_conflict sha256 binding_id command_id other expected_version generation
      generation' snapshot snapshot' digest digest' evidence_ref evidence_ref' db db' db'' r r' new
      h fresh h' =
    let (_, _, _, bound) =
      commit_authority_snapshot-eq-ok sha256 binding_id command_id expected_version generation
        snapshot digest evidence_ref db db' r new h in
    let (_, _, version, _) =
      commit_authority_snapshot-eq-ok sha256 binding_id other expected_version generation' snapshot'
        digest' evidence_ref' db' db'' r' fresh h' in
    let next : expected_version + 1 ≡ expected_version = sym (ap binding_version bound) ∙ version in
    omega (arith, next)
