-- ===== src/Lifecycle/Authority/Tests.antt =====
-- Tests of `commit_authority_snapshot` on empty tables.
use nix_ai.Prelude.{String, Result, ◌∷◌, [], ◌≡◌, true, ok, some, ◌+◌, refl}
use nix_ai.Json.{Json, object, str, get_field, py_eq, null}
use nix_ai.Lifecycle.Authority.{
  commit_authority_snapshot, snapshot_body, canonical_digest, binding_version, snapshot_checks,
}
use nix_ai.Lifecycle.Db.{Db, empty}
use nix_ai.Lifecycle.Examples.{artifact, after_of, answer_of}
use nix_ai.Lifecycle.Transaction.{once}
use nix_ai.Table.{get, put}
use nix_ai.Lifecycle.Authority.Versions.{
  commit_authority_snapshot_conflict, committed_binding, commit_authority_snapshot-eq-ok,
}

-- Every content has the digest that `artifact` names.
abbrev one_digest : String → String
one_digest s = "aaaaaaaaaaaaaaaaaaaaaaaaaaaaaaaaaaaaaaaaaaaaaaaaaaaaaaaaaaaaaaaa"

abbrev snapshot : Json
snapshot = object (("generation", str "generation:1") ∷ ("configuration_digest", str artifact) ∷ [])

abbrev committed : Result (Json × Db)
committed =
    commit_authority_snapshot one_digest "authority:1" "command:1" 0 "generation:1" snapshot
      artifact "evidence:1" empty

commit_authority_snapshot-eq-ok_example :
    (canonical_digest one_digest snapshot ≡ artifact)
    × (py_eq (get_field "generation" snapshot) (str "generation:1") ≡ true)
    × (binding_version (get "authority:1" empty.authority_bindings) ≡ 0)
    × (get "authority:1" (after_of committed).authority_bindings
        ≡ some (committed_binding "generation:1" snapshot artifact "evidence:1" (0 + 1)))
unfolding commit_authority_snapshot snapshot_body snapshot_checks once get put get_field py_eq
commit_authority_snapshot-eq-ok_example =
    commit_authority_snapshot-eq-ok one_digest "authority:1" "command:1" 0 "generation:1" snapshot
      artifact "evidence:1" empty (after_of committed) (answer_of committed) refl refl

commit_authority_snapshot_conflict_example : ¬ (
    commit_authority_snapshot one_digest "authority:1" "command:2" 0 "generation:1" snapshot
      artifact "evidence:2"
      (after_of committed)
    ≡ ok (null, after_of committed))
unfolding commit_authority_snapshot snapshot_body snapshot_checks once get put get_field py_eq
commit_authority_snapshot_conflict_example =
    commit_authority_snapshot_conflict one_digest "authority:1" "command:1" "command:2" 0
      "generation:1" "generation:1" snapshot snapshot artifact artifact "evidence:1" "evidence:2"
      empty (after_of committed) (after_of committed) (answer_of committed) null refl refl refl
