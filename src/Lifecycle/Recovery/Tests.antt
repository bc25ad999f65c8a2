-- ===== src/Lifecycle/Recovery/Tests.antt =====
-- Tests of the recovery on concrete tables.
use nix_ai.Lifecycle.Db.{Db}
use nix_ai.Prelude.{Result, some, ok, List, ◌≡◌, refl, ◌∷◌, []}
use nix_ai.Json.{str}
use nix_ai.Lifecycle.Examples.{after_of, row_of, digest, held, bound_row, shown}
use nix_ai.Lifecycle.Claims.{Publisher}
use nix_ai.Table.{get, put, rows_where}
use nix_ai.Json.Dumps.{decimal}
use nix_ai.Lifecycle.Resolve.{resolve_activation}
use nix_ai.Lifecycle.Recovery.{recover_expired, Recovered}
use nix_ai.Lifecycle.Recovery.Rounds.{recover_expired-unresolved}
use nix_ai.Lifecycle.States.{WakeState}
use nix_ai.Table.{get}

abbrev publisher : Publisher
publisher = some (λ command_id payload. ok (str "s3://evidence/sha256/1"))

-- An activation whose lease ends at 90, with its wake leased to the same owner.
abbrev expired : Db
expired = record held {
  wakes =
      (
        "wake:1",
        record {
          objective_id = "objective:1";
          state = WakeState.leased;
          due_at = 10;
          lease_owner = some "worker:1";
          lease_expires_at = some 90;
          created_command = "command:0";
          version = 2;
        },
      )
      ∷ [];
  binding_history =
      (record {
        activation_id = "activation:1";
        version = 1;
        command_id = "command:1";
        binding = shown;
        evidence_ref = "s3://evidence/sha256/0";
      })
      ∷ [];
}

abbrev recovered : Result (List Recovered × Db)
recovered = recover_expired publisher 100 expired

recover_expired-unresolved_example : ¬ (
    resolve_activation digest shown (str "secret") 110 (after_of recovered)
    ≡ ok (("activation:1", bound_row), after_of recovered))
unfolding recover_expired get put rows_where decimal
recover_expired-unresolved_example =
    recover_expired-unresolved digest publisher 100 expired (after_of recovered)
      (row_of [] recovered) "activation:1" bound_row bound_row shown (str "secret") 110
      (after_of recovered) (refl, tt) refl refl refl
