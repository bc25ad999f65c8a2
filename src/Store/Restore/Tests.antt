-- ===== src/Store/Restore/Tests.antt =====
-- Tests of the restore on concrete backups.
use nix_ai.Prelude.{
  String, ◌≡◌, refl, none, some, ok, [], ◌∷◌, Result, Option, true, err, arith, eq_iff,
}
use nix_ai.Domain.{Correlation, EntityKind, State}
use nix_ai.Store.{StateDb, Entity, Transition}
use nix_ai.Store.Restore.{Backup, restore, is_listed}
use nix_ai.Store.Log.{AreOnce}
use nix_ai.Store.Restore.Commands.{restore-AreOnce}
use nix_ai.Store.Restore.History.{restore-eq-ok, highest}
use nix_ai.Store.Restore.Corrections.{restore-correction}
use nix_ai.Table.{get, put}

abbrev digest : String → String
digest content = content

abbrev put_content : String → String → String → Result String
put_content key content marker = ok content

abbrev correlation : Correlation
correlation = record {
  trace_id = "trace:1";
  agent_id = "agent:1";
  objective_id = "objective:1";
  generation_id = "generation:1";
}

abbrev row : Option String → Transition
row correction = record {
  transition_id = "transition:1";
  entity_id = record { kind = EntityKind.objective; value = "objective:1" };
  command_id = "command:1";
  actor = "service:runtime";
  previous_version = 0;
  new_version = 1;
  new_state = State.proposed;
  evidence_id = "sha256:a";
  correlation = correlation;
  occurred_at = 9;
  correction_of = correction;
}

abbrev objective : Entity
objective = record {
  kind = EntityKind.objective;
  version = 1;
  state = State.proposed;
  updated_at = 9;
}

-- A row of another entity, which the first row may correct.
abbrev other_row : Transition
other_row = record (row none) {
  transition_id = "transition:2";
  entity_id = record { kind = EntityKind.objective; value = "objective:2" };
  command_id = "command:2";
}

abbrev backup : Option String → Backup
backup correction = record {
  consistency_marker = some "marker";
  entities = ("objective:1", objective) ∷ [];
  transitions = row correction ∷ other_row ∷ [];
  evidence =
      (record {
        evidence_id = "sha256:a";
        reference = record {
          object_key = "sha256/a";
          size_bytes = 1;
          metadata = record {
            producer = "service:abi";
            subject = "agent:1";
            source_version = 1;
            retention_class = "standard";
            access_policy = "private";
            correlation = correlation;
          };
        };
        content_base64 = "a";
        consistency_marker = some "marker";
      })
      ∷ [];
}

abbrev empty : StateDb
empty = record { entities = []; transitions = []; evidence_refs = []; projections = [] }

abbrev restored : Result StateDb → StateDb
restored (ok db) = db
restored (err e) = empty

abbrev result : Option String → Result StateDb
result correction =
    restore digest (λ c. 1) (λ c. some c) (λ m. true) (λ b. 100) put_content true
      (backup correction) empty

restore-eq-ok_example :
    ((restored (result none)).transitions ≡ row none ∷ other_row ∷ [])
    × ((e : String) (x : Entity)
        → get e (restored (result none)).entities ≡ some x
        → x.version ≡ highest e (restored (result none)).transitions)
unfolding restore get put is_listed
restore-eq-ok_example =
    restore-eq-ok digest (λ c. 1) (λ c. some c) (λ m. true) (λ b. 100) put_content true
      (backup none) empty (restored (result none)) refl

restore-correction_example : ¬ (result (some "transition:2") ≡ ok empty)
restore-correction_example =
    restore-correction digest (λ c. 1) (λ c. some c) (λ m. true) (λ b. 100) put_content true
      (backup (some "transition:2")) empty empty (row (some "transition:2")) (other_row ∷ [])
      "transition:2" refl refl (λ same. ground (arith, eq_iff "transition:1" "transition:2", same))

restore-AreOnce_example : AreOnce ((restored (result none)).transitions)
unfolding restore get put is_listed
restore-AreOnce_example =
    restore-AreOnce digest (λ c. 1) (λ c. some c) (λ m. true) (λ b. 100) put_content true
      (backup none) empty (restored (result none)) refl
