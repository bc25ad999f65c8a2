-- ===== src/Store/Tests.antt =====
-- Tests of `StateStore.transition` on concrete tables.
use nix_ai.Store.Runs.{here}
use nix_ai.Store.Runs.{Reach, IsExtension, next, Reach-IsLogged, Reach-IsExtension, moved}
use nix_ai.Store.Log.{IsLogged}
use nix_ai.Domain.{Correlation, EntityKind, is_legal}
use nix_ai.Store.{
  StateDb, Request, Transition, transition_new, appended, upserted, find_command, entity_version,
  transition, before_commit, entity_state, after_commit, no_crash,
}
use nix_ai.Prelude.{
  [], ◌∷◌, none, ◌≡◌, err, true, runtime_error, is_some, ◌++◌, ◌+◌, ok, some, refl,
}
use nix_ai.Table.{get, put}
use nix_ai.Domain.{proposed}
use nix_ai.Store.History.{transition_crash, transition_new-eq-ok}

abbrev correlation : Correlation
correlation = record {
  trace_id = "trace:1";
  agent_id = "agent:1";
  objective_id = "objective:1";
  generation_id = "generation:1";
}

abbrev stored : StateDb
stored = record {
  entities = [];
  transitions = [];
  evidence_refs =
      (
        "sha256:1",
        record {
          object_key = "1";
          size_bytes = 1;
          metadata = record {
            producer = "service:abi";
            subject = "agent:1";
            source_version = 1;
            retention_class = "standard";
            access_policy = "private";
            correlation = correlation;
          };
        },
      )
      ∷ [];
  projections = [];
}

abbrev request : Request
request = record {
  entity_id = record { kind = EntityKind.objective; value = "objective:1" };
  command_id = "command:1";
  actor = "service:runtime";
  expected_version = 0;
  new_state = proposed;
  evidence_id = "sha256:1";
  correlation = correlation;
  correction_of = none;
}

abbrev row : Transition
row = appended request "transition:1" 0 9

abbrev after : StateDb
after = record stored {
  entities = ("objective:1", upserted request none 9) ∷ [];
  transitions = row ∷ [];
}

transition_new-eq-ok_example :
    (entity_version (get "objective:1" stored.entities) ≡ 0)
    × (is_legal EntityKind.objective (entity_state (get "objective:1" stored.entities)) proposed
        ≡ true)
    × (is_some (get "sha256:1" stored.evidence_refs) ≡ true)
    × (row ≡ appended request "transition:1" 0 9)
    × (after.transitions ≡ stored.transitions ++ row ∷ [])
    × (entity_version (get "objective:1" after.entities) ≡ 0 + 1)
    × (entity_state (get "objective:1" after.entities) ≡ some proposed)
unfolding transition_new get put is_legal
transition_new-eq-ok_example = transition_new-eq-ok request "transition:1" 9 stored after row refl

transition_crash_example :
    (transition request "transition:1" 9 before_commit stored
      ≡ (err (runtime_error "before_commit"), stored))
    × (transition request "transition:1" 9 after_commit stored
        ≡ (err (runtime_error "after_commit"), after))
    × (transition request "transition:2" 11 no_crash after ≡ (ok row, after))
unfolding transition_new find_command get put is_legal
transition_crash_example =
    transition_crash request "transition:1" "transition:2" 9 11 stored after row refl refl

abbrev crashed_run : Reach stored ((transition request "transition:1" 9 after_commit stored).1)
crashed_run = next here (moved request "transition:1" 9 after_commit stored)

Reach-IsLogged_example : IsLogged ((transition request "transition:1" 9 after_commit stored).1)
Reach-IsLogged_example = Reach-IsLogged stored (refl, refl) crashed_run

Reach-IsExtension_example :
    IsExtension stored ((transition request "transition:1" 9 after_commit stored).1)
Reach-IsExtension_example = Reach-IsExtension stored crashed_run
