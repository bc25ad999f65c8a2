-- ===== src/Store.antt =====
-- src/habitat_state/store.py: the authoritative entities, their append-only history, evidence, the
-- projections and the restore of a backup.
mod Tests
pub mod History
pub mod Log
pub mod Runs
pub mod Restore
pub mod Bytes
use nix_ai.Domain.{
  EntityKind, EntityId, State, Correlation, EvidenceMetadata, is_legal, kind_eq, state_eq,
}
use nix_ai.Prelude.{
  String, ℕ, Bool, Option, List, ◌==◌, true, ◌+◌, Result, some, none, ◌&&◌, any, if◌then◌else◌,
  is_some, ◌>>◌, err, ◌∷◌, ◌||◌, reject_if, ok, ltb, ◌-◌, not, unique_violation, integrity_error,
  runtime_error, value_error, [], beq, foreign_key_violation, false, conflict, ◌++◌,
  permission_error,
}
use nix_ai.Table.{Table, get, put}

-- A row of `state_transitions`. `occurred_at` is the moment in UTC.
pub record Transition : Type 0 where
  pub transition_id : String
  pub entity_id : EntityId
  pub command_id : String
  pub actor : String
  pub previous_version : ℕ
  pub new_version : ℕ
  pub new_state : State
  pub evidence_id : String
  pub correlation : Correlation
  pub occurred_at : ℕ
  pub correction_of : Option String

-- A row of `authoritative_entities`.
pub record Entity : Type 0 where
  pub kind : EntityKind
  pub version : ℕ
  pub state : State
  pub updated_at : ℕ

-- A row of `evidence_refs`.
pub record EvidenceRef : Type 0 where
  pub object_key : String
  pub size_bytes : ℕ
  pub metadata : EvidenceMetadata

-- A row of `projection_status`.
pub record Projection : Type 0 where
  pub source_version : ℕ
  pub projected_version : ℕ

-- The tables, and the objects of the bucket.
pub record StateDb : Type 0 where
  pub entities : Table Entity
  pub transitions : List Transition
  pub evidence_refs : Table EvidenceRef
  pub projections : Table Projection

-- Where a crash is injected.
pub data Crash : Type 0 where
  no_crash before_commit after_commit : Crash

-- SELECT * FROM state_transitions WHERE command_id=…
unfoldable pub find_command : String → List Transition → Option Transition
find_command command_id [] = none
find_command command_id (t ∷ ts) =
    if t.command_id == command_id then some t else find_command command_id ts

abbrev correlation_eq : Correlation → Correlation → Bool
correlation_eq a b =
    a.trace_id == b.trace_id
    && (a.agent_id == b.agent_id
        && (a.objective_id == b.objective_id && a.generation_id == b.generation_id))

-- The arguments of `transition` that are compared with a recorded command.
pub record Request : Type 0 where
  pub entity_id : EntityId
  pub command_id : String
  pub actor : String
  pub expected_version : ℕ
  pub new_state : State
  pub evidence_id : String
  pub correlation : Correlation
  pub correction_of : Option String

-- `requested == recorded`; neither the expected version nor the correction is compared.
unfoldable pub is_same_command : Request → Transition → Bool
is_same_command q t =
    q.entity_id.value == t.entity_id.value
    && (kind_eq q.entity_id.kind t.entity_id.kind
        && (q.actor == t.actor
            && (state_eq q.new_state t.new_state
                && (q.evidence_id == t.evidence_id && correlation_eq q.correlation t.correlation))))

abbrev pub entity_version : Option Entity → ℕ
entity_version none = 0
entity_version (some e) = e.version

abbrev pub entity_state : Option Entity → Option State
entity_state none = none
entity_state (some e) = some e.state

abbrev pub is_kind : EntityKind → Option Entity → Bool
is_kind kind none = true
is_kind kind (some e) = kind_eq e.kind kind

abbrev pub is_known : String → Option String → List Transition → Bool
is_known own none ts = true
is_known own (some i) ts = any (λ t. t.transition_id == i) ts || own == i

-- The row that a request appends at `version`; the identity comes from `uuid.uuid4()`.
abbrev pub appended : Request → String → ℕ → ℕ → Transition
appended q transition_id version occurred_at = record {
  transition_id = transition_id;
  entity_id = q.entity_id;
  command_id = q.command_id;
  actor = q.actor;
  previous_version = version;
  new_version = version + 1;
  new_state = q.new_state;
  evidence_id = q.evidence_id;
  correlation = q.correlation;
  occurred_at = occurred_at;
  correction_of = q.correction_of;
}

-- INSERT INTO authoritative_entities … ON CONFLICT DO UPDATE keeps the kind of a row that is there.
abbrev pub upserted : Request → Option Entity → ℕ → Entity
upserted q current occurred_at = record {
  kind = elim current [ none ↦ q.entity_id.kind | some e ↦ e.kind ];
  version = entity_version current + 1;
  state = q.new_state;
  updated_at = occurred_at;
}

-- The checks on a command that is new, in the code's order.
unfoldable pub transition_checks : Request → Option Entity → Bool → Result (Unit {0})
transition_checks q current has_evidence = do
  reject_if (not (beq (entity_version current) q.expected_version))
      (conflict "CONFLICT: stale expected version")
  reject_if (not (is_kind q.entity_id.kind current))
      (integrity_error "entity kind conflicts with authoritative identity")
  reject_if (not (is_legal q.entity_id.kind (entity_state current) q.new_state))
      (value_error "illegal transition")
  reject_if (not has_evidence) (integrity_error "transition evidence does not exist")

-- A command that is new: the checks, the keys of the inserted row, and the two writes.
unfoldable pub transition_new : Request → String → ℕ → StateDb → Result (Transition × StateDb)
unfolding transition_checks
transition_new q transition_id occurred_at db =
    let current = get q.entity_id.value db.entities in
    let row = appended q transition_id (entity_version current) occurred_at in
    do
      transition_checks q current (is_some (get q.evidence_id db.evidence_refs))
      reject_if (any (λ t. t.transition_id == transition_id) db.transitions)
          (unique_violation "state_transitions_pkey")
      reject_if (not (is_known transition_id q.correction_of db.transitions))
          (foreign_key_violation "state_transitions_correction_of_fkey")
      ok (
        row,
        record db {
          entities = put q.entity_id.value (upserted q current occurred_at) db.entities;
          transitions = db.transitions ++ row ∷ [];
        },
      )

-- The part of `transition` inside its transaction.
unfoldable pub transition_tx :
    Request → String → ℕ → Option Transition → StateDb → Result (Transition × StateDb)
unfolding transition_new is_same_command
transition_tx q transition_id occurred_at (some existing) db =
    if is_same_command q existing
    then ok (existing, db)
    else err (integrity_error "idempotency key reused for a different command")
transition_tx q transition_id occurred_at none db = transition_new q transition_id occurred_at db

-- A crash before the commit loses the writes, one after it loses only the answer.
abbrev pub crashed :
    Crash → Bool → StateDb → Result (Transition × StateDb) → Result Transition × StateDb
crashed crash replayed db (err e) = (err e, db)
crashed no_crash replayed db (ok (t, db')) = (ok t, db')
crashed before_commit true db (ok (t, db')) = (ok t, db')
crashed before_commit false db (ok (t, db')) = (err (runtime_error "before_commit"), db)
crashed after_commit true db (ok (t, db')) = (ok t, db')
crashed after_commit false db (ok (t, db')) = (err (runtime_error "after_commit"), db')

-- `StateStore.transition`
unfoldable pub transition : Request → String → ℕ → Crash → StateDb → Result Transition × StateDb
unfolding transition_tx find_command
transition q transition_id occurred_at crash db =
    let existing = find_command q.command_id db.transitions in
    crashed crash (is_some existing) db (transition_tx q transition_id occurred_at existing db)

-- `StateStore.current`
pub current : EntityId → StateDb → Option Entity
current e db = get e.value db.entities

-- `StateStore.report_projection`
unfoldable pub report_projection : String → ℕ → ℕ → StateDb → Result StateDb
report_projection name source_version projected_version db =
    if ltb source_version projected_version
    then err (value_error "projection cannot be ahead of authoritative state")
    else ok (record db {
      projections =
          put name
            (record { source_version = source_version; projected_version = projected_version })
            db.projections;
    })

-- The tables of `StateStore.reset_for_test`; only a store with the authority for it empties them.
unfoldable pub reset_for_test : Bool → StateDb → Result StateDb
reset_for_test false db = err (permission_error "test reset authority was not granted")
reset_for_test true db =
    ok (record { entities = []; transitions = []; evidence_refs = []; projections = [] })

-- The lag that `StateStore.projection_status` reports.
unfoldable pub projection_lag : String → StateDb → Option ℕ
projection_lag name db = elim (get name db.projections) [
  | none ↦ none
  | some p ↦ some (p.source_version - p.projected_version)
]
