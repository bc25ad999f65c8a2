-- ===== src/Store/History.antt =====
-- Theorems on `StateStore.transition`.

use nix_ai.Store.{
  find_command, is_same_command, transition_checks, transition_new, Request, appended, StateDb,
  Transition, Entity, entity_version, entity_state, is_kind, is_known, upserted, transition,
  transition_tx, after_commit, no_crash, before_commit,
}
use nix_ai.Prelude.{
  ◌>>◌, ℕ, String, beq, List, ◌≡◌, Option, true, none, arith, eq_refl, Bool, ok, ◌++◌, ◌∷◌, [],
  refl, reject_if-eq-ok, is_some, not, ◌+◌, beq→eq, some, false, >>=-eq-ok, Exception, any,
  reject_if, ◌==◌, unique_violation, conflict, foreign_key_violation, integrity_error, value_error,
  sym, ◌∙◌, ap, err, runtime_error, ok_pair, not-false,
}
use nix_ai.Domain.{kind_tag, state_tag, is_legal}
use nix_ai.Table.{get}
use nix_ai.Table.Laws.{get-put_self}

pub find_command-append :
    (command_id : String) (ts : List Transition) (t : Transition)
    → find_command command_id ts ≡ none
    → find_command command_id (ts ++ t ∷ []) ≡ find_command command_id (t ∷ [])
unfolding find_command
find_command-append command_id [] t h = refl
find_command-append command_id (x ∷ ts) t h = ground (arith, find_command-append command_id ts t)

beq_self : (n : ℕ) → beq n n ≡ true
beq_self n = ground arith

-- A row stands for the command that wrote it.
is_same_command-appended :
    (q : Request) (transition_id : String) (version occurred_at : ℕ)
    → is_same_command q (appended q transition_id version occurred_at) ≡ true
unfolding is_same_command
is_same_command-appended q transition_id version occurred_at =
    rw
      (
        eq_refl q.entity_id.value,
        beq_self (kind_tag q.entity_id.kind),
        eq_refl q.actor,
        beq_self (state_tag q.new_state),
        eq_refl q.evidence_id,
        eq_refl q.correlation.trace_id,
        eq_refl q.correlation.agent_id,
        eq_refl q.correlation.objective_id,
        eq_refl q.correlation.generation_id,
      )
      refl

transition_checks-eq-ok :
    (q : Request) (current : Option Entity) (has_evidence : Bool)
    → transition_checks q current has_evidence ≡ ok tt
    → (entity_version current ≡ q.expected_version)
      × (is_legal q.entity_id.kind (entity_state current) q.new_state ≡ true)
      × (has_evidence ≡ true)
unfolding transition_checks
transition_checks-eq-ok q current has_evidence h =
    let (a, _, c, d) =
      four_guards (not (beq (entity_version current) q.expected_version))
        (not (is_kind q.entity_id.kind current))
        (not (is_legal q.entity_id.kind (entity_state current) q.new_state)) (not has_evidence)
        (conflict "CONFLICT: stale expected version")
        (integrity_error "entity kind conflicts with authoritative identity")
        (value_error "illegal transition") (integrity_error "transition evidence does not exist")
        h in
    (
      beq→eq (entity_version current) q.expected_version
          (not-false (beq (entity_version current) q.expected_version) a),
      not-false (is_legal q.entity_id.kind (entity_state current) q.new_state) c,
      not-false has_evidence d,
    )
  where
    four_guards :
        (a b c d : Bool) (e f g i : Exception)
        → (reject_if a e >> (reject_if b f >> (reject_if c g >> reject_if d i))) ≡ ok tt
        → (a ≡ false) × (b ≡ false) × (c ≡ false) × (d ≡ false)
    four_guards a b c d e f g i h = (ground arith, ground arith, ground arith, ground arith)

-- A transition of a new command that succeeded was expected at the version that the entity had, is
-- legal from its state, and has evidence that is stored; it moves the entity to the next version and
-- the new state, and appends one row for it to the history.
pub transition_new-eq-ok :
    (q : Request) (transition_id : String) (occurred_at : ℕ) (db db' : StateDb) (t : Transition)
    → transition_new q transition_id occurred_at db ≡ ok (t, db')
    → (entity_version (get q.entity_id.value db.entities) ≡ q.expected_version)
      × (is_legal q.entity_id.kind (entity_state (get q.entity_id.value db.entities)) q.new_state
          ≡ true)
      × (is_some (get q.evidence_id db.evidence_refs) ≡ true)
      × (t ≡ appended q transition_id q.expected_version occurred_at)
      × (db'.transitions ≡ db.transitions ++ t ∷ [])
      × (entity_version (get q.entity_id.value db'.entities) ≡ q.expected_version + 1)
      × (entity_state (get q.entity_id.value db'.entities) ≡ some q.new_state)
unfolding transition_new
transition_new-eq-ok q transition_id occurred_at db db' t h =
    let row = get q.entity_id.value db.entities in
    let (_, checked, h) =
      >>=-eq-ok (transition_checks q row (is_some (get q.evidence_id db.evidence_refs))) _ h in
    let (version, legal, stored) =
      transition_checks-eq-ok q row (is_some (get q.evidence_id db.evidence_refs)) checked in
    let (_, h) =
      reject_if-eq-ok (any (λ t. t.transition_id == transition_id) db.transitions)
        (unique_violation "state_transitions_pkey") _ h in
    let (_, h) =
      reject_if-eq-ok (not (is_known transition_id q.correction_of db.transitions))
        (foreign_key_violation "state_transitions_correction_of_fkey") _ h in
    let (row_is, tables_are) = ok_pair h in
    (
      version,
      legal,
      stored,
      sym row_is ∙ ap (λ v. appended q transition_id v occurred_at) version,
      rw (sym tables_are, sym row_is) refl,
      rw (sym tables_are, get-put_self q.entity_id.value (upserted q row occurred_at) db.entities)
          (ap (λ v. v + 1) version),
      rw (sym tables_are, get-put_self q.entity_id.value (upserted q row occurred_at) db.entities)
          refl,
    )

find_command_self :
    (q : Request) (transition_id : String) (version occurred_at : ℕ)
    → find_command q.command_id (appended q transition_id version occurred_at ∷ [])
      ≡ some (appended q transition_id version occurred_at)
unfolding find_command
find_command_self q transition_id version occurred_at = rw (eq_refl q.command_id) refl

-- A crash before the commit leaves the tables as they were. A crash after it loses only the answer:
-- the same command sent again, with another identity and another clock, returns the row that was
-- written and writes nothing.
pub transition_crash :
    (q : Request) (transition_id transition_id' : String) (occurred_at occurred_at' : ℕ)
    (db db' : StateDb) (t : Transition)
    → find_command q.command_id db.transitions ≡ none
    → transition_new q transition_id occurred_at db ≡ ok (t, db')
    → (transition q transition_id occurred_at before_commit db
        ≡ (err (runtime_error "before_commit"), db))
      × (transition q transition_id occurred_at after_commit db
          ≡ (err (runtime_error "after_commit"), db'))
      × (transition q transition_id' occurred_at' no_crash db' ≡ (ok t, db'))
unfolding transition transition_tx
transition_crash q transition_id transition_id' occurred_at occurred_at' db db' t fresh h =
    let (_, _, _, row, rows, _, _) = transition_new-eq-ok q transition_id occurred_at db db' t h in
    let found : find_command q.command_id db'.transitions ≡ some t = rw rows (
      find_command-append q.command_id db.transitions t fresh
      ∙ rw row (find_command_self q transition_id q.expected_version occurred_at)) in
    let same : is_same_command q t ≡ true =
      rw row (is_same_command-appended q transition_id q.expected_version occurred_at) in
    (rw (fresh, h) refl, rw (fresh, h) refl, rw (found, same) refl)
