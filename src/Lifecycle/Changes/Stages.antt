-- ===== src/Lifecycle/Changes/Stages.antt =====
-- Theorems on the gates of `transition_governed_change`.

use mathlib.Core.Path.{subst}
use nix_ai.Lifecycle.Changes.{
  change_checks, is_evaluation, same_artifact, prior_observation, change_body, switch_generation,
  rebind, activatable, transition_governed_change, change_fingerprint, opt_eq_nat,
}
use nix_ai.Lifecycle.Transaction.{◌>>=◌, ◌>>◌, recorded}
use nix_ai.Prelude.{
  String, ◌≡◌, ok, true, ◌&&◌, not, false, ◌==◌, ◌||◌, arith, Option, ℕ, some, value_error, refl,
  unique_violation, any, beq, ◌++◌, ◌∷◌, [], sym, ◌+◌, eq_iff, none, beq→eq, Bool, ◌∙◌, not-false,
  if◌then◌else◌,
}
use nix_ai.Lifecycle.Db.{
  Candidate, ChangeState, Db, ActiveGeneration, ChangeRow, activated, evaluated, built,
}
use nix_ai.Json.{Json, is_true, get_field, py_eq, str, maybe_str}
use nix_ai.Lifecycle.Proposals.{
  legal_change, is_evaluated, is_measured, is_built, is_confirmed, update_candidate, insert_change,
}
use nix_ai.Table.{get}
use nix_ai.Lifecycle.Transaction.Inversion.{require_row-eq-ok, bind-eq-ok}
use nix_ai.Lifecycle.Transaction.Frames.{Keeps-ok, Keeps-recorded, Keeps-keyed_insert}
use nix_ai.Lifecycle.Transaction.Rules.{Keeps, Keeps-bind, once-fresh}

change_checks-eq-ok :
    (candidate_id : String) (c : Candidate) (new_state : ChangeState) (actor : String)
    (observation : Json) (db db' : Db) (u : Unit {0})
    → change_checks candidate_id c new_state actor observation db ≡ ok (u, db')
    → (legal_change c.state new_state ≡ true)
      × ((is_evaluated new_state && not (is_evaluation c actor observation)) ≡ false)
      × ((is_measured new_state
            && not (is_built new_state)
            && not (
                same_artifact observation
                  (prior_observation candidate_id c.state db.change_history)))
          ≡ false)
      × ((is_confirmed new_state
            && (actor == c.evaluator_generation
                || not (is_true (get_field "health_ready" observation))))
          ≡ false)
      × (db ≡ db')
unfolding change_checks ◌>>=◌
change_checks-eq-ok candidate_id c new_state actor observation db db' u h = ground arith

abbrev HasActive : Option ActiveGeneration → Db → Type 0
HasActive g db = db.active_generation ≡ g

update_candidate-HasActive :
    (candidate_id : String) (c : Candidate) (g : Option ActiveGeneration)
    → Keeps (HasActive g) (update_candidate candidate_id c)
unfolding update_candidate ◌>>=◌
update_candidate-HasActive candidate_id c g = record { at = λ db h. h }

insert_change-HasActive :
    (row : ChangeRow) (g : Option ActiveGeneration) → Keeps (HasActive g) (insert_change row)
unfolding insert_change
insert_change-HasActive row g =
    Keeps-keyed_insert
      (λ db.
        any (λ r. r.candidate_id == row.candidate_id && beq r.version row.version)
          db.change_history)
      (λ db. any (λ r. r.command_id == row.command_id) db.change_history)
      (unique_violation "change_history_pkey") (unique_violation "change_history_command_id_key")
      (λ db. record db { change_history = db.change_history ++ row ∷ [] }) (λ db h. h)

-- The writes behind the switch leave the active generation alone.
writes-HasActive :
    (candidate_id command_id fp : String) (c : Candidate) (row : ChangeRow) (r : Json)
    (g : Option ActiveGeneration)
    → Keeps
        (HasActive g)
        (update_candidate candidate_id c >> (insert_change row >> recorded command_id fp r))
writes-HasActive candidate_id command_id fp c row r g =
    Keeps-bind (update_candidate candidate_id c) _ (update_candidate-HasActive candidate_id c g)
      (λ _.
        Keeps-bind (insert_change row) _ (insert_change-HasActive row g)
          (λ _. Keeps-recorded command_id fp r (λ db rows h. h)))

-- The row of a candidate, its checks and its switch behind a transition that succeeded.
change_body-eq-ok :
    (candidate_id command_id : String) (new_state : ChangeState) (actor evidence_ref : String)
    (observation : Json) (fp : String) (db db' : Db) (r : Json)
    → change_body candidate_id command_id new_state actor evidence_ref observation fp db
      ≡ ok (r, db')
    → (c : Candidate) × (active : Option String × Option ℕ) × (d : Db) × (get candidate_id
          db.candidates
        ≡ some c)
      × (change_checks candidate_id c new_state actor observation db ≡ ok (tt, db))
      × (switch_generation candidate_id c new_state db ≡ ok (active, d))
      × (db'.active_generation ≡ d.active_generation)
unfolding change_body
change_body-eq-ok candidate_id command_id new_state actor evidence_ref observation fp db db' r h =
    let (c, found, h) =
      require_row-eq-ok {db = db} (get candidate_id db.candidates)
        (value_error "illegal governed-change transition") _ h in
    let (u, d, checked, h) =
      bind-eq-ok (change_checks candidate_id c new_state actor observation) _ db h in
    let (a, b, e, f, same) =
      change_checks-eq-ok candidate_id c new_state actor observation db d u checked in
    let (active, d', switched, h) = bind-eq-ok (switch_generation candidate_id c new_state) _ d h in
    (
      c,
      active,
      d',
      found,
      subst (λ x. change_checks candidate_id c new_state actor observation db ≡ ok (tt, x))
          (sym same) checked,
      subst (λ x. switch_generation candidate_id c new_state x ≡ ok (active, d')) (sym same)
          switched,
      Keeps-ok _ d' (writes-HasActive candidate_id command_id fp _ _ _ d'.active_generation) refl h,
    )

activatable-eq-some :
    (c : Candidate) (o : Option ActiveGeneration) (b : ActiveGeneration)
    → activatable c o ≡ some b
    → (o ≡ some b)
      × (b.active_generation ≡ c.rollback_generation)
      × (c.expected_active_version ≡ some b.version)
activatable-eq-some c none b h = cc
activatable-eq-some c (some a) b h = from c.expected_active_version h
  where
    from :
        (v : Option ℕ)
        → (if a.active_generation == c.rollback_generation && opt_eq_nat v a.version
            then some a
            else none)
          ≡ some b
        → (◌≡◌ {A = Option ActiveGeneration} (some a) (some b))
          × (b.active_generation ≡ c.rollback_generation)
          × (v ≡ some b.version)
    from none h = ground (arith, h)
    from (some n) h =
        ground (arith, h, eq_iff a.active_generation c.rollback_generation, beq→eq n a.version)

-- The binding of the active generation behind an activation of the candidate over `b`.
abbrev pub activated_over : String → Candidate → ActiveGeneration → ActiveGeneration
activated_over candidate_id c b = record {
  active_generation = c.target_generation;
  previous_generation = some b.active_generation;
  candidate_id = candidate_id;
  version = b.version + 1;
}

switch_activated-eq-ok :
    (candidate_id : String) (c : Candidate) (db d : Db) (active : Option String × Option ℕ)
    → switch_generation candidate_id c activated db ≡ ok (active, d)
    → (b : ActiveGeneration) × (activatable c db.active_generation ≡ some b)
      × (d.active_generation ≡ some (activated_over candidate_id c b))
unfolding switch_generation rebind
switch_activated-eq-ok candidate_id c db d active h =
    let (b, owned, h) =
      require_row-eq-ok {db = db} (activatable c db.active_generation)
        (value_error "active generation changed during staging") _ h in
    (b, owned, ground (arith, h))

before_evaluated : (s : ChangeState) → legal_change s evaluated ≡ true → s ≡ built
unfolding legal_change
before_evaluated s h = ground arith

evaluation :
    (c : Candidate) (actor : String) (observation : Json)
    → (true && not (is_evaluation c actor observation)) ≡ false
    → (actor ≡ c.evaluator_generation)
      × (py_eq (get_field "evaluator_closure" observation) (maybe_str c.evaluator_closure) ≡ true)
      × (py_eq (get_field "artifact_digest" observation) (str c.source_digest) ≡ true)
      × (is_true (get_field "passed" observation) ≡ true)
unfolding is_evaluation
evaluation c actor observation h =
    four (actor == c.evaluator_generation) _ _ _ (eq_iff actor c.evaluator_generation).0 h
  where
    four :
        {P : Type 0} (a b d e : Bool)
        → (a ≡ true → P)
        → not (a && (b && (d && e))) ≡ false
        → P × (b ≡ true) × (d ≡ true) × (e ≡ true)
    four a b d e p h = (p (ground arith), ground arith, ground arith, ground arith)

switch_evaluated :
    (candidate_id : String) (c : Candidate) (db d : Db) (active : Option String × Option ℕ)
    → switch_generation candidate_id c evaluated db ≡ ok (active, d)
    → db.active_generation ≡ d.active_generation
unfolding switch_generation ◌>>=◌
switch_evaluated candidate_id c db d active h = ground arith

-- A transition to `ACTIVATED` that succeeded as a new command found the candidate in a state from
-- which it is legal, the artifact that of the row of that state, and the active generation to be the one that the candidate rolls
-- back to, at the version that the candidate was proposed at; it leaves the candidate's generation
-- active, at the next version, with the other kept as the previous one.
pub transition_activated :
    (sha256 : String → String) (candidate_id command_id actor evidence_ref : String)
    (observation : Json) (db db' : Db) (r : Json)
    → get command_id db.commands ≡ none
    → transition_governed_change sha256 candidate_id command_id activated actor evidence_ref
        observation db
      ≡ ok (r, db')
    → (c : Candidate) × (b : ActiveGeneration) × (get candidate_id db.candidates ≡ some c)
      × (legal_change c.state activated ≡ true)
      × (same_artifact observation (prior_observation candidate_id c.state db.change_history)
          ≡ true)
      × (db.active_generation ≡ some b)
      × (b.active_generation ≡ c.rollback_generation)
      × (c.expected_active_version ≡ some b.version)
      × (db'.active_generation ≡ some (activated_over candidate_id c b))
unfolding transition_governed_change
transition_activated sha256 candidate_id command_id actor evidence_ref observation db db' r fresh
      h =
    let fp = change_fingerprint sha256 candidate_id activated actor evidence_ref observation in
    let body = change_body candidate_id command_id activated actor evidence_ref observation fp in
    let (c, active, d, found, checked, switched, kept) =
      change_body-eq-ok candidate_id command_id activated actor evidence_ref observation fp db db' r
        (sym (once-fresh command_id fp body db fresh) ∙ h) in
    let (legal, _, same, _, _) =
      change_checks-eq-ok candidate_id c activated actor observation db db tt checked in
    let (b, owned, rebound) = switch_activated-eq-ok candidate_id c db d active switched in
    let (bound, rolls_back, version) = activatable-eq-some c db.active_generation b owned in
    (c, b, found, legal, not-false _ same, bound, rolls_back, version, kept ∙ rebound)

-- A transition to `EVALUATED` that succeeded as a new command came from the protected evaluator on a
-- candidate that was built, over the proposed source and the candidate's closure, or no closure
-- where the candidate has none, with `passed` being `True`; it leaves the active generation.
pub transition_evaluated :
    (sha256 : String → String) (candidate_id command_id actor evidence_ref : String)
    (observation : Json) (db db' : Db) (r : Json)
    → get command_id db.commands ≡ none
    → transition_governed_change sha256 candidate_id command_id evaluated actor evidence_ref
        observation db
      ≡ ok (r, db')
    → (c : Candidate) × (get candidate_id db.candidates ≡ some c)
      × (c.state ≡ built)
      × (actor ≡ c.evaluator_generation)
      × (py_eq (get_field "evaluator_closure" observation) (maybe_str c.evaluator_closure) ≡ true)
      × (py_eq (get_field "artifact_digest" observation) (str c.source_digest) ≡ true)
      × (is_true (get_field "passed" observation) ≡ true)
      × (db'.active_generation ≡ db.active_generation)
unfolding transition_governed_change switch_generation
transition_evaluated sha256 candidate_id command_id actor evidence_ref observation db db' r fresh
      h =
    let fp = change_fingerprint sha256 candidate_id evaluated actor evidence_ref observation in
    let body = change_body candidate_id command_id evaluated actor evidence_ref observation fp in
    let (c, active, d, found, checked, switched, kept) =
      change_body-eq-ok candidate_id command_id evaluated actor evidence_ref observation fp db db' r
        (sym (once-fresh command_id fp body db fresh) ∙ h) in
    let (legal, right, _, _, _) =
      change_checks-eq-ok candidate_id c evaluated actor observation db db tt checked in
    let (who, closure, source, passed) = evaluation c actor observation right in
    (
      c,
      found,
      before_evaluated c.state legal,
      who,
      closure,
      source,
      passed,
      kept ∙ sym (switch_evaluated candidate_id c db d active switched),
    )
