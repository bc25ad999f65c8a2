-- ===== src/Verified/Operations/Origins.antt =====
-- Theorems on the evidence behind the operations of `PostgresRepository`.
use nix_ai.Verified.{EvidenceAuthority, item, text_item, payload_of, text}
use nix_ai.Lifecycle.Db.{Db, ChangeState, Candidate, ActiveGeneration, activated}
use nix_ai.Verified.Changes.{check_transition, change_evidence, read_transition}
use nix_ai.Verified.Operations.{transition_verified_change}
use nix_ai.Prelude.{String, ◌≡◌, ok, >>=-eq-ok, ◌∙◌, arith, ap, none, sym, some, true, ok_inj}
use nix_ai.Json.{Json, str}
use nix_ai.Protocol.Roles.{Service}
use nix_ai.Evidence.Bindings.{Binds, check_record-eq-ok}
use nix_ai.Protocol.ChangeRole.{evidence_operation}
use nix_ai.Protocol.Repository.{change_state}
use nix_ai.Lifecycle.Changes.{transition_governed_change, same_artifact, prior_observation}
use nix_ai.Table.{get}
use nix_ai.Lifecycle.Changes.Stages.{activated_over, transition_activated}
use mathlib.Core.Path.{subst}
use nix_ai.Lifecycle.Transaction.Inversion.{lift-eq-ok}

module _ (authority : EvidenceAuthority) where
  open authority use {verify_record, verify_record-check_record}

  -- What the check of a transition returns has the bindings of the request.
  check_transition-eq-ok :
      (request : Json) (principal : Service) {evidence : Json}
      → check_transition authority request principal ≡ ok evidence
      → (reference : Json) × (candidate : Json) × (source : Json) × (state : String) × (item
            "evidence_ref" request
          ≡ ok reference)
        × (verify_record
              (change_evidence candidate principal source
                (evidence_operation (change_state state))
                (str state))
              reference
            ≡ ok evidence)
        × (item "candidate_id" request ≡ ok candidate)
        × (item "evidence_source" request ≡ ok source)
        × (text_item "new_state" request ≡ ok state)
        × Binds
            (change_evidence candidate principal source
              (evidence_operation (change_state state))
              (str state))
            evidence
  unfolding check_transition
  check_transition-eq-ok request principal {evidence} h =
      let (reference, is_reference, h) = >>=-eq-ok (item "evidence_ref" request) _ h in
      let (candidate, is_candidate, h) = >>=-eq-ok (item "candidate_id" request) _ h in
      let (source, is_source, h) = >>=-eq-ok (item "evidence_source" request) _ h in
      let (state, is_state, h) = >>=-eq-ok (text_item "new_state" request) _ h in
      let expected =
        change_evidence candidate principal source (evidence_operation (change_state state))
          (str state) in
      (
        reference,
        candidate,
        source,
        state,
        is_reference,
        h,
        is_candidate,
        is_source,
        is_state,
        (check_record-eq-ok expected evidence evidence
            (verify_record-check_record expected reference h)).1,
      )

  -- A transition of a change that succeeded rests on a stored record that names its candidate, its
  -- principal as the producer, its source, its operation and its state, and hands the record's
  -- payload on as the observation.
  pub transition_verified_change-Binds :
      (sha256 : String → String) (request : Json) (principal : Service) (db db' : Db) (r : Json)
      → transition_verified_change authority sha256 request principal db ≡ ok (r, db')
      → (reference evidence observation candidate source : Json) × (state : String) × (q : String
          × String × ChangeState × String × String)
        × (item "evidence_ref" request ≡ ok reference)
        × (verify_record
              (change_evidence candidate principal source
                (evidence_operation (change_state state))
                (str state))
              reference
            ≡ ok evidence)
        × (item "candidate_id" request ≡ ok candidate)
        × (item "evidence_source" request ≡ ok source)
        × (text_item "new_state" request ≡ ok state)
        × Binds
            (change_evidence candidate principal source
              (evidence_operation (change_state state))
              (str state))
            evidence
        × (payload_of evidence ≡ ok observation)
        × (read_transition request ≡ ok q)
        × (transition_governed_change sha256 q.0 q.1 q.2 q.3 q.4 observation db ≡ ok (r, db'))
  unfolding transition_verified_change
  transition_verified_change-Binds sha256 request principal db db' r h =
      let (evidence, checked, h) =
        lift-eq-ok {db = db} (check_transition authority request principal) _ h in
      let (reference, candidate, source, state, ref, verified, a, b, c, bound) =
        check_transition-eq-ok request principal checked in
      let (observation, read, h) = lift-eq-ok {db = db} (payload_of evidence) _ h in
      let (q, is_q, h) = lift-eq-ok {db = db} (read_transition request) _ h in
      (
        reference, evidence, observation, candidate, source, state, q, ref, verified, a, b, c,
        bound, read, is_q, h,
      )

text-eq-ok : (j : Json) (s : String) → text j ≡ ok s → j ≡ str s
unfolding text
text-eq-ok (str t) s h = ground (arith, h)
text-eq-ok j s h = cc

-- A text item is the item of its key.
text_item-eq-ok :
    (key : String) (request : Json) (s : String)
    → text_item key request ≡ ok s
    → item key request ≡ ok (str s)
unfolding text_item
text_item-eq-ok key request s h =
    let (j, found, h) = >>=-eq-ok (item key request) _ h in
    found ∙ ap (λ x. ok x) (text-eq-ok j s h)

read_transition-eq-ok :
    (request : Json) (q : String × String × ChangeState × String × String)
    → read_transition request ≡ ok q
    → (text_item "candidate_id" request ≡ ok q.0)
      × (text_item "command_id" request ≡ ok q.1)
      × ((s : String) × (text_item "new_state" request ≡ ok s) × (q.2 ≡ change_state s))
unfolding read_transition
read_transition-eq-ok request q h =
    let (a, is_a, h) = >>=-eq-ok (text_item "candidate_id" request) _ h in
    let (b, is_b, h) = >>=-eq-ok (text_item "command_id" request) _ h in
    let (s, is_s, h) = >>=-eq-ok (text_item "new_state" request) _ h in
    let (actor, _, h) = >>=-eq-ok (text_item "actor" request) _ h in
    let (reference, _, h) = >>=-eq-ok (text_item "evidence_ref" request) _ h in
    let same = ok_inj h in
    (
      is_a ∙ ap (λ p. ok p.0) same,
      is_b ∙ ap (λ p. ok p.1) same,
      (s, is_s, sym (ap (λ p. p.2) same)),
    )

-- An activation of a change that succeeded as a new command rests on the record that the request's
-- `evidence_ref` refers to and that the evidence store verified: it is of the requesting service and
-- names the request's `evidence_source`, the candidate, the operation `change.activated` and the state, and
-- whose payload names the artifact of the candidate's earlier stage; the candidate's generation
-- takes the place of the one it rolls back to, at the version that the candidate was proposed at.
pub transition_verified_change-activated :
    (authority : EvidenceAuthority) (sha256 : String → String) (request : Json)
    (principal : Service) (command_id : String) (db db' : Db) (r : Json)
    → text_item "new_state" request ≡ ok "ACTIVATED"
    → text_item "command_id" request ≡ ok command_id
    → get command_id db.commands ≡ none
    → transition_verified_change authority sha256 request principal db ≡ ok (r, db')
    → (candidate_id : String) × (reference evidence observation source : Json) × (c : Candidate)
      × (b : ActiveGeneration) × (text_item "candidate_id" request ≡ ok candidate_id)
      × (get candidate_id db.candidates ≡ some c)
      × (item "evidence_ref" request ≡ ok reference)
      × (item "evidence_source" request ≡ ok source)
      × (authority.verify_record
            (change_evidence
              (str candidate_id)
              principal
              source
              "change.activated"
              (str "ACTIVATED"))
            reference
          ≡ ok evidence)
      × Binds
          (change_evidence (str candidate_id) principal source "change.activated" (str "ACTIVATED"))
          evidence
      × (payload_of evidence ≡ ok observation)
      × (same_artifact observation (prior_observation candidate_id c.state db.change_history)
          ≡ true)
      × (db.active_generation ≡ some b)
      × (b.active_generation ≡ c.rollback_generation)
      × (c.expected_active_version ≡ some b.version)
      × (db'.active_generation ≡ some (activated_over candidate_id c b))
unfolding change_state evidence_operation
transition_verified_change-activated authority sha256 request principal command_id db db' r is_state
      is_command fresh h =
    let (
      reference, evidence, observation, candidate, source, state, q, is_reference, verified,
      is_candidate, is_source, state_read, bound, read, reads, h,
    ) =
      transition_verified_change-Binds authority sha256 request principal db db' r h in
    let (candidate_read, command_read, (s, s_read, s_is)) = read_transition-eq-ok request q reads in
    let named : candidate ≡ str q.0 =
      ok_inj (sym is_candidate ∙ text_item-eq-ok "candidate_id" request q.0 candidate_read) in
    let state_is : state ≡ "ACTIVATED" = ok_inj (sym state_read ∙ is_state) in
    let new_is : q.2 ≡ activated = s_is ∙ ap change_state (ok_inj (sym s_read ∙ is_state)) in
    let command_is : q.1 ≡ command_id = ok_inj (sym command_read ∙ is_command) in
    let (c, b, found, _, same, bound', rolls, version, after) =
      transition_activated sha256 q.0 q.1 q.3 q.4 observation db db' r
        (ap (λ x. get x db.commands) command_is ∙ fresh)
        (subst
          (λ x. transition_governed_change sha256 q.0 q.1 x q.3 q.4 observation db ≡ ok (r, db'))
          new_is h) in
    (
      q.0,
      reference,
      evidence,
      observation,
      source,
      c,
      b,
      candidate_read,
      found,
      is_reference,
      is_source,
      subst
          (λ x.
            authority.verify_record
              (change_evidence (str q.0) principal source (evidence_operation (change_state x))
                (str x))
              reference
            ≡ ok evidence)
          state_is
          (subst
            (λ x.
              authority.verify_record
                (change_evidence x principal source (evidence_operation (change_state state))
                  (str state))
                reference
              ≡ ok evidence)
            named verified),
      subst
          (λ x.
            Binds
              (change_evidence (str q.0) principal source (evidence_operation (change_state x))
                (str x))
              evidence)
          state_is
          (subst
            (λ x.
              Binds
                (change_evidence x principal source (evidence_operation (change_state state))
                  (str state))
                evidence)
            named bound),
      read,
      same,
      bound',
      rolls,
      version,
      after,
    )
