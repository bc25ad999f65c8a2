-- ===== src/Evidence/Envelopes/Replays.antt =====
-- Theorems on `put_envelope`.
use nix_ai.Ledger.{finalized, find_admission, Admission, finalize_evidence, reserve_evidence}
use nix_ai.Prelude.{
  none, String, List, ◌≡◌, some, ◌∷◌, Bool-cases, ◌==◌, ◌&&◌, inl, inr, Option-cases, [], refl,
  arith, ap, eq_iff, ℕ, Result, ok, err, Option, >>=-eq-ok, reject_if-eq-ok, not, ledger_corrupt,
  ◌∙◌, not-false, sym, ok_inj, value_error, ok_pair, is_empty_text, false, Bool, if◌then◌else◌,
  true,
}
use nix_ai.Evidence.Objects.{Client, content_of}
use nix_ai.Evidence.Envelopes.{
  finish, stored_answer, closing, read_answer, reserved, put_envelope, put_object,
}
use nix_ai.Json.{Json, str}
use nix_ai.Evidence.{verify, envelope_checks}
use mathlib.Core.Path.{subst}
use nix_ai.Json.Dumps.{dumps, canonical_style}
use nix_ai.Ledger.Admissions.{reserve_evidence-fresh, reserve_evidence-found}

-- A finalised admission is found with its reference.
finalized-find_admission :
    (producer command_id digest reference : String) (rows rows' : List Admission)
    → finalized producer command_id digest reference rows ≡ some rows'
    → (row : Admission) × (find_admission producer command_id rows' ≡ some row)
      × (row.content_digest ≡ digest)
      × (row.evidence_ref ≡ some reference)
unfolding finalized find_admission
finalized-find_admission producer command_id digest reference [] rows' h = cc
finalized-find_admission producer command_id digest reference (a ∷ more) rows' h =
    elim (Bool-cases (a.producer == producer && a.command_id == command_id)) [
      | inl here ↦ (
        record a { evidence_ref = some reference },
        ground (arith, h, here),
        ground (arith, h, here, eq_iff a.content_digest digest),
        refl,
      )
      | inr other ↦ elim (Option-cases (finalized producer command_id digest reference more)) [
        | inl nothing ↦ absurd (ground (arith, h, other, nothing))
        | inr (more', found) ↦
            let (row, is_found, same, is) =
              finalized-find_admission producer command_id digest reference more more' found in
            (row, ground (arith, h, other, found, is_found), same, is)
      ]
    ]

triple :
    {A B C : Type 0} {a a' : A} {b b' : B} {c c' : C}
    → ◌≡◌ {A = A × B × C} (a, b, c) (a', b', c')
    → (a ≡ a') × (b ≡ b') × (c ≡ c')
triple h = (ap (λ t. t.0) h, ap (λ t. t.1) h, ap (λ t. t.2) h)

module _ {B : Type 0} (client : Client B) (byte_len : String → ℕ) (sha256 : String → String)
    (bucket : String) where
  closing-eq-ok :
      (r : Result (String × List Admission)) (put_answer : Result Json)
      (rows rows' : List Admission) (objects objects' : B) (answer : Json)
      → closing client byte_len sha256 bucket r put_answer rows objects
        ≡ (ok answer, rows', objects')
      → (reference : String) × (r ≡ ok (reference, rows'))
        × (put_answer ≡ ok answer)
        × (objects ≡ objects')
  unfolding closing
  closing-eq-ok (err e) put_answer rows rows' objects objects' answer h =
      absurd (ground (arith, (triple h).0))
  closing-eq-ok (ok (reference, rows'')) put_answer rows rows' objects objects' answer h =
      let (a, b, c) = triple h in (reference, ap (λ x. ok (reference, x)) b, a, c)

  finalize_evidence-eq-ok :
      (principal command_id digest reference stored : String) (rows rows' : List Admission)
      → finalize_evidence principal command_id digest reference rows ≡ ok (stored, rows')
      → finalized principal command_id digest reference rows ≡ some rows'
  unfolding finalize_evidence
  finalize_evidence-eq-ok principal command_id digest reference stored rows rows' h =
      from (finalized principal command_id digest reference rows) h
    where
      from :
          (o : Option (List Admission))
          → ◌≡◌ {A = Result (String × List Admission)}
              (elim o as (λ _. Result (String × List Admission)) [
                | none ↦ err (value_error "CONFLICT: evidence admission changed")
                | some rows' ↦ ok (reference, rows')
              ])
              (ok (stored, rows'))
          → o ≡ some rows'
      from none h = cc
      from (some r) h = ap some (ok_pair h).1

  read_answer-eq-ok :
      (content reference : String) (objects : B) (answer : Json)
      → read_answer client byte_len sha256 bucket content objects reference ≡ ok answer
      → (verify sha256 bucket (content_of client byte_len objects) (str reference) ≡ ok content)
        × (answer ≡ stored_answer reference)
  unfolding read_answer
  read_answer-eq-ok content reference objects answer h =
      let (stored, is_stored, h) =
        >>=-eq-ok (verify sha256 bucket (content_of client byte_len objects) (str reference)) _ h in
      let (same, h) =
        reject_if-eq-ok (not (stored == content))
          (ledger_corrupt "evidence read-back differs from canonical envelope") _ h in
      (is_stored ∙ ap (λ x. ok x) ((eq_iff stored content).0 (not-false _ same)), sym (ok_inj h))

  finish-eq-ok :
      (principal command_id digest content : String) (rows rows' : List Admission)
      (objects objects' : B) (put_result : Result String) (answer : Json)
      → finish client byte_len sha256 bucket principal command_id digest content rows objects
          put_result
        ≡ (ok answer, rows', objects')
      → (reference : String) × (answer ≡ stored_answer reference)
        × (finalized principal command_id digest reference rows ≡ some rows')
        × (verify sha256 bucket (content_of client byte_len objects') (str reference) ≡ ok content)
  unfolding finish
  finish-eq-ok principal command_id digest content rows rows' objects objects' (err e) answer h =
      absurd (ground (arith, (triple h).0))
  finish-eq-ok principal command_id digest content rows rows' objects objects' (ok reference) answer
        h =
      let (stored, closed, read, same) =
        closing-eq-ok (finalize_evidence principal command_id digest reference rows)
          (read_answer client byte_len sha256 bucket content objects reference) rows rows' objects
          objects' answer h in
      let (verified, is) = read_answer-eq-ok content reference objects answer read in
      (
        reference,
        is,
        finalize_evidence-eq-ok principal command_id digest reference stored rows rows' closed,
        subst
            (λ x. verify sha256 bucket (content_of client byte_len x) (str reference) ≡ ok content)
            same verified,
      )

  -- A reservation that the answer came behind.
  reserved-eq-ok :
      (envelope : Json) (principal command_id : String)
      (r : Result (Option String × List Admission)) (rows rows' : List Admission)
      (objects objects' : B) (answer : Json)
      → reserved client byte_len sha256 bucket envelope principal command_id r rows objects
        ≡ (ok answer, rows', objects')
      → (o : Option String) × (rows₁ : List Admission) × (r ≡ ok (o, rows₁))
  unfolding reserved
  reserved-eq-ok envelope principal command_id (err e) rows rows' objects objects' answer h =
      absurd (ground (arith, (triple h).0))
  reserved-eq-ok envelope principal command_id (ok (o, rows₁)) rows rows' objects objects' answer
        h =
      (o, rows₁, refl)

  -- What `put_envelope` passed on its way to an answer.
  put_envelope-eq-ok :
      (envelope : Json) (principal command_id : String) (quota : ℕ) (rows rows' : List Admission)
      (objects objects' : B) (answer : Json)
      → put_envelope client byte_len sha256 bucket envelope principal command_id quota rows objects
        ≡ (ok answer, rows', objects')
      → (envelope_checks envelope principal ≡ ok tt)
        × (is_empty_text command_id ≡ false)
        × (reserved client byte_len sha256 bucket envelope principal command_id
              (reserve_evidence principal command_id
                (sha256 (dumps canonical_style envelope))
                quota
                rows)
              rows
              objects
            ≡ (ok answer, rows', objects'))
  unfolding put_envelope
  put_envelope-eq-ok envelope principal command_id quota rows rows' objects objects' answer h =
      from (envelope_checks envelope principal) (is_empty_text command_id) h
    where
      from :
          (checked : Result (Unit {0})) (b : Bool) {t : Result Json × List Admission × B}
          → (elim checked as (λ _. Result Json × List Admission × B) [
            | err e ↦ (err e, rows, objects)
            | ok _ ↦
                if b
                then (err (ledger_corrupt "evidence command identity is required"), rows, objects)
                else t
          ])
            ≡ (ok answer, rows', objects')
          → (checked ≡ ok tt) × (b ≡ false) × (t ≡ (ok answer, rows', objects'))
      from (err e) b h = absurd (ground (arith, (triple h).0))
      from (ok _) true h = absurd (ground (arith, (triple h).0))
      from (ok _) false h = (refl, refl, h)

  put_again :
      (envelope : Json) (principal command_id : String) (quota : ℕ) (rows : List Admission)
      (objects : B) (answer : Json) (reference : String)
      → reserve_evidence principal command_id (sha256 (dumps canonical_style envelope)) quota rows
        ≡ ok (some reference, rows)
      → envelope_checks envelope principal ≡ ok tt
      → is_empty_text command_id ≡ false
      → answer ≡ stored_answer reference
      → put_envelope client byte_len sha256 bucket envelope principal command_id quota rows objects
        ≡ (ok answer, rows, objects)
  unfolding put_envelope reserved
  put_again envelope principal command_id quota rows objects answer reference reserves checked named
        is =
      stepped (envelope_checks envelope principal) (is_empty_text command_id) _ checked named (
        ap
          (λ x. reserved client byte_len sha256 bucket envelope principal command_id x rows objects)
          reserves
        ∙ ap (λ x. (ok x, rows, objects)) (sym is))
    where
      stepped :
          (checked : Result (Unit {0})) (b : Bool) (t : Result Json × List Admission × B)
          → checked ≡ ok tt
          → b ≡ false
          → t ≡ (ok answer, rows, objects)
          → (elim checked as (λ _. Result Json × List Admission × B) [
            | err e ↦ (err e, rows, objects)
            | ok _ ↦
                if b
                then (err (ledger_corrupt "evidence command identity is required"), rows, objects)
                else t
          ])
            ≡ (ok answer, rows, objects)
      stepped checked b t c d e = rw (c, d, e) refl

  -- An envelope that was put for a command with no admission is read back as it was written, from
  -- the reference of the answer; and the same envelope put again for the command, at whatever quota,
  -- has the same answer and writes nothing.
  pub put_envelope-verify :
      (envelope : Json) (principal command_id : String) (quota : ℕ) (rows rows' : List Admission)
      (objects objects' : B) (answer : Json)
      → find_admission principal command_id rows ≡ none
      → put_envelope client byte_len sha256 bucket envelope principal command_id quota rows objects
        ≡ (ok answer, rows', objects')
      → (reference : String) × (answer ≡ stored_answer reference)
        × (verify sha256 bucket (content_of client byte_len objects') (str reference)
            ≡ ok (dumps canonical_style envelope))
        × ((quota' : ℕ)
            → put_envelope client byte_len sha256 bucket envelope principal command_id quota' rows'
                objects'
              ≡ (ok answer, rows', objects'))
  unfolding reserved finish
  put_envelope-verify envelope principal command_id quota rows rows' objects objects' answer new h =
      let content = dumps canonical_style envelope in
      let (checked, named, h) =
        put_envelope-eq-ok envelope principal command_id quota rows rows' objects objects' answer
          h in
      let (o, rows₁, reserves) =
        reserved-eq-ok envelope principal command_id
          (reserve_evidence principal command_id (sha256 content) quota rows) rows rows' objects
          objects' answer h in
      let nothing =
        reserve_evidence-fresh principal command_id (sha256 content) quota rows rows₁ o new
          reserves in
      let sent = put_object client byte_len sha256 bucket envelope objects in
      let (reference, is, finalised, read) =
        finish-eq-ok principal command_id (sha256 content) content rows₁ rows' sent.1 objects'
          sent.0 answer
          (subst
            (λ x.
              reserved client byte_len sha256 bucket envelope principal command_id x rows objects
              ≡ (ok answer, rows', objects'))
            (reserves ∙ ap (λ x. ok (x, rows₁)) nothing) h) in
      let (row, found, same, has) =
        finalized-find_admission principal command_id (sha256 content) reference rows₁ rows'
          finalised in
      (
        reference,
        is,
        read,
        λ quota'.
            put_again envelope principal command_id quota' rows' objects' answer reference
              (reserve_evidence-found principal command_id (sha256 content) quota quota' rows' rows₁
                  rows o row reserves found same
                ∙ ap (λ x. ok (x, rows')) has)
              checked named is,
      )
