-- ===== src/Ledger/Admissions.antt =====
-- Theorems on the evidence admissions of `PostgresRepository`.

use nix_ai.Ledger.{admitted, reserve_evidence, reserve_row, Admission, find_admission}
use nix_ai.Prelude.{
  ℕ, String, List, ◌++◌, ◌≤◌, Option, ◌≡◌, ◌∷◌, ok, [], Option-cases, none, if◌then◌else◌, ◌==◌,
  inl, ◌+◌, arith, eq_iff, refl, inr, eq_refl, some, reject_if-eq-ok, is_empty_text, ◌||◌,
  value_error,
}

admitted-append :
    (producer : String) (rows : List Admission) (a : Admission)
    → admitted producer (rows ++ a ∷ [])
      ≡ (if a.producer == producer then admitted producer rows + 1 else admitted producer rows)
unfolding admitted
admitted-append producer [] a = refl
admitted-append producer (r ∷ rows) a = ground (arith, admitted-append producer rows a)

-- No producer has more admissions than the quota.
abbrev pub IsWithin : ℕ → List Admission → Type 0
IsWithin quota rows = (producer : String) → admitted producer rows ≤ quota

-- A reservation keeps every producer's count of admissions within the quota.
pub reserve_evidence-IsWithin :
    (producer command_id content_digest : String) (quota : ℕ) (rows rows' : List Admission)
    (reference : Option String)
    → IsWithin quota rows
    → reserve_evidence producer command_id content_digest quota rows ≡ ok (reference, rows')
    → IsWithin quota rows'
unfolding reserve_evidence reserve_row
reserve_evidence-IsWithin producer command_id content_digest quota rows rows' reference h e p =
    elim (Option-cases (find_admission producer command_id rows)) [
      | inl new ↦
          let fresh : Admission = record {
            producer = producer;
            command_id = command_id;
            content_digest = content_digest;
            evidence_ref = none;
          } in
          ground (arith, h p, admitted-append p rows fresh, eq_iff producer p)
      | inr (row, found) ↦ ground (arith, h p)
    ]

find_admission-append :
    (producer command_id : String) (rows : List Admission) (a : Admission)
    → find_admission producer command_id rows ≡ none
    → find_admission producer command_id (rows ++ a ∷ [])
      ≡ find_admission producer command_id (a ∷ [])
unfolding find_admission
find_admission-append producer command_id [] a h = refl
find_admission-append producer command_id (x ∷ rows) a h =
    ground (arith, find_admission-append producer command_id rows a)

-- A reservation that is repeated with the same content has the same answer and adds nothing.
pub reserve_evidence_again :
    (producer command_id content_digest : String) (quota quota' : ℕ) (rows rows' : List Admission)
    (reference : Option String)
    → reserve_evidence producer command_id content_digest quota rows ≡ ok (reference, rows')
    → reserve_evidence producer command_id content_digest quota' rows' ≡ ok (reference, rows')
unfolding reserve_evidence reserve_row find_admission
reserve_evidence_again producer command_id content_digest quota quota' rows rows' reference e =
    elim (Option-cases (find_admission producer command_id rows)) [
      | inl new ↦
          let fresh : Admission = record {
            producer = producer;
            command_id = command_id;
            content_digest = content_digest;
            evidence_ref = none;
          } in
          ground (
            arith,
            new,
            find_admission-append producer command_id rows fresh,
            eq_refl producer,
            eq_refl command_id,
            eq_refl content_digest,
          )
      | inr (row, found) ↦ ground (arith, found)
    ]

-- A reservation that succeeded for a command with no row has no reference yet.
pub reserve_evidence-fresh :
    (producer command_id content_digest : String) (quota : ℕ) (rows rows' : List Admission)
    (reference : Option String)
    → find_admission producer command_id rows ≡ none
    → reserve_evidence producer command_id content_digest quota rows ≡ ok (reference, rows')
    → reference ≡ none
unfolding reserve_evidence reserve_row
reserve_evidence-fresh producer command_id content_digest quota rows rows' reference new h =
    ground (arith, new, h)

-- A row of the same content answers every reservation for its command.
pub reserve_evidence-found :
    (producer command_id content_digest : String) (quota quota' : ℕ)
    (rows rows' rows'' : List Admission) (reference : Option String) (row : Admission)
    → reserve_evidence producer command_id content_digest quota rows'' ≡ ok (reference, rows')
    → find_admission producer command_id rows ≡ some row
    → row.content_digest ≡ content_digest
    → reserve_evidence producer command_id content_digest quota' rows ≡ ok (row.evidence_ref, rows)
unfolding reserve_evidence reserve_row
reserve_evidence-found producer command_id content_digest quota quota' rows rows' rows'' reference
      row h found same =
    let (named, _) =
      reject_if-eq-ok
        (is_empty_text producer || (is_empty_text command_id || is_empty_text content_digest))
        (value_error "evidence admission identity is required") _ h in
    rw (named, found, same, eq_refl content_digest) refl
