-- ===== src/Evidence/Bindings.antt =====
-- What a record binds that passed the checks of `verify_record`.
use nix_ai.Json.{get_field, Json, Fields, py_eq, field_of, obj, null}
use nix_ai.Evidence.{
  Expected, check_record, disposition_of, check_disposition, matches, verify_record, verify,
}
use nix_ai.Prelude.{
  Bool, not, Option, ◌&&◌, ◌≡◌, true, false, ok, some, arith, none, reject_if-eq-ok, ap,
  ledger_corrupt, sym, >>=-eq-ok, refl, not-false, String, Result, ◌>>=◌, expect_some, ◌∙◌,
}
use mathlib.Core.Path.{subst}

-- The payload names the disposition that was asked for.
unfoldable pub HasDisposition : Json → Option Json → Type 0
unfolding get_field
HasDisposition r none = Unit
HasDisposition r (some d) = py_eq (get_field "disposition" (get_field "payload" r)) d ≡ true

-- The bindings of a record.
unfoldable pub Binds : Expected → Json → Type 0
Binds e r =
    (py_eq (get_field "subject" r) e.subject ≡ true)
    × (py_eq (get_field "producer" r) e.producer ≡ true)
    × (py_eq (get_field "source" r) e.source ≡ true)
    × (matches (get_field "operation" r) e.operation ≡ true)
    × HasDisposition r e.disposition

four :
    (a b c d : Bool)
    → not (a && (b && (c && d))) ≡ false
    → (a ≡ true) × (b ≡ true) × (c ≡ true) × (d ≡ true)
four a b c d h = (ground arith, ground arith, ground arith, ground arith)

payload_is :
    (fs : Fields) (o : Option Json)
    → field_of "payload" fs ≡ o
    → get_field "payload" (obj fs) ≡ elim o [ none ↦ null | some v ↦ v ]
unfolding get_field
payload_is fs o e = ap (λ x. elim x as (λ _. Json) [ none ↦ null | some v ↦ v ]) e

-- The disposition of the payload, where it could be read.
disposition_is :
    (o : Option Json) {found : Json}
    → disposition_of o ≡ ok found
    → get_field "disposition" (elim o [ none ↦ null | some v ↦ v ]) ≡ found
unfolding disposition_of get_field
disposition_is none h = ground arith
disposition_is (some (obj p)) h = ground (arith, h)
disposition_is (some x) h = cc

check_disposition-eq-ok :
    (d : Option Json) (fs : Fields) (o : Option Json) (r : Json)
    → field_of "payload" fs ≡ o
    → check_disposition d (obj fs) o ≡ ok r
    → (r ≡ obj fs) × HasDisposition (obj fs) d
unfolding check_disposition HasDisposition
check_disposition-eq-ok none fs o r e h = (ground arith, tt)
check_disposition-eq-ok (some d) fs o r e h =
    let (found, disposed, h) = >>=-eq-ok (disposition_of o) _ h in
    let (same, h) =
      reject_if-eq-ok (not (py_eq found d)) (ledger_corrupt "evidence disposition mismatch") _ h in
    (ground (arith, h), from o e disposed (not-false _ same))
  where
    from :
        {found : Json} (o : Option Json)
        → field_of "payload" fs ≡ o
        → disposition_of o ≡ ok found
        → py_eq found d ≡ true
        → py_eq (get_field "disposition" (get_field "payload" (obj fs))) d ≡ true
    from {found} o e disposed same =
        subst (λ x. py_eq (get_field "disposition" x) d ≡ true) (sym (payload_is fs o e))
          (subst (λ x. py_eq x d ≡ true) (sym (disposition_is o disposed)) same)

-- A record that the checks let through is the one that was read, and has the bindings.
pub check_record-eq-ok :
    (e : Expected) (value r : Json) → check_record e value ≡ ok r → (r ≡ value) × Binds e r
unfolding check_record Binds
check_record-eq-ok e (obj fs) r h =
    let value = obj fs in
    let (bound, h) =
      reject_if-eq-ok
        (not (
          py_eq (get_field "subject" value) e.subject
          && (py_eq (get_field "producer" value) e.producer
              && (py_eq (get_field "source" value) e.source
                  && matches (get_field "operation" value) e.operation))))
        (ledger_corrupt "evidence binding mismatch") _ h in
    let (same, disposed) = check_disposition-eq-ok e.disposition fs _ r refl h in
    let (a, b, c, d) = four _ _ _ _ bound in
    (same, subst (λ x. Binds e x) (sym same) (a, b, c, d, disposed))
check_record-eq-ok e value r h = cc

-- A stored text that is read back and loaded is checked as the value that it was loaded to.
pub verify_record-loaded :
    (sha256 : String → String) (bucket : String) (get_content : String → Result String)
    (json_loads : String → Option Json) (e : Expected) (reference : Json) (raw : String)
    (value : Json)
    → verify sha256 bucket get_content reference ≡ ok raw
    → json_loads raw ≡ some value
    → verify_record sha256 bucket get_content json_loads e reference ≡ check_record e value
unfolding verify_record
verify_record-loaded sha256 bucket get_content json_loads e reference raw value is loads =
    ap
      (λ x. x >>= λ raw.
        (expect_some (json_loads raw) (ledger_corrupt "evidence is not JSON") >>= check_record e))
      is
    ∙ ap (λ x. expect_some x (ledger_corrupt "evidence is not JSON") >>= check_record e) loads
