-- ===== src/Evidence.antt =====
-- `EvidenceStore` of src/habitat_state/evidence.py: the canonical envelopes that a service may
-- store, and the reading of what is stored under its digest.
pub mod Bindings
pub mod Objects
pub mod Envelopes
pub mod Examples
use nix_ai.Prelude.{
  String, List, Option, if◌then◌else◌, Bool, ◌∷◌, Result, ◌==◌, false, [], not, true, ok,
  text_append, ◌>>◌, ◌>>=◌, some, starts_with, all_text, reject_if, expect_some, none, ◌||◌, beq,
  ◌&&◌, ledger_corrupt, err, drop_text, ltb, runtime_error, text_len, is_canonical_digest,
  is_lower_hex, ledger_unavailable,
}
use nix_ai.Json.{
  Json, str, obj, null, has_exactly, py_eq, get_field, is_nonempty_str, field_of, is_dict,
}
use nix_ai.Json.Dumps.{dumps, canonical_style}

-- The dict `families`: the operations and the sources that a producer may name.
unfoldable pub families : String → Option (List String × List String)
families p =
    if p == "service:state"
    then some ("activation." ∷ [], "sha256:" ∷ [])
    else if p == "service:authority"
    then some ("authority." ∷ [], "sha256:" ∷ [])
    else if p == "service:effects"
    then some ("effect." ∷ [], "provider://" ∷ "sha256:" ∷ [])
    else if p == "service:runtime"
    then some ("change." ∷ "package." ∷ [], "sha256:" ∷ "generation:" ∷ [])
    else if p == "service:abi"
    then some ("command." ∷ [], "sha256:" ∷ [])
    else if p == "service:controller"
    then some ("change." ∷ "package." ∷ [], "sha256:" ∷ "generation:" ∷ [])
    else if p == "service:packages"
    then some ("package." ∷ "capability-set." ∷ [], "sha256:" ∷ "generation:" ∷ [])
    else if p == "service:evaluator"
    then some ("change." ∷ [], "sha256:" ∷ [])
    else if p == "service:signer"
    then some ("change." ∷ [], "sha256:" ∷ [])
    else if p == "service:health"
    then some ("change." ∷ [], "sha256:" ∷ "generation:" ∷ [])
    else none

-- `text.startswith(prefixes)`
unfoldable pub starts_any : List String → String → Bool
starts_any [] s = false
starts_any (p ∷ ps) s = starts_with s p || starts_any ps s

envelope_keys : List String
envelope_keys = "schema_version" ∷ "producer" ∷ "subject" ∷ "operation" ∷ "source" ∷ "payload" ∷ []

-- `":" in text`
abbrev has_colon : String → Bool
has_colon s = not (all_text (λ c. not (beq c b':')) s)

abbrev text_of : Json → String
text_of (str s) = s
text_of _ = ""

unfoldable pub is_allowed : Option (List String × List String) → String → String → Bool
unfolding starts_any
is_allowed none operation source = false
is_allowed (some (operations, sources)) operation source =
    starts_any operations operation && starts_any sources source

-- The checks of `put_envelope`, in the code's order.
unfoldable pub envelope_checks : Json → String → Result (Unit {0})
unfolding families is_allowed envelope_keys
envelope_checks envelope principal = do
  reject_if (not (has_exactly envelope_keys envelope))
      (ledger_corrupt "evidence envelope fields are not canonical")
  reject_if
      (not (
        py_eq (get_field "schema_version" envelope) (str "1")
        && py_eq (get_field "producer" envelope) (str principal)))
      (ledger_corrupt "evidence producer is not the authenticated service")
  reject_if
      (not (
        is_nonempty_str (get_field "subject" envelope)
        && (is_nonempty_str (get_field "operation" envelope)
            && is_nonempty_str (get_field "source" envelope))))
      (ledger_corrupt "evidence identity fields are required")
  let subject = text_of (get_field "subject" envelope)
  let source = text_of (get_field "source" envelope)
  reject_if (not (has_colon subject) || ltb 256 (text_len subject))
      (ledger_corrupt "evidence subject identity is malformed")
  reject_if (starts_with source "sha256:" && not (is_canonical_digest source))
      (ledger_corrupt "evidence source digest is malformed")
  reject_if (not (is_dict (get_field "payload" envelope)))
      (ledger_corrupt "evidence payload must be an object")
  reject_if
      (not (is_allowed (families principal) (text_of (get_field "operation" envelope)) source))
      (ledger_corrupt "evidence operation or source is outside service authority")

-- The bindings that a caller of `verify_record` expects.
pub record Expected : Type 0 where
  pub subject : Json
  pub producer : Json
  pub source : Json
  pub operation : Option Json
  pub disposition : Option Json

abbrev matches : Json → Option Json → Bool
matches value none = true
matches value (some expected) = py_eq value expected

-- `.get("disposition")` of the payload; a payload that is no dict has no `get`.
disposition_of : Option Json → Result Json
disposition_of none = ok null
disposition_of (some (obj payload)) = ok (get_field "disposition" (obj payload))
disposition_of (some _) = err (runtime_error "AttributeError: no attribute 'get'")

check_disposition : Option Json → Json → Option Json → Result Json
unfolding disposition_of
check_disposition none value payload = ok value
check_disposition (some d) value payload = do
  found ← disposition_of payload
  reject_if (not (py_eq found d)) (ledger_corrupt "evidence disposition mismatch")
  ok value

-- The checks of `verify_record` on the value that it has read.
unfoldable pub check_record : Expected → Json → Result Json
unfolding check_disposition
check_record expected (obj fs) = do
  let value = obj fs
  reject_if
      (not (
        py_eq (get_field "subject" value) expected.subject
        && (py_eq (get_field "producer" value) expected.producer
            && (py_eq (get_field "source" value) expected.source
                && matches (get_field "operation" value) expected.operation))))
      (ledger_corrupt "evidence binding mismatch")
  check_disposition expected.disposition value (field_of "payload" fs)
check_record expected _ = err (ledger_corrupt "evidence must be a JSON object")

-- What the store writes and reads of the object store: `get_content` of the adapter, by the key.
module _ (sha256 : String → String) (bucket : String) (get_content : String → Result String) where
  prefix : String
  prefix = text_append (text_append "s3://" bucket) "/sha256/"

  -- The digest that a reference names.
  unfoldable pub address : Json → Result String
  unfolding prefix
  address (str s) = do
    reject_if (not (starts_with s prefix))
        (ledger_corrupt "evidence reference is not digest addressed")
    let digest = drop_text (text_len prefix) s
    reject_if (not (beq (text_len digest) 64) || not (all_text is_lower_hex digest))
        (ledger_corrupt "evidence reference digest is malformed")
    ok digest
  address _ = err (ledger_corrupt "evidence reference is not digest addressed")

  -- `verify`
  unfoldable pub verify : Json → Result String
  unfolding address
  verify reference = do
    digest ← address reference
    stored ← get_content (text_append "sha256/" digest)
    reject_if (not (sha256 stored == digest))
        (ledger_corrupt "evidence bytes do not match address digest")
    ok stored

  -- `verify_record`, for a source that is read by `json.loads`.
  unfoldable pub verify_record : (String → Option Json) → Expected → Json → Result Json
  unfolding verify check_record
  verify_record json_loads expected reference = do
    raw ← verify reference
    value ← expect_some (json_loads raw) (ledger_corrupt "evidence is not JSON")
    check_record expected value

  -- `put`, over the adapter's `put_content`; every exception of that becomes the same one.
  unavailable : Result String → Result String
  unavailable (ok stored) = ok stored
  unavailable (err e) = err (ledger_unavailable "evidence write or verification failed")

  unfoldable pub put : (String → String → String → Result String) → Json → Result String
  unfolding dumps prefix unavailable
  put put_content value = do
    let content = dumps canonical_style value
    let digest = sha256 content
    stored ← unavailable (put_content (text_append "sha256/" digest) content digest)
    reject_if (not (sha256 stored == digest) || not (stored == content))
        (ledger_corrupt "evidence bytes do not match committed digest")
    ok (text_append prefix digest)
