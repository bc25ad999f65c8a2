-- ===== src/Verified.antt =====
-- The operations of `PostgresRepository` (src/habitat_state/repository.py) that check the evidence of
-- a request before they call the lifecycle store. This file has the interface of the evidence store,
-- the reading of a request's items, and the check of the evidence.
pub mod Bound
pub mod Examples
pub mod Effects
pub mod Changes
pub mod Packages
pub mod Activations
pub mod Commands
pub mod Recovery
pub mod Operations
use nix_ai.Evidence.{Expected, check_record}
use nix_ai.Json.{
  field_of, Json, Items, get_field, py_eq, str, obj, object, int, cons, null, is_dict, nil,
}
use nix_ai.Prelude.{
  String, Result, Option, ◌≡◌, ok, ℕ, List, none, expect_some, err, some, [], Bool, key_error,
  runtime_error, if◌then◌else◌, true, type_error, ◌∷◌, ◌&&◌, ◌>>=◌,
}
use nix_ai.Protocol.Roles.{Service, service_name}
use nix_ai.Json.Int.{pos}

-- What the repository uses of the evidence store: the check of a stored record against the bindings
-- that are expected, which returns only records that pass it.
pub record EvidenceAuthority : Type 0 where
  pub verify_record : Expected → Json → Result Json
  pub verify_record-check_record :
      (e : Expected) (reference : Json) {r : Json}
      → verify_record e reference ≡ ok r
      → check_record e r ≡ ok r

-- `request[key]`
unfoldable pub item : String → Json → Result Json
unfolding field_of
item key (obj fs) = expect_some (field_of key fs) (key_error key)
item key _ = err (type_error "request is no dict")

-- A value that is handed to a text column. PostgreSQL refuses another type.
unfoldable pub text : Json → Result String
text (str s) = ok s
text _ = err (runtime_error "psycopg.errors: argument is no text")

unfoldable pub opt_text : Json → Result (Option String)
opt_text null = ok none
opt_text (str s) = ok (some s)
opt_text _ = err (runtime_error "psycopg.errors: argument is no text")

unfoldable pub text_item : String → Json → Result String
unfolding item text
text_item key request = item key request >>= text

-- An integer that is handed to a bigint column.
unfoldable pub number : Json → Result ℕ
number (int (pos n)) = ok n
number _ = err (runtime_error "psycopg.errors: argument is no integer")

unfoldable pub number_item : String → Json → Result ℕ
unfolding item number
number_item key request = item key request >>= number

unfoldable pub texts : Items → Result (List String)
unfolding text
texts nil = ok []
texts (cons x xs) = do s ← text x; rest ← texts xs; ok (s ∷ rest)

-- An argument of `_verified` that is `None` is not compared.
abbrev pub given : Json → Option Json
given null = none
given value = some value

-- `evidence.get("payload",{})`, which the callers use as a dict.
unfoldable pub payload_of : Json → Result Json
unfolding field_of
payload_of (obj fs) = elim (field_of "payload" fs) [
  | none ↦ ok (object [])
  | some p ↦ if is_dict p then ok p else err (runtime_error "AttributeError: no attribute 'get'")
]
payload_of _ = ok (object [])

-- `payload.get(field)==request.get(field)` for every field
unfoldable pub binds : List String → Json → Json → Bool
unfolding get_field py_eq
binds [] payload request = true
binds (k ∷ ks) payload request =
    py_eq (get_field k payload) (get_field k request) && binds ks payload request

abbrev pub principal_text : Service → Json
principal_text p = str (service_name p)
