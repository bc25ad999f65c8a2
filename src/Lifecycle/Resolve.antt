-- ===== src/Lifecycle/Resolve.antt =====
-- The check of a presented activation binding: `_resolve_activation`.
mod Tests
pub mod Grants
use nix_ai.Json.{
  get_field, field_of, field_count, py_eq, obj, int, Json, str, maybe_str, maybe_nat,
  is_nonempty_str, null,
}
use nix_ai.Lifecycle.Capabilities.{active_set}
use nix_ai.Prelude.{
  ℕ, String, List, Option, Bool, ◌∷◌, none, Exception, if◌then◌else◌, is_some, [], beq, ◌&&◌, false,
  text_append, permission_error, leb, all, some, ◌==◌, ltb, not, activation_invalid, ◌^◌, ◌-◌,
  Result, ok, err, runtime_error,
}
use nix_ai.Lifecycle.Db.{Activation, ActiveGeneration, CapabilitySet}
use nix_ai.Lifecycle.Transaction.{◌>>=◌, Tx, gets, ◌>>◌, raise_if, require_row, pure, lift}
use nix_ai.Json.Int.{pos}
use nix_ai.Lifecycle.States.{is_live}
use nix_ai.Table.{get}

-- `type(value) is int` and `1<=value<=limit`; `True` is refused here.
abbrev pub strict_int : ℕ → Json → Option ℕ
strict_int limit (int (pos n)) = if leb 1 n && leb n limit then some n else none
strict_int limit _ = none

has_field : String → Json → Bool
has_field k (obj fs) = is_some (field_of k fs)
has_field k _ = false

binding_size : Json → ℕ
binding_size (obj fs) = field_count fs
binding_size _ = 0

abbrev required_fields : List String
required_fields =
    "activation_id" ∷ "machine_id" ∷ "agent_id" ∷ "objective_id" ∷ "lease_fence"
    ∷ "system_generation_id" ∷ "capability_activation_set_id" ∷ "deadline" ∷ "trace_id" ∷ []

-- `isinstance(binding,dict) and set(binding)==set(required)`
is_binding : Json → Bool
unfolding has_field binding_size
is_binding b = beq (binding_size b) 9 && all (λ k. has_field k b) required_fields

abbrev field_is : String → Json → Option String → Bool
field_is k b value = py_eq (maybe_str value) (get_field k b)

-- The comparison of the fields `exact` with the row.
pub is_exact : Activation → Json → Bool
unfolding py_eq get_field
is_exact a b =
    field_is "machine_id" b a.machine_id
    && (field_is "agent_id" b a.agent_id
        && (field_is "objective_id" b (some a.objective_id)
            && (py_eq (maybe_nat a.lease_fence) (get_field "lease_fence" b)
                && (field_is "system_generation_id" b a.system_generation_id
                    && (field_is "capability_activation_set_id" b a.capability_activation_set_id
                        && field_is "trace_id" b a.trace_id)))))

abbrev opt_text_is : Option String → String → Bool
opt_text_is none s = false
opt_text_is (some t) s = s == t

-- The generation and the capability set of the row are those that are active.
abbrev pub is_current :
    Activation → Option ActiveGeneration → Option (String × CapabilitySet) → Bool
is_current a none s = false
is_current a (some g) none = false
is_current a (some g) (some (k, s)) =
    opt_text_is a.system_generation_id g.active_generation
    && opt_text_is a.capability_activation_set_id k

abbrev opt_after : ℕ → Option ℕ → Bool
opt_after now none = false
opt_after now (some t) = ltb now t

-- The lease and the deadline of the row are to come, and the request's deadline lies between now and
-- the row's.
abbrev pub is_timely : ℕ → Activation → ℕ → Bool
is_timely now a deadline =
    opt_after now a.lease_expires_at
    && (opt_after now a.deadline
        && (elim a.deadline [ none ↦ false | some d ↦ leb deadline d ] && ltb now deadline))

-- `"sha256:"+hashlib.sha256(credential.encode()).hexdigest()`, compared with the stored digest.
abbrev pub is_credential : (String → String) → Activation → Json → Bool
is_credential sha256 a (str credential) =
    opt_text_is a.credential_digest (text_append "sha256:" (sha256 credential))
is_credential sha256 a _ = false

-- The row that is handed back, without the credential and `monotonic_started`.
abbrev pub public_row : Activation → Activation
public_row a = record a {
  credential_digest = none;
  credential_key_version = none;
  monotonic_started = none;
}

abbrev pub denied : String → Exception
denied = permission_error

pub resolve_checks : (String → String) → Json → Json → ℕ → ℕ → Activation → Tx (Unit {0})
unfolding ◌>>=◌ is_exact active_set
resolve_checks sha256 binding credential now deadline a = do
  generation ← gets (λ db. db.active_generation)
  capability_set ← gets (λ db. active_set db.capability_sets)
  raise_if (not (is_exact a binding))
      (denied "activation binding does not match authoritative state")
  raise_if (not (is_current a generation capability_set))
      (denied "activation generation or capability set is no longer active")
  raise_if (not (is_live a.state)) (denied "activation is not active")
  raise_if (not (is_timely now a deadline))
      (activation_invalid "activation or request deadline is expired or out of scope")
  raise_if (not (is_credential sha256 a credential)) (denied "activation credential is invalid")

-- The binding's `activation_id` as the key of the query: NULL finds no row, and PostgreSQL refuses
-- another type.
abbrev pub query_key : Json → Result String
query_key (str s) = ok s
query_key null = err (denied "activation is not authorized")
query_key _ = err (runtime_error "psycopg.errors: argument is no text")

-- `_resolve_activation`; `now` is the database's clock.
unfoldable pub resolve_activation : (String → String) → Json → Json → ℕ → Tx (String × Activation)
unfolding ◌>>=◌ is_binding resolve_checks
resolve_activation sha256 binding credential now = do
  raise_if (not (is_binding binding && is_nonempty_str credential))
      (activation_invalid "complete activation binding and credential are required")
  fence ←
      require_row (strict_int (2 ^ 64 - 1) (get_field "lease_fence" binding))
        (activation_invalid "activation fence and deadline are invalid")
  deadline ←
      require_row (strict_int (2 ^ 63 - 1) (get_field "deadline" binding))
        (activation_invalid "activation fence and deadline are invalid")
  activation_id ← lift (query_key (get_field "activation_id" binding))
  row ← gets (λ db. get activation_id db.activations)
  a ← require_row row (denied "activation is not authorized")
  resolve_checks sha256 binding credential now deadline a
  pure (activation_id, public_row a)
