-- ===== src/Lifecycle/Activations.antt =====
-- Activations without a protected binding: `create_activation`, `lease_activation` and
-- `transition_activation`, and the writes of the table `activations`.
use nix_ai.Lifecycle.Db.{Activation}
use nix_ai.Prelude.{
  String, Option, ℕ, Bool, none, some, ◌&&◌, if◌then◌else◌, is_some, unique_violation, ltb, not,
  clock_untrusted, value_error, ◌==◌, ◌+◌,
}
use nix_ai.Lifecycle.Transaction.{◌>>=◌, Tx, gets, ◌>>◌, raise_if, require_row, modify}
use nix_ai.Lifecycle.States.{ActivationState, is_live, is_requested, legal_activation}
use nix_ai.Table.{Table, get, find_row, put}

-- The row takes part in the partial unique index `activations_one_live_objective`.
abbrev pub is_indexed : Activation → Bool
is_indexed a = is_live a.state && is_some a.lease_fence

-- Another row of the index has the same objective.
pub index_conflict : String → Activation → Table Activation → Bool
index_conflict k a t =
    is_indexed a
    && is_some
        (find_row (λ j b. not (j == k) && (is_indexed b && b.objective_id == a.objective_id)) t)

-- A write of the row, which the unique index may refuse.
unfoldable pub write_activation : String → Activation → Tx (Unit {0})
unfolding ◌>>=◌ index_conflict
write_activation activation_id a = do
  conflict ← gets (λ db. index_conflict activation_id a db.activations)
  raise_if conflict (unique_violation "activations_one_live_objective")
  modify (λ db. record db { activations = put activation_id a db.activations })

-- INSERT INTO activations
unfoldable pub insert_activation : String → Activation → Tx (Unit {0})
unfolding write_activation
insert_activation activation_id a = do
  used ← gets (λ db. is_some (get activation_id db.activations))
  raise_if used (unique_violation "activations_pkey")
  write_activation activation_id a

-- The columns that `create_activation` leaves NULL.
abbrev pub new_activation : String → Activation
new_activation objective_id = record {
  objective_id = objective_id;
  state = ActivationState.requested;
  lease_owner = none;
  lease_expires_at = none;
  monotonic_started = none;
  version = 1;
  wake_id = none;
  machine_id = none;
  agent_id = none;
  lease_fence = none;
  system_generation_id = none;
  capability_activation_set_id = none;
  context_bundle_id = none;
  capability_grant_ids = none;
  isolation_profile_id = none;
  resource_lease_id = none;
  deadline = none;
  trace_id = none;
  correlation_id = none;
  credential_digest = none;
  credential_key_version = none;
}

-- `create_activation`
pub create_activation : String → String → Tx (Unit {0})
unfolding insert_activation
create_activation activation_id objective_id =
    insert_activation activation_id (new_activation objective_id)

abbrev is_row_requested : Option Activation → Option Activation
is_row_requested none = none
is_row_requested (some a) = if is_requested a.state then some a else none

-- `lease_activation`; `skew` is the absolute value of `clock_skew`.
pub lease_activation : ℕ → String → String → ℕ → ℕ → ℕ → ℕ → Tx (Unit {0})
unfolding write_activation
lease_activation max_clock_skew activation_id worker wall_now monotonic_now lease_seconds skew = do
  raise_if (ltb max_clock_skew skew) (clock_untrusted "clock outside trust bound")
  row ← gets (λ db. get activation_id db.activations)
  a ← require_row (is_row_requested row) (value_error "CONFLICT: activation unavailable")
  write_activation activation_id (record a {
    state = ActivationState.leased;
    lease_owner = some worker;
    lease_expires_at = some (wall_now + lease_seconds);
    monotonic_started = some monotonic_now;
    version = a.version + 1;
  })

abbrev legal_row : ActivationState → Option Activation → Option Activation
legal_row new_state none = none
legal_row new_state (some a) = if legal_activation a.state new_state then some a else none

-- `transition_activation`
pub transition_activation : String → ActivationState → Tx (Unit {0})
unfolding write_activation
transition_activation activation_id new_state = do
  row ← gets (λ db. get activation_id db.activations)
  a ← require_row (legal_row new_state row) (value_error "illegal activation transition")
  write_activation activation_id (record a { state = new_state; version = a.version + 1 })
