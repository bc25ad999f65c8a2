-- ===== src/Lifecycle/Claims.antt =====
-- Claims of activations: `claim_activation`, from its typed arguments on.
mod Tests
pub mod Fences
use nix_ai.Lifecycle.Wakes.{update_wake}
use nix_ai.Lifecycle.Activations.{insert_activation, write_activation}
use nix_ai.Lifecycle.Capabilities.{active_set}
use nix_ai.Prelude.{
  String, Bool, ℕ, Option, List, starts_with, false, ◌&&◌, true, ◌∷◌, Result, some, leb,
  if◌then◌else◌, ◌==◌, ◌+◌, value_error, any, [], none, is_canonical_digest, beq, not,
  is_empty_text, unique_violation, ◌++◌,
}
use nix_ai.Lifecycle.Transaction.{
  ◌>>=◌, recorded, fingerprint, Tx, replay, raise, gets, ◌>>◌, raise_if, lift, require_row, pure,
  modify,
}
use nix_ai.Lifecycle.Db.{Wake, Objective, ActiveGeneration, Activation, BindingRow, CapabilitySet}
use nix_ai.Table.{Table, find_row, get}
use nix_ai.Json.{Json, str, object, nat, array, null, truthy, maybe_nat, is_prefixed, as_str}
use nix_ai.Lifecycle.States.{is_proposed, is_claimable, is_requested, ActivationState, WakeState}

-- The arguments of `claim_activation`.
pub record Claim : Type 0 where
  pub command_id : String
  pub activation_id : String
  pub objective_id : String
  pub wake_id : String
  pub machine_id : String
  pub agent_id : String
  pub lease_owner : String
  pub lease_seconds : ℕ
  pub context_bundle_id : String
  pub isolation_profile_id : String
  pub resource_lease_id : String
  pub trace_id : String
  pub correlation_id : String
  pub credential_digest : String
  pub credential_key_version : ℕ
  pub evidence_ref : String

abbrev pub has_identifiers : Claim → Bool
has_identifiers q =
    starts_with q.command_id "command:"
    && (starts_with q.activation_id "activation:"
        && (starts_with q.objective_id "objective:"
            && (starts_with q.wake_id "wake:"
                && (starts_with q.machine_id "machine:"
                    && (starts_with q.agent_id "agent:"
                        && (starts_with q.lease_owner "service:"
                            && (starts_with q.context_bundle_id "context:"
                                && (starts_with q.isolation_profile_id "isolation:"
                                    && (starts_with q.resource_lease_id "resource-lease:"
                                        && (starts_with q.trace_id "trace:"
                                            && starts_with q.correlation_id "correlation:"))))))))))

abbrev pub has_credential : Claim → Bool
has_credential q =
    leb 1 q.credential_key_version
    && (is_canonical_digest q.credential_digest && not (is_empty_text q.evidence_ref))

-- The first test of `claim_activation`.
pub is_claim : Claim → Bool
is_claim q =
    has_identifiers q && (leb 1 q.lease_seconds && (leb q.lease_seconds 300 && has_credential q))

claim_fingerprint : (String → String) → Claim → String
claim_fingerprint sha256 q = fingerprint sha256 "activation_claim" (
    str q.activation_id
    ∷ str q.objective_id
    ∷ str q.wake_id
    ∷ str q.machine_id
    ∷ str q.agent_id
    ∷ str q.lease_owner
    ∷ nat q.lease_seconds
    ∷ str q.context_bundle_id
    ∷ str q.isolation_profile_id
    ∷ str q.resource_lease_id
    ∷ str q.trace_id
    ∷ str q.correlation_id
    ∷ str q.credential_digest
    ∷ nat q.credential_key_version
    ∷ str q.evidence_ref
    ∷ [])

-- WHERE wake_id=… AND objective_id=…, in a state that can be claimed, and due.
abbrev pub claimable_wake : Claim → ℕ → Option Wake → Option Wake
claimable_wake q now none = none
claimable_wake q now (some w) =
    if w.objective_id == q.objective_id && (is_claimable w.state && leb w.due_at now)
    then some w
    else none

abbrev pub is_row_proposed : Option Objective → Bool
is_row_proposed none = false
is_row_proposed (some o) = is_proposed o.state

-- The active generation and the active capability set that is bound to it.
abbrev pub bound_set :
    Option ActiveGeneration
    → Option (String × CapabilitySet)
    → Option (String × String × List String)
bound_set none s = none
bound_set (some g) none = none
bound_set (some g) (some (k, s)) =
    if s.generation_id == g.active_generation
    then some (g.active_generation, k, s.grant_ids)
    else none

-- SELECT * FROM activations WHERE objective_id=…
unfoldable pub prior_activation : String → Table Activation → Option (String × Activation)
prior_activation objective_id = find_row (λ _ a. a.objective_id == objective_id)

abbrev pub opt_text_eq : Option String → String → Bool
opt_text_eq none s = false
opt_text_eq (some t) s = t == s

abbrev pub is_reclaimable : Claim → Option (String × Activation) → Bool
is_reclaimable q none = true
is_reclaimable q (some (k, a)) =
    k == q.activation_id && (is_requested a.state && opt_text_eq a.wake_id q.wake_id)

-- `(prior["lease_fence"] or 0)+1`
abbrev pub next_fence : Option (String × Activation) → ℕ
next_fence none = 1
next_fence (some (_, a)) = elim a.lease_fence [ none ↦ 1 | some n ↦ n + 1 ]

abbrev pub next_version : Option (String × Activation) → ℕ
next_version none = 1
next_version (some (_, a)) = a.version + 1

-- The row that a claim leaves; `monotonic_started` is kept, and NULL in a new row.
abbrev pub claimed_row :
    Claim → ℕ → String × String × List String → Option (String × Activation) → Activation
claimed_row q now (generation, set_id, grants) prior = record {
  objective_id = q.objective_id;
  state = ActivationState.leased;
  lease_owner = some q.lease_owner;
  lease_expires_at = some (now + q.lease_seconds);
  monotonic_started = elim prior [ none ↦ none | some (_, a) ↦ a.monotonic_started ];
  version = next_version prior;
  wake_id = some q.wake_id;
  machine_id = some q.machine_id;
  agent_id = some q.agent_id;
  lease_fence = some (next_fence prior);
  system_generation_id = some generation;
  capability_activation_set_id = some set_id;
  context_bundle_id = some q.context_bundle_id;
  capability_grant_ids = some grants;
  isolation_profile_id = some q.isolation_profile_id;
  resource_lease_id = some q.resource_lease_id;
  deadline = some (now + q.lease_seconds);
  trace_id = some q.trace_id;
  correlation_id = some q.correlation_id;
  credential_digest = some q.credential_digest;
  credential_key_version = some q.credential_key_version;
}

unfoldable pub grant_items : List String → List Json
grant_items [] = []
grant_items (g ∷ gs) = str g ∷ grant_items gs

-- `result`, before the evidence of the binding is added.
unfoldable pub claim_fields :
    Claim → ℕ → String × String × List String → Option (String × Activation) → List (String × Json)
unfolding grant_items
claim_fields q now (generation, set_id, grants) prior =
    ("activation_id", str q.activation_id)
    ∷ ("objective_id", str q.objective_id)
    ∷ ("wake_id", str q.wake_id)
    ∷ ("machine_id", str q.machine_id)
    ∷ ("agent_id", str q.agent_id)
    ∷ ("lease_owner", str q.lease_owner)
    ∷ ("lease_fence", nat (next_fence prior))
    ∷ ("lease_expires_at", nat (now + q.lease_seconds))
    ∷ ("state", str "LEASED")
    ∷ ("system_generation_id", str generation)
    ∷ ("capability_activation_set_id", str set_id)
    ∷ ("capability_grant_ids", array (grant_items grants))
    ∷ ("context_bundle_id", str q.context_bundle_id)
    ∷ ("isolation_profile_id", str q.isolation_profile_id)
    ∷ ("resource_lease_id", str q.resource_lease_id)
    ∷ ("deadline", nat (now + q.lease_seconds))
    ∷ ("trace_id", str q.trace_id)
    ∷ ("correlation_id", str q.correlation_id)
    ∷ ("credential_digest", str q.credential_digest)
    ∷ ("credential_key_version", nat q.credential_key_version)
    ∷ ("version", nat (next_version prior))
    ∷ []

unfoldable pub evidence_payload : Claim → Option (String × Activation) → List (String × Json) → Json
evidence_payload q prior binding = object (
    ("command_id", str q.command_id)
    ∷ ("prior_activation_version", elim prior [ none ↦ null | some (_, a) ↦ nat a.version ])
    ∷ ("prior_lease_fence", elim prior [ none ↦ null | some (_, a) ↦ maybe_nat a.lease_fence ])
    ∷ ("binding", object binding)
    ∷ [])

-- What publishes and what verifies the evidence of a binding, where the caller gives it.
abbrev pub Publisher : Type 0
Publisher = Option (String → Json → Result Json)

abbrev pub Verifier : Type 0
Verifier = Option (String → Json → Result (Unit {0}))

publish_evidence : Publisher → String → Json → Tx String
unfolding ◌>>=◌
publish_evidence none command_id payload =
    raise (value_error "protected activation binding evidence publisher is unavailable")
publish_evidence (some publish) command_id payload = do
  reference ← lift (publish command_id payload)
  require_row (if is_prefixed "s3://" reference then as_str reference else none)
      (value_error "protected activation binding evidence is invalid")

-- The branches `if prior:` and `else:` of the write.
write_claim : Claim → Option (String × Activation) → Activation → Tx (Unit {0})
unfolding insert_activation write_activation
write_claim q none a = insert_activation q.activation_id a
write_claim q (some _) a = write_activation q.activation_id a

-- INSERT INTO activation_binding_history: the key is (activation_id,version), and `command_id` is
-- UNIQUE.
unfoldable pub insert_binding : BindingRow → Tx (Unit {0})
unfolding ◌>>=◌
insert_binding row = do
  used ← gets (λ db.
      any (λ r. r.activation_id == row.activation_id && beq r.version row.version)
        db.binding_history)
  raise_if used (unique_violation "activation_binding_history_pkey")
  sent ← gets (λ db. any (λ r. r.command_id == row.command_id) db.binding_history)
  raise_if sent (unique_violation "activation_binding_history_command_id_key")
  modify (λ db. record db { binding_history = db.binding_history ++ row ∷ [] })

-- The body of `claim_activation` behind its replay; `now` is the database's clock.
claim_body : Publisher → Claim → ℕ → String → Tx Json
unfolding prior_activation active_set claim_fields evidence_payload publish_evidence write_claim
    update_wake insert_binding recorded
claim_body publish q now fp = do
  wake_row ← gets (λ db. get q.wake_id db.wakes)
  objective ← gets (λ db. get q.objective_id db.objectives)
  prior ← gets (λ db. prior_activation q.objective_id db.activations)
  generation ← gets (λ db. db.active_generation)
  capability_set ← gets (λ db. active_set db.capability_sets)
  wake ←
      require_row (if is_row_proposed objective then claimable_wake q now wake_row else none)
        (value_error "CONFLICT: activation wake is not claimable")
  bound ←
      require_row (bound_set generation capability_set)
        (value_error "active generation capability set is unavailable")
  raise_if (not (is_reclaimable q prior))
      (value_error "CONFLICT: objective activation is not reclaimable")
  let fields = claim_fields q now bound prior
  evidence ← publish_evidence publish q.command_id (evidence_payload q prior fields)
  let result = object (fields ++ ("binding_evidence_ref", str evidence) ∷ [])
  write_claim q prior (claimed_row q now bound prior)
  update_wake q.wake_id (record wake {
    state = WakeState.leased;
    lease_owner = some q.lease_owner;
    lease_expires_at = some (now + q.lease_seconds);
    version = wake.version + 1;
  })
  insert_binding (record {
    activation_id = q.activation_id;
    version = next_version prior;
    command_id = q.command_id;
    binding = result;
    evidence_ref = evidence;
  })
  recorded q.command_id fp result

-- `if replay:`, where a claim that is answered from the ledger has its evidence verified first.
verified_replay : Verifier → Claim → Option Json → Tx Json → Tx Json
unfolding ◌>>=◌
verified_replay verify q none body = body
verified_replay verify q (some r) body =
    if truthy r
    then (do
      check ←
          require_row verify
            (value_error "protected activation binding evidence verifier is unavailable")
      lift (check q.command_id r)
      pure r)
    else body

-- `claim_activation`
pub claim_activation : (String → String) → Publisher → Verifier → Claim → ℕ → Tx Json
unfolding ◌>>=◌ is_claim verified_replay replay
claim_activation sha256 publish verify q now = do
  raise_if (not (is_claim q)) (value_error "complete typed activation claim is required")
  let fp = claim_fingerprint sha256 q
  found ← replay q.command_id fp
  verified_replay verify q found (claim_body publish q now fp)
