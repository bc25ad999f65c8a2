-- ===== src/Lifecycle/Boot.antt =====
-- The boot report of `recover`: the recovery of expired leases, and the counts behind it.
mod Tests
pub mod Readiness
use nix_ai.Prelude.{
  String, List, Bool, ℕ, Option, ◌∷◌, not, beq, if◌then◌else◌, ◌==◌, true, ◌+◌, false, ◌&&◌, length,
  ◌||◌, any, some, [], none,
}
use nix_ai.Lifecycle.Db.{
  EffectState, ProviderState, Wake, Effect, Guard, Db, ProviderTransition, authorized, dispatched,
  uncertain, observed_succeeded, resolved_succeeded, observed_failed, resolved_failed,
}
use nix_ai.Lifecycle.Effects.{latest_transition}
use nix_ai.Json.{Json, get_field, Items, py_eq, obj, str, cons, arr, nil}
use nix_ai.Table.{get, Table}
use nix_ai.Lifecycle.Sorted.{sorted_set}
use nix_ai.Lifecycle.Transaction.{◌>>=◌, Tx, gets}
use nix_ai.Lifecycle.ProviderStates.{provider_name, effect_name}
use nix_ai.Lifecycle.Claims.{Publisher}
use nix_ai.Lifecycle.States.{is_claimable, is_wake_leased}
use nix_ai.Lifecycle.Guards.{is_succeeded}
use nix_ai.Lifecycle.Recovery.{recover_expired}
use nix_ai.Lifecycle.Wakes.{opt_le}

-- A row of `effect_records` with the canonical record that the effect service has written.
pub record CanonicalEffect : Type 0 where
  pub effect_id : String
  pub objective_id : String
  pub request_digest : String
  pub state : String
  pub version : ℕ
  pub canonical_record : Json

-- A row of `effect_transition_history`.
pub record EffectEvent : Type 0 where
  pub effect_id : String
  pub effect_version : ℕ
  pub new_state : String
  pub canonical_event : Json

-- The tables that only `recover` and the effect service read: the classifications of the two
-- migration archives, the canonical effects with their events, and the effects of the attempts.
pub record BootTables : Type 0 where
  pub effect_archive : List String
  pub activation_archive : List String
  pub effects : List CanonicalEffect
  pub events : List EffectEvent
  pub attempts : List String

-- SELECT count(*) … WHERE …
unfoldable pub count : {A : Type 0} → (A → Bool) → List A → ℕ
count p [] = 0
count p (x ∷ xs) = let rest = count p xs in if p x then rest + 1 else rest

-- `classification <> 'V2_COMPATIBLE'`
abbrev pub is_unclassified : String → Bool
is_unclassified c = not (c == "V2_COMPATIBLE")

-- A wake that is to be delivered again.
abbrev pub is_redelivered : ℕ → String × Wake → Bool
is_redelivered now (_, w) =
    is_claimable w.state || is_wake_leased w.state && opt_le w.lease_expires_at now

-- `state NOT IN ('COMMITTED','FAILED','CANCELLED')`
abbrev pub is_nonterminal : String × Effect → Bool
is_nonterminal (_, e) = elim e.state [
  | EffectState.committed ↦ false
  | EffectState.failed ↦ false
  | EffectState.cancelled ↦ false
  | _ ↦ true
]

-- The CASE over the state of the last provider transition.
unfoldable pub projected_name : ProviderState → String
projected_name authorized = "PROPOSED"
projected_name dispatched = "PROPOSED"
projected_name uncertain = "PROPOSED"
projected_name observed_succeeded = "COMMITTED"
projected_name resolved_succeeded = "COMMITTED"
projected_name observed_failed = "FAILED"
projected_name resolved_failed = "FAILED"
projected_name s = provider_name s

-- An effect with no transition, with one of another request, or in another state than the last one
-- projects to.
unfoldable pub is_inconsistent : Table ProviderTransition → String × Effect → Bool
unfolding latest_transition projected_name
is_inconsistent transitions (effect_id, e) = elim (latest_transition effect_id transitions) [
  | none ↦ true
  | some (_, t) ↦
      any (λ r. r.1.effect_id == effect_id && not (r.1.request_digest == e.request_digest))
        transitions
      || not (effect_name e.state == projected_name t.new_state)
]

abbrev pub is_object : Json → Bool
is_object (obj _) = true
is_object _ = false

-- `value->>key IS NOT DISTINCT FROM text`, for a value that is text.
unfoldable pub names : Json → String → String → Bool
unfolding get_field
names value key text = elim (get_field key value) [ str s ↦ s == text | _ ↦ false ]

-- `jsonb_array_length(COALESCE(value->key,'[]'))`; the effect service writes arrays there.
item_count : Items → ℕ
item_count nil = 0
item_count (cons x xs) = item_count xs + 1

unfoldable pub array_length : Json → ℕ
unfolding item_count
array_length (arr xs) = item_count xs
array_length _ = 0

-- The event that stands for the row: its version, its state, its record, and as many attempts.
unfoldable pub is_event_of : List String → CanonicalEffect → EffectEvent → Bool
unfolding get_field py_eq array_length count
is_event_of attempts r h =
    h.effect_id == r.effect_id
    && (beq h.effect_version r.version
        && (h.new_state == r.state
            && (py_eq (get_field "record" h.canonical_event) r.canonical_record
                && beq (count (λ a. a == r.effect_id) attempts) (
                    array_length (get_field "attempts" h.canonical_event)
                    + array_length (get_field "reconciliations" h.canonical_event)))))

-- The projection of the row in `durable_effects`.
abbrev pub is_projection : CanonicalEffect → Option Effect → Bool
is_projection r none = false
is_projection r (some e) = e.activation_id == r.objective_id && e.request_digest == r.request_digest

unfoldable pub is_canonical_consistent : BootTables → Table Effect → CanonicalEffect → Bool
unfolding names is_event_of get_field get
is_canonical_consistent boot durable r =
    is_object r.canonical_record
    && (is_object (get_field "proposal" r.canonical_record)
        && (names r.canonical_record "effect_id" r.effect_id
            && (names (get_field "proposal" r.canonical_record) "objective_id" r.objective_id
                && (names (get_field "proposal" r.canonical_record) "parameters_digest"
                      r.request_digest
                    && (names r.canonical_record "state" r.state
                        && (any (is_event_of boot.attempts r) boot.events
                            && is_projection r (get r.effect_id durable)))))))

-- The objective has a guard that is ready.
abbrev pub is_guarded : Option Guard → Bool
is_guarded none = false
is_guarded (some g) = g.ready

-- SELECT DISTINCT objective_id … of the successes that no ready guard covers.
unfoldable pub unguarded : Table Guard → List CanonicalEffect → List String
unfolding get
unguarded guards [] = []
unguarded guards (r ∷ rs) =
    let rest = unguarded guards rs in
    if is_succeeded r.state && not (is_guarded (get r.objective_id guards))
    then r.objective_id ∷ rest
    else rest

-- The report of `recover`.
pub record Report : Type 0 where
  pub expired_activations : ℕ
  pub unclassified_activations : ℕ
  pub unclassified_effects : ℕ
  pub nonterminal_effects : ℕ
  pub inconsistent_effects : ℕ
  pub canonical_inconsistent_effects : ℕ
  pub missing_effect_guards : ℕ
  pub wakes_redelivered : ℕ

unfoldable pub counted : BootTables → ℕ → ℕ → Db → Report
unfolding count is_inconsistent is_canonical_consistent unguarded sorted_set
counted boot expired now db = record {
  expired_activations = expired;
  unclassified_activations = count is_unclassified boot.activation_archive;
  unclassified_effects = count is_unclassified boot.effect_archive;
  nonterminal_effects = count is_nonterminal db.durable_effects;
  inconsistent_effects = count (is_inconsistent db.provider_transitions) db.durable_effects;
  canonical_inconsistent_effects =
      count (λ r. not (is_canonical_consistent boot db.durable_effects r)) boot.effects;
  missing_effect_guards = length (sorted_set (unguarded db.guards boot.effects));
  wakes_redelivered = count (is_redelivered now) db.wakes;
}

-- `activations_classified` and `effects_classified` of the answer.
unfoldable pub activations_classified : Report → Bool
activations_classified r = beq r.unclassified_activations 0

unfoldable pub effects_classified : Report → Bool
effects_classified r =
    beq r.unclassified_effects 0
    && (beq r.nonterminal_effects 0
        && (beq r.inconsistent_effects 0
            && (beq r.canonical_inconsistent_effects 0 && beq r.missing_effect_guards 0)))

-- `recover`: the leases are recovered in one transaction, and counted in the next.
unfoldable pub recover : BootTables → Publisher → ℕ → Tx Report
unfolding ◌>>=◌ counted
recover boot publish now = do
  expired ← recover_expired publish now
  gets (counted boot (length expired) now)
