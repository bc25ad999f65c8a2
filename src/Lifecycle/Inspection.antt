-- ===== src/Lifecycle/Inspection.antt =====
-- What the lifecycle store reports: `inspect_objective`, `inspect_effect_projection` and the readings
-- of governed changes and authority bindings; and `admit_package`.

-- The answer of `inspect_objective`.
use nix_ai.Lifecycle.States.{ObjectiveState}
use nix_ai.Table.{Table, get, rows_where, find_row, put}
use nix_ai.Prelude.{
  Option, String, ℕ, Bool, List, none, ◌∷◌, some, if◌then◌else◌, take, [], ◌==◌, leb, drop, not,
  ◌+◌, is_digest_text, value_error, is_some, unique_violation,
}
use nix_ai.Lifecycle.Sorted.{order_by_key}
use nix_ai.Lifecycle.Effects.{latest_transition}
use nix_ai.Lifecycle.Transaction.{◌>>=◌, Tx, ◌>>◌, raise_if, gets, modify, pure}
use nix_ai.Lifecycle.Db.{
  Effect, Objective, Db, ProviderTransition, ProviderState, Guard, EffectState, Candidate,
  ChangeRow, AuthorityBinding, AuthorityRow,
}
use nix_ai.Json.{Json, object, str, nat}

pub record Inspection : Type 0 where
  pub objective_state : ObjectiveState
  pub effects : Table Effect
  pub guard : Option Guard
  pub effect_state : Option EffectState
  pub evidence_ref : Option String

abbrev first_state : Table Effect → Option EffectState
first_state [] = none
first_state ((_, e) ∷ _) = some e.state

abbrev first_reference : Table Effect → Option String
first_reference [] = none
first_reference ((_, e) ∷ _) = e.evidence_ref

inspected : Option Objective → Table Effect → Option Guard → Option Inspection
inspected none effects guard = none
inspected (some o) effects guard = some (record {
  objective_state = o.state;
  effects = effects;
  guard = guard;
  effect_state = first_state effects;
  evidence_ref = first_reference effects;
})

-- `inspect_objective`
unfoldable pub inspect_objective : String → Db → Option Inspection
unfolding inspected order_by_key
inspect_objective objective_id db =
    inspected (get objective_id db.objectives)
      (order_by_key (rows_where (λ _ e. e.activation_id == objective_id) db.durable_effects))
      (get objective_id db.guards)

abbrev state_of : Option (String × ProviderTransition) → Option ProviderState
state_of none = none
state_of (some (_, t)) = some t.new_state

projection_of :
    String → Option ProviderState → Option Effect → Option (Effect × Option ProviderState)
projection_of objective_id s none = none
projection_of objective_id s (some e) =
    if e.activation_id == objective_id then some (e, s) else none

-- `inspect_effect_projection`: the row, and the provider's latest state.
unfoldable pub inspect_effect_projection :
    String → String → Db → Option (Effect × Option ProviderState)
unfolding projection_of latest_transition
inspect_effect_projection objective_id effect_id db =
    projection_of objective_id (state_of (latest_transition effect_id db.provider_transitions))
      (get effect_id db.durable_effects)

-- `admit_package`: the key is the package, and `content_digest` is UNIQUE.
unfoldable pub admit_package : String → String → Json → String → Tx Json
unfolding ◌>>=◌
admit_package package_id content_digest manifest evidence_ref = do
  raise_if (not (is_digest_text content_digest))
      (value_error "content-bound sha256 digest required")
  used ← gets (λ db. is_some (get package_id db.packages))
  raise_if used (unique_violation "admitted_packages_pkey")
  same ← gets (λ db. is_some (find_row (λ _ p. p.content_digest == content_digest) db.packages))
  raise_if same (unique_violation "admitted_packages_content_digest_key")
  modify (λ db. record db {
    packages =
        put package_id
          (record {
            content_digest = content_digest;
            manifest = manifest;
            evidence_ref = evidence_ref;
            version = 1;
          })
          db.packages;
  })
  pure (
      object (("package_id", str package_id) ∷ ("state", str "VERIFIED") ∷ ("version", nat 1) ∷ []))

-- ORDER BY version, of a history
unfoldable pub insert_version {ℓ} : {A : Type ℓ} → (A → ℕ) → A → List A → List A
insert_version version a [] = a ∷ []
insert_version version a (b ∷ bs) =
    let rest = insert_version version a bs in
    if leb (version a) (version b) then a ∷ b ∷ bs else b ∷ rest

unfoldable pub order_by_version {ℓ} : {A : Type ℓ} → (A → ℕ) → List A → List A
unfolding insert_version
order_by_version version [] = []
order_by_version version (a ∷ more) = insert_version version a (order_by_version version more)

unfoldable pub filter_rows {ℓ} : {A : Type ℓ} → (A → Bool) → List A → List A
filter_rows p [] = []
filter_rows p (a ∷ more) = let rest = filter_rows p more in if p a then a ∷ rest else rest

-- `governed_change`
unfoldable pub governed_change : String → Db → Option Candidate
governed_change candidate_id db = get candidate_id db.candidates

-- `governed_change_history`
unfoldable pub governed_change_history : String → ℕ → ℕ → Db → List ChangeRow
unfolding order_by_version filter_rows
governed_change_history candidate_id limit cursor db = take limit (
    drop cursor (
      order_by_version (λ r. r.version)
        (filter_rows (λ r. r.candidate_id == candidate_id) db.change_history)))

-- `authority_binding`, with the cursor of the next page.
unfoldable pub authority_binding :
    String → ℕ → ℕ → Db → Option (AuthorityBinding × (List AuthorityRow × ℕ))
unfolding order_by_version filter_rows
authority_binding binding_id limit cursor db = elim (get binding_id db.authority_bindings) [
  | none ↦ none
  | some b ↦ some (
    b,
    (
      take limit (
          drop cursor (
            order_by_version (λ r. r.version)
              (filter_rows (λ r. r.binding_id == binding_id) db.authority_history))),
      cursor + limit,
    ),
  )
]
