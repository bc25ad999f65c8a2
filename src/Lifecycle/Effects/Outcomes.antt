-- ===== src/Lifecycle/Effects/Outcomes.antt =====
-- Theorems on the outcomes of an effect in `observe_effect_transition`.

-- A failed outcome of the provider, as it was observed or resolved.
use nix_ai.Lifecycle.Db.{ProviderState, observed_failed, resolved_failed, Effect, Db, EffectState}
use nix_ai.Prelude.{
  Bool, true, false, Option, ℕ, ◌≡◌, ◌≢◌, ok, value_error, String, key_error, some, ◌+◌, arith, not,
  err, check_violation, text_append, refl, none, sym, ◌∙◌,
}
use nix_ai.Lifecycle.Effects.{
  next_effect, Observed, bound_row, write_effect, is_state, latest_transition,
  observe_effect_transition, effect_checks, project_effect, effect_body, effect_fingerprint,
  is_effect_objective,
}
use nix_ai.Lifecycle.ProviderStates.{
  projected, provider_name, coalesce, effect_eq, passes_state_check, legal_provider,
}
use nix_ai.Lifecycle.Transaction.Inversion.{require_row-eq-ok, raise_if-eq-ok, bind-eq-ok}
use nix_ai.Lifecycle.Transaction.{Tx, ◌>>◌, pure, ◌>>=◌}
use nix_ai.Json.{Json}
use nix_ai.Table.{get}
use nix_ai.Lifecycle.Transaction.Rules.{once-fresh}

unfoldable pub is_failure : ProviderState → Bool
is_failure observed_failed = true
is_failure resolved_failed = true
is_failure _ = false

projected-failure :
    (s : ProviderState) (e : EffectState)
    → is_failure s ≡ true
    → projected s ≡ some e
    → passes_state_check e ≡ false
unfolding is_failure projected passes_state_check
projected-failure s e f p = ground arith

-- A row that violates `durable_effects_state_check` is not written.
write_effect-blocked :
    (effect_id : String) (e : Effect) (k : Tx ℕ) (db : Db)
    → passes_state_check e.state ≡ false
    → (write_effect effect_id e >> k) db ≡ err (check_violation "durable_effects_state_check")
unfolding write_effect ◌>>=◌
write_effect-blocked effect_id e k db h = rw h refl

next_effect-failure :
    (o : Observed) (previous : ProviderState) (found : Option Effect) (db db' : Db) (version : ℕ)
    → is_failure o.new_state ≡ true
    → next_effect o previous found db ≢ ok (version, db')
unfolding next_effect
next_effect-failure o previous found db db' version f h =
    let (row, _, h) =
      require_row-eq-ok {db = db} (bound_row o found)
        (value_error "provider transition binding mismatch") _ h in
    let (_, h) =
      raise_if-eq-ok {db = db}
        (not (is_state previous (latest_transition o.effect_id db.provider_transitions)))
        (value_error "provider transition predecessor history mismatch") _ h in
    let (before, _, h) =
      require_row-eq-ok {db = db} (projected previous) (key_error (provider_name previous)) _ h in
    let (_, h) =
      raise_if-eq-ok {db = db} (not (effect_eq row.state before))
        (value_error "provider transition predecessor mismatch") _ h in
    let (after, p, h) =
      require_row-eq-ok {db = db} (projected o.new_state) (key_error (provider_name o.new_state)) _
        h in
    let blocked =
      write_effect-blocked o.effect_id
        (record row {
          state = after;
          external_ref = coalesce o.external_ref row.external_ref;
          evidence_ref = coalesce o.evidence_ref row.evidence_ref;
          version = row.version + 1;
        })
        (pure (row.version + 1)) db (projected-failure o.new_state after f p) in
    cc (h, blocked)

effect_checks-eq-ok :
    (o : Observed) (previous : Option ProviderState) (db db' : Db) (u : Unit {0})
    → effect_checks o previous db ≡ ok (u, db')
    → (db ≡ db') × (legal_provider previous o.new_state ≡ true)
unfolding effect_checks ◌>>=◌
effect_checks-eq-ok o previous db db' u h = ground arith

first-failure : (s : ProviderState) → is_failure s ≡ true → legal_provider none s ≡ false
unfolding is_failure legal_provider
first-failure s f = ground arith

project_effect-failure :
    (o : Observed) (previous : Option ProviderState) (row : Option Effect) (db db' : Db)
    (version : ℕ)
    → is_failure o.new_state ≡ true
    → legal_provider previous o.new_state ≡ true
    → project_effect o previous row db ≢ ok (version, db')
unfolding project_effect
project_effect-failure o none row db db' version f legal h = cc (first-failure o.new_state f, legal)
project_effect-failure o (some previous) row db db' version f legal h =
    next_effect-failure o previous row db db' version f h

effect_body-failure :
    (transition_id command_id : String) (o : Observed) (previous : Option ProviderState)
    (fp : String) (db db' : Db) (r : Json)
    → is_failure o.new_state ≡ true
    → legal_provider previous o.new_state ≡ true
    → effect_body transition_id command_id o previous fp db ≢ ok (r, db')
unfolding effect_body
effect_body-failure transition_id command_id o previous fp db db' r f legal h =
    let (_, h) =
      raise_if-eq-ok {db = db} (not (is_effect_objective (get o.objective_id db.objectives)))
        (value_error "CONFLICT: effect has no live objective projection") _ h in
    let (version, d, projects, _) =
      bind-eq-ok (project_effect o previous (get o.effect_id db.durable_effects)) _ db h in
    project_effect-failure o previous (get o.effect_id db.durable_effects) db d version f legal
      projects

-- A new transition to `OBSERVED_FAILED` or `RESOLVED_FAILED` never succeeds: whatever the tables
-- hold, if they hold no record of the same command, `observe_effect_transition` raises.
pub observe_effect_transition-failure :
    (sha256 : String → String) (transition_id : String) (o : Observed)
    (previous : Option ProviderState) (db db' : Db) (r : Json)
    → is_failure o.new_state ≡ true
    → get (text_append "effect-transition:" transition_id) db.commands ≡ none
    → observe_effect_transition sha256 transition_id o previous db ≢ ok (r, db')
unfolding observe_effect_transition
observe_effect_transition-failure sha256 transition_id o previous db db' r f fresh h =
    let command_id = text_append "effect-transition:" transition_id in
    let fp = effect_fingerprint sha256 o previous in
    let (u, d, checked, h) = bind-eq-ok (effect_checks o previous) _ db h in
    let (same, legal) = effect_checks-eq-ok o previous db d u checked in
    effect_body-failure transition_id command_id o previous fp d db' r f legal (
      sym (
        once-fresh command_id fp (effect_body transition_id command_id o previous fp) d
          (rw (sym same) fresh))
      ∙ h)
