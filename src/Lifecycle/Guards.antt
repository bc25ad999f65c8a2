-- ===== src/Lifecycle/Guards.antt =====
-- The guard of an objective's effects: `guard_objective_effects`,
-- `invalidate_objective_effect_guard` and `inspect_objective`.
use nix_ai.Lifecycle.Objectives.{update_objective}
use nix_ai.Lifecycle.Db.{EffectState, Effect, EffectRecord, Db, Guard, Objective}
use nix_ai.Prelude.{
  String, Bool, Option, List, ◌==◌, not, true, ◌||◌, ◌&&◌, false, none, some, if◌then◌else◌, ◌∷◌,
  ◌+◌, value_error, [], text_append, not_null_violation, any, length, all, ℕ,
}
use nix_ai.Lifecycle.Sorted.{order_by_key, sorted_set, texts_eq, keys}
use nix_ai.Json.Dumps.{dumps, compact_style}
use nix_ai.Lifecycle.States.{ObjectiveState, compensated, objective_name}
use nix_ai.Table.{Table, get, put}
use nix_ai.Lifecycle.Transaction.{
  insert_history, ◌>>=◌, Tx, pure, modify, gets, ◌>>◌, raise_if, require_row,
}
use nix_ai.Lifecycle.ProviderStates.{is_committed, is_absent}
use nix_ai.Json.{Json, str, array}

-- A row of `durable_effects d JOIN effect_records r ON r.effect_id=d.effect_id`.
pub record Joined : Type 0 where
  pub state : EffectState
  pub evidence_ref : Option String
  pub canonical_state : String
  pub compensates_effect_id : Option String

abbrev join_row : Effect → EffectRecord → Joined
join_row d r = record {
  state = d.state;
  evidence_ref = d.evidence_ref;
  canonical_state = r.state;
  compensates_effect_id = r.compensates_effect_id;
}

joined_row : String → String → Effect → Option EffectRecord → Table Joined → Table Joined
joined_row objective_id k d none rest = rest
joined_row objective_id k d (some r) rest =
    if d.activation_id == objective_id then (k, join_row d r) ∷ rest else rest

joined_rows : String → Table EffectRecord → Table Effect → Table Joined
unfolding joined_row
joined_rows objective_id records [] = []
joined_rows objective_id records ((k, d) ∷ t) =
    joined_row objective_id k d (get k records) (joined_rows objective_id records t)

-- WHERE d.activation_id=… ORDER BY d.effect_id
unfoldable pub joined_effects : String → Db → Table Joined
unfolding joined_rows order_by_key
joined_effects objective_id db =
    order_by_key (joined_rows objective_id db.effect_records db.durable_effects)

texts : List String → List Json
texts [] = []
texts (i ∷ is) = str i ∷ texts is

-- `"sha256:"+hashlib.sha256(json.dumps(ids, separators=(",",":")).encode()).hexdigest()`
unfoldable pub effect_set_digest : (String → String) → List String → String
unfolding dumps texts
effect_set_digest sha256 ids =
    text_append "sha256:" (sha256 (dumps compact_style (array (texts ids))))

-- `canonical_state in ("ObservedSucceeded","ResolvedSucceeded")`
abbrev pub is_succeeded : String → Bool
is_succeeded s = s == "ObservedSucceeded" || s == "ResolvedSucceeded"

-- A committed effect whose canonical record is a success.
abbrev pub is_settled : String × Joined → Bool
is_settled (_, r) = is_committed r.state && is_succeeded r.canonical_state

abbrev pub is_compensation : String × Joined → Bool
is_compensation (k, r) = not (is_absent r.compensates_effect_id) && is_settled (k, r)

abbrev is_compensated : ObjectiveState → Bool
is_compensated compensated = true
is_compensated _ = false

-- `next(row["evidence_ref"] for row in rows if row["compensates_effect_id"])`
compensation_evidence : Table Joined → Option String
compensation_evidence [] = none
compensation_evidence ((_, r) ∷ t) =
    let rest = compensation_evidence t in
    if is_absent r.compensates_effect_id then rest else r.evidence_ref

-- The objective's row is found, and its state is another than `COMPENSATED`.
compensate_row : String → String → Table Joined → Option Objective → Tx (Unit {0})
unfolding update_objective insert_history compensation_evidence
compensate_row objective_id digest rows none = pure tt
compensate_row objective_id digest rows (some prior) =
    if is_compensated prior.state then pure tt else do
      update_objective objective_id
          (record { state = ObjectiveState.compensated; version = prior.version + 1 })
      evidence ← require_row (compensation_evidence rows) (not_null_violation "evidence_ref")
      insert_history (record {
        entity_id = objective_id;
        previous_state = some (objective_name prior.state);
        new_state = "COMPENSATED";
        command_id = text_append "compensated:" (text_append objective_id (text_append ":" digest));
        actor = "service:effects";
        evidence_ref = evidence;
      })

-- `if compensation_succeeded:`
compensate : Bool → String → String → Table Joined → Tx (Unit {0})
unfolding compensate_row
compensate false objective_id digest rows = pure tt
compensate true objective_id digest rows = do
  prior ← gets (λ db. get objective_id db.objectives)
  compensate_row objective_id digest rows prior

abbrev pub new_guard : String → ℕ → Bool → Guard
new_guard digest count ready = record {
  effect_set_digest = digest;
  effect_count = count;
  ready = ready;
}

unfoldable pub write_guard : String → Guard → Tx (Unit {0})
unfolding ◌>>=◌
write_guard objective_id g = modify (λ db. record db { guards = put objective_id g db.guards })

-- `guard_objective_effects`: its result is the guard that it stored.
pub guard_objective_effects : (String → String) → String → List String → String → Tx Guard
unfolding compensate write_guard joined_effects effect_set_digest sorted_set texts_eq
guard_objective_effects sha256 objective_id effect_ids digest = do
  raise_if
      (elim effect_ids [ [] ↦ true | _ ∷ _ ↦ false ]
        || not (texts_eq effect_ids (sorted_set effect_ids)))
      (value_error "effect set must be nonempty, sorted, and unique")
  raise_if (not (digest == effect_set_digest sha256 effect_ids))
      (value_error "effect set digest mismatch")
  rows ← gets (joined_effects objective_id)
  raise_if (not (texts_eq (keys rows) effect_ids))
      (value_error "effect set does not match PostgreSQL")
  let compensated = any is_compensation rows
  let guard = new_guard digest (length effect_ids) (not compensated && all is_settled rows)
  compensate compensated objective_id digest rows
  write_guard objective_id guard
  pure guard

abbrev committed_effect : String → Option Effect → Bool
committed_effect objective_id none = false
committed_effect objective_id (some e) = e.activation_id == objective_id && is_committed e.state

-- `invalidate_objective_effect_guard`
pub invalidate_objective_effect_guard : String → String → Tx (Unit {0})
unfolding write_guard
invalidate_objective_effect_guard objective_id compensates_effect_id = do
  original ← gets (λ db. get compensates_effect_id db.durable_effects)
  raise_if (not (committed_effect objective_id original))
      (value_error "compensation original is not a committed objective effect")
  row ← gets (λ db. get objective_id db.guards)
  guard ← require_row row (value_error "objective has no completion guard to invalidate")
  write_guard objective_id (record guard { ready = false })
