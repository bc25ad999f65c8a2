-- ===== src/Lifecycle/Capabilities.antt =====
-- Capability activation sets: `publish_capability_activation_set`.

-- The typed arguments of a publication, once its checks have passed.
use nix_ai.Prelude.{
  String, Option, Bool, List, ℕ, true, starts_with, ◌&&◌, ◌∷◌, false, some, not, any, ◌==◌,
  if◌then◌else◌, ◌+◌, none, beq, text_append, value_error, [], all, unique_violation, is_empty_text,
  ◌++◌,
}
use nix_ai.Lifecycle.Transaction.{
  ◌>>=◌, recorded, Tx, modify, gets, pure, ◌>>◌, raise_if, fingerprint, once,
}
use nix_ai.Table.{Table, find_row, put, get}
use nix_ai.Json.{Json, str, object, array, boolean, maybe_str, nat}
use nix_ai.Lifecycle.Db.{CapabilitySet, CapabilityRow, ActiveGeneration}
use nix_ai.Lifecycle.Sorted.{sorted_set, texts_eq}

pub record Publication : Type 0 where
  pub command_id : String
  pub set_id : String
  pub generation_id : String
  pub grant_ids : List String
  pub evidence_ref : String
  pub expected_active_set_id : Option String
  pub expected_active_version : ℕ

abbrev opt_prefixed : Option String → Bool
opt_prefixed none = true
opt_prefixed (some s) = starts_with s "capability-set:"

-- The first test of `publish_capability_activation_set`.
pub is_publication : Publication → Bool
is_publication p =
    starts_with p.set_id "capability-set:"
    && (starts_with p.generation_id "generation:"
        && (not (elim p.grant_ids [ [] ↦ true | _ ∷ _ ↦ false ])
            && (all (λ g. starts_with g "grant:") p.grant_ids
                && (starts_with p.command_id "command:"
                    && (opt_prefixed p.expected_active_set_id
                        && not (is_empty_text p.evidence_ref))))))

grant_texts : List String → List Json
grant_texts [] = []
grant_texts (g ∷ gs) = str g ∷ grant_texts gs

unfoldable pub write_set : String → CapabilitySet → Tx (Unit {0})
unfolding ◌>>=◌
write_set set_id s = modify (λ db. record db { capability_sets = put set_id s db.capability_sets })

-- INSERT INTO capability_activation_set_history
unfoldable pub insert_capability : CapabilityRow → Tx (Unit {0})
unfolding ◌>>=◌
insert_capability row = do
  used ←
      gets
        (λ db. any (λ r. r.set_id == row.set_id && beq r.version row.version) db.capability_history)
  raise_if used (unique_violation "capability_activation_set_history_pkey")
  sent ← gets (λ db. any (λ r. r.command_id == row.command_id) db.capability_history)
  raise_if sent (unique_violation "capability_activation_set_history_command")
  modify (λ db. record db { capability_history = db.capability_history ++ row ∷ [] })

-- SELECT * FROM capability_activation_sets WHERE active
unfoldable pub active_set : Table CapabilitySet → Option (String × CapabilitySet)
active_set = find_row (λ _ s. s.active)

abbrev same_set : Publication → List String → Option CapabilitySet → Bool
same_set p grants none = true
same_set p grants (some s) = s.generation_id == p.generation_id && texts_eq s.grant_ids grants

-- `actual_active_id`, `actual_active_version` against what the publisher expects.
abbrev is_expected : Publication → Option (String × CapabilitySet) → Bool
is_expected p none = elim p.expected_active_set_id [
  | none ↦ beq 0 p.expected_active_version
  | some _ ↦ false
]
is_expected p (some (k, s)) = elim p.expected_active_set_id [
  | none ↦ false
  | some e ↦ k == e && beq s.version p.expected_active_version
]

-- `if active and active["set_id"]!=set_id:`
deactivate : Publication → Option (String × CapabilitySet) → Tx (Unit {0})
unfolding write_set insert_capability
deactivate p none = pure tt
deactivate p (some (k, s)) = if k == p.set_id then pure tt else do
  write_set k (record s { active = false; version = s.version + 1 })
  insert_capability (record {
    set_id = k;
    version = s.version + 1;
    generation_id = s.generation_id;
    grant_ids = s.grant_ids;
    evidence_ref = p.evidence_ref;
    command_id = text_append p.command_id ":deactivate";
    active = false;
  })

abbrev next_set_version : Option CapabilitySet → ℕ
next_set_version none = 1
next_set_version (some s) = s.version + 1

abbrev is_active_generation : String → Option ActiveGeneration → Bool
is_active_generation generation none = false
is_active_generation generation (some b) = b.active_generation == generation

publish_body : Publication → List String → String → Tx Json
unfolding deactivate active_set grant_texts write_set insert_capability recorded
publish_body p grants fp = do
  generation ← gets (λ db. db.active_generation)
  raise_if (not (is_active_generation p.generation_id generation))
      (value_error "capability set must bind the active generation")
  existing ← gets (λ db. get p.set_id db.capability_sets)
  raise_if (not (same_set p grants existing))
      (value_error "CONFLICT: capability activation-set identity reused")
  active ← gets (λ db. active_set db.capability_sets)
  raise_if (not (is_expected p active)) (value_error "CONFLICT: active capability set changed")
  deactivate p active
  let version = next_set_version existing
  write_set p.set_id (record {
    generation_id = p.generation_id;
    grant_ids = grants;
    evidence_ref = p.evidence_ref;
    active = true;
    version = version;
  })
  insert_capability (record {
    set_id = p.set_id;
    version = version;
    generation_id = p.generation_id;
    grant_ids = grants;
    evidence_ref = p.evidence_ref;
    command_id = p.command_id;
    active = true;
  })
  recorded p.command_id fp (
      object (
        ("set_id", str p.set_id)
        ∷ ("generation_id", str p.generation_id)
        ∷ ("grant_ids", array (grant_texts grants))
        ∷ ("evidence_ref", str p.evidence_ref)
        ∷ ("active", boolean true)
        ∷ ("version", nat version)
        ∷ []))

-- `publish_capability_activation_set`
pub publish_capability_activation_set : (String → String) → Publication → Tx Json
unfolding ◌>>=◌ is_publication sorted_set grant_texts
publish_capability_activation_set sha256 p = do
  raise_if (not (is_publication p))
      (value_error "complete capability activation-set binding is required")
  let grants = sorted_set p.grant_ids
  let fp = fingerprint sha256 "capability_activation_set" (
      str p.set_id
      ∷ str p.generation_id
      ∷ array (grant_texts grants)
      ∷ str p.evidence_ref
      ∷ maybe_str p.expected_active_set_id
      ∷ nat p.expected_active_version
      ∷ [])
  once p.command_id fp (publish_body p grants fp)
