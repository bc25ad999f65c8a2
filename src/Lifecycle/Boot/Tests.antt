-- ===== src/Lifecycle/Boot/Tests.antt =====
-- Tests of the boot report on concrete tables.
use nix_ai.Lifecycle.Boot.{BootTables, counted, effects_classified, is_nonterminal, is_inconsistent}
use nix_ai.Lifecycle.Db.{EffectState, Db, Effect, ProviderState, empty}
use nix_ai.Table.{get, pick}
use nix_ai.Prelude.{[], ◌≡◌, none, ◌∷◌, false, refl}
use nix_ai.Lifecycle.Examples.{artifact}
use nix_ai.Lifecycle.Boot.Readiness.{effects_classified-rejected, effects_classified-ended}

abbrev boot : BootTables
boot = record {
  effect_archive = [];
  activation_archive = [];
  effects = [];
  events = [];
  attempts = [];
}

abbrev effect_in : EffectState → Effect
effect_in state = record {
  activation_id = "objective:1";
  request_digest = artifact;
  state = state;
  external_ref = none;
  evidence_ref = none;
  version = 1;
}

abbrev effect_db : EffectState → ProviderState → Db
effect_db state last = record empty {
  durable_effects = ("effect:1", effect_in state) ∷ [];
  provider_transitions =
      (
        "transition:1",
        record {
          effect_id = "effect:1";
          previous_state = none;
          new_state = last;
          request_digest = artifact;
          evidence_ref = none;
          sequence = 1;
        },
      )
      ∷ [];
}

abbrev settled : Db
settled = effect_db EffectState.committed ProviderState.observed_succeeded

effects_classified-ended_example :
    (is_nonterminal ("effect:1", effect_in EffectState.committed) ≡ false)
    × (is_inconsistent settled.provider_transitions ("effect:1", effect_in EffectState.committed)
        ≡ false)
unfolding counted effects_classified get pick
effects_classified-ended_example =
    effects_classified-ended boot 0 40 settled "effect:1" (effect_in EffectState.committed) refl
      refl

abbrev refused_effect : Db
refused_effect = effect_db EffectState.rejected ProviderState.rejected

effects_classified-rejected_example : effects_classified (counted boot 0 40 refused_effect) ≡ false
unfolding get
effects_classified-rejected_example =
    effects_classified-rejected boot 0 40 refused_effect "effect:1" (effect_in EffectState.rejected)
      refl refl
