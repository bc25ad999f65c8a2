-- ===== src/Lifecycle/Effects/Tests.antt =====
-- Tests of the effect projection on concrete tables.

use nix_ai.Lifecycle.Effects.{Observed, observe_effect_transition}
use nix_ai.Lifecycle.Effects.Outcomes.{is_failure, observe_effect_transition-failure}
use nix_ai.Lifecycle.Db.{observed_failed, dispatched, empty}
use nix_ai.Table.{get}
use nix_ai.Prelude.{some, ◌≢◌, ok, refl}
use nix_ai.Lifecycle.Examples.{digest}
use nix_ai.Json.{null}

abbrev failed_call : Observed
failed_call = record {
  effect_id = "effect:1";
  objective_id = "objective:1";
  request_digest = "sha256:aaaaaaaaaaaaaaaaaaaaaaaaaaaaaaaaaaaaaaaaaaaaaaaaaaaaaaaaaaaaaaaa";
  new_state = observed_failed;
  evidence_ref = some "evidence:1";
  external_ref = some "provider://call/1";
}

observe_effect_transition-failure_example :
    observe_effect_transition digest "transition:1" failed_call (some dispatched) empty
    ≢ ok (null, empty)
unfolding is_failure get
observe_effect_transition-failure_example =
    observe_effect_transition-failure digest "transition:1" failed_call (some dispatched) empty
      empty null refl refl
