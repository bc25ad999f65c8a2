-- ===== src/Lifecycle/Claims/Tests.antt =====
-- Tests of the claims on concrete tables.
use nix_ai.Lifecycle.Claims.{
  Publisher, claim_activation, is_row_proposed, claimable_wake, bound_set, is_reclaimable,
  prior_activation, claimed_row, claim_body,
}
use nix_ai.Prelude.{Result, some, ok, none, String, List, if◌then◌else◌, ◌≡◌, refl, true, ◌≤◌}
use nix_ai.Json.{Json, str, py_eq, get_field}
use nix_ai.Table.{get, put, find_row}
use nix_ai.Lifecycle.Db.{Db, Wake}
use nix_ai.Lifecycle.Examples.{
  digest, claim, shown, reclaimable, after_of, bound_row, answer_of, reclaimable_row,
}
use nix_ai.Lifecycle.Resolve.{resolve_activation}
use nix_ai.Lifecycle.Claims.Fences.{claim_activation-fences, claim_activation-eq-ok}
use nix_ai.Lifecycle.Capabilities.{active_set}

abbrev publisher : Publisher
publisher = some (λ command_id payload. ok (str "s3://evidence/sha256/1"))

abbrev claimed : Result (Json × Db)
claimed = claim_activation digest publisher none claim 40 reclaimable

claim_activation-eq-ok_example :
    (wake : Wake) × (bound : String × String × List String) × ((if is_row_proposed
          (get "objective:1" reclaimable.objectives)
        then claimable_wake claim 40 (get "wake:1" reclaimable.wakes)
        else none)
      ≡ some wake)
    × (bound_set reclaimable.active_generation (active_set reclaimable.capability_sets)
        ≡ some bound)
    × (is_reclaimable claim (prior_activation "objective:1" reclaimable.activations) ≡ true)
    × (get "activation:1" (after_of claimed).activations
        ≡ some
            (claimed_row claim 40 bound (prior_activation "objective:1" reclaimable.activations)))
    × (1 ≤ 60)
    × (60 ≤ 300)
unfolding claim_activation claim_body get put find_row py_eq get_field
claim_activation-eq-ok_example =
    claim_activation-eq-ok digest publisher none claim 40 reclaimable (after_of claimed)
      (answer_of claimed) refl refl

claim_activation-fences_example : ¬ (
    resolve_activation digest shown (str "secret") 50 (after_of claimed)
    ≡ ok (("activation:1", bound_row), after_of claimed))
unfolding claim_activation claim_body get put find_row py_eq get_field
claim_activation-fences_example =
    claim_activation-fences digest publisher none claim 40 50 reclaimable (after_of claimed)
      (after_of claimed) (answer_of claimed) "activation:1" reclaimable_row bound_row 3 shown
      (str "secret") refl refl refl refl refl
