-- ===== src/Lifecycle/Wakes/Tests.antt =====
-- Tests of the wakes on concrete tables.

use nix_ai.Prelude.{
  ℕ, String, Result, Bool, err, ok, ◌∷◌, false, runtime_error, none, [], ◌≡◌, ◌≢◌, some, arith,
  true, refl, ◌+◌,
}
use nix_ai.Lifecycle.Db.{Db, Wake, empty}
use nix_ai.Lifecycle.Wakes.{
  lease_wake, create_wake_tx, acknowledge_wake, leased_to, create_wake_body, acknowledge_body,
  create_wake, is_due, created_wake,
}
use nix_ai.Json.{Json}
use nix_ai.Table.{get, put, pick, find_row}
use nix_ai.Lifecycle.Examples.{digest, after_of, answer_of}
use nix_ai.Lifecycle.States.{WakeState}
use nix_ai.Lifecycle.Transaction.{once}
use nix_ai.Lifecycle.Wakes.Leases.{
  lease_wake_exclusive, lease_wake-grants, Leases, one_more, no_lease,
}
use nix_ai.Lifecycle.Wakes.Replays.{create_wake_retry, acknowledge_wake_again}

abbrev wake_at : ℕ → Wake
wake_at due = record {
  objective_id = "objective:1";
  state = WakeState.pending;
  due_at = due;
  lease_owner = none;
  lease_expires_at = none;
  version = 1;
  created_command = "command:1";
}

abbrev two_wakes : Db
two_wakes = record empty { wakes = ("wake:1", wake_at 5) ∷ ("wake:2", wake_at 7) ∷ [] }

abbrev no_lock : String → Bool
no_lock s = false

abbrev first_lease : Db
first_lease = record two_wakes {
  wakes = ("wake:1", leased_to "worker:1" 40 (wake_at 5)) ∷ ("wake:2", wake_at 7) ∷ [];
}

-- Another worker asks before any other wake is due.
abbrev asked : Leases 40 first_lease first_lease
unfolding lease_wake get put pick
asked =
    one_more no_lock "worker:3" 6 30 none {d = first_lease} {d' = first_lease} no_lease
      (omega arith) refl

abbrev second_lease : Db
second_lease = record two_wakes {
  wakes =
      ("wake:1", leased_to "worker:1" 40 (wake_at 5))
      ∷ ("wake:2", leased_to "worker:2" 41 (wake_at 7))
      ∷ [];
}

lease_wake-grants_example :
    (old : Wake) × (get "wake:1" two_wakes.wakes ≡ some old)
    × (is_due 10 old ≡ true)
    × (no_lock "wake:1" ≡ false)
    × (leased_to "worker:1" 40 (wake_at 5) ≡ leased_to "worker:1" (10 + 30) old)
    × (first_lease.wakes ≡ put "wake:1" (leased_to "worker:1" 40 (wake_at 5)) two_wakes.wakes)
unfolding lease_wake get put pick
lease_wake-grants_example =
    lease_wake-grants no_lock "worker:1" 10 30 two_wakes first_lease "wake:1"
      (leased_to "worker:1" 40 (wake_at 5)) (refl, (refl, tt)) refl

lease_wake_exclusive_example : ◌≢◌ {A = String} "wake:2" "wake:1"
unfolding lease_wake get put pick
lease_wake_exclusive_example =
    lease_wake_exclusive no_lock no_lock "worker:1" "worker:2" 10 11 30 30 two_wakes first_lease
      first_lease second_lease "wake:1" "wake:2" (leased_to "worker:1" 40 (wake_at 5))
      (leased_to "worker:2" 41 (wake_at 7)) (refl, (refl, tt)) refl asked (omega arith) refl

abbrev created : Result (Json × Db)
created = create_wake_tx digest "wake:1" "objective:1" "command:1" 5 empty

abbrev deaf : Json → Result (Unit {0})
deaf r = err (runtime_error "notifier is down")

abbrev told : Json → Result (Unit {0})
told r = ok tt

create_wake_retry_example :
    (create_wake digest "wake:1" "objective:1" "command:1" 5 deaf empty
      ≡ (err (runtime_error "notifier is down"), after_of created))
    × (get "wake:1" (after_of created).wakes ≡ some (created_wake "objective:1" "command:1" 5))
    × (create_wake digest "wake:1" "objective:1" "command:1" 5 told (after_of created)
        ≡ (ok (answer_of created), after_of created))
unfolding create_wake_tx create_wake_body once get put find_row
create_wake_retry_example =
    create_wake_retry digest "wake:1" "objective:1" "command:1" 5 empty (after_of created)
      (answer_of created) (runtime_error "notifier is down") deaf told refl refl refl refl

abbrev acknowledged_once : Result (Json × Db)
acknowledged_once = acknowledge_wake digest "wake:1" "command:2" "worker:1" 20 first_lease

acknowledge_wake_again_example :
    acknowledge_wake digest "wake:1" "command:2" "worker:1" 900 (after_of acknowledged_once)
    ≡ ok (answer_of acknowledged_once, after_of acknowledged_once)
unfolding acknowledge_wake acknowledge_body once get put leased_to
acknowledge_wake_again_example =
    acknowledge_wake_again digest "wake:1" "command:2" "worker:1" 20 900 first_lease
      (after_of acknowledged_once) (answer_of acknowledged_once) refl
