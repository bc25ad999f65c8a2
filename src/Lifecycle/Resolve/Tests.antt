-- ===== src/Lifecycle/Resolve/Tests.antt =====
-- A test of the resolution on concrete tables.

use nix_ai.Lifecycle.Db.{Activation}
use nix_ai.Json.{str, get_field}
use nix_ai.Lifecycle.Resolve.{
  resolve_activation, public_row, is_exact, is_current, is_timely, is_credential, strict_int,
}
use nix_ai.Table.{get, find_row}
use nix_ai.Prelude.{ℕ, some, ◌≡◌, true, refl, ◌^◌, ◌-◌}
use nix_ai.Lifecycle.Capabilities.{active_set}
use nix_ai.Lifecycle.States.{is_live}
use nix_ai.Lifecycle.Examples.{digest, held, bound_row, shown}
use nix_ai.Lifecycle.Resolve.Grants.{resolve_activation-eq-ok}

resolve_activation-eq-ok_example :
    (a : Activation) × (deadline : ℕ) × (get "activation:1" held.activations ≡ some a)
    × (public_row bound_row ≡ public_row a)
    × (is_exact a shown ≡ true)
    × (is_current a held.active_generation (active_set held.capability_sets) ≡ true)
    × (is_live a.state ≡ true)
    × (is_timely 40 a deadline ≡ true)
    × (is_credential digest a (str "secret") ≡ true)
    × (held ≡ held)
    × (strict_int (2 ^ 63 - 1) (get_field "deadline" shown) ≡ some deadline)
    × (get_field "activation_id" shown ≡ str "activation:1")
unfolding resolve_activation get find_row
resolve_activation-eq-ok_example =
    resolve_activation-eq-ok digest shown (str "secret") 40 held held "activation:1"
      (public_row bound_row) refl
