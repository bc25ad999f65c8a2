-- ===== src/Protocol/Roles/Owners.antt =====
-- Theorems on the roles of change_role.py and the owners of protocol.py.

-- A role of change_role.py may ask for a state exactly if the state authority takes that transition
-- from the role's service.
use nix_ai.Protocol.Roles.{role_may, owner, Role, runtime, role_service, service_name}
use nix_ai.Protocol.Repository.{owns_transition, change_state}
use nix_ai.Prelude.{none, some, String, ◌≡◌, true, false, ◌↔◌, some, arith, Bool, ◌==◌, ◌&&◌}
use nix_ai.Lifecycle.Db.{ChangeState}
use nix_ai.Json.{Json, py_eq, str}

pub role_may-owner :
    (r : Role) (s : ChangeState) → role_may r s ≡ true ↔ owner s ≡ some (role_service r)
unfolding role_may owner
role_may-owner r s = (ground arith, ground arith)

none_of_runtime :
    (s : ChangeState) (b : Bool)
    → (elim (owner s) as (λ _. Bool) [
      | none ↦ false
      | some o ↦ service_name o == service_name runtime
    ]
        && b)
      ≡ false
unfolding owner
none_of_runtime s b = ground arith

-- The runtime may name `change_transition`, but owns no transition: its call is always refused.
pub runtime-owns_none :
    (state : String) (actor : Json) → owns_transition runtime state actor ≡ false
unfolding owns_transition owner
runtime-owns_none state actor =
    none_of_runtime (change_state state) (py_eq actor (str (service_name runtime)))
