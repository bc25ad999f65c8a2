-- ===== src/Protocol/Roles/Tests.antt =====
-- Tests of who may move a governed change.

use nix_ai.Protocol.Roles.{role_may, evaluator, runtime, owner, Service}
use nix_ai.Protocol.Repository.{owns_transition}
use nix_ai.Lifecycle.Db.{rejected}
use nix_ai.Json.{str}
use nix_ai.Prelude.{◌≡◌, true, false, ◌↔◌, some}
use nix_ai.Protocol.Roles.Owners.{runtime-owns_none, role_may-owner}

role_may-owner_example :
    role_may evaluator rejected ≡ true ↔ owner rejected ≡ some Service.evaluator
role_may-owner_example = role_may-owner evaluator rejected

runtime-owns_none_example : owns_transition runtime "STAGED" (str "service:runtime") ≡ false
runtime-owns_none_example = runtime-owns_none "STAGED" (str "service:runtime")
