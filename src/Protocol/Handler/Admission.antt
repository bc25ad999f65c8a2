-- ===== src/Protocol/Handler/Admission.antt =====
-- A theorem on the requests that reach the repository.

use nix_ai.Protocol.Repository.{Repository, dispatch}
use nix_ai.Prelude.{
  none, some, ℕ, ◌≢◌, ◌≡◌, some, true, ◌&&◌, not, ◌==◌, false, Bool, Option, if◌then◌else◌,
  Bool-cases, inl, arith, inr, refl,
}
use nix_ai.Protocol.Handler.{
  Server, serve, is_admitted, operation_of, uid_is, token_of, Response, unauthorized, finish,
  failure, is_dict,
}
use nix_ai.Protocol.Roles.{Service, Operation, may_call, is_effect_operation}
use nix_ai.Json.{Json, get_field}

module _ {S : Type 0} (repository : Repository S) (now : ℕ) (server : Server) where
  -- A request that changed the state of the repository named an operation that its principal may
  -- call; if that is an effect operation, it came from the effect service's user with its token.
  pub serve-is_admitted :
      (principal : Service) (uid : ℕ) (request : Json) (s : S)
      → (serve repository now server principal uid request s).1 ≢ s
      → (operation : Operation) × (operation_of request ≡ some operation)
        × (may_call principal operation ≡ true)
        × ((is_effect_operation operation
              && not (
                  uid_is server.effect_uid uid
                  && token_of (get_field "admission_token" request) == server.effect_token))
            ≡ false)
  unfolding serve is_admitted
  serve-is_admitted principal uid request s changed =
      from (is_dict request) (operation_of request) refl changed
    where
      from :
          (b : Bool) (o : Option Operation)
          → operation_of request ≡ o
          → (if b
              then elim o as (λ _. Option Response × S) [
                | none ↦ (some unauthorized, s)
                | some operation ↦
                    if is_admitted server principal uid request operation
                    then finish repository now server
                        (dispatch repository now operation request principal s)
                    else (some unauthorized, s)
              ]
              else (some (failure "corrupt" "request must be a JSON object"), s)).1
            ≢ s
          → (operation : Operation) × (operation_of request ≡ some operation)
            × (may_call principal operation ≡ true)
            × ((is_effect_operation operation
                  && not (
                      uid_is server.effect_uid uid
                      && token_of (get_field "admission_token" request) == server.effect_token))
                ≡ false)
      from false o e changed = absurd (changed refl)
      from true none e changed = absurd (changed refl)
      from true (some operation) e changed =
          elim (Bool-cases (is_admitted server principal uid request operation)) [
            | inl admitted ↦ (operation, e, ground (arith, admitted), ground (arith, admitted))
            | inr refused ↦ absurd (changed (rw refused refl))
          ]
