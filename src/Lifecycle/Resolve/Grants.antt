-- ===== src/Lifecycle/Resolve/Grants.antt =====
-- Theorems on `_resolve_activation`.

use mathlib.Core.Path.{subst}
use nix_ai.Lifecycle.Resolve.{
  resolve_checks, resolve_activation, is_exact, is_current, public_row, is_timely, is_credential,
  denied, is_binding, strict_int, query_key, field_is,
}
use nix_ai.Lifecycle.Transaction.{◌>>=◌, raise_if, ◌>>◌}
use nix_ai.Prelude.{
  String, ℕ, ◌≡◌, ok, true, some, Bool, not, ◌&&◌, activation_invalid, arith, ◌^◌, ◌-◌, ap, sym,
  ◌∙◌,
}
use nix_ai.Json.{Json, is_nonempty_str, get_field, py_eq, maybe_nat, str}
use nix_ai.Lifecycle.Db.{Activation, Db}
use nix_ai.Table.{get}
use nix_ai.Lifecycle.Capabilities.{active_set}
use nix_ai.Lifecycle.States.{is_live}
use nix_ai.Lifecycle.Transaction.Inversion.{
  lift-eq-ok, raise_if-eq-ok, require_row-eq-ok, bind-eq-ok, pure-eq-ok,
}

resolve_checks-eq-ok :
    (sha256 : String → String) (binding credential : Json) (now deadline : ℕ) (a : Activation)
    (db db' : Db) (u : Unit {0})
    → resolve_checks sha256 binding credential now deadline a db ≡ ok (u, db')
    → (is_exact a binding ≡ true)
      × (is_current a db.active_generation (active_set db.capability_sets) ≡ true)
      × (is_live a.state ≡ true)
      × (is_timely now a deadline ≡ true)
      × (is_credential sha256 a credential ≡ true)
      × (db ≡ db')
unfolding resolve_checks ◌>>=◌
resolve_checks-eq-ok sha256 binding credential now deadline a db db' u h =
    five (is_exact a binding) (is_current a db.active_generation (active_set db.capability_sets))
      (is_live a.state) (is_timely now a deadline) (is_credential sha256 a credential) h
  where
    five :
        (p q r s t : Bool)
        → ((raise_if (not p) (denied "activation binding does not match authoritative state")
              >> (raise_if
                    (not q)
                    (denied "activation generation or capability set is no longer active")
                  >> (raise_if (not r) (denied "activation is not active")
                      >> (raise_if (not s) (
                            activation_invalid
                              "activation or request deadline is expired or out of scope")
                          >> raise_if (not t) (denied "activation credential is invalid")))))
            db)
          ≡ ok (u, db')
        → (p ≡ true) × (q ≡ true) × (r ≡ true) × (s ≡ true) × (t ≡ true) × (db ≡ db')
    five p q r s t h =
        (ground arith, ground arith, ground arith, ground arith, ground arith, ground arith)

query_key-eq-ok : (j : Json) (k : String) → query_key j ≡ ok k → j ≡ str k
query_key-eq-ok (str s) k h = ground (arith, h)
query_key-eq-ok j k h = cc

-- An activation is resolved only for the row that the binding's `activation_id` names: the binding's
-- machine, agent, objective, fence, generation, capability set and trace are those of the row, the
-- row's generation and capability set are active, it is live, its lease and its deadline are to come,
-- the binding's deadline is to come and not behind the row's, and the credential is the one whose
-- digest the row holds. The answer is that row without its credential, and nothing is written.
pub resolve_activation-eq-ok :
    (sha256 : String → String) (binding credential : Json) (now : ℕ) (db db' : Db) (k : String)
    (row : Activation)
    → resolve_activation sha256 binding credential now db ≡ ok ((k, row), db')
    → (a : Activation) × (deadline : ℕ) × (get k db.activations ≡ some a)
      × (row ≡ public_row a)
      × (is_exact a binding ≡ true)
      × (is_current a db.active_generation (active_set db.capability_sets) ≡ true)
      × (is_live a.state ≡ true)
      × (is_timely now a deadline ≡ true)
      × (is_credential sha256 a credential ≡ true)
      × (db ≡ db')
      × (strict_int (2 ^ 63 - 1) (get_field "deadline" binding) ≡ some deadline)
      × (get_field "activation_id" binding ≡ str k)
unfolding resolve_activation
resolve_activation-eq-ok sha256 binding credential now db db' k row h =
    let (_, h) =
      raise_if-eq-ok {db = db} (not (is_binding binding && is_nonempty_str credential))
        (activation_invalid "complete activation binding and credential are required") _ h in
    let (fence, _, h) =
      require_row-eq-ok {db = db} (strict_int (2 ^ 64 - 1) (get_field "lease_fence" binding))
        (activation_invalid "activation fence and deadline are invalid") _ h in
    let (deadline, asked, h) =
      require_row-eq-ok {db = db} (strict_int (2 ^ 63 - 1) (get_field "deadline" binding))
        (activation_invalid "activation fence and deadline are invalid") _ h in
    let (activation_id, keyed, h) =
      lift-eq-ok {db = db} (query_key (get_field "activation_id" binding)) _ h in
    let (a, found, h) =
      require_row-eq-ok {db = db} (get activation_id db.activations)
        (denied "activation is not authorized") _ h in
    let (u, d, checked, h) =
      bind-eq-ok (resolve_checks sha256 binding credential now deadline a) _ db h in
    let (exact, current, live, timely, right, same) =
      resolve_checks-eq-ok sha256 binding credential now deadline a db d u checked in
    let (pair, rest) = pure-eq-ok {a = (activation_id, public_row a)} {db = d} h in
    (
      a,
      deadline,
      subst (λ i. get i db.activations ≡ some a) (ap (λ p. p.0) pair) found,
      sym (ap (λ p. p.1) pair),
      exact,
      current,
      live,
      timely,
      right,
      same ∙ rest,
      asked,
      query_key-eq-ok (get_field "activation_id" binding) k (keyed ∙ ap (λ p. ok p.0) pair),
    )

-- A binding that matches a row has its fence.
pub is_exact-lease_fence :
    (a : Activation) (binding : Json)
    → is_exact a binding ≡ true
    → py_eq (maybe_nat a.lease_fence) (get_field "lease_fence" binding) ≡ true
unfolding is_exact
is_exact-lease_fence a binding h =
    fourth (field_is "machine_id" binding a.machine_id) (field_is "agent_id" binding a.agent_id)
      (field_is "objective_id" binding (some a.objective_id)) _ _ h
  where
    fourth : (p q r s t : Bool) → (p && (q && (r && (s && t)))) ≡ true → s ≡ true
    fourth p q r s t h = ground arith
