-- ===== src/Lifecycle/Recovery/Leases.antt =====
-- Theorems on `recover_expired`: a lease that was taken back is not resolved any more.
use nix_ai.Prelude.{
  String, ℕ, Option, ◌≡◌, ok, Bool, some, not, if◌then◌else◌, arith, any, none, ◌==◌, is_some,
  value_error, true, sym, false, ◌∙◌, ◌+◌, ap, some_inj,
}
use nix_ai.Lifecycle.Db.{Activation, HistoryRow, BindingRow, Db}
use nix_ai.Json.{Json}
use nix_ai.Lifecycle.Transaction.Rules.{Keeps, Keeps-bind}
use nix_ai.Lifecycle.Claims.Fences.{
  HasActivation, insert_binding-HasActivation, write_activation-HasActivation,
}
use nix_ai.Lifecycle.Transaction.{insert_history, ◌>>◌, Tx, pure}
use nix_ai.Lifecycle.Claims.{insert_binding, Publisher}
use nix_ai.Lifecycle.Recovery.{
  recovered_row, recover_fenced, recover_unfenced, recover_row, Recovered, leased_by, wake_ref,
  publish_recovery, recovery_command, released_wake, recovery_payload, write_recovered,
}
use nix_ai.Lifecycle.Transaction.Frames.{Keeps-insert_history, Keeps-ok}
use nix_ai.Lifecycle.Resolve.{resolve_activation, is_timely}
use nix_ai.Lifecycle.Transaction.Inversion.{
  raise_if-eq-ok, bind-eq-ok, pure-eq-ok, require_row-eq-ok,
}
use nix_ai.Table.{get, put}
use mathlib.Core.Path.{subst}
use nix_ai.Lifecycle.Resolve.Grants.{resolve_activation-eq-ok}
use nix_ai.Lifecycle.Wakes.{update_wake}
use nix_ai.Lifecycle.Activations.{write_activation}

insert_history-HasActivation :
    (k : String) (a : Activation) (row : HistoryRow)
    → Keeps (HasActivation k a) (insert_history row)
insert_history-HasActivation k a row = Keeps-insert_history row (λ db rows h. h)

-- The rows that follow the write of the activation leave it alone.
pub rows-HasActivation :
    (k : String) (a : Activation) (binding : BindingRow) (row : HistoryRow)
    → Keeps (HasActivation k a) (insert_binding binding >> insert_history row)
rows-HasActivation k a binding row =
    Keeps-bind (insert_binding binding) _ (insert_binding-HasActivation k a binding)
      (λ _. insert_history-HasActivation k a row)

write_recovered-HasActivation :
    (k : String) (a : Activation) (binding : BindingRow) (row : HistoryRow) (db db' : Db)
    (u : Unit {0})
    → write_recovered k a binding row db ≡ ok (u, db')
    → HasActivation k (recovered_row a) db'
unfolding write_recovered
write_recovered-HasActivation k a binding row db db' u h =
    let (v, d, written, h) =
      bind-eq-ok (write_activation k (recovered_row a))
        (λ _. insert_binding binding >> insert_history row) db h in
    Keeps-ok (insert_binding binding >> insert_history row) d
      (rows-HasActivation k (recovered_row a) binding row)
      (write_activation-HasActivation k (recovered_row a) db d v written) h

recover_fenced-HasActivation :
    (publish : Publisher) (k : String) (a : Activation) (wake_id : Option String) (db db' : Db)
    (u : Unit {0})
    → recover_fenced publish k a wake_id db ≡ ok (u, db')
    → HasActivation k (recovered_row a) db'
unfolding recover_fenced
recover_fenced-HasActivation publish k a wake_id db db' u h =
    let (_, h) =
      raise_if-eq-ok {db = db} (not (any (λ r. r.activation_id == k) db.binding_history))
        (value_error "activation binding history is missing during recovery") _ h in
    let (_, h) =
      raise_if-eq-ok {db = db} (not (is_some publish))
        (value_error "protected activation recovery evidence publisher is unavailable") _ h in
    let (wake_key, _, h) =
      require_row-eq-ok {db = db} wake_id (value_error "activation binding has no recoverable wake")
        _ h in
    let (wake, _, h) =
      require_row-eq-ok {db = db} (leased_by a.lease_owner (get wake_key db.wakes))
        (value_error "activation wake lease disagrees during recovery") _ h in
    let (evidence, d, _, h) =
      bind-eq-ok
        (publish_recovery publish (recovery_command k (a.version + 1))
          (recovery_payload (recovery_command k (a.version + 1)) k a wake_key wake))
        _ db h in
    write_recovered-HasActivation k a _ _
      (record d { wakes = put wake_key (released_wake wake) d.wakes }) db' u h

recover_unfenced-HasActivation :
    (k : String) (a : Activation) (wake_id : Option String) (db db' : Db) (u : Unit {0})
    → recover_unfenced k a wake_id db ≡ ok (u, db')
    → HasActivation k (recovered_row a) db'
unfolding recover_unfenced
recover_unfenced-HasActivation k a none db db' u h =
    write_activation-HasActivation k (recovered_row a) db db' u h
recover_unfenced-HasActivation k a (some wake_id) db db' u h =
    let (_, d, _, h) =
      bind-eq-ok
        (elim (leased_by a.lease_owner (get wake_id db.wakes)) as (λ _. Tx (Unit {0})) [
          | none ↦ pure tt
          | some w ↦ update_wake wake_id (released_wake w)
        ])
        _ db h in
    write_activation-HasActivation k (recovered_row a) d db' u h

pub recover_row-HasActivation :
    (publish : Publisher) (k : String) (a : Activation) (db db' : Db) (x : Recovered)
    → recover_row publish k a db ≡ ok (x, db')
    → HasActivation k (recovered_row a) db'
unfolding recover_row
recover_row-HasActivation publish k a db db' x h =
    let (u, d, done, h) =
      bind-eq-ok
        (if is_some a.lease_fence
          then recover_fenced publish k a (wake_ref a)
          else recover_unfenced k a (wake_ref a))
        _ db h in
    let (_, same) = pure-eq-ok {db = d} h in
    subst (HasActivation k (recovered_row a)) same (from (is_some a.lease_fence) done)
  where
    from :
        (b : Bool) {d : Db} {u : Unit {0}}
        → (if b then recover_fenced publish k a (wake_ref a) else recover_unfenced k a (wake_ref a))
            db
          ≡ ok (u, d)
        → HasActivation k (recovered_row a) d
    from true {d} {u} h = recover_fenced-HasActivation publish k a (wake_ref a) db d u h
    from false {d} {u} h = recover_unfenced-HasActivation k a (wake_ref a) db d u h

-- An activation whose lease was taken back is not resolved, whatever the binding, the credential
-- and the time.
pub recovered-unresolved :
    (sha256 : String → String) (k : String) (a row : Activation) (binding credential : Json)
    (now : ℕ) (db d : Db)
    → HasActivation k (recovered_row a) db
    → ¬ (resolve_activation sha256 binding credential now db ≡ ok ((k, row), d))
recovered-unresolved sha256 k a row binding credential now db d has h =
    let (b, deadline, found, _, _, _, _, timely, _, _, _, _) =
      resolve_activation-eq-ok sha256 binding credential now db d k row h in
    let same : b ≡ recovered_row a = some_inj (sym found ∙ has) in
    refused b deadline (ap (λ x. x.lease_expires_at) same) timely
  where
    refused :
        (b : Activation) (deadline : ℕ)
        → b.lease_expires_at ≡ none
        → is_timely now b deadline ≡ true
        → ⊥
    refused b deadline e h = ground (arith, e, h)
