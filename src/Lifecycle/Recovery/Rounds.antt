-- ===== src/Lifecycle/Recovery/Rounds.antt =====
-- The rounds of `recover_expired`: a round leaves the rows of the other rounds alone.
use nix_ai.Lifecycle.Recovery.{
  Recovered, is_expired, recover_expired, publish_recovery, write_recovered, recover_fenced,
  recover_unfenced, recover_row, recover_rows, recovery_payload, recovered_binding,
  recovery_command, leased_by, released_wake, recovered_row, wake_ref,
}
use nix_ai.Prelude.{
  String, ◌∷◌, [], text_append, ◌≢◌, unique_violation, ◌∙◌, Option, any, Bool, some, ◌==◌,
  if◌then◌else◌, ◌≡◌, not, is_some, none, value_error, true, ◌+◌, false, arith, eq_iff, ℕ, List, ok,
  Bool-cases, inl, some_inj, sym, inr,
}
use nix_ai.Lifecycle.Db.{Activation, Wake, BindingRow, HistoryRow, Db}
use nix_ai.Lifecycle.Activations.{write_activation, index_conflict}
use nix_ai.Lifecycle.Wakes.{update_wake}
use nix_ai.Lifecycle.Transaction.Rules.{
  Keeps, Keeps-bind, Keeps-modify, Keeps-gets, Keeps-raise_if, Keeps-raise, Keeps-lift, Keeps-pure,
  Keeps-require_row,
}
use nix_ai.Lifecycle.Claims.Fences.{HasActivation}
use nix_ai.Table.{put, get, Table, IsTable, rows_where}
use nix_ai.Table.Laws.{get-put_ne, rows_where-get, rows_where-IsTable}
use nix_ai.Lifecycle.Claims.{Publisher}
use nix_ai.Json.{Json, is_prefixed, as_str}
use nix_ai.Lifecycle.Recovery.Leases.{
  recover_row-HasActivation, recovered-unresolved, rows-HasActivation,
}
use nix_ai.Lifecycle.Transaction.{Tx, lift, pure}
use nix_ai.Lifecycle.Transaction.Inversion.{bind-eq-ok, pure-eq-ok}
use nix_ai.Lifecycle.Resolve.{resolve_activation}
use mathlib.Core.Path.{subst}
use nix_ai.Lifecycle.Transaction.Frames.{Keeps-ok}

module _ (j : String) (x : Activation) where
  write_activation-Keeps :
      (k : String) (a : Activation) → k ≢ j → Keeps (HasActivation j x) (write_activation k a)
  unfolding write_activation
  write_activation-Keeps k a other =
      Keeps-bind _ _ (Keeps-gets (λ db. index_conflict k a db.activations)) (λ conflict.
        Keeps-bind _ _ (Keeps-raise_if conflict (unique_violation "activations_one_live_objective"))
          (λ _.
            Keeps-modify (λ db. record db { activations = put k a db.activations })
              (λ db h. get-put_ne k j a db.activations other ∙ h)))

  update_wake-Keeps : (k : String) (w : Wake) → Keeps (HasActivation j x) (update_wake k w)
  unfolding update_wake
  update_wake-Keeps k w = Keeps-modify (λ db. record db { wakes = put k w db.wakes }) (λ db h. h)

  publish_recovery-Keeps :
      (publish : Publisher) (command_id : String) (payload : Json)
      → Keeps (HasActivation j x) (publish_recovery publish command_id payload)
  unfolding publish_recovery
  publish_recovery-Keeps none command_id payload = Keeps-raise _
  publish_recovery-Keeps (some publish) command_id payload =
      Keeps-bind (lift (publish command_id payload)) _ (Keeps-lift (publish command_id payload))
        (λ reference.
          Keeps-require_row (if is_prefixed "s3://" reference then as_str reference else none)
            (value_error "protected activation recovery evidence is invalid"))

  write_recovered-Keeps :
      (k : String) (a : Activation) (binding : BindingRow) (row : HistoryRow)
      → k ≢ j
      → Keeps (HasActivation j x) (write_recovered k a binding row)
  unfolding write_recovered
  write_recovered-Keeps k a binding row other =
      Keeps-bind (write_activation k (recovered_row a)) _
        (write_activation-Keeps k (recovered_row a) other) (λ _. rows-HasActivation j x binding row)

  recover_fenced-Keeps :
      (publish : Publisher) (k : String) (a : Activation) (wake_id : Option String)
      → k ≢ j
      → Keeps (HasActivation j x) (recover_fenced publish k a wake_id)
  unfolding recover_fenced
  recover_fenced-Keeps publish k a wake_id other =
      Keeps-bind _ _ (Keeps-gets (λ db. any (λ r. r.activation_id == k) db.binding_history))
        (λ known.
          Keeps-bind _ _
            (Keeps-raise_if (not known)
              (value_error "activation binding history is missing during recovery"))
            (λ _.
              Keeps-bind _ _
                (Keeps-raise_if (not (is_some publish))
                  (value_error "protected activation recovery evidence publisher is unavailable"))
                (λ _.
                  Keeps-bind _ _
                    (Keeps-require_row wake_id
                      (value_error "activation binding has no recoverable wake"))
                    (λ wake_key. Keeps-bind _ _ (Keeps-gets (λ db. get wake_key db.wakes)) (λ row.
                      Keeps-bind _ _
                        (Keeps-require_row (leased_by a.lease_owner row)
                          (value_error "activation wake lease disagrees during recovery"))
                        (λ wake.
                          Keeps-bind _ _
                            (publish_recovery-Keeps publish (recovery_command k (a.version + 1)) (
                              recovery_payload (recovery_command k (a.version + 1)) k a wake_key
                                wake))
                            (λ evidence.
                              Keeps-bind _ _ (update_wake-Keeps wake_key (released_wake wake)) (λ _.
                                write_recovered-Keeps k a
                                  (record {
                                    activation_id = k;
                                    version = a.version + 1;
                                    command_id = recovery_command k (a.version + 1);
                                    binding = recovered_binding k a;
                                    evidence_ref = evidence;
                                  })
                                  (record {
                                    entity_id = wake_key;
                                    previous_state = some "LEASED";
                                    new_state = "RELEASED";
                                    command_id =
                                        text_append (recovery_command k (a.version + 1)) ":wake";
                                    actor = "service:state-recovery";
                                    evidence_ref = evidence;
                                  })
                                  other))))))))

  recover_unfenced-Keeps :
      (k : String) (a : Activation) (wake_id : Option String)
      → k ≢ j
      → Keeps (HasActivation j x) (recover_unfenced k a wake_id)
  unfolding recover_unfenced
  recover_unfenced-Keeps k a none other = write_activation-Keeps k (recovered_row a) other
  recover_unfenced-Keeps k a (some wake_id) other =
      Keeps-bind _ _ (Keeps-gets (λ db. get wake_id db.wakes)) (λ wake.
        Keeps-bind _ _ (released (leased_by a.lease_owner wake))
          (λ _. write_activation-Keeps k (recovered_row a) other))
    where
      released :
          (o : Option Wake)
          → Keeps (HasActivation j x) (elim o as (λ _. Tx (Unit {0})) [
            | none ↦ pure tt
            | some w ↦ update_wake wake_id (released_wake w)
          ])
      released none = Keeps-pure tt
      released (some w) = update_wake-Keeps wake_id (released_wake w)

  recover_row-Keeps :
      (publish : Publisher) (k : String) (a : Activation)
      → k ≢ j
      → Keeps (HasActivation j x) (recover_row publish k a)
  unfolding recover_row
  recover_row-Keeps publish k a other =
      Keeps-bind _ _ (from (is_some a.lease_fence)) (λ _. Keeps-pure _)
    where
      from :
          (b : Bool)
          → Keeps (HasActivation j x) (
              if b
              then recover_fenced publish k a (wake_ref a)
              else recover_unfenced k a (wake_ref a))
      from true = recover_fenced-Keeps publish k a (wake_ref a) other
      from false = recover_unfenced-Keeps k a (wake_ref a) other

  -- The rounds over rows that the key is not among.
  recover_rows-Keeps :
      (publish : Publisher) (rows : Table Activation)
      → get j rows ≡ none
      → Keeps (HasActivation j x) (recover_rows publish rows)
  unfolding recover_rows get
  recover_rows-Keeps publish [] h = Keeps-pure _
  recover_rows-Keeps publish ((k, a) ∷ rows) h =
      Keeps-bind _ _ (recover_row-Keeps publish k a (λ same. ground (arith, h, eq_iff k j, same)))
        (λ first.
          Keeps-bind _ _ (recover_rows-Keeps publish rows (ground (arith, h)))
            (λ rest. Keeps-pure _))

-- Every row that a round was made for is the recovered one at the end.
recover_rows-HasActivation :
    (publish : Publisher) (rows : Table Activation) (k : String) (a : Activation) (db db' : Db)
    (l : List Recovered)
    → IsTable rows
    → get k rows ≡ some a
    → recover_rows publish rows db ≡ ok (l, db')
    → HasActivation k (recovered_row a) db'
unfolding recover_rows get
recover_rows-HasActivation publish [] k a db db' l t found h = absurd (not_none found)
  where
    not_none : ◌≡◌ {A = Option Activation} none (some a) → ⊥
    not_none e = cc
recover_rows-HasActivation publish ((i, b) ∷ rows) k a db db' l t found h =
    let (x, d, first, h) = bind-eq-ok (recover_row publish i b) _ db h in
    let (rest, d', others, h) = bind-eq-ok (recover_rows publish rows) _ d h in
    let (_, same) = pure-eq-ok {db = d'} h in
    subst (HasActivation k (recovered_row a)) same (elim (Bool-cases (i == k)) [
      | inl found_here ↦
          let here : get k ((i, b) ∷ rows) ≡ some b = ground (arith, found_here) in
          let at : i ≡ k = ground (arith, eq_iff i k, found_here) in
          subst (λ c. HasActivation k (recovered_row c) d') (some_inj (sym here ∙ found))
            (Keeps-ok (recover_rows publish rows) d
              (recover_rows-Keeps k (recovered_row b) publish rows
                (subst (λ j. get j rows ≡ none) at t.0))
              (subst (λ j. HasActivation j (recovered_row b) d) at
                (recover_row-HasActivation publish i b db d x first))
              others)
      | inr elsewhere ↦
          recover_rows-HasActivation publish rows k a d d' rest t.1
            (ground (arith, elsewhere, found)) others
    ])

-- A lease that was taken back ends its binding: after a recovery that succeeds, an activation whose
-- lease had expired is not resolved, whatever the binding, the credential and the time.
pub recover_expired-unresolved :
    (sha256 : String → String) (publish : Publisher) (now : ℕ) (db db' : Db) (l : List Recovered)
    (k : String) (a : Activation) (row : Activation) (binding credential : Json) (later : ℕ)
    (d : Db)
    → IsTable db.activations
    → get k db.activations ≡ some a
    → is_expired now a ≡ true
    → recover_expired publish now db ≡ ok (l, db')
    → ¬ (resolve_activation sha256 binding credential later db' ≡ ok ((k, row), d))
unfolding recover_expired
recover_expired-unresolved sha256 publish now db db' l k a row binding credential later d t found
      expired h =
    recovered-unresolved sha256 k a row binding credential later db' d (
      recover_rows-HasActivation publish (rows_where (λ _ b. is_expired now b) db.activations) k a
        db db' l (rows_where-IsTable (λ _ b. is_expired now b) db.activations t)
        (rows_where-get (λ _ b. is_expired now b) db.activations found expired) h)
