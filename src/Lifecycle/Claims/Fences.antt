-- ===== src/Lifecycle/Claims/Fences.antt =====
-- Theorems on `claim_activation`: what a claim takes, and the fence that it sets up.
use nix_ai.Prelude.{
  String, ◌≡◌, some, ok, Option, ℕ, List, is_some, any, if◌then◌else◌, unique_violation, ◌==◌, ◌&&◌,
  none, beq, ◌++◌, ◌∷◌, [], true, value_error, not, not-false, ◌≤◌, sym, Bool, ◌+◌, arith, ◌∙◌,
  refl, ok_pair, leb, ap, beq→eq, leb→le, false, some_inj,
}
use nix_ai.Lifecycle.Activations.{write_activation, insert_activation, index_conflict}
use nix_ai.Lifecycle.Claims.{
  insert_binding, write_claim, claim_body, Publisher, Claim, is_row_proposed, claimable_wake,
  bound_set, is_reclaimable, prior_activation, claimed_row, publish_evidence, evidence_payload,
  claim_fields, claim_activation, is_claim, Verifier, claim_fingerprint, next_fence,
  has_identifiers, has_credential,
}
use nix_ai.Lifecycle.Wakes.{update_wake}
use nix_ai.Lifecycle.Db.{Activation, Db, BindingRow, Wake}
use nix_ai.Lifecycle.Transaction.{◌>>=◌, ◌>>◌, recorded}
use nix_ai.Table.{get, put}
use nix_ai.Lifecycle.Transaction.Rules.{Keeps, Keeps-bind, Keeps-modify}
use nix_ai.Json.{Json, py_eq, nat, get_field, int, maybe_nat, boolean, str, arr, obj, null}
use nix_ai.Lifecycle.Transaction.Inversion.{
  raise_if-eq-ok, require_row-eq-ok, bind-eq-ok, replay-fresh,
}
use nix_ai.Lifecycle.Transaction.Frames.{Keeps-recorded, Keeps-ok, Keeps-keyed_insert}
use nix_ai.Lifecycle.Capabilities.{active_set}
use nix_ai.Lifecycle.Resolve.{resolve_activation}
use nix_ai.Lifecycle.Resolve.Grants.{resolve_activation-eq-ok, is_exact-lease_fence}
use mathlib.Core.Path.{subst}
use nix_ai.Json.Int.{pos, negsuc}
use nix_ai.Table.Laws.{get-put_self}

abbrev pub HasActivation : String → Activation → Db → Type 0
HasActivation k a db = get k db.activations ≡ some a

pub write_activation-HasActivation :
    (k : String) (a : Activation) (db db' : Db) (u : Unit {0})
    → write_activation k a db ≡ ok (u, db')
    → HasActivation k a db'
unfolding write_activation ◌>>=◌
write_activation-HasActivation k a db db' u h =
    let (_, h) =
      raise_if-eq-ok {db = db} (index_conflict k a db.activations)
        (unique_violation "activations_one_live_objective") _ h in
    subst (HasActivation k a) (ok_pair h).1 (get-put_self k a db.activations)

write_claim-HasActivation :
    (q : Claim) (prior : Option (String × Activation)) (a : Activation) (db db' : Db) (u : Unit {0})
    → write_claim q prior a db ≡ ok (u, db')
    → HasActivation q.activation_id a db'
unfolding write_claim insert_activation
write_claim-HasActivation q none a db db' u h =
    let (_, h) =
      raise_if-eq-ok {db = db} (is_some (get q.activation_id db.activations))
        (unique_violation "activations_pkey") _ h in
    write_activation-HasActivation q.activation_id a db db' u h
write_claim-HasActivation q (some p) a db db' u h =
    write_activation-HasActivation q.activation_id a db db' u h

pub insert_binding-HasActivation :
    (k : String) (a : Activation) (row : BindingRow)
    → Keeps (HasActivation k a) (insert_binding row)
unfolding insert_binding
insert_binding-HasActivation k a row =
    Keeps-keyed_insert
      (λ db.
        any (λ r. r.activation_id == row.activation_id && beq r.version row.version)
          db.binding_history)
      (λ db. any (λ r. r.command_id == row.command_id) db.binding_history)
      (unique_violation "activation_binding_history_pkey")
      (unique_violation "activation_binding_history_command_id_key")
      (λ db. record db { binding_history = db.binding_history ++ row ∷ [] }) (λ db h. h)

writes-HasActivation :
    (k : String) (a : Activation) (wake_id : String) (w : Wake) (row : BindingRow)
    (command_id fp : String) (r : Json)
    → Keeps
        (HasActivation k a)
        (update_wake wake_id w >> (insert_binding row >> recorded command_id fp r))
unfolding update_wake
writes-HasActivation k a wake_id w row command_id fp r =
    Keeps-bind _ _ (Keeps-modify (λ db. record db { wakes = put wake_id w db.wakes }) (λ db h. h))
      (λ _.
        Keeps-bind (insert_binding row) _ (insert_binding-HasActivation k a row)
          (λ _. Keeps-recorded command_id fp r (λ db rows h. h)))

-- What the body of a claim has found, and the row that it leaves.
claim_body-eq-ok :
    (publish : Publisher) (q : Claim) (now : ℕ) (fp : String) (db db' : Db) (r : Json)
    → claim_body publish q now fp db ≡ ok (r, db')
    → (wake : Wake) × (bound : String × String × List String) × ((if is_row_proposed
            (get q.objective_id db.objectives)
          then claimable_wake q now (get q.wake_id db.wakes)
          else none)
        ≡ some wake)
      × (bound_set db.active_generation (active_set db.capability_sets) ≡ some bound)
      × (is_reclaimable q (prior_activation q.objective_id db.activations) ≡ true)
      × HasActivation q.activation_id
          (claimed_row q now bound (prior_activation q.objective_id db.activations))
          db'
unfolding claim_body
claim_body-eq-ok publish q now fp db db' r h =
    let prior = prior_activation q.objective_id db.activations in
    let (wake, is_wake, h) =
      require_row-eq-ok {db = db}
        (if is_row_proposed (get q.objective_id db.objectives)
          then claimable_wake q now (get q.wake_id db.wakes)
          else none)
        (value_error "CONFLICT: activation wake is not claimable") _ h in
    let (bound, is_bound, h) =
      require_row-eq-ok {db = db} (bound_set db.active_generation (active_set db.capability_sets))
        (value_error "active generation capability set is unavailable") _ h in
    let (reclaimable, h) =
      raise_if-eq-ok {db = db} (not (is_reclaimable q prior))
        (value_error "CONFLICT: objective activation is not reclaimable") _ h in
    let (evidence, d, _, h) =
      bind-eq-ok
        (publish_evidence publish q.command_id
          (evidence_payload q prior (claim_fields q now bound prior)))
        _ db h in
    let (u, d', written, h) =
      bind-eq-ok (write_claim q prior (claimed_row q now bound prior)) _ d h in
    (
      wake,
      bound,
      is_wake,
      is_bound,
      not-false _ reclaimable,
      Keeps-ok _ d'
          (writes-HasActivation q.activation_id (claimed_row q now bound prior) _ _ _ _ _ _)
          (write_claim-HasActivation q prior (claimed_row q now bound prior) d d' u written) h,
    )

-- A claim of a new command runs its body.
claim_activation-fresh :
    (sha256 : String → String) (publish : Publisher) (verify : Verifier) (q : Claim) (now : ℕ)
    (db db' : Db) (r : Json)
    → get q.command_id db.commands ≡ none
    → claim_activation sha256 publish verify q now db ≡ ok (r, db')
    → (is_claim q ≡ true) × (claim_body publish q now (claim_fingerprint sha256 q) db ≡ ok (r, db'))
unfolding claim_activation
claim_activation-fresh sha256 publish verify q now db db' r new h =
    let (named, h) =
      raise_if-eq-ok {db = db} (not (is_claim q))
        (value_error "complete typed activation claim is required") _ h in
    (not-false _ named, sym (replay-fresh q.command_id (claim_fingerprint sha256 q) _ db new) ∙ h)

is_claim-lease_seconds :
    (q : Claim) → is_claim q ≡ true → (1 ≤ q.lease_seconds) × (q.lease_seconds ≤ 300)
unfolding is_claim
is_claim-lease_seconds q h =
    let (least, most) =
      both (has_identifiers q) (leb 1 q.lease_seconds) (leb q.lease_seconds 300) (has_credential q)
        h in
    (leb→le 1 q.lease_seconds least, leb→le q.lease_seconds 300 most)
  where
    both : (p q r s : Bool) → (p && (q && (r && s))) ≡ true → (q ≡ true) × (r ≡ true)
    both p q r s h = (ground arith, ground arith)

next_fence-suc :
    (p : Option (String × Activation)) (k : String) (a : Activation) (fence : ℕ)
    → p ≡ some (k, a)
    → a.lease_fence ≡ some fence
    → next_fence p ≡ fence + 1
next_fence-suc p k a fence e f = rw (e, f) refl

-- A number and the next one do not both equal a value.
not_both : (n : ℕ) (j : Json) → py_eq (nat n) j ≡ true → py_eq (nat (n + 1)) j ≡ true → ⊥
unfolding py_eq
not_both n (int (pos m)) a b = omega (arith, beq→eq n m a, beq→eq (n + 1) m b)
not_both n (boolean true) a b = omega (arith, beq→eq n 1 a, beq→eq (n + 1) 1 b)
not_both n (boolean false) a b = omega (arith, beq→eq n 0 a, beq→eq (n + 1) 0 b)
not_both n (int (negsuc m)) a b = cc
not_both n null a b = cc
not_both n (str s) a b = cc
not_both n (arr xs) a b = cc
not_both n (obj fs) a b = cc

-- A new claim that succeeded is over the objective's own activation, if it has one, and a wake that
-- is due, and leaves the activation leased to the owner under the next fence, for at least a second
-- and at most 300.
pub claim_activation-eq-ok :
    (sha256 : String → String) (publish : Publisher) (verify : Verifier) (q : Claim) (now : ℕ)
    (db db' : Db) (r : Json)
    → get q.command_id db.commands ≡ none
    → claim_activation sha256 publish verify q now db ≡ ok (r, db')
    → (wake : Wake) × (bound : String × String × List String) × ((if is_row_proposed
            (get q.objective_id db.objectives)
          then claimable_wake q now (get q.wake_id db.wakes)
          else none)
        ≡ some wake)
      × (bound_set db.active_generation (active_set db.capability_sets) ≡ some bound)
      × (is_reclaimable q (prior_activation q.objective_id db.activations) ≡ true)
      × (get q.activation_id db'.activations
          ≡ some (claimed_row q now bound (prior_activation q.objective_id db.activations)))
      × (1 ≤ q.lease_seconds)
      × (q.lease_seconds ≤ 300)
claim_activation-eq-ok sha256 publish verify q now db db' r new h =
    let (named, h) = claim_activation-fresh sha256 publish verify q now db db' r new h in
    let (wake, bound, is_wake, is_bound, reclaimable, row) =
      claim_body-eq-ok publish q now (claim_fingerprint sha256 q) db db' r h in
    let (least, most) = is_claim-lease_seconds q named in
    (wake, bound, is_wake, is_bound, reclaimable, row, least, most)

-- A claim refuses the bindings of the fence before: in the tables that a new claim leaves, its
-- activation is not resolved for a binding with the fence that the objective's row had, whatever the
-- credential and the time.
pub claim_activation-fences :
    (sha256 : String → String) (publish : Publisher) (verify : Verifier) (q : Claim) (now now' : ℕ)
    (db db' d : Db) (r : Json) (k : String) (a row : Activation) (fence : ℕ)
    (binding credential : Json)
    → get q.command_id db.commands ≡ none
    → claim_activation sha256 publish verify q now db ≡ ok (r, db')
    → prior_activation q.objective_id db.activations ≡ some (k, a)
    → a.lease_fence ≡ some fence
    → py_eq (nat fence) (get_field "lease_fence" binding) ≡ true
    → ¬ (resolve_activation sha256 binding credential now' db' ≡ ok ((q.activation_id, row), d))
claim_activation-fences sha256 publish verify q now now' db db' d r k a row fence binding credential
      new h prior fenced old resolved =
    let (wake, bound, _, _, _, claimed, _, _) =
      claim_activation-eq-ok sha256 publish verify q now db db' r new h in
    let (b, _, found, _, exact, _, _, _, _, _, _, _) =
      resolve_activation-eq-ok sha256 binding credential now' db' d q.activation_id row resolved in
    let same : b ≡ claimed_row q now bound (prior_activation q.objective_id db.activations) =
      some_inj (sym found ∙ claimed) in
    let fence_is : b.lease_fence ≡ some (fence + 1) =
      ap (λ x. x.lease_fence) same ∙ ap some (next_fence-suc _ k a fence prior fenced) in
    not_both fence (get_field "lease_fence" binding) old (
      subst (λ x. py_eq (maybe_nat x) (get_field "lease_fence" binding) ≡ true) fence_is
        (is_exact-lease_fence b binding exact))
