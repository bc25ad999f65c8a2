-- ===== src/Lifecycle/Transaction/Rules.antt =====
-- Postconditions of transactions, one rule for each way to build one: what a recorded command leaves
-- in `lifecycle_commands`, and which properties of the tables it keeps.
use mathlib.Core.Path.{subst}
use nix_ai.Prelude.{
  inl, inr, none, some, ◌≡◌, String, Bool, true, false, eq_refl, arith, if◌then◌else◌, Result, ok,
  err, Exception, is_some, Option, refl, Bool-cases, ◌∙◌, ◌==◌, ap, eq_iff,
}
use nix_ai.Json.{Json, truthy}
use nix_ai.Table.{get}
use nix_ai.Table.Laws.{get-put_self}
use nix_ai.Lifecycle.Db.{Db, Command}
use nix_ai.Lifecycle.Transaction.{
  raise_if, Tx, pure, raise, ◌>>=◌, once, recorded, gets, lift, require_row, return_if, replayed,
  or_replay, modify,
}

abbrev pub Recorded : String → String → Result (Json × Db) → Type 0
Recorded command_id fp (err e) = Unit
Recorded command_id fp (ok (r, db)) =
    (get command_id db.commands ≡ some (record { fingerprint = fp; result = r }))
    × (truthy r ≡ true)

-- A success of `m` leaves its result recorded under the command and the fingerprint.
pub record Records (command_id fp : String) (m : Tx Json) : Type 0 where
  pub at : (db : Db) → Recorded command_id fp (m db)

module _ {command_id fp : String} where
  pub Records-raise : (e : Exception) → Records command_id fp (raise e)
  unfolding raise
  Records-raise e = record { at = λ db. tt }

  pub Records-recorded :
      (r : Json) → truthy r ≡ true → Records command_id fp (recorded command_id fp r)
  unfolding recorded
  Records-recorded r t = record {
    at = λ db. elim (Bool-cases (is_some (get command_id db.commands))) [
      | inl used ↦ rw (used, Recorded) tt
      | inr fresh ↦
          rw (fresh, Recorded)
            (get-put_self command_id (record { fingerprint = fp; result = r }) db.commands, t)
    ];
  }

  pub Records-if :
      (b : Bool) (m n : Tx Json)
      → Records command_id fp m
      → Records command_id fp n
      → Records command_id fp (if b then m else n)
  Records-if true m n km kn = km
  Records-if false m n km kn = kn

  Recorded-bind :
      {A : Type 0} (x : Result (A × Db)) (f : A → Tx Json)
      → ((a : A) → Records command_id fp (f a))
      → Recorded command_id fp (elim x [ err e ↦ err e | ok (a, d) ↦ f a d ])
  Recorded-bind (ok (a, d)) f k = (k a).at d
  Recorded-bind (err e) f k = tt

  pub Records-bind :
      {A : Type 0} (m : Tx A) (f : A → Tx Json)
      → ((a : A) → Records command_id fp (f a))
      → Records command_id fp (m >>= f)
  unfolding ◌>>=◌
  Records-bind m f k = record { at = λ db. Recorded-bind (m db) f k }

pub ruleset records_rules = (Records-raise, Records-recorded, Records-if, Records-bind)

-- What is recorded with a truthy result is returned, and nothing changes.
once-recorded :
    (command_id fp : String) (body : Tx Json) (db : Db) (r : Json)
    → get command_id db.commands ≡ some (record { fingerprint = fp; result = r })
    → truthy r ≡ true
    → once command_id fp body db ≡ ok (r, db)
unfolding once
once-recorded command_id fp body db r e t = ground (arith, eq_refl fp)

-- A command that has no record runs its body.
pub once-fresh :
    (command_id fp : String) (body : Tx Json) (db : Db)
    → get command_id db.commands ≡ none
    → once command_id fp body db ≡ body db
unfolding once
once-fresh command_id fp body db h = ground (arith, h)

module _ (command_id fp : String) (body : Tx Json) (k : Records command_id fp body) where
  once-truthy :
      (db : Db) (row : Command)
      → get command_id db.commands ≡ some row
      → row.fingerprint ≡ fp
      → (b : Bool) → truthy row.result ≡ b
      → Recorded command_id fp (return_if b row.result body db)
  unfolding return_if ◌>>=◌
  once-truthy db row e f true t =
      (e ∙ ap some (λ i. record { fingerprint = f i; result = row.result }), t)
  once-truthy db row e f false t = k.at db

  once-found :
      (db : Db) (o : Option Command)
      → get command_id db.commands ≡ o
      → Recorded command_id fp ((replayed fp o >>= λ found. or_replay found body) db)
  unfolding replayed or_replay ◌>>=◌
  once-found db none e = k.at db
  once-found db (some row) e = elim (Bool-cases (row.fingerprint == fp)) [
    | inl same ↦
        rw same (once-truthy db row e ((eq_iff row.fingerprint fp).0 same) (truthy row.result) refl)
    | inr other ↦ rw other tt
  ]

  once-Recorded : (db : Db) → Recorded command_id fp (once command_id fp body db)
  unfolding once
  once-Recorded db = once-found db (get command_id db.commands) refl

  -- A recorded command that is sent again after it succeeded returns what it returned, and changes
  -- no table; its body may meanwhile read another clock.
  pub once_again :
      (body' : Tx Json) (db : Db) (r : Json) (db' : Db)
      → once command_id fp body db ≡ ok (r, db')
      → once command_id fp body' db' ≡ ok (r, db')
  once_again body' db r db' h =
      let done : Recorded command_id fp (ok (r, db')) =
        subst (Recorded command_id fp) h (once-Recorded db) in
      once-recorded command_id fp body' db' r done.0 done.1

abbrev pub KeepsIn : {A : Type 0} → (Db → Type 0) → Result (A × Db) → Type 0
KeepsIn P (err e) = Unit
KeepsIn P (ok (a, db)) = P db

-- `m` keeps `P` of the tables when it returns.
pub record Keeps {A : Type 0} (P : Db → Type 0) (m : Tx A) : Type 0 where
  pub at : (db : Db) → P db → KeepsIn P (m db)

module _ {A : Type 0} where
  Keeps-lift_case : (P : Db → Type 0) (r : Result A) (db : Db) → P db → KeepsIn P (lift r db)
  unfolding lift
  Keeps-lift_case P (ok a) db h = h
  Keeps-lift_case P (err e) db h = tt

  Keeps-require_case :
      (P : Db → Type 0) (o : Option A) (e : Exception) (db : Db)
      → P db
      → KeepsIn P (require_row o e db)
  unfolding require_row
  Keeps-require_case P (some a) e db h = h
  Keeps-require_case P none e db h = tt

Keeps-raise_if_case :
    (P : Db → Type 0) (b : Bool) (e : Exception) (db : Db) → P db → KeepsIn P (raise_if b e db)
unfolding raise_if
Keeps-raise_if_case P true e db h = tt
Keeps-raise_if_case P false e db h = h

module _ {A : Type 0} {P : Db → Type 0} where
  pub Keeps-gets : (read : Db → A) → Keeps P (gets read)
  unfolding gets
  Keeps-gets read = record { at = λ tables kept. kept }

  pub Keeps-lift : (value : Result A) → Keeps P (lift value)
  Keeps-lift value = record { at = Keeps-lift_case P value }

  pub Keeps-require_row : (row : Option A) (missing : Exception) → Keeps P (require_row row missing)
  Keeps-require_row row missing = record { at = Keeps-require_case P row missing }

  pub Keeps-raise : (e : Exception) → Keeps P (raise {A = A} e)
  unfolding raise
  Keeps-raise e = record { at = λ tables kept. tt }

  pub Keeps-if :
      (test : Bool) (one other : Tx A)
      → (test ≡ true → Keeps P one)
      → (test ≡ false → Keeps P other)
      → Keeps P (if test then one else other)
  Keeps-if false one other keeps_yes keeps_no = keeps_no refl
  Keeps-if true one other keeps_yes keeps_no = keeps_yes refl

  pub Keeps-pure : (value : A) → Keeps P (pure value)
  unfolding pure
  Keeps-pure value = record { at = λ tables kept. kept }

module _ {P : Db → Type 0} where
  pub Keeps-modify : (f : Db → Db) → ((db : Db) → P db → P (f db)) → Keeps P (modify f)
  unfolding modify
  Keeps-modify f k = record { at = k }

  pub Keeps-raise_if : (b : Bool) (e : Exception) → Keeps P (raise_if b e)
  Keeps-raise_if b e = record { at = Keeps-raise_if_case P b e }

module _ {A B : Type 0} {P : Db → Type 0} where
  Keeps-bind_case :
      (x : Result (A × Db)) (f : A → Tx B)
      → KeepsIn P x
      → ((a : A) → Keeps P (f a))
      → KeepsIn P (elim x as (λ _. Result (B × Db)) [ err e ↦ err e | ok (a, d) ↦ f a d ])
  Keeps-bind_case (ok (a, d)) f h k = (k a).at d h
  Keeps-bind_case (err e) f h k = tt

  pub Keeps-bind :
      (m : Tx A) (f : A → Tx B) → Keeps P m → ((a : A) → Keeps P (f a)) → Keeps P (m >>= f)
  unfolding ◌>>=◌
  Keeps-bind m f km kf = record { at = λ db h. Keeps-bind_case (m db) f (km.at db h) kf }

pub ruleset keeps_rules = (
  Keeps-pure, Keeps-raise, Keeps-gets, Keeps-lift, Keeps-require_row, Keeps-if, Keeps-raise_if,
  Keeps-bind,
)
