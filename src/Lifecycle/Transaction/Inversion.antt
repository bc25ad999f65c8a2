-- ===== src/Lifecycle/Transaction/Inversion.antt =====
-- What a transaction that returned has passed: each step's test, row and result.
use nix_ai.Json.{Json}
use nix_ai.Table.{get}
use mathlib.Core.Path.{subst}
use nix_ai.Lifecycle.Transaction.{
  ◌>>=◌, Tx, gets, modify, ◌>>◌, raise_if, require_row, pure, replay, replayed, lift,
}
use nix_ai.Lifecycle.Db.{Db}
use nix_ai.Prelude.{
  Bool, Option, ◌≡◌, Exception, ok, Result, false, some, err, true, none, refl, arith, String, sym,
}

pub bind-eq-ok :
    {A B : Type 0} (m : Tx A) (f : A → Tx B) (db : Db) {b : B} {db' : Db}
    → (m >>= f) db ≡ ok (b, db')
    → (a : A) × (db₁ : Db) × (m db ≡ ok (a, db₁)) × (f a db₁ ≡ ok (b, db'))
unfolding ◌>>=◌
bind-eq-ok {A} {B} m f db {b} {db'} h = from (m db) h
  where
    from :
        (x : Result (A × Db))
        → (elim x as (λ _. Result (B × Db)) [ err e ↦ err e | ok (a, d) ↦ f a d ]) ≡ ok (b, db')
        → (a : A) × (db₁ : Db) × (x ≡ ok (a, db₁)) × (f a db₁ ≡ ok (b, db'))
    from (ok (a, d)) h = (a, d, refl, h)
    from (err e) h = cc

module _ {B : Type 0} {db db' : Db} {b : B} where
  pub gets-eq-ok :
      {A : Type 0} (g : Db → A) (f : A → Tx B)
      → (gets g >>= f) db ≡ ok (b, db')
      → f (g db) db ≡ ok (b, db')
  unfolding ◌>>=◌
  gets-eq-ok g f h = h

  pub modify-eq-ok :
      (g : Db → Db) (k : Tx B) → (modify g >> k) db ≡ ok (b, db') → k (g db) ≡ ok (b, db')
  unfolding ◌>>=◌
  modify-eq-ok g k h = h

  pub raise_if-eq-ok :
      (t : Bool) (e : Exception) (k : Tx B)
      → (raise_if t e >> k) db ≡ ok (b, db')
      → (t ≡ false) × (k db ≡ ok (b, db'))
  unfolding ◌>>=◌
  raise_if-eq-ok true e k h = cc
  raise_if-eq-ok false e k h = (refl, h)

  pub require_row-eq-ok :
      {A : Type 0} (o : Option A) (e : Exception) (f : A → Tx B)
      → (require_row o e >>= f) db ≡ ok (b, db')
      → (a : A) × (o ≡ some a) × (f a db ≡ ok (b, db'))
  unfolding ◌>>=◌
  require_row-eq-ok none e f h = cc
  require_row-eq-ok (some a) e f h = (a, refl, h)

pub pure-eq-ok :
    {A : Type 0} {a b : A} {db db' : Db} → pure a db ≡ ok (b, db') → (a ≡ b) × (db ≡ db')
unfolding ◌>>=◌
pure-eq-ok h = (ground arith, ground arith)

-- A command with no record is not answered by its replay.
pub replay-fresh :
    {B : Type 0} (command_id fp : String) (f : Option Json → Tx B) (db : Db)
    → get command_id db.commands ≡ none
    → (replay command_id fp >>= f) db ≡ f none db
unfolding replay replayed ◌>>=◌
replay-fresh command_id fp f db new =
    subst (λ o. (replayed fp o >>= f) db ≡ f none db) (sym new) refl

-- A value that a transaction was lifted from.
pub lift-eq-ok :
    {A B : Type 0} {db db' : Db} {b : B} (x : Result A) (f : A → Tx B)
    → (lift x >>= f) db ≡ ok (b, db')
    → (a : A) × (x ≡ ok a) × (f a db ≡ ok (b, db'))
unfolding ◌>>=◌
lift-eq-ok (ok a) f h = (a, refl, h)
lift-eq-ok (err e) f h = cc
