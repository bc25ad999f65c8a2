-- ===== src/Prelude/Results.antt =====
-- Exceptions of the Python code as values. A raised exception carries its class and its message.
use mathlib.Core.Path.{◌≡◌, refl}
use mathlib.Core.Bool.{Bool, true, false}
use mathlib.Core.Option.{Option, none, some}
use mathlib.Core.Logic.{◌⊎◌, inl, inr}
use Prim.Native.String.{String}
use native.Mathlib.Omega.{arith}

-- The classes that the code raises, and those of PostgreSQL that its schema raises. `conflict` and
-- `integrity_error` are the classes of store.py.
pub data Exception : Type 0 where
  value_error key_error type_error permission_error : String → Exception
  ledger_corrupt ledger_unavailable evidence_not_found activation_invalid : String → Exception
  clock_untrusted conflict integrity_error runtime_error : String → Exception
  unique_violation check_violation not_null_violation foreign_key_violation : String → Exception

pub data Result {ℓ} (A : Type ℓ) : Type ℓ where
  ok : A → Result A
  err : Exception → Result A

infixl 5 ◌>>=◌ ◌>>◌
-- An exception skips what follows.
abbrev pub ◌>>=◌ {ℓ κ} : {R : Type ℓ} {S : Type κ} → Result R → (R → Result S) → Result S
err raised >>= next = err raised
ok value >>= next = next value

-- The same for a step with no value.
abbrev pub ◌>>◌ {ℓ} : {S : Type ℓ} → Result (Unit {0}) → Result S → Result S
step >> rest = step >>= λ _. rest

-- `if test: raise e`
abbrev pub reject_if : Bool → Exception → Result (Unit {0})
reject_if true e = err e
reject_if false e = ok tt

-- `if not row: raise e`, and the row otherwise
abbrev pub expect_some {ℓ} : {A : Type ℓ} → Option A → Exception → Result A
expect_some none e = err e
expect_some (some a) e = ok a

-- Inversions of a success: what the steps in front of it returned.
pub >>=-eq-ok {ℓ κ} :
    {R : Type ℓ} {S : Type κ} (step : Result R) (next : R → Result S) {answer : S}
    → (step >>= next) ≡ ok answer
    → (value : R) × (step ≡ ok value) × (next value ≡ ok answer)
>>=-eq-ok (err raised) next e = cc
>>=-eq-ok (ok value) next e = (value, refl, e)

pub reject_if-eq-ok {ℓ} :
    {B : Type ℓ} (t : Bool) (e : Exception) (k : Result B) {b : B}
    → (reject_if t e >> k) ≡ ok b
    → (t ≡ false) × (k ≡ ok b)
reject_if-eq-ok true e k h = cc
reject_if-eq-ok false e k h = (refl, h)

pub expect_some-eq-ok {ℓ κ} :
    {A : Type ℓ} {B : Type κ} (o : Option A) (e : Exception) (f : A → Result B) {b : B}
    → (expect_some o e >>= f) ≡ ok b
    → (a : A) × (o ≡ some a) × (f a ≡ ok b)
expect_some-eq-ok none e f h = cc
expect_some-eq-ok (some a) e f h = (a, refl, h)

pub Result-cases {ℓ} :
    {A : Type ℓ} (r : Result A) → ((a : A) × (r ≡ ok a)) ⊎ ((e : Exception) × (r ≡ err e))
Result-cases (ok a) = inl (a, refl)
Result-cases (err e) = inr (e, refl)

pub some_inj {ℓ} : {A : Type ℓ} {a b : A} → ◌≡◌ {A = Option A} (some a) (some b) → a ≡ b
some_inj h = ground arith

pub ok_inj {ℓ} : {A : Type ℓ} {a b : A} → ◌≡◌ {A = Result A} (ok a) (ok b) → a ≡ b
ok_inj h = ground arith

pub ok_pair :
    {A B : Type 0} {a c : A} {b d : B}
    → ◌≡◌ {A = Result (A × B)} (ok (a, b)) (ok (c, d))
    → (a ≡ c) × (b ≡ d)
ok_pair h = (ground arith, ground arith)
