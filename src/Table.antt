-- ===== src/Table.antt =====
-- A PostgreSQL table with a text primary key, as an association list from the key to the other
-- columns. A row is found by its key; an update replaces the row in place.
pub mod Laws
use nix_ai.Prelude.{
  ℕ, String, ◌≡◌, refl, Bool, true, false, Option, none, some, List, [], ◌∷◌, arith, ◌==◌, eq_iff,
  if◌then◌else◌, is_some,
}

abbrev pub Table {ℓ} : Type ℓ → Type ℓ
Table V = List (String × V)

module _ {ℓ} {V : Type ℓ} where
  -- SELECT * FROM t WHERE key=k
  unfoldable pub get : String → Table V → Option V
  get k [] = none
  get k ((j, v) ∷ t) = if j == k then some v else get k t

  -- INSERT … ON CONFLICT(key) DO UPDATE, and UPDATE … WHERE key=k of a row that is there
  unfoldable pub put : String → V → Table V → Table V
  put k v [] = (k, v) ∷ []
  put k v ((j, w) ∷ t) = if j == k then (j, v) ∷ t else (j, w) ∷ put k v t

  -- The first row that satisfies a condition: SELECT … WHERE … with no ORDER BY, fetched once.
  unfoldable pub find_row : (String → V → Bool) → Table V → Option (String × V)
  find_row p [] = none
  find_row p ((k, v) ∷ t) = if p k v then some (k, v) else find_row p t

  -- The row that comes first: SELECT … WHERE … ORDER BY … LIMIT 1.
  abbrev pub earlier :
      (String × V → String × V → Bool) → String × V → Option (String × V) → String × V
  earlier before r none = r
  earlier before r (some q) = if before q r then q else r

  unfoldable pub pick :
      (String → V → Bool) → (String × V → String × V → Bool) → Table V → Option (String × V)
  pick p before [] = none
  pick p before ((k, v) ∷ t) =
      let rest = pick p before t in if p k v then some (earlier before (k, v) rest) else rest

  -- SELECT … WHERE …
  unfoldable pub rows_where : (String → V → Bool) → Table V → Table V
  rows_where p [] = []
  rows_where p ((k, v) ∷ t) = let rest = rows_where p t in if p k v then (k, v) ∷ rest else rest

  -- The primary key holds: no key stands twice.
  abbrev pub IsTable : Table V → Type ℓ
  IsTable [] = Unit
  IsTable ((k, v) ∷ t) = (get k t ≡ none) × IsTable t
