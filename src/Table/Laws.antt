-- ===== src/Table/Laws.antt =====
-- The laws of tables: what is found after a write, and what a search returns.
use nix_ai.Prelude.{
  String, ◌≡◌, ◌≢◌, refl, Bool, true, false, none, some, [], ◌∷◌, arith, ◌==◌, eq_iff,
  if◌then◌else◌, inl, inr, Option-cases, eq_refl,
}
use nix_ai.Table.{Table, get, put, find_row, pick, rows_where, IsTable}

module _ {ℓ} {V : Type ℓ} where
  pub get-put :
      (k j : String) (v : V) (t : Table V)
      → get j (put k v t) ≡ (if k == j then some v else get j t)
  unfolding get put
  get-put k j v [] = refl
  get-put k j v ((i, w) ∷ t) = ground (arith, eq_iff k j, eq_iff i k, eq_iff i j, get-put k j v t)

  pub get-put_self : (k : String) (v : V) (t : Table V) → get k (put k v t) ≡ some v
  get-put_self k v t = ground (arith, get-put k k v t, eq_refl k)

  pub get-put_ne : (k j : String) (v : V) (t : Table V) → k ≢ j → get j (put k v t) ≡ get j t
  get-put_ne k j v t h = ground (arith, get-put k j v t, eq_iff k j)

  pub put-IsTable : (k : String) (v : V) (t : Table V) → IsTable t → IsTable (put k v t)
  unfolding get put
  put-IsTable k v [] h = (refl, tt)
  put-IsTable k v ((i, w) ∷ t) h =
      ground (arith, eq_iff i k, eq_iff k i, get-put k i v t, put-IsTable k v t h.1)

  -- A row that a search returns is the row of its key.
  pub find_row-get :
      (p : String → V → Bool) (t : Table V) {k : String} {v : V}
      → IsTable t
      → find_row p t ≡ some (k, v)
      → (get k t ≡ some v) × (p k v ≡ true)
  unfolding get find_row
  find_row-get p [] h e = cc
  find_row-get p ((i, w) ∷ t) {k} {v} h e =
      ground (arith, eq_iff i k, eq_refl i, find_row-get p t {k = k} {v = v} h.1)

  pub find_row-none :
      (p : String → V → Bool) (t : Table V) {k : String} {v : V}
      → find_row p t ≡ none
      → get k t ≡ some v
      → p k v ≡ false
  unfolding get find_row
  find_row-none p [] e f = cc
  find_row-none p ((i, w) ∷ t) {k} {v} e f =
      ground (arith, eq_iff i k, find_row-none p t {k = k} {v = v})

  pub pick-get :
      (p : String → V → Bool) (before : String × V → String × V → Bool) (t : Table V) {k : String}
      {v : V}
      → IsTable t
      → pick p before t ≡ some (k, v)
      → (get k t ≡ some v) × (p k v ≡ true)
  unfolding get pick
  pick-get p before [] h e = cc
  pick-get p before ((i, w) ∷ t) {k} {v} h e = elim (Option-cases (pick p before t)) [
    | inl nothing ↦ ground (arith, eq_refl i)
    | inr (q, found) ↦
        ground (arith, eq_refl i, eq_iff i k, pick-get p before t {k = q.0} {v = q.1} h.1)
  ]

  rows_where-none :
      (p : String → V → Bool) (t : Table V) (k : String)
      → get k t ≡ none
      → get k (rows_where p t) ≡ none
  unfolding get rows_where
  rows_where-none p [] k e = refl
  rows_where-none p ((i, w) ∷ t) k e = ground (arith, eq_iff i k, rows_where-none p t k)

  -- A selected row is found in the selection, and the primary key holds in it.
  pub rows_where-get :
      (p : String → V → Bool) (t : Table V) {k : String} {v : V}
      → get k t ≡ some v
      → p k v ≡ true
      → get k (rows_where p t) ≡ some v
  unfolding get rows_where
  rows_where-get p [] e h = cc
  rows_where-get p ((i, w) ∷ t) {k} {v} e h =
      ground (arith, eq_iff i k, eq_refl k, rows_where-get p t {k = k} {v = v})

  pub rows_where-IsTable :
      (p : String → V → Bool) (t : Table V) → IsTable t → IsTable (rows_where p t)
  unfolding rows_where
  rows_where-IsTable p [] h = tt
  rows_where-IsTable p ((i, w) ∷ t) h =
      ground (arith, rows_where-none p t i h.0, rows_where-IsTable p t h.1)
