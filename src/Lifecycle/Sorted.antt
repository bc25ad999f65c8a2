-- ===== src/Lifecycle/Sorted.antt =====
-- Sorting of texts by code point: Python's `sorted(set(…))`, and ORDER BY of a text column.
use text.Mathlib.Text.{is_lt}
use Prim.Native.String.{compare}
use nix_ai.Prelude.{String, List, Bool, ◌∷◌, if◌then◌else◌, [], ◌==◌, true, ◌&&◌, false}
use nix_ai.Table.{Table}

abbrev pub text_lt : String → String → Bool
text_lt a b = is_lt (compare a b)

unfoldable pub insert_unique : String → List String → List String
insert_unique a [] = a ∷ []
insert_unique a (b ∷ bs) =
    let rest = insert_unique a bs in
    if a == b then b ∷ bs else if text_lt a b then a ∷ b ∷ bs else b ∷ rest

-- `sorted(set(values))`
unfoldable pub sorted_set : List String → List String
unfolding insert_unique
sorted_set [] = []
sorted_set (a ∷ as') = insert_unique a (sorted_set as')

-- `==` of two lists of texts
unfoldable pub texts_eq : List String → List String → Bool
texts_eq [] [] = true
texts_eq (a ∷ as') (b ∷ bs) = a == b && texts_eq as' bs
texts_eq _ _ = false

-- ORDER BY the key of a table.
unfoldable pub insert_row {ℓ} : {V : Type ℓ} → String → V → Table V → Table V
insert_row k v [] = (k, v) ∷ []
insert_row k v ((j, w) ∷ t) =
    let rest = insert_row k v t in if text_lt j k then (j, w) ∷ rest else (k, v) ∷ (j, w) ∷ t

unfoldable pub order_by_key {ℓ} : {V : Type ℓ} → Table V → Table V
unfolding insert_row
order_by_key [] = []
order_by_key ((k, v) ∷ t) = insert_row k v (order_by_key t)

abbrev pub keys {ℓ} : {V : Type ℓ} → Table V → List String
keys [] = []
keys ((k, _) ∷ t) = k ∷ keys t
