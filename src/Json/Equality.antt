-- ===== src/Json/Equality.antt =====
-- Python's `==` is reflexive on the values that json.loads returns, whose dicts have distinct keys.
use nix_ai.Json.{
  field_of, py_eq, Json, Fields, arr, field, obj, Items, boolean, end, cons, int, nil, str,
  field_count, py_eq_items, py_eq_fields, null,
}
use nix_ai.Prelude.{String, ◌≡◌, some, none, arith, true, eq_iff, eq_refl, beq_refl, refl, false}
use nix_ai.Json.Int.{pos, negsuc}

unfoldable mutual
  unfolding field_of

  -- No dict in the value has a key twice.
  pub IsProper : Json → Type 0
  IsProper (arr xs) = AreProper xs
  IsProper (obj fs) = HasDistinct fs
  IsProper _ = Unit

  pub AreProper : Items → Type 0
  AreProper nil = Unit
  AreProper (cons x xs) = IsProper x × AreProper xs

  pub HasDistinct : Fields → Type 0
  HasDistinct end = Unit
  HasDistinct (field k v fs) = (field_of k fs ≡ none) × IsProper v × HasDistinct fs

-- Every field of the first is found in the second.
IsPart : Fields → Fields → Type 0
unfolding field_of
IsPart end gs = Unit
IsPart (field k v fs) gs = (field_of k gs ≡ some v) × IsPart fs gs

IsPart-field :
    (fs gs : Fields) (k : String) (v : Json)
    → field_of k fs ≡ none
    → IsPart fs gs
    → IsPart fs (field k v gs)
unfolding field_of IsPart
IsPart-field end gs k v e h = tt
IsPart-field (field j w fs) gs k v e h = (
  ground (arith, eq_iff k j, eq_iff j k, h.0),
  IsPart-field fs gs k v (ground (arith, eq_iff j k)) h.1,
)

IsPart-refl : (fs : Fields) → HasDistinct fs → IsPart fs fs
unfolding field_of IsPart HasDistinct
IsPart-refl end h = tt
IsPart-refl (field k v fs) h =
    (ground (arith, eq_refl k), IsPart-field fs fs k v h.0 (IsPart-refl fs h.2))

mutual
  unfolding py_eq field_of IsPart HasDistinct

  pub py_eq_refl : (j : Json) → IsProper j → py_eq j j ≡ true
  py_eq_refl null h = refl
  py_eq_refl (boolean true) h = refl
  py_eq_refl (boolean false) h = refl
  py_eq_refl (int (pos n)) h = beq_refl n
  py_eq_refl (int (negsuc n)) h = beq_refl n
  py_eq_refl (str s) h = eq_refl s
  py_eq_refl (arr xs) h = py_eq_items_refl xs h
  py_eq_refl (obj fs) h =
      rw (beq_refl (field_count fs)) (py_eq_fields-IsPart fs fs h (IsPart-refl fs h))

  py_eq_items_refl : (xs : Items) → AreProper xs → py_eq_items xs xs ≡ true
  py_eq_items_refl nil h = refl
  py_eq_items_refl (cons x xs) h = rw (py_eq_refl x h.0) (py_eq_items_refl xs h.1)

  py_eq_fields-IsPart : (fs gs : Fields) → HasDistinct fs → IsPart fs gs → py_eq_fields fs gs ≡ true
  py_eq_fields-IsPart end gs h p = refl
  py_eq_fields-IsPart (field k v fs) gs h p =
      rw (p.0, py_eq_refl v h.1) (py_eq_fields-IsPart fs gs h.2 p.1)
