-- ===== src/Json.antt =====
-- JSON values as Python's `json` module reads and writes them, and Python's equality on them.
pub mod Int
pub mod Dumps
pub mod Equality
use nix_ai.Prelude.{
  ℕ, zero, suc, ◌+◌, String, Bool, true, false, ◌&&◌, Option, none, some, List, [], ◌∷◌, beq, ◌==◌,
  if◌then◌else◌, starts_with, is_empty_text, is_digest_text, is_canonical_digest, is_some, length,
}
use Int.{ℤ, pos, negsuc}

-- No request of the program carries a number with a fraction, so there is no constructor for one.
mutual
  pub data Json : Type 0 where
    null : Json
    boolean : Bool → Json
    int : ℤ → Json
    str : String → Json
    arr : Items → Json
    obj : Fields → Json

  pub data Items : Type 0 where
    nil : Items
    cons : Json → Items → Items

  pub data Fields : Type 0 where
    end : Fields
    field : String → Json → Fields → Fields

abbrev pub items_of : List Json → Items
items_of [] = nil
items_of (x ∷ xs) = cons x (items_of xs)

abbrev pub fields_of : List (String × Json) → Fields
fields_of [] = end
fields_of ((k, v) ∷ fs) = field k v (fields_of fs)

-- A list and a dict display.
abbrev pub array : List Json → Json
array xs = arr (items_of xs)

abbrev pub object : List (String × Json) → Json
object fs = obj (fields_of fs)

abbrev pub nat : ℕ → Json
nat n = int (pos n)

abbrev pub maybe_str : Option String → Json
maybe_str none = null
maybe_str (some s) = str s

abbrev pub maybe_nat : Option ℕ → Json
maybe_nat none = null
maybe_nat (some n) = nat n

-- `fields.get(key)`
unfoldable pub field_of : String → Fields → Option Json
field_of k end = none
field_of k (field j v fs) = if j == k then some v else field_of k fs

-- `value.get(key)`, with `None` for a missing key and for a value that is no dict.
unfoldable pub get_field : String → Json → Json
unfolding field_of
get_field k (obj fs) = elim (field_of k fs) [ none ↦ null | some v ↦ v ]
get_field k _ = null

unfoldable pub field_count : Fields → ℕ
field_count end = 0
field_count (field k v fs) = field_count fs + 1

-- `bool(value)`
abbrev pub truthy : Json → Bool
truthy null = false
truthy (boolean b) = b
truthy (int (pos zero)) = false
truthy (int _) = true
truthy (str s) = if is_empty_text s then false else true
truthy (arr nil) = false
truthy (arr (cons _ _)) = true
truthy (obj end) = false
truthy (obj (field _ _ _)) = true

-- Python's `bool` is an `int`: `True` is 1.
abbrev pub as_int : Json → Option ℤ
as_int (boolean true) = some (pos 1)
as_int (boolean false) = some (pos 0)
as_int (int n) = some n
as_int _ = none

abbrev pub as_str : Json → Option String
as_str (str s) = some s
as_str _ = none

-- `isinstance(value,str) and value.startswith(prefix)`
abbrev pub is_prefixed : String → Json → Bool
is_prefixed prefix (str s) = starts_with s prefix
is_prefixed prefix _ = false

-- `isinstance(value,str) and value`
abbrev pub is_nonempty_str : Json → Bool
is_nonempty_str (str s) = if is_empty_text s then false else true
is_nonempty_str _ = false

-- `isinstance(value,str) and value.startswith("sha256:") and len(value)==71`
abbrev pub is_digest : Json → Bool
is_digest (str s) = is_digest_text s
is_digest _ = false

-- The same, with lower-case hexadecimal digits behind the prefix.
abbrev pub is_canonical : Json → Bool
is_canonical (str s) = is_canonical_digest s
is_canonical _ = false

-- `value is True`
abbrev pub is_true : Json → Bool
is_true (boolean b) = b
is_true _ = false

abbrev int_eq : ℤ → ℤ → Bool
int_eq (pos a) (pos b) = beq a b
int_eq (negsuc a) (negsuc b) = beq a b
int_eq _ _ = false

abbrev bool_int : Bool → ℤ
bool_int true = pos 1
bool_int false = pos 0

-- Python's `==`: a `bool` equals the number that it is, and dicts are compared without order.
unfoldable mutual
  unfolding field_of field_count

  pub py_eq : Json → Json → Bool
  py_eq null null = true
  py_eq (boolean a) (boolean b) = int_eq (bool_int a) (bool_int b)
  py_eq (boolean a) (int n) = int_eq (bool_int a) n
  py_eq (int n) (boolean b) = int_eq n (bool_int b)
  py_eq (int n) (int m) = int_eq n m
  py_eq (str s) (str t) = s == t
  py_eq (arr xs) (arr ys) = py_eq_items xs ys
  py_eq (obj fs) (obj gs) = beq (field_count fs) (field_count gs) && py_eq_fields fs gs
  py_eq _ _ = false

  pub py_eq_items : Items → Items → Bool
  py_eq_items nil nil = true
  py_eq_items (cons x xs) (cons y ys) = py_eq x y && py_eq_items xs ys
  py_eq_items _ _ = false

  pub py_eq_fields : Fields → Fields → Bool
  py_eq_fields end gs = true
  py_eq_fields (field k v fs) gs =
      elim (field_of k gs) [ none ↦ false | some w ↦ py_eq v w ] && py_eq_fields fs gs

unfoldable has_fields : List String → Fields → Bool
unfolding field_of
has_fields [] fs = true
has_fields (k ∷ ks) fs = is_some (field_of k fs) && has_fields ks fs

-- `isinstance(value,dict) and set(value)==keys`, for keys that differ.
unfoldable pub has_exactly : List String → Json → Bool
unfolding has_fields field_count
has_exactly keys (obj fs) = beq (field_count fs) (length keys) && has_fields keys fs
has_exactly keys _ = false

-- `isinstance(value,dict)`
abbrev pub is_dict : Json → Bool
is_dict (obj _) = true
is_dict _ = false
