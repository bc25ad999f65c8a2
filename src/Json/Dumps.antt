-- ===== src/Json/Dumps.antt =====
-- `json.dumps`: the escapes of `ensure_ascii`, the separators, and the sorting of keys.
mod Tests
use Prim.Native.Char.{code}
use Prim.Native.String.{compare, slice, ◌++◌}
use text.Mathlib.Text.{is_lt}
use nix_ai.Prelude.{
  ℕ, zero, suc, ◌+◌, ◌-◌, ◌/◌, ◌%◌, ◌≡◌, refl, String, Bool, true, false, List, [], ◌∷◌, ltb, beq,
  if◌then◌else◌,
}
use nix_ai.Json.Int.{ℤ, pos, negsuc}
use nix_ai.Json.{
  Json, null, boolean, int, str, arr, obj, Items, nil, cons, Fields, end, field, object, array, nat,
}

hex_digit : ℕ → String
hex_digit d = slice "0123456789abcdef" d (d + 1)

-- `\uXXXX`
unicode_escape : ℕ → String
unfolding hex_digit
unicode_escape n =
    "\\u"
    ++ (hex_digit (n / 4096 % 16)
        ++ (hex_digit (n / 256 % 16) ++ (hex_digit (n / 16 % 16) ++ hex_digit (n % 16))))

-- One character of a text, escaped by its code point.
escape : ℕ → String → String
unfolding unicode_escape
escape c plain =
    if beq c 34
    then "\\\""
    else if beq c 92
    then "\\\\"
    else if beq c 10
    then "\\n"
    else if beq c 13
    then "\\r"
    else if beq c 9
    then "\\t"
    else if beq c 8
    then "\\b"
    else if beq c 12
    then "\\f"
    else if ltb c 32
    then unicode_escape c
    else if ltb c 127
    then plain
    else if ltb c 65536
    then unicode_escape c
    else unicode_escape (55296 + (c - 65536) / 1024) ++ unicode_escape (56320 + (c - 65536) % 1024)

escape_text : String → String
unfolding escape
escape_text String.[] = ""
escape_text (String.◌∷◌ c s) = escape (code c) (String.◌∷◌ c String.[]) ++ escape_text s

quote : String → String
unfolding escape_text
quote s = "\"" ++ (escape_text s ++ "\"")

-- Decimal digits; a number has at most as many as it counts.
decimal_from : ℕ → ℕ → String → String
decimal_from zero n rest = rest
decimal_from (suc fuel) n rest =
    let more = decimal_from fuel (n / 10) (slice "0123456789" (n % 10) (n % 10 + 1) ++ rest) in
    if ltb n 10 then slice "0123456789" n (n + 1) ++ rest else more

unfoldable pub decimal : ℕ → String
unfolding decimal_from
decimal n = decimal_from (suc n) n ""

integer : ℤ → String
unfolding decimal
integer (pos n) = decimal n
integer (negsuc n) = "-" ++ decimal (n + 1)

pub record Style : Type 0 where
  pub item_separator : String
  pub key_separator : String
  pub sort_keys : Bool

join : String → List String → String
join separator [] = ""
join separator (x ∷ []) = x
join separator (x ∷ y ∷ xs) = x ++ (separator ++ join separator (y ∷ xs))

insert_key : String × String → List (String × String) → List (String × String)
insert_key f [] = f ∷ []
insert_key f (g ∷ fs) = if is_lt (compare g.0 f.0) then g ∷ insert_key f fs else f ∷ g ∷ fs

sort_fields : List (String × String) → List (String × String)
unfolding insert_key
sort_fields [] = []
sort_fields (f ∷ fs) = insert_key f (sort_fields fs)

members : Style → List (String × String) → List String
unfolding quote
members st [] = []
members st ((k, v) ∷ fs) = (quote k ++ (st.key_separator ++ v)) ∷ members st fs

unfoldable mutual
  unfolding quote integer join members sort_fields

  pub dumps : Style → Json → String
  dumps st null = "null"
  dumps st (boolean true) = "true"
  dumps st (boolean false) = "false"
  dumps st (int n) = integer n
  dumps st (str s) = quote s
  dumps st (arr xs) = "[" ++ (join st.item_separator (dumps_items st xs) ++ "]")
  dumps st (obj fs) =
      let rendered = dumps_fields st fs in
      "{"
      ++ (join st.item_separator
            (members st (if st.sort_keys then sort_fields rendered else rendered))
          ++ "}")

  pub dumps_items : Style → Items → List String
  dumps_items st nil = []
  dumps_items st (cons x xs) = dumps st x ∷ dumps_items st xs

  pub dumps_fields : Style → Fields → List (String × String)
  dumps_fields st end = []
  dumps_fields st (field k v fs) = (k, dumps st v) ∷ dumps_fields st fs

-- `json.dumps(value, sort_keys=True)`
abbrev pub sorted_style : Style
sorted_style = record { item_separator = ", "; key_separator = ": "; sort_keys = true }

-- `json.dumps(value, sort_keys=True, separators=(",",":"))`
abbrev pub canonical_style : Style
canonical_style = record { item_separator = ","; key_separator = ":"; sort_keys = true }

-- `json.dumps(value, separators=(",",":"))`
abbrev pub compact_style : Style
compact_style = record { item_separator = ","; key_separator = ":"; sort_keys = false }
