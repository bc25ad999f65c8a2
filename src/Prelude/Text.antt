-- ===== src/Prelude/Text.antt =====
-- Python's `str` methods that the program uses, over native texts.
use Prim.Native.Nat.{ℕ, zero, suc}
use Prim.Native.Char.{code}
use Prim.Native.String.{String, count, ◌++◌}
use mathlib.Core.Bool.{Bool, true, false, ◌&&◌, ◌||◌}
use text.Mathlib.Text.{starts_with}
use nix_ai.Prelude.Tests.{leb, beq}

-- `a + b` of two texts.
abbrev pub text_append : String → String → String
text_append s t = s ++ t

-- `text[k:]`
abbrev pub drop_text : ℕ → String → String
drop_text zero s = s
drop_text (suc k) String.[] = String.[]
drop_text (suc k) (String.◌∷◌ c s) = drop_text k s

-- `len(text)` counts code points.
abbrev pub text_len : String → ℕ
text_len s = count s

-- `all(p(c) for c in text)` on code points
abbrev pub all_text : (ℕ → Bool) → String → Bool
all_text p String.[] = true
all_text p (String.◌∷◌ c s) = p (code c) && all_text p s

abbrev pub is_lower_hex : ℕ → Bool
is_lower_hex c = leb b'0' c && leb c b'9' || leb b'a' c && leb c b'f'

-- `value.startswith("sha256:") and len(value)==71`
abbrev pub is_digest_text : String → Bool
is_digest_text s = starts_with s "sha256:" && beq (text_len s) 71

-- The same with `not any(character not in "0123456789abcdef" for character in value[7:])`.
abbrev pub is_canonical_digest : String → Bool
is_canonical_digest s = is_digest_text s && all_text is_lower_hex (drop_text 7 s)

-- An empty text is falsy.
abbrev pub is_empty_text : String → Bool
is_empty_text String.[] = true
is_empty_text (String.◌∷◌ _ _) = false
