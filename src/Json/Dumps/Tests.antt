-- ===== src/Json/Dumps/Tests.antt =====
-- A test of the printed form of `json.dumps`.

use nix_ai.Json.Dumps.{dumps, sorted_style}
use nix_ai.Json.{object, nat, array, str, null, boolean}
use nix_ai.Prelude.{◌∷◌, true, [], ◌≡◌, refl}

dumps_sorted :
    dumps sorted_style
      (object (("b", nat 120) ∷ ("a", array (str "x\n" ∷ null ∷ boolean true ∷ [])) ∷ []))
    ≡ "{\"a\": [\"x\\n\", null, true], \"b\": 120}"
unfolding dumps
dumps_sorted = refl
