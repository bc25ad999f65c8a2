-- ===== src/Json/Int.antt =====
-- Python's integers.
use nix_ai.Prelude.{ℕ, Bool, true, false, leb}

-- `negsuc n` is -(n + 1).
pub data ℤ : Type 0 where
  pos : ℕ → ℤ
  negsuc : ℕ → ℤ

-- `low <= value <= high` for bounds that are not negative; the value is handed on as a natural.
abbrev pub in_range : ℕ → ℕ → ℤ → Bool
in_range low high (pos n) = elim (leb low n) [ true ↦ leb n high | false ↦ false ]
in_range low high (negsuc n) = false

abbrev pub to_ℕ : ℤ → ℕ
to_ℕ (pos n) = n
to_ℕ (negsuc _) = 0

abbrev pub is_negative : ℤ → Bool
is_negative (pos _) = false
is_negative (negsuc _) = true
