-- ===== src/Base/Int.antt =====
-- Signed integers of the source, as far as it compares and converts them.
use Prim.Native.Nat.{ℕ, ◌-◌, ◌%◌, ◌^◌}
use mathlib.Core.Bool.{Bool, false}
use wisp_esp.Base.Tests.{ltb, ◌==◌}

-- `negsuc n` is -(n + 1).
pub data ℤ : Type 0 where
  pos : ℕ → ℤ
  negsuc : ℕ → ℤ

-- `x > 0`
abbrev pub is_pos : ℤ → Bool
is_pos (pos n) = ltb 0 n
is_pos (negsuc n) = false

-- The cast to an unsigned word of `2 ^ w` values.
abbrev pub wrap : ℕ → ℤ → ℕ
wrap w (pos n) = n % 2 ^ w
wrap w (negsuc n) = 2 ^ w - 1 - n % 2 ^ w

-- `a == b`, where `b` is a `uint16_t`.
abbrev pub eq_ℕ : ℤ → ℕ → Bool
eq_ℕ (pos a) b = a == b
eq_ℕ (negsuc a) b = false
