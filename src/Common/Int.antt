-- ===== src/Common/Int.antt =====
-- Go's `int` where a value may be negative. `negsuc n` is -(n + 1).
use Prim.Native.Nat.{ℕ}
use mathlib.Core.Bool.{Bool, true, false}
use webhook_ui.Common.Tests.{ltb}

pub data ℤ : Type 0 where
  pos : ℕ → ℤ
  negsuc : ℕ → ℤ

-- x < n, for a number n.
abbrev pub is_below : ℤ → ℕ → Bool
is_below (pos x) n = ltb x n
is_below (negsuc x) n = true

-- n < x, for a number n.
abbrev pub is_above : ℤ → ℕ → Bool
is_above (pos x) n = ltb n x
is_above (negsuc x) n = false

-- The number that stands at or above 0.
abbrev pub to_nat : ℤ → ℕ
to_nat (pos x) = x
to_nat (negsuc x) = 0
