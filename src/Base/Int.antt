-- ===== src/Base/Int.antt =====
-- The signed integers of C, `int` and `long`, without their bounds.
use Prim.Native.Nat.{ℕ, zero, suc, ◌<◌}
use mathlib.Core.Path.{◌≡◌, refl}
use mathlib.Core.Bool.{Bool, true, false}
use native.Mathlib.Omega.{arith}

-- `negsuc n` is -(n + 1).
pub data ℤ : Type 0 where
  pos : ℕ → ℤ
  negsuc : ℕ → ℤ

abbrev pub minus : ℕ → ℤ
minus zero = pos 0
minus (suc n) = negsuc n

abbrev pub magnitude : ℤ → ℕ
magnitude (pos n) = n
magnitude (negsuc n) = suc n

abbrev pub is_negative : ℤ → Bool
is_negative (pos n) = false
is_negative (negsuc n) = true

pub magnitude-minus : (n : ℕ) → magnitude (minus n) ≡ n
magnitude-minus zero = refl
magnitude-minus (suc n) = refl

pub minus_negative : (n : ℕ) → 0 < n → is_negative (minus n) ≡ true
minus_negative zero h = absurd (omega arith)
minus_negative (suc n) h = refl
